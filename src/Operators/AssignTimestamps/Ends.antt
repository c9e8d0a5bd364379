-- ===== src/Operators/AssignTimestamps/Ends.antt =====
-- malstrom-core/src/operators/time/assign_timestamps.rs with time/generate_epochs.rs behind it: what is
-- left to come after the greatest epoch.
use malstrom.Base.{
  Bool, true, false, Option, none, some, List, [], ◌∷◌, ◌++◌, ◌≡◌, refl, Bool-cases, inl, inr,
  append_assoc,
}
use malstrom.Types.{
  OperatorId, DataMessage, Message, data_record, epoch, abs_barrier, rescale, suspend_marker,
  interrogate, collect, acquire,
}
use malstrom.Types.Time.{MaybeTime, IsTimestamp}
use malstrom.Operators.GenerateEpochs.{
  OnTimeLate, on_time, late, EpochState, is_below, next_epoch, handle_maybe_late_msg,
  handle_message, handle_messages,
}
use malstrom.Operators.AssignTimestamps.{assign, assign_all}

module _ {T : Type 0} ⦃t : MaybeTime T⦄ where
  -- Nothing is above the last epoch.
  abbrev pub IsOver : Option T → Type 0
  IsOver prev = (x : T) → is_below prev x ≡ false

-- Records that are late, and messages that are no epochs.
abbrev pub OnlyLate : {K V T : Type 0} → List (Message K (OnTimeLate V) T) → Type 0
OnlyLate [] = Unit
OnlyLate (data_record d ∷ ms) = elim d.value [ on_time v ↦ ⊥ | late v ↦ OnlyLate ms ]
OnlyLate (epoch e ∷ ms) = ⊥
OnlyLate (_ ∷ ms) = OnlyLate ms

module _ {L K V T : Type 0} ⦃t : MaybeTime T⦄
    (gen : L → DataMessage K V T → Option T → L × Option T) (operator_id : OperatorId) where
  handle_messages-append :
      (xs ys : List (Message K V T)) (s : EpochState L T)
      → (handle_messages gen operator_id (xs ++ ys) s).1
        ≡ (handle_messages gen operator_id ys (handle_messages gen operator_id xs s).1).1
  unfolding handle_messages
  handle_messages-append [] ys s = refl
  handle_messages-append (x ∷ xs) ys s =
      handle_messages-append xs ys (handle_message gen operator_id x s).1

  next_epoch-over : (new prev : Option T) → IsOver prev → next_epoch new prev ≡ (prev, none)
  unfolding next_epoch
  next_epoch-over none prev over = refl
  next_epoch-over (some x) none over = let h : true ≡ false = over x in cc
  next_epoch-over (some x) (some y) over = rw (over x) refl

  over-OnlyLate :
      (ms : List (Message K V T)) (s : EpochState L T)
      → IsOver s.prev_epoch
      → OnlyLate (handle_messages gen operator_id ms s).0
  unfolding handle_messages handle_message handle_maybe_late_msg
  over-OnlyLate [] s over = tt
  over-OnlyLate (data_record d ∷ ms) s over = rw (over d.timestamp) (
      rw (next_epoch-over (gen s.generator d s.prev_epoch).1 s.prev_epoch over)
        (over-OnlyLate ms (record s { generator = (gen s.generator d s.prev_epoch).0 }) over))
  over-OnlyLate (epoch e ∷ ms) s over = rw (over e) (over-OnlyLate ms s over)
  over-OnlyLate (abs_barrier b ∷ ms) s over =
      over-OnlyLate ms (handle_message gen operator_id (abs_barrier b) s).1 over
  over-OnlyLate (interrogate x ∷ ms) s over = over-OnlyLate ms s over
  over-OnlyLate (collect x ∷ ms) s over = over-OnlyLate ms s over
  over-OnlyLate (acquire x ∷ ms) s over = over-OnlyLate ms s over
  over-OnlyLate (rescale x ∷ ms) s over = over-OnlyLate ms s over
  over-OnlyLate (suspend_marker x ∷ ms) s over = over-OnlyLate ms s over

  stays-IsOver :
      (max : T) (prev : Option T)
      → IsTimestamp t
      → ((x : T) → t.lt max x ≡ false)
      → is_below prev max ≡ false
      → IsOver prev
  stays-IsOver max none law greatest h = let h' : true ≡ false = h in cc
  stays-IsOver max (some y) law greatest h = λ x. law.not-lt_trans x max y (greatest x) h

  epoch-IsOver :
      (max : T) (s : EpochState L T)
      → IsTimestamp t
      → ((x : T) → t.lt max x ≡ false)
      → IsOver (handle_messages gen operator_id (epoch max ∷ []) s).1.prev_epoch
  unfolding handle_messages handle_message
  epoch-IsOver max s law greatest = elim (Bool-cases (is_below s.prev_epoch max)) [
    | inl above ↦ rw above greatest
    | inr same ↦ rw same (stays-IsOver max s.prev_epoch law greatest same)
  ]

module _ {L M K V T TO : Type 0} ⦃t : MaybeTime TO⦄ (assigner : M → DataMessage K V T → M × TO)
    (is_max : T → Bool) (max : TO) (gen : L → DataMessage K V TO → Option TO → L × Option TO)
    (operator_id : OperatorId) where
  assign_all-append :
      (xs ys : List (Message K V T)) (m : M)
      → assign_all assigner is_max max (xs ++ ys) m ≡ (
        (assign_all assigner is_max max ys (assign_all assigner is_max max xs m).0).0,
        (assign_all assigner is_max max xs m).1
            ++ (assign_all assigner is_max max ys (assign_all assigner is_max max xs m).0).1,
      )
  unfolding assign_all
  assign_all-append [] ys m = refl
  assign_all-append (x ∷ xs) ys m =
      rw (assign_all-append xs ys (assign assigner is_max max x m).0) (simp (append_assoc))

  -- The greatest epoch of a stream ends it, new timestamps or not: when it has come to the operator that
  -- assigns them, the operator behind it that generates epochs sends no epoch any more, and calls every
  -- record late, whatever comes, whatever the assigner and the generator do, and whatever came before.
  -- Timestamps are linearly ordered, and the greatest is above none of them.
  pub assign_all-OnlyLate :
      (before : List (Message K V T)) (end : T) (after : List (Message K V T)) (m : M)
      (s : EpochState L TO)
      → IsTimestamp t
      → ((x : TO) → t.lt max x ≡ false)
      → is_max end ≡ true
      → let (m', sent) = assign_all assigner is_max max (before ++ epoch end ∷ []) m in
        OnlyLate
          (handle_messages gen operator_id
            (assign_all assigner is_max max after m').1
            (handle_messages gen operator_id sent s).1).0
  unfolding assign_all assign
  assign_all-OnlyLate before end after m s law greatest last = over-OnlyLate gen operator_id _ _ (
      rw (assign_all-append before (epoch end ∷ []) m) (
        rw last (
          rw
            (handle_messages-append gen operator_id (assign_all assigner is_max max before m).1
              (epoch max ∷ []) s)
            (epoch-IsOver gen operator_id max
              (handle_messages gen operator_id (assign_all assigner is_max max before m).1 s).1 law
              greatest))))
