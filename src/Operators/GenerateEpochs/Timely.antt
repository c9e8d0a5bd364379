-- ===== src/Operators/GenerateEpochs/Timely.antt =====
-- malstrom-core/src/operators/time/generate_epochs.rs: epochs rise, and no message is called on time
-- that is behind one.
use malstrom.Base.{
  Bool, true, false, Option, none, some, List, [], ◌∷◌, ◌++◌, ◌≡◌, refl, Bool-cases, inl, inr,
  if◌then◌else◌,
}
use malstrom.Types.{
  OperatorId, DataMessage, Message, data_record, epoch, abs_barrier, rescale, suspend_marker,
  interrogate, collect, acquire,
}
use malstrom.Types.Time.{MaybeTime}
use malstrom.Operators.GenerateEpochs.{
  OnTimeLate, on_time, late, EpochState, is_below, next_epoch, handle_maybe_late_msg, sent_epoch,
  handle_message, handle_messages,
}

module _ {V T : Type 0} ⦃t : MaybeTime T⦄ where
  -- On time: above the last epoch, if there is one. Late: not above it.
  abbrev pub Fits : Option T → OnTimeLate V → T → Type 0
  Fits prev (on_time v) ts = is_below prev ts ≡ true
  Fits prev (late v) ts = is_below prev ts ≡ false

  late-Fits :
      (prev : Option T) (v : V) (ts : T)
      → Fits prev (if is_below prev ts then on_time v else late v) ts
  late-Fits prev v ts = elim (Bool-cases (is_below prev ts)) [ inl e ↦ rw e e | inr e ↦ rw e e ]

-- The two outcomes of a comparison with the last epoch.
abbrev raised : {T : Type 0} → Bool → T → T → Option T × Option T
raised b x y = if b then (some x, some x) else (some y, none)

module _ {K V T : Type 0} ⦃t : MaybeTime T⦄ where
  -- Each epoch is above the one before, and each message fits the last epoch before it.
  abbrev pub IsTimely : Option T → List (Message K (OnTimeLate V) T) → Type 0
  IsTimely prev [] = Unit
  IsTimely prev (epoch e ∷ ms) = (is_below prev e ≡ true) × IsTimely (some e) ms
  IsTimely prev (data_record d ∷ ms) = Fits prev d.value d.timestamp × IsTimely prev ms
  IsTimely prev (_ ∷ ms) = IsTimely prev ms

  chosen :
      (b : Bool) (x y : T) (ms : List (Message K (OnTimeLate V) T))
      → t.lt y x ≡ b
      → IsTimely (raised b x y).0 ms
      → IsTimely (some y) (sent_epoch (raised b x y).1 ++ ms)
  chosen true x y ms e h = (e, h)
  chosen false x y ms e h = h

  next_epoch-IsTimely :
      (new prev : Option T) (ms : List (Message K (OnTimeLate V) T))
      → IsTimely (next_epoch new prev).0 ms
      → IsTimely prev (sent_epoch (next_epoch new prev).1 ++ ms)
  unfolding next_epoch
  next_epoch-IsTimely none prev ms h = h
  next_epoch-IsTimely (some x) none ms h = (refl, h)
  next_epoch-IsTimely (some x) (some y) ms h = chosen (t.lt y x) x y ms refl h

module _ {L K V T : Type 0} ⦃t : MaybeTime T⦄
    (gen : L → DataMessage K V T → Option T → L × Option T) (operator_id : OperatorId) where
  abbrev forwarded : Bool → T → EpochState L T → List (Message K (OnTimeLate V) T) × EpochState L T
  forwarded b e s = if b then (epoch e ∷ [], record s { prev_epoch = some e }) else ([], s)

  passed :
      (e : T) (ms : List (Message K V T)) (s : EpochState L T) (b : Bool)
      → is_below s.prev_epoch e ≡ b
      → IsTimely (some e) (handle_messages gen operator_id ms (record s { prev_epoch = some e })).0
      → IsTimely s.prev_epoch (handle_messages gen operator_id ms s).0
      → IsTimely s.prev_epoch
          ((forwarded b e s).0 ++ (handle_messages gen operator_id ms (forwarded b e s).1).0)
  passed e ms s true h above same = (h, above)
  passed e ms s false h above same = same

  -- Whatever the generator does and whatever arrives, each epoch that the operator sends is above the
  -- last one before it, the one its state holds included, and a message is marked on time if it is
  -- above that last epoch or there is none, and late otherwise.
  pub handle_messages-IsTimely :
      (ms : List (Message K V T)) (s : EpochState L T)
      → IsTimely s.prev_epoch (handle_messages gen operator_id ms s).0
  unfolding handle_messages handle_message handle_maybe_late_msg
  handle_messages-IsTimely [] s = tt
  handle_messages-IsTimely (data_record d ∷ ms) s = (
    late-Fits s.prev_epoch d.value d.timestamp,
    next_epoch-IsTimely (gen s.generator d s.prev_epoch).1 s.prev_epoch _
        (handle_messages-IsTimely ms (handle_message gen operator_id (data_record d) s).1),
  )
  handle_messages-IsTimely (epoch e ∷ ms) s =
      passed e ms s (is_below s.prev_epoch e) refl
        (handle_messages-IsTimely ms (record s { prev_epoch = some e }))
        (handle_messages-IsTimely ms s)
  handle_messages-IsTimely (abs_barrier b ∷ ms) s =
      handle_messages-IsTimely ms (handle_message gen operator_id (abs_barrier b) s).1
  handle_messages-IsTimely (interrogate x ∷ ms) s = handle_messages-IsTimely ms s
  handle_messages-IsTimely (collect x ∷ ms) s = handle_messages-IsTimely ms s
  handle_messages-IsTimely (acquire x ∷ ms) s = handle_messages-IsTimely ms s
  handle_messages-IsTimely (rescale x ∷ ms) s = handle_messages-IsTimely ms s
  handle_messages-IsTimely (suspend_marker x ∷ ms) s = handle_messages-IsTimely ms s
