-- ===== src/Sources/Stateful/Marks.antt =====
-- malstrom-core/src/sources/stateful.rs: what a worker knows of finished partitions, and what a turn
-- of the source may send.
use malstrom.Base.{
  Bool, true, Option, none, some, List, [], ◌∷◌, ◌++◌, all, All, ◌≡◌, ◌≢◌, ◌∙◌, arith, ◌⊎◌,
}
use malstrom.Base.IndexMap
use malstrom.Base.IndexMap.{IndexMap, keys, values, get-modify_self, get-modify_ne}
use malstrom.Types.{
  Message, data_record, epoch, abs_barrier, rescale, suspend_marker, interrogate, collect, acquire,
}

module _ {Part V T : Type 0} where
  -- No record and no epoch.
  abbrev pub IsClosed : List (Message Part V T) → Type 0
  IsClosed [] = Unit
  IsClosed (data_record d ∷ ms) = ⊥
  IsClosed (epoch e ∷ ms) = ⊥
  IsClosed (_ ∷ ms) = IsClosed ms

  -- No epoch.
  abbrev pub IsOpen : List (Message Part V T) → Type 0
  IsOpen [] = Unit
  IsOpen (epoch e ∷ ms) = ⊥
  IsOpen (_ ∷ ms) = IsOpen ms

  -- One epoch, the maximal one, and no record behind it.
  abbrev pub EndsAt : T → List (Message Part V T) → Type 0
  EndsAt max [] = ⊥
  EndsAt max (epoch e ∷ ms) = (e ≡ max) × IsClosed ms
  EndsAt max (_ ∷ ms) = EndsAt max ms

  -- What was sent between two states of `max_t`.
  abbrev pub Said : Option T → Option T → List (Message Part V T) → Type 0
  Said none none ms = IsClosed ms
  Said none (some t) ms = ⊥
  Said (some max) none ms = EndsAt max ms
  Said (some max) (some t) ms = (t ≡ max) × IsOpen ms

  IsClosed-append :
      (xs ys : List (Message Part V T)) → IsClosed xs → IsClosed ys → IsClosed (xs ++ ys)
  IsClosed-append [] ys h k = k
  IsClosed-append (data_record d ∷ xs) ys h k = absurd h
  IsClosed-append (epoch e ∷ xs) ys h k = absurd h
  IsClosed-append (abs_barrier x ∷ xs) ys h k = IsClosed-append xs ys h k
  IsClosed-append (rescale x ∷ xs) ys h k = IsClosed-append xs ys h k
  IsClosed-append (suspend_marker x ∷ xs) ys h k = IsClosed-append xs ys h k
  IsClosed-append (interrogate x ∷ xs) ys h k = IsClosed-append xs ys h k
  IsClosed-append (collect x ∷ xs) ys h k = IsClosed-append xs ys h k
  IsClosed-append (acquire x ∷ xs) ys h k = IsClosed-append xs ys h k

  pub IsOpen-append : (xs ys : List (Message Part V T)) → IsOpen xs → IsOpen ys → IsOpen (xs ++ ys)
  IsOpen-append [] ys h k = k
  IsOpen-append (epoch e ∷ xs) ys h k = absurd h
  IsOpen-append (data_record d ∷ xs) ys h k = IsOpen-append xs ys h k
  IsOpen-append (abs_barrier x ∷ xs) ys h k = IsOpen-append xs ys h k
  IsOpen-append (rescale x ∷ xs) ys h k = IsOpen-append xs ys h k
  IsOpen-append (suspend_marker x ∷ xs) ys h k = IsOpen-append xs ys h k
  IsOpen-append (interrogate x ∷ xs) ys h k = IsOpen-append xs ys h k
  IsOpen-append (collect x ∷ xs) ys h k = IsOpen-append xs ys h k
  IsOpen-append (acquire x ∷ xs) ys h k = IsOpen-append xs ys h k

  pub EndsAt-append_left :
      (max : T) (xs ys : List (Message Part V T))
      → EndsAt max xs
      → IsClosed ys
      → EndsAt max (xs ++ ys)
  EndsAt-append_left max [] ys h k = absurd h
  EndsAt-append_left max (epoch e ∷ xs) ys h k = (h.0, IsClosed-append xs ys h.1 k)
  EndsAt-append_left max (data_record d ∷ xs) ys h k = EndsAt-append_left max xs ys h k
  EndsAt-append_left max (abs_barrier x ∷ xs) ys h k = EndsAt-append_left max xs ys h k
  EndsAt-append_left max (rescale x ∷ xs) ys h k = EndsAt-append_left max xs ys h k
  EndsAt-append_left max (suspend_marker x ∷ xs) ys h k = EndsAt-append_left max xs ys h k
  EndsAt-append_left max (interrogate x ∷ xs) ys h k = EndsAt-append_left max xs ys h k
  EndsAt-append_left max (collect x ∷ xs) ys h k = EndsAt-append_left max xs ys h k
  EndsAt-append_left max (acquire x ∷ xs) ys h k = EndsAt-append_left max xs ys h k

  pub EndsAt-append_right :
      (max : T) (xs ys : List (Message Part V T))
      → IsOpen xs
      → EndsAt max ys
      → EndsAt max (xs ++ ys)
  EndsAt-append_right max [] ys h k = k
  EndsAt-append_right max (epoch e ∷ xs) ys h k = absurd h
  EndsAt-append_right max (data_record d ∷ xs) ys h k = EndsAt-append_right max xs ys h k
  EndsAt-append_right max (abs_barrier x ∷ xs) ys h k = EndsAt-append_right max xs ys h k
  EndsAt-append_right max (rescale x ∷ xs) ys h k = EndsAt-append_right max xs ys h k
  EndsAt-append_right max (suspend_marker x ∷ xs) ys h k = EndsAt-append_right max xs ys h k
  EndsAt-append_right max (interrogate x ∷ xs) ys h k = EndsAt-append_right max xs ys h k
  EndsAt-append_right max (collect x ∷ xs) ys h k = EndsAt-append_right max xs ys h k
  EndsAt-append_right max (acquire x ∷ xs) ys h k = EndsAt-append_right max xs ys h k

  -- What two stretches of work have said, one after the other.
  pub Said-append :
      (a b c : Option T) (xs ys : List (Message Part V T))
      → Said a b xs
      → Said b c ys
      → Said a c (xs ++ ys)
  Said-append none none none xs ys h k = IsClosed-append xs ys h k
  Said-append none none (some t) xs ys h k = k
  Said-append none (some u) c xs ys h k = absurd h
  Said-append (some max) none none xs ys h k = EndsAt-append_left max xs ys h k
  Said-append (some max) none (some t) xs ys h k = absurd k
  Said-append (some max) (some u) none xs ys h k = EndsAt-append_right max xs ys h.1 (rw (← h.0) k)
  Said-append (some max) (some u) (some t) xs ys h k = (k.0 ∙ h.0, IsOpen-append xs ys h.1 k.1)

module _ {Part : Type 0} (dec : Discrete Part) where
  -- Every part that is marked at all is marked as finished.
  abbrev pub AllDone : IndexMap Part Bool → Type 0
  AllDone marks = (j : Part) (b : Bool) → IndexMap.get dec j marks ≡ some b → b ≡ true

  abbrev pub Unique : List Part → Type 0
  Unique [] = Unit
  Unique (k ∷ ks) = All (λ j. k ≢ j) ks × Unique ks

  pub all-values-AllDone :
      (marks : IndexMap Part Bool) → all (λ b. b) (values marks) ≡ true → AllDone marks
  unfolding IndexMap.get
  all-values-AllDone [] h j b e = cc
  all-values-AllDone ((k, v) ∷ marks) h j b e = ground (
    arith,
    h,
    e,
    λ (q : all (λ b. b) (values marks) ≡ true) (e' : IndexMap.get dec j marks ≡ some b).
        all-values-AllDone marks q j b e',
  )

  -- A mark only turns true.
  pub get-mark :
      (part j : Part) (marks : IndexMap Part Bool) (b : Bool)
      → IndexMap.get dec j (IndexMap.modify dec part (λ _. true) marks) ≡ some b
      → (b ≡ true) ⊎ (IndexMap.get dec j marks ≡ some b)
  unfolding IndexMap.get IndexMap.modify
  get-mark part j [] b h = cc
  get-mark part j ((k, v) ∷ marks) b h = ground (arith, h, get-mark part j marks b)
