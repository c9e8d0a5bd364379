-- ===== src/Operators/StatefulMap/Records.antt =====
-- malstrom-core/src/operators/stateful_op.rs: the records of one key in a stream, and the place of a key in
-- the map of states.
use malstrom.Base.{
  Option, none, some, List, [], ◌∷◌, ◌++◌, ◌≡◌, ◌≢◌, refl, sym, ap, ◌∙◌, ite, if_pos, if_neg,
}
use malstrom.Base.IndexMap
use malstrom.Base.IndexMap.{
  IndexMap, get-insert, get-swap_remove, insert-Distinct, swap_remove-Distinct,
}
use malstrom.Types.{
  DataMessage, Message, data_record, epoch, abs_barrier, rescale, suspend_marker, interrogate,
  collect, acquire,
}

module _ {K : Type 0} (dec : Discrete K) where
  -- The records of a key.
  abbrev pub of_key : {V T : Type 0} → K → List (Message K V T) → List (DataMessage K V T)
  of_key k [] = []
  of_key k (data_record d ∷ ms) = ite (dec d.key k) (d ∷ of_key k ms) (of_key k ms)
  of_key k (_ ∷ ms) = of_key k ms

  pub of_key-append :
      {V T : Type 0} (k : K) (xs ys : List (Message K V T))
      → of_key k (xs ++ ys) ≡ of_key k xs ++ of_key k ys
  of_key-append k [] ys = refl
  of_key-append k (data_record d ∷ xs) ys = elim (dec d.key k) [
    | yes e ↦
        if_pos (dec d.key k) e _ _
        ∙ ap (λ l. d ∷ l) (of_key-append k xs ys)
        ∙ ap (λ l. l ++ of_key k ys) (sym (if_pos (dec d.key k) e (d ∷ of_key k xs) (of_key k xs)))
    | no e ↦
        if_neg (dec d.key k) e _ _
        ∙ of_key-append k xs ys
        ∙ ap (λ l. l ++ of_key k ys) (sym (if_neg (dec d.key k) e (d ∷ of_key k xs) (of_key k xs)))
  ]
  of_key-append k (epoch e ∷ xs) ys = of_key-append k xs ys
  of_key-append k (abs_barrier e ∷ xs) ys = of_key-append k xs ys
  of_key-append k (rescale e ∷ xs) ys = of_key-append k xs ys
  of_key-append k (suspend_marker e ∷ xs) ys = of_key-append k xs ys
  of_key-append k (interrogate e ∷ xs) ys = of_key-append k xs ys
  of_key-append k (collect e ∷ xs) ys = of_key-append k xs ys
  of_key-append k (acquire e ∷ xs) ys = of_key-append k xs ys

  -- The state of the key neither leaves nor arrives.
  abbrev pub StaysPut : {V T : Type 0} → K → List (Message K V T) → Type 0
  StaysPut k [] = Unit
  StaysPut k (collect c ∷ ms) = (c.key ≢ k) × StaysPut k ms
  StaysPut k (acquire a ∷ ms) = (a.key ≢ k) × StaysPut k ms
  StaysPut k (_ ∷ ms) = StaysPut k ms

  pub StaysPut-split :
      {V T : Type 0} (k : K) (m : Message K V T) (ms : List (Message K V T))
      → StaysPut k (m ∷ ms)
      → StaysPut k (m ∷ []) × StaysPut k ms
  StaysPut-split k (data_record x) ms h = (tt, h)
  StaysPut-split k (epoch x) ms h = (tt, h)
  StaysPut-split k (abs_barrier x) ms h = (tt, h)
  StaysPut-split k (rescale x) ms h = (tt, h)
  StaysPut-split k (suspend_marker x) ms h = (tt, h)
  StaysPut-split k (interrogate x) ms h = (tt, h)
  StaysPut-split k (collect x) ms h = ((h.0, tt), h.1)
  StaysPut-split k (acquire x) ms h = ((h.0, tt), h.1)

  module _ {S : Type 0} where
    -- What becomes of the map when a message of the key `j` is answered with a new state.
    abbrev pub stored : K → Option S → IndexMap K S → IndexMap K S
    stored j new m = elim new [
      | none ↦ IndexMap.swap_remove dec j m
      | some n ↦ IndexMap.insert dec j n (IndexMap.swap_remove dec j m)
    ]

    pub get-stored :
        (j k : K) (new : Option S) (m : IndexMap K S)
        → IndexMap.Distinct dec m
        → IndexMap.get dec k (stored j new m) ≡ ite (dec j k) new (IndexMap.get dec k m)
    get-stored j k none m d = get-swap_remove dec j k m d
    get-stored j k (some n) m d = elim (dec j k) [
      | yes e ↦
          get-insert dec j k n (IndexMap.swap_remove dec j m)
          ∙ if_pos (dec j k) e _ _
          ∙ sym (if_pos (dec j k) e (some n) (IndexMap.get dec k m))
      | no e ↦
          get-insert dec j k n (IndexMap.swap_remove dec j m)
          ∙ if_neg (dec j k) e _ _
          ∙ get-swap_remove dec j k m d
          ∙ if_neg (dec j k) e _ _
          ∙ sym (if_neg (dec j k) e (some n) (IndexMap.get dec k m))
    ]

    pub stored-Distinct :
        (j : K) (new : Option S) (m : IndexMap K S)
        → IndexMap.Distinct dec m
        → IndexMap.Distinct dec (stored j new m)
    stored-Distinct j none m d = swap_remove-Distinct dec j m d
    stored-Distinct j (some n) m d =
        insert-Distinct dec j n (IndexMap.swap_remove dec j m) (swap_remove-Distinct dec j m d)

    -- The key has what it had, in a map where no key stands twice.
    unfoldable pub Keeps : K → IndexMap K S → IndexMap K S → Type 0
    Keeps k m m' = IndexMap.Distinct dec m' × (IndexMap.get dec k m' ≡ IndexMap.get dec k m)
