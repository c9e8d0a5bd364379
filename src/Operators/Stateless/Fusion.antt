-- ===== src/Operators/Stateless/Fusion.antt =====
-- malstrom-core/src/operators: one stateless operator behind another.
use malstrom.Base.{
  Bool, Option, none, some, List, [], ◌∷◌, ◌++◌, append_assoc, append-nil, ◌≡◌, refl, ◌∙◌,
  if◌then◌else◌, Bool-cases, inl, inr,
}
use malstrom.Types.{
  Message, data_record, epoch, abs_barrier, rescale, suspend_marker, interrogate, collect, acquire,
}
use malstrom.Operators.Stateless.{
  StatelessLogic, handle, process, map_logic, filter_map_logic, filter_logic,
}

module _ {L K VI T VO : Type 0} (logic : StatelessLogic L K VI T VO) where
  pub process-append :
      (xs ys : List (Message K VI T)) (l : L)
      → process logic (xs ++ ys) l ≡ (
        (process logic ys (process logic xs l).0).0,
        (process logic xs l).1 ++ (process logic ys (process logic xs l).0).1,
      )
  unfolding process
  process-append [] ys l = refl
  process-append (x ∷ xs) ys l = simp (process-append xs ys, append_assoc)

module _ {L M K VI T V VO : Type 0} (first : StatelessLogic L K VI T V)
    (second : StatelessLogic M K V T VO) where
  -- Two stateless operators in a row, as one.
  abbrev pub compose : StatelessLogic (L × M) K VI T VO
  compose = record {
    on_data = λ s d.
        let (l, sent) = first.on_data s.0 d in
        let (m, out) = process second sent s.1 in ((l, m), out);
    on_epoch = λ s e.
        let (l, sent) = first.on_epoch s.0 e in
        let (m, out) = process second sent s.1 in
        let (m', more) = second.on_epoch m e in ((l, m'), out ++ more);
  }

  handle-compose :
      (x : Message K VI T) (l : L) (m : M)
      → handle compose x (l, m) ≡ (
        ((handle first x l).0, (process second (handle first x l).1 m).0),
        (process second (handle first x l).1 m).1,
      )
  unfolding handle process
  handle-compose (data_record d) l m = refl
  handle-compose (interrogate x) l m = refl
  handle-compose (collect x) l m = refl
  handle-compose (acquire x) l m = refl
  handle-compose (abs_barrier x) l m = refl
  handle-compose (rescale x) l m = refl
  handle-compose (suspend_marker x) l m = refl
  handle-compose (epoch e) l m =
      rw (process-append second (first.on_epoch l e).1 (epoch e ∷ []) m)
        (simp (append-nil, append_assoc))

  -- Two stateless operators in a row do what one operator does that hands each message through both.
  pub process-compose :
      (xs : List (Message K VI T)) (l : L) (m : M)
      → process compose xs (l, m) ≡ (
        ((process first xs l).0, (process second (process first xs l).1 m).0),
        (process second (process first xs l).1 m).1,
      )
  unfolding process
  process-compose [] l m = refl
  process-compose (x ∷ xs) l m = rw (handle-compose x l m) (
      rw (process-append second (handle first x l).1 (process first xs (handle first x l).0).1 m) (
        rw (process-compose xs (handle first x l).0 (process second (handle first x l).1 m).0)
          refl))

module _ {L K VI T VO : Type 0} (one two : StatelessLogic L K VI T VO)
    (same : (x : Message K VI T) (l : L) → handle one x l ≡ handle two x l) where
  process-same : (xs : List (Message K VI T)) (l : L) → process one xs l ≡ process two xs l
  unfolding process
  process-same [] l = refl
  process-same (x ∷ xs) l = rw (same x l) (rw (process-same xs (handle two x l).0) refl)

-- The test and the mapper as one closure.
abbrev pub keep_mapped :
    {L M V VO : Type 0} → (L → V → L × Bool) → (M → V → M × VO) → (L × M) → V → (L × M) × Option VO
keep_mapped keep mapper s v =
    if (keep s.0 v).1
    then (((keep s.0 v).0, (mapper s.1 v).0), some (mapper s.1 v).1)
    else (((keep s.0 v).0, s.1), none)

module _ {L M K V T VO : Type 0} (keep : L → V → L × Bool) (mapper : M → V → M × VO) where
  kept-same :
      (x : Message K V T) (s : L × M)
      → handle (filter_map_logic (keep_mapped keep mapper)) x s
        ≡ handle (compose (filter_logic keep) (map_logic mapper)) x s
  unfolding handle process
  kept-same (data_record d) s = elim (Bool-cases (keep s.0 d.value).1) [
    | inl e ↦ rw e refl
    | inr e ↦ rw e refl
  ]
  kept-same (interrogate x) s = refl
  kept-same (collect x) s = refl
  kept-same (acquire x) s = refl
  kept-same (abs_barrier x) s = refl
  kept-same (rescale x) s = refl
  kept-same (suspend_marker x) s = refl
  kept-same (epoch e) s = refl

  -- `filter_map` is `filter` with `map` behind it: on any messages, system messages and epochs
  -- included, both send the same in the same order, and leave the closures in the same states.
  pub filter_map-fused :
      (xs : List (Message K V T)) (l : L) (m : M)
      → process (filter_map_logic (keep_mapped keep mapper)) xs (l, m) ≡ (
        (
          (process (filter_logic keep) xs l).0,
          (process (map_logic mapper) (process (filter_logic keep) xs l).1 m).0,
        ),
        (process (map_logic mapper) (process (filter_logic keep) xs l).1 m).1,
      )
  filter_map-fused xs l m =
      process-same (filter_map_logic (keep_mapped keep mapper))
        (compose (filter_logic keep) (map_logic mapper)) kept-same xs (l, m)
      ∙ process-compose (filter_logic keep) (map_logic mapper) xs l m
