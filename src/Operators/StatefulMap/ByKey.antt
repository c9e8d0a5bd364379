-- ===== src/Operators/StatefulMap/ByKey.antt =====
-- malstrom-core/src/operators/stateful_map.rs: each key has a course of its own.
use malstrom.Base.{
  Option, none, some, List, [], ◌∷◌, ◌++◌, ◌≡◌, ◌≢◌, refl, sym, ap, ◌∙◌, if_pos, if_neg,
}
use malstrom.Base.IndexMap
use malstrom.Base.IndexMap.{
  IndexMap, get-insert, get-swap_remove, insert-Distinct, swap_remove-Distinct,
}
use malstrom.Types.{
  OperatorId, Collect, DataMessage, Message, data_record, epoch, abs_barrier, rescale,
  suspend_marker, interrogate, collect, acquire,
}
use malstrom.Keyed.Types.{Bytes, take_state, add_state, collection_at}
use native.Mathlib.Decide.{ℕ_discrete}
use malstrom.Operators.StatefulOp.{OpState, handle_message, or_default}
use malstrom.Operators.StatefulMap.{mapper_logic, handle_each}
use malstrom.Operators.StatefulMap.Records.{
  of_key, of_key-append, StaysPut, StaysPut-split, get-stored, stored-Distinct, Keeps,
}

-- The mapper as a closure that keeps nothing outside the states of the keys.
abbrev pub keeping_nothing :
    {L K VI VO S : Type 0} → (K → VI → S → VO × Option S) → L → K → VI → S → L × VO × Option S
keeping_nothing mapper l k v s = (l, (mapper k v s).0, (mapper k v s).1)

module _ {K VI VO T S : Type 0} (default : S) (mapper : K → VI → S → VO × Option S) where
  -- The records of one key through the mapper, each with the state that the one before has left.
  abbrev pub follow : List (DataMessage K VI T) → Option S → List (DataMessage K VO T) × Option S
  follow [] s = ([], s)
  follow (d ∷ ds) s =
      let (v, s') = mapper d.key d.value (or_default default s) in
      let (sent, last) = follow ds s' in
      (record { key = d.key; value = v; timestamp = d.timestamp } ∷ sent, last)

  follow-append :
      (xs ys : List (DataMessage K VI T)) (s : Option S)
      → follow (xs ++ ys) s
        ≡ ((follow xs s).0 ++ (follow ys (follow xs s).1).0, (follow ys (follow xs s).1).1)
  follow-append [] ys s = refl
  follow-append (x ∷ xs) ys s =
      rw (follow-append xs ys (mapper x.key x.value (or_default default s)).1) refl

module _ {L K S : Type 0} (dec : Discrete K) (encode : S → Bytes) (operator_id : OperatorId) where
  collected-Keeps :
      (k : K) (c : Collect K) (o : OpState L K S)
      → IndexMap.Distinct dec o.state
      → c.key ≢ k
      → (r : Option S)
      → Keeps dec k o.state
          (elim r as (λ r. OpState L K S) [
            | none ↦ o
            | some s ↦ record o {
              state = IndexMap.swap_remove dec c.key o.state;
              heap = add_state encode c operator_id s o.heap;
            }
          ]).state
  unfolding Keeps
  collected-Keeps k c o d other none = (d, refl)
  collected-Keeps k c o d other (some s) = (
    swap_remove-Distinct dec c.key o.state d,
    get-swap_remove dec c.key k o.state d ∙ if_neg (dec c.key k) other _ _,
  )

module _ {K S : Type 0} (dec : Discrete K) (decode : Bytes → S) where
  acquired-Keeps :
      (k j : K) (m : IndexMap K S)
      → IndexMap.Distinct dec m
      → j ≢ k
      → (r : Option Bytes)
      → Keeps dec k m
          (elim (elim r as (λ r. Option (K × S)) [
            | none ↦ none
            | some bytes ↦ some (j, decode bytes)
          ])
            as (λ r. IndexMap K S) [ none ↦ m | some (i, s) ↦ IndexMap.insert dec i s m ])
  unfolding Keeps
  acquired-Keeps k j m d other none = (d, refl)
  acquired-Keeps k j m d other (some bytes) = (
    insert-Distinct dec j (decode bytes) m d,
    get-insert dec j k (decode bytes) m ∙ if_neg (dec j k) other _ _,
  )

module _ {L K VI VO T S : Type 0} (dec : Discrete K) (default : S) (encode : S → Bytes)
    (decode : Bytes → S) (operator_id : OperatorId) (mapper : K → VI → S → VO × Option S) where
  abbrev one : Message K VI T → OpState L K S → List (Message K VO T) × OpState L K S
  one = handle_message dec default encode decode (mapper_logic (keeping_nothing mapper)) operator_id

  -- What messages do for a key.
  Follows :
      K → List (Message K VI T) → OpState L K S → List (Message K VO T) → OpState L K S → Type 0
  Follows k ms o sent o' =
      IndexMap.Distinct dec o'.state
      × ((of_key dec k sent, IndexMap.get dec k o'.state)
          ≡ follow default mapper (of_key dec k ms) (IndexMap.get dec k o.state))

  one-Follows :
      (k : K) (m : Message K VI T) (o : OpState L K S)
      → IndexMap.Distinct dec o.state
      → StaysPut dec k (m ∷ [])
      → Follows k (m ∷ []) o (one m o).0 (one m o).1
  unfolding Follows Keeps handle_message take_state
  one-Follows k (data_record x) o d h =
      let (v, new) = mapper x.key x.value (or_default default (IndexMap.get dec x.key o.state)) in
      let out : DataMessage K VO T = record { key = x.key; value = v; timestamp = x.timestamp } in
      (
        stored-Distinct dec x.key new o.state d,
        elim (dec x.key k) [
          | yes e ↦ rw (if_pos (dec x.key k) e (out ∷ []) []) (
              rw (get-stored dec x.key k new o.state d) (
                rw (if_pos (dec x.key k) e new (IndexMap.get dec k o.state)) (
                  rw (if_pos (dec x.key k) e (x ∷ []) [])
                    (ap (λ j. follow default mapper (x ∷ []) (IndexMap.get dec j o.state)) e))))
          | no e ↦ rw (if_neg (dec x.key k) e (out ∷ []) []) (
              rw (get-stored dec x.key k new o.state d) (
                rw (if_neg (dec x.key k) e new (IndexMap.get dec k o.state))
                  (rw (if_neg (dec x.key k) e (x ∷ []) []) refl)))
        ],
      )
  one-Follows k (interrogate x) o d h = (d, refl)
  one-Follows k (collect x) o d h =
      let (d', same) =
        collected-Keeps dec encode operator_id k x o d h.0 (IndexMap.get dec x.key o.state) in
      (d', ap (λ r. ([], r)) same)
  one-Follows k (acquire x) o d h =
      let (d', same) =
        acquired-Keeps dec decode k x.key o.state d h.0
          (IndexMap.get ℕ_discrete operator_id (collection_at x o.heap)) in
      (d', ap (λ r. ([], r)) same)
  one-Follows k (abs_barrier x) o d h = (d, refl)
  one-Follows k (rescale x) o d h = (d, refl)
  one-Follows k (suspend_marker x) o d h = (d, refl)
  one-Follows k (epoch x) o d h = (d, refl)

  -- An operator of `stateful_map` answers the records of a key, and changes its state, as if they were
  -- all that there is: its answers to them are the mapper's, each with the state that the record before
  -- has left or the default where there is none, in the order of the records; the last state is what the
  -- operator holds. This is whatever comes between them, the records of other keys and the moves of their
  -- states included, as long as the state of this key is neither collected nor acquired. The mapper keeps
  -- nothing outside these states, and no key stands twice in the map at the start.
  pub stateful_map-by_key :
      (k : K) (ms : List (Message K VI T)) (o : OpState L K S)
      → IndexMap.Distinct dec o.state
      → StaysPut dec k ms
      → (
        of_key dec k
            (handle_each dec default encode decode
              (mapper_logic (keeping_nothing mapper))
              operator_id
              ms
              o).0,
        IndexMap.get dec k
            (handle_each dec default encode decode
              (mapper_logic (keeping_nothing mapper))
              operator_id
              ms
              o).1.state,
      )
        ≡ follow default mapper (of_key dec k ms) (IndexMap.get dec k o.state)
  unfolding handle_each Follows
  stateful_map-by_key k [] o d h = refl
  stateful_map-by_key k (m ∷ ms) o d h =
      let (first, rest) = StaysPut-split dec k m ms h in
      let (d', now) = one-Follows k m o d first in
      let then_ = stateful_map-by_key k ms (one m o).1 d' rest in
      (let (sent, o') = one m o in
        let (more, last) =
          handle_each dec default encode decode (mapper_logic (keeping_nothing mapper)) operator_id
            ms o' in
        ap (λ l. (l, IndexMap.get dec k last.state)) (of_key-append dec k sent more)
        ∙ ap (λ p. (of_key dec k sent ++ p.0, p.1)) then_
        ∙ ap
            (λ p. (
              p.0 ++ (follow default mapper (of_key dec k ms) p.1).0,
              (follow default mapper (of_key dec k ms) p.1).1,
            ))
            now
        ∙ sym (
            follow-append default mapper (of_key dec k (m ∷ [])) (of_key dec k ms)
              (IndexMap.get dec k o.state))
        ∙ ap (λ l. follow default mapper l (IndexMap.get dec k o.state))
            (sym (of_key-append dec k (m ∷ []) ms)))
