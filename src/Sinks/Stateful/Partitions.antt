-- ===== src/Sinks/Stateful/Partitions.antt =====
-- malstrom-core/src/sinks/stateful.rs: what each handler does to one partition.
use malstrom.Base.{
  Option, none, some, [], ◌∷◌, ◌≡◌, ◌≢◌, inl, inr, refl, ap, ◌∙◌, sym, if_pos, if_neg, Option-cases,
}
use malstrom.Base.IndexMap
use malstrom.Base.IndexMap.{
  IndexMap, get-insert, get-insert_self, get-modify_self, get-modify_ne, get-swap_remove,
  insert-Distinct, modify-Distinct, swap_remove-Distinct,
}
use native.Mathlib.Decide.{ℕ_discrete}
use malstrom.Types.{OperatorId, DataMessage, Barrier, Collect, Acquire}
use malstrom.Keyed.Types.{Bytes, add_state, take_state, collection_at}
use malstrom.Sinks.Stateful.{
  StatefulSinkImpl, SinkOp, on_data, on_barrier, on_collect, on_acquire, unassigned, snapshot_all,
  add_partition,
}

module _ {B Part P S K V T : Type 0} (dec : Discrete Part)
    (impl : StatefulSinkImpl B Part P S K V T) where
  abbrev pub touched : (P → P) → Option P → Option P
  touched f none = none
  touched f (some p) = some (f p)

  -- No key stands twice, and the partition is as said.
  unfoldable pub Holds : Part → Option P → SinkOp B Part P S → Type 0
  Holds part held o =
      IndexMap.Distinct dec o.partitions × (IndexMap.get dec part o.partitions ≡ held)

  pub on_data-Distinct :
      (d : DataMessage Part (K × V) T) (o : SinkOp B Part P S)
      → IndexMap.Distinct dec o.partitions
      → IndexMap.Distinct dec (on_data dec impl d o).partitions
  unfolding on_data
  on_data-Distinct d o h = elim (Option-cases (IndexMap.get dec d.key o.partitions)) [
    | inl e ↦ rw (e, on_data) (insert-Distinct dec d.key _ o.partitions h)
    | inr (p, e) ↦ rw (e, on_data) (modify-Distinct dec d.key _ o.partitions h)
  ]

  pub on_data-Holds :
      (d : DataMessage Part (K × V) T) (o : SinkOp B Part P S) (part : Part)
      → IndexMap.Distinct dec o.partitions
      → d.key ≢ part
      → Holds part (IndexMap.get dec part o.partitions) (on_data dec impl d o)
  unfolding Holds on_data
  on_data-Holds d o part h ne = (
    on_data-Distinct d o h,
    elim (Option-cases (IndexMap.get dec d.key o.partitions)) [
      | inl e ↦
          rw (e, on_data)
            (get-insert dec d.key part _ o.partitions ∙ if_neg (dec d.key part) ne _ _)
      | inr (p, e) ↦ rw (e, on_data) (get-modify_ne dec d.key part _ o.partitions ne)
    ],
  )

  pub on_data-held :
      (d : DataMessage Part (K × V) T) (o : SinkOp B Part P S) (p : P)
      → IndexMap.get dec d.key o.partitions ≡ some p
      → IndexMap.get dec d.key (on_data dec impl d o).partitions
        ≡ some (impl.sink p (unassigned dec impl d))
  unfolding on_data
  on_data-held d o p e = rw (e, on_data) (get-modify_self dec d.key _ o.partitions p e)

  pub on_data-new :
      (d : DataMessage Part (K × V) T) (o : SinkOp B Part P S)
      → IndexMap.get dec d.key o.partitions ≡ none
      → IndexMap.get dec d.key (on_data dec impl d o).partitions
        ≡ some (impl.sink (impl.build_part o.part_builder d.key none).1 (unassigned dec impl d))
  unfolding on_data
  on_data-new d o e = rw (e, on_data) (get-insert_self dec d.key _ o.partitions)

  get-snapshot_all :
      (part : Part) (ps : IndexMap Part P)
      → IndexMap.get dec part (snapshot_all dec impl ps).0
        ≡ touched (λ p. (impl.snapshot p).0) (IndexMap.get dec part ps)
  unfolding snapshot_all IndexMap.get
  get-snapshot_all part [] = refl
  get-snapshot_all part ((j, p) ∷ ps) = elim (dec j part) [
    | yes e ↦
        if_pos (dec j part) e _ _
        ∙ ap (touched (λ p. (impl.snapshot p).0))
            (sym (if_pos (dec j part) e (some p) (IndexMap.get dec part ps)))
    | no e ↦
        if_neg (dec j part) e _ _
        ∙ get-snapshot_all part ps
        ∙ ap (touched (λ p. (impl.snapshot p).0))
            (sym (if_neg (dec j part) e (some p) (IndexMap.get dec part ps)))
  ]

  snapshot_all-Distinct :
      (ps : IndexMap Part P)
      → IndexMap.Distinct dec ps
      → IndexMap.Distinct dec (snapshot_all dec impl ps).0
  unfolding snapshot_all
  snapshot_all-Distinct [] h = tt
  snapshot_all-Distinct ((j, p) ∷ ps) h = (
    get-snapshot_all j ps ∙ ap (touched (λ p. (impl.snapshot p).0)) h.0,
    snapshot_all-Distinct ps h.1,
  )

  pub on_barrier-Holds :
      (operator_id : OperatorId) (b : Barrier) (o : SinkOp B Part P S) (part : Part)
      → IndexMap.Distinct dec o.partitions
      → Holds part
          (touched (λ p. (impl.snapshot p).0) (IndexMap.get dec part o.partitions))
          (on_barrier dec impl operator_id b o)
  unfolding Holds on_barrier
  on_barrier-Holds operator_id b o part h =
      (snapshot_all-Distinct o.partitions h, get-snapshot_all part o.partitions)

  collected-Holds :
      (encode : S → Bytes) (operator_id : OperatorId) (c : Collect Part) (o : SinkOp B Part P S)
      (part : Part) (r : Option P)
      → IndexMap.Distinct dec o.partitions
      → c.key ≢ part
      → Holds part (IndexMap.get dec part o.partitions) (elim r as (λ r. SinkOp B Part P S) [
        | none ↦ o
        | some partition ↦ record o {
          partitions = IndexMap.swap_remove dec c.key o.partitions;
          heap = add_state encode c operator_id (impl.collect partition) o.heap;
        }
      ])
  unfolding Holds
  collected-Holds encode operator_id c o part none h ne = (h, refl)
  collected-Holds encode operator_id c o part (some p) h ne = (
    swap_remove-Distinct dec c.key o.partitions h,
    get-swap_remove dec c.key part o.partitions h ∙ if_neg (dec c.key part) ne _ _,
  )

  pub on_collect-Holds :
      (encode : S → Bytes) (operator_id : OperatorId) (c : Collect Part) (o : SinkOp B Part P S)
      (part : Part)
      → IndexMap.Distinct dec o.partitions
      → c.key ≢ part
      → Holds part (IndexMap.get dec part o.partitions) (on_collect dec impl encode operator_id c o)
  unfolding on_collect
  on_collect-Holds encode operator_id c o part h ne =
      collected-Holds encode operator_id c o part (IndexMap.get dec c.key o.partitions) h ne

  acquired-Holds :
      (decode : Bytes → S) (key : Part) (o : SinkOp B Part P S) (part : Part) (r : Option Bytes)
      → IndexMap.Distinct dec o.partitions
      → key ≢ part
      → Holds part
          (IndexMap.get dec part o.partitions)
          (elim (elim r as (λ r. Option (Part × S)) [
            | none ↦ none
            | some bytes ↦ some (key, decode bytes)
          ])
            as (λ r. SinkOp B Part P S) [
              | none ↦ o
              | some (j, s) ↦ add_partition dec impl j (some s) o
            ])
  unfolding Holds add_partition
  acquired-Holds decode key o part none h ne = (h, refl)
  acquired-Holds decode key o part (some bytes) h ne = (
    insert-Distinct dec key _ o.partitions h,
    get-insert dec key part _ o.partitions ∙ if_neg (dec key part) ne _ _,
  )

  pub on_acquire-Holds :
      (decode : Bytes → S) (operator_id : OperatorId) (a : Acquire Part) (o : SinkOp B Part P S)
      (part : Part)
      → IndexMap.Distinct dec o.partitions
      → a.key ≢ part
      → Holds part (IndexMap.get dec part o.partitions) (on_acquire dec impl decode operator_id a o)
  unfolding on_acquire take_state
  on_acquire-Holds decode operator_id a o part h ne =
      acquired-Holds decode a.key (record o { heap = (take_state decode a operator_id o.heap).1 })
        part (IndexMap.get ℕ_discrete operator_id (collection_at a o.heap)) h ne
