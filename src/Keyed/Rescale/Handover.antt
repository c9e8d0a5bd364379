-- ===== src/Keyed/Rescale/Handover.antt =====
-- How the state of the keys that move is handed to their new owners: the `Collect` state.
pub mod Held
pub mod Keys
pub mod Reached
use malstrom.Base.{
  ℕ, Bool, true, false, Option, none, some, List, [], ◌∷◌, ◌++◌, map, ◌≡◌, refl, sym, ap, ◌∙◌, ◌⊎◌,
  subst, inl, inr, Result, ok, ◌>>=◌, >>=-eq-ok, All, All-append, append_assoc, append-nil,
  Option-cases, Bool-cases, is_none, ◌&&◌, expect, arith,
}
use malstrom.Base.IndexMap
use malstrom.Base.IndexMap.{IndexMap, keys}
use malstrom.Base.IndexSet
use malstrom.Base.IndexSet.{pop-some}
use malstrom.Types.{WorkerId, OperatorId, Version, DataMessage, Message, Collect, collect}
use malstrom.Keyed.Types.{
  Bytes, World, Heap, Effect, emits, transmits, Remotes, WorkerPartitioner, NetworkMessage,
  net_acquire, net_data, upgrade, unwrap_collect, new_collect, drop_collect,
}
use malstrom.Keyed.Router.States.{
  CollectRouter, FinishedRouter, MessageRouter, normal, interrogating, collecting, finished,
}
use malstrom.Keyed.Router.Routing.{route_collect}
use malstrom.Keyed.Router.Lifecycle.{
  lifecycle_collect, finish_collect, conclude_collect, set_and_emit_collect, hand_over,
  is_empty_set,
}
use native.Mathlib.Decide.{ℕ_discrete}

module _ {K V T : Type 0} where
  -- Messages are held back for the key that is being collected, and for no other.
  abbrev pub HeldFor : Option (Collect K) → List (DataMessage K V T) → Type 0
  HeldFor none ms = ms ≡ []
  HeldFor (some c) ms = All (λ m. m.key ≡ c.key) ms

  abbrev pub IsValid : CollectRouter K V T → Type 0
  IsValid r = HeldFor r.current_collect r.buffered

  -- What `set_and_emit_collect` can do: nothing, or take the last key of the whitelist.
  pub data Emitted (r : CollectRouter K V T) (w : World K V T) (r' : CollectRouter K V T)
      (w' : World K V T) : Type 0 where
    idle : r' ≡ r → w' ≡ w → Emitted r w r' w'
    next :
        (rest : List K) (c : Collect K)
        → r.current_collect ≡ none
        → r.whitelist ≡ rest ++ c.key ∷ []
        → r' ≡ record r { whitelist = rest; current_collect = some c }
        → w'.trace ≡ w.trace ++ emits (collect c) ∷ []
        → Emitted r w r' w'

  set_and_emit-Emitted :
      (r : CollectRouter K V T) (w : World K V T)
      → (let (r', w') = set_and_emit_collect r w in Emitted r w r' w')
  unfolding set_and_emit_collect new_collect
  set_and_emit-Emitted r w = elim (Bool-cases (is_none r.current_collect)) [
    | inr h ↦ idle (ground arith) (ground arith)
    | inl h ↦ elim (Option-cases (IndexSet.pop r.whitelist)) [
      | inl e ↦ idle (ground arith) (ground arith)
      | inr ((rest, key), e) ↦
          next rest (new_collect key w.heap).0 (ground arith) (pop-some r.whitelist rest key e)
            (ground arith) (ground arith)
    ]
  ]

  pub Emitted-IsValid :
      (r r' : CollectRouter K V T) (w w' : World K V T) → Emitted r w r' w' → IsValid r → IsValid r'
  Emitted-IsValid r r' w w' (idle e f) h = rw e h
  Emitted-IsValid r r' w w' (next rest c e f g t) h =
      let empty : r.buffered ≡ [] = subst (λ o. HeldFor o r.buffered) e h in rw g (rw empty tt)

  -- The state of a key, and behind it what was held back for the key, to one worker.
  abbrev pub handover :
      WorkerId
      → K
      → IndexMap OperatorId Bytes
      → Version
      → List (DataMessage K V T)
      → List (Effect K V T)
  handover target key collection v ms =
      transmits target (net_acquire (record { key = key; collection = collection }))
      ∷ map (λ m. transmits target (net_data (record { content = m; version = v }))) ms

  hand_over-trace :
      (target : WorkerId) (key : K) (collection : IndexMap OperatorId Bytes)
      (r : CollectRouter K V T) (w : World K V T)
      → (hand_over target key collection r w).trace
        ≡ w.trace ++ handover target key collection r.version r.buffered
  unfolding hand_over
  hand_over-trace target key collection r w = rw append_assoc refl

  -- What the first half of `lifecycle` can do.
  pub data Finishing (p : WorkerPartitioner K) (r : CollectRouter K V T) (w : World K V T)
      (r' : CollectRouter K V T) (w' : World K V T) : Type 0 where
    starts : r.current_collect ≡ none → Emitted r w r' w' → Finishing p r w r' w'
    waits :
        (c : Collect K)
        → r.current_collect ≡ some c
        → unwrap_collect c w.heap ≡ none
        → r' ≡ r
        → w' ≡ w
        → Finishing p r w r' w'
    hands :
        (c : Collect K) (collection : IndexMap OperatorId Bytes) (between : World K V T)
        → r.current_collect ≡ some c
        → unwrap_collect c w.heap ≡ some collection
        → between.trace
          ≡ w.trace ++ handover (p c.key r.new_worker_set) c.key collection r.version r.buffered
        → Emitted (record r { buffered = []; current_collect = none }) between r' w'
        → Finishing p r w r' w'

  pub finish-Finishing :
      (p : WorkerPartitioner K) (r r' : CollectRouter K V T) (remotes : Remotes K V T)
      (w w' : World K V T)
      → finish_collect p r remotes w ≡ ok (r', w')
      → Finishing p r w r' w'
  unfolding finish_collect
  finish-Finishing p r r' remotes w w' h = elim (Option-cases r.current_collect) [
    | inl e ↦
        let same : (r', w') ≡ set_and_emit_collect r w = ground arith in
        starts e (rw (ap (λ t. t.0) same, ap (λ t. t.1) same) (set_and_emit-Emitted r w))
    | inr (c, e) ↦ elim (Option-cases (unwrap_collect c w.heap)) [
      | inl shared ↦ waits c e shared (ground arith) (ground arith)
      | inr (collection, alone) ↦
          let target = p c.key r.new_worker_set in
          let between =
            hand_over target c.key collection r (record w { heap = drop_collect c w.heap }) in
          let cleared = record r { buffered = []; current_collect = none } in
          let same : (r', w') ≡ set_and_emit_collect cleared between = ground arith in
          hands c collection between e alone
            (hand_over-trace target c.key collection r (record w { heap = drop_collect c w.heap }))
            (rw (ap (λ t. t.0) same, ap (λ t. t.1) same) (set_and_emit-Emitted cleared between))
    ]
  ]
