-- ===== src/Coordinator/Loop/Missed.antt =====
-- malstrom-core/src/coordinator/coordinator.rs, `perform_snapshot_all`: a snapshot that the
-- coordinator waits for in vain.
use malstrom.Base.{
  ℕ, false, none, some, List, [], ◌∷◌, ◌++◌, ◌||◌, any, All, All-append, map, ◌≡◌, ◌≢◌, refl, sym,
  ap, ◌∙◌, arith, if_neg,
}
use malstrom.Base.IndexMap
use malstrom.Base.IndexMap.{IndexMap, values, get-insert, get-modify_ne}
use malstrom.Types.{WorkerId}
use malstrom.Coordinator.WatchMap.{notify, apply_or_default, fire_notifications}
use malstrom.Coordinator.WatchMap.Completion.{
  Change, applies, change, change_all, change_map, maps_after, is_completed, is_waiting,
  change_all-notify,
}
use malstrom.Coordinator.State.{
  WorkerPhase, WorkerState, WorkerStates, WorkerMessage, snapshotting, build_completed,
  execution_started, snapshot_started, snapshot_complete, reconfiguration_started,
  reconfigure_complete, execution_complete, suspend_complete, removed, running, build_complete,
  reconfiguring, completed, suspended, default_worker_state, worker_comm_inbound, set_phase,
  phase_eq, all_phase_condition,
}
use native.Mathlib.Decide.{ℕ_discrete}

-- Messages of several workers, as they come in.
abbrev pub Reports : Type 0
Reports = List (WorkerId × WorkerMessage)

unfoldable pub take_in : Reports → WorkerStates → WorkerStates
take_in [] states = states
take_in ((wid, m) ∷ rs) states = take_in rs (worker_comm_inbound wid m states).0

abbrev pub StillActive : WorkerMessage → Type 0
StillActive removed = ⊥
StillActive _ = Unit

-- The map is changed as the message says.
abbrev effect : WorkerMessage → WorkerState → WorkerState
effect build_completed s = record s { phase = build_complete }
effect execution_started s = record s { phase = running }
effect snapshot_started s = record s { phase = snapshotting }
effect (snapshot_complete v) s = record { phase = running; snapshot_version = some v }
effect reconfiguration_started s = record s { phase = reconfiguring }
effect (reconfigure_complete v) s = record s { phase = running }
effect execution_complete s = record s { phase = completed }
effect suspend_complete s = record s { phase = suspended }
effect removed s = s

abbrev change_of : WorkerId × WorkerMessage → Change WorkerId WorkerState
change_of (wid, m) = applies default_worker_state wid (effect m)

inbound-change :
    (wid : WorkerId) (m : WorkerMessage) (states : WorkerStates)
    → StillActive m
    → (worker_comm_inbound wid m states).0 ≡ change ℕ_discrete (change_of (wid, m)) states
unfolding worker_comm_inbound set_phase change
inbound-change wid build_completed states h = refl
inbound-change wid execution_started states h = refl
inbound-change wid snapshot_started states h = refl
inbound-change wid (snapshot_complete v) states h = refl
inbound-change wid reconfiguration_started states h = refl
inbound-change wid (reconfigure_complete v) states h = refl
inbound-change wid execution_complete states h = refl
inbound-change wid suspend_complete states h = refl
inbound-change wid removed states h = absurd h

take_in-change_all :
    (rs : Reports) (states : WorkerStates)
    → All (λ r. StillActive r.1) rs
    → take_in rs states ≡ change_all ℕ_discrete (map change_of rs) states
unfolding take_in change_all
take_in-change_all [] states h = refl
take_in-change_all ((wid, m) ∷ rs) states h =
    ap (take_in rs) (inbound-change wid m states h.0) ∙ take_in-change_all rs _ h.1

-- One worker in another phase is enough.
not_all :
    (phase : WorkerPhase) (m : IndexMap WorkerId WorkerState) (wid : WorkerId) (s : WorkerState)
    → IndexMap.get ℕ_discrete wid m ≡ some s
    → phase_eq s.phase phase ≡ false
    → all_phase_condition phase m ≡ false
unfolding IndexMap.get
not_all phase [] wid s h n = cc
not_all phase ((j, t) ∷ m) wid s h n = ground (arith, h, n, not_all phase m wid s)

kept :
    (r : WorkerId × WorkerMessage) (m : IndexMap WorkerId WorkerState) (wid : WorkerId)
    → r.0 ≢ wid
    → IndexMap.get ℕ_discrete wid (change_map ℕ_discrete (change_of r) m)
      ≡ IndexMap.get ℕ_discrete wid m
unfolding change_map
kept (j, msg) m wid n =
    elim (IndexMap.get ℕ_discrete j m)
      as (λ found.
        IndexMap.get ℕ_discrete wid (elim found [
          | none ↦ IndexMap.insert ℕ_discrete j (effect msg default_worker_state) m
          | some v ↦ IndexMap.modify ℕ_discrete j (effect msg) m
        ])
        ≡ IndexMap.get ℕ_discrete wid m) [
          | none ↦ get-insert ℕ_discrete j wid _ m ∙ if_neg (ℕ_discrete j wid) n _ _
          | some v ↦ get-modify_ne ℕ_discrete j wid (effect msg) m n
        ]

-- While only others report, a worker that is not snapshotting keeps the condition from holding.
none_holds :
    (rs : Reports) (m : IndexMap WorkerId WorkerState) (wid : WorkerId) (s : WorkerState)
    → All (λ r. r.0 ≢ wid) rs
    → IndexMap.get ℕ_discrete wid m ≡ some s
    → phase_eq s.phase snapshotting ≡ false
    → any (all_phase_condition snapshotting) (maps_after ℕ_discrete (map change_of rs) m) ≡ false
unfolding maps_after
none_holds [] m wid s o h n = refl
none_holds (r ∷ rs) m wid s o h n =
    let h' = kept r m wid o.0 ∙ h in
    rw (not_all snapshotting (change_map ℕ_discrete (change_of r) m) wid s h' n)
      (none_holds rs _ wid s o.1 h' n)

abbrev store_after : Reports → IndexMap WorkerId WorkerState → IndexMap WorkerId WorkerState
store_after [] m = m
store_after (r ∷ rs) m = store_after rs (change_map ℕ_discrete (change_of r) m)

any_two :
    (rs ss : Reports) (m : IndexMap WorkerId WorkerState)
    → any (all_phase_condition snapshotting) (maps_after ℕ_discrete (map change_of (rs ++ ss)) m)
      ≡ (any (all_phase_condition snapshotting) (maps_after ℕ_discrete (map change_of rs) m)
          || any
              (all_phase_condition snapshotting)
              (maps_after ℕ_discrete (map change_of ss) (store_after rs m)))
unfolding maps_after
any_two [] ss m = refl
any_two (r ∷ rs) ss m = ground (arith, any_two rs ss (change_map ℕ_discrete (change_of r) m))

inbound-store :
    (wid : WorkerId) (m : WorkerMessage) (states : WorkerStates)
    → StillActive m
    → (worker_comm_inbound wid m states).0.store
      ≡ change_map ℕ_discrete (change_of (wid, m)) states.store
unfolding change change_map apply_or_default fire_notifications
inbound-store wid m states h = ap (λ s. s.store) (inbound-change wid m states h)

take_in-store :
    (rs : Reports) (states : WorkerStates)
    → All (λ r. StillActive r.1) rs
    → (take_in rs states).store ≡ store_after rs states.store
unfolding take_in
take_in-store [] states h = refl
take_in-store ((wid, m) ∷ rs) states h =
    take_in-store rs _ h.1 ∙ ap (store_after rs) (inbound-store wid m states h.0)

-- The wait for all workers to be snapshotting never ends if one of them is done before another has
-- begun: `b` is not snapshotting at first and says nothing in the first part of the reports, `a` is
-- not snapshotting after that part and says nothing in the second. No worker is removed meanwhile,
-- and the oneshot is fresh.
pub snapshot_missed :
    (rs ss : Reports) (states : WorkerStates) (a b : WorkerId) (s t : WorkerState) (id : ℕ)
    → All (λ r. StillActive r.1) rs
    → All (λ r. StillActive r.1) ss
    → All (λ r. r.0 ≢ b) rs
    → All (λ r. r.0 ≢ a) ss
    → IndexMap.get ℕ_discrete b states.store ≡ some t
    → phase_eq t.phase snapshotting ≡ false
    → IndexMap.get ℕ_discrete a (take_in rs states).store ≡ some s
    → phase_eq s.phase snapshotting ≡ false
    → is_waiting id states.notifications ≡ false
    → is_completed id states.completed ≡ false
    → is_completed id
        (take_in (rs ++ ss) (notify (all_phase_condition snapshotting) id states)).completed
      ≡ false
snapshot_missed rs ss states a b s t id first second not_b not_a hb nb ha na waiting pending =
    ap (λ w. is_completed id w.completed)
      (take_in-change_all (rs ++ ss) (notify (all_phase_condition snapshotting) id states)
        (All-append (λ r. StillActive r.1) rs ss first second))
    ∙ change_all-notify ℕ_discrete (map change_of (rs ++ ss)) states
        (all_phase_condition snapshotting) id waiting pending
    ∙ any_two rs ss states.store
    ∙ ground (
      arith,
      none_holds rs states.store b t not_b hb nb,
      none_holds ss (store_after rs states.store) a s not_a
          (ap (IndexMap.get ℕ_discrete a) (sym (take_in-store rs states first)) ∙ ha) na,
    )
