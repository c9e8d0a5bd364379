-- ===== src/Examples/Coordinators.antt =====
-- Examples for the coordinator.
use malstrom.Base.{ℕ, false, some, List, [], ◌∷◌, ◌≡◌, inl, refl, arith, any}
use native.Mathlib.Decide.{ℕ_discrete}
use malstrom.Base.IndexMap
use malstrom.Base.IndexMap.{IndexMap}
use malstrom.Base.IndexSet
use malstrom.Types.{WorkerId}
use malstrom.Coordinator.WatchMap.{notify, from_map, apply_or_default}
use malstrom.Coordinator.WatchMap.Completion.{
  Change, applies, change_all, maps_after, is_completed, change_all-notify,
}
use malstrom.Coordinator.State.{
  WorkerState, WorkerStates, CoordinatorState, snapshot_started, snapshot_complete, running,
  snapshotting, default_worker_state, all_phase_condition, idle, request_snapshot, request_suspend,
}
use malstrom.Coordinator.State.Inbound.{inbound, inbound_lem}
use malstrom.Coordinator.State.Guard.{
  Guarded, asks, drops, handle_events, IsExclusive, handle_events-IsExclusive,
}
use malstrom.Coordinator.Reconfig.{add_workers, finish_reconfig}
use malstrom.Coordinator.Reconfig.Active.{finish_reconfig-active}
use malstrom.Coordinator.State.{SerializableCoordinatorState, worker_comm_inbound}
use malstrom.Coordinator.Loop.{says, registers, resumes, asks, run, start}
use malstrom.Coordinator.Loop.Sound.{IsSound, start-IsSound}
use malstrom.Coordinator.Loop.Missed.{Reports, take_in, snapshot_missed}

abbrev states : WorkerStates
states = from_map ((0, default_worker_state) ∷ (1, default_worker_state) ∷ [])

abbrev changes : List (Change ℕ WorkerState)
changes =
    applies default_worker_state 0 (λ s. record s { phase = snapshotting })
    ∷ applies default_worker_state 1 (λ s. record s { phase = snapshotting })
    ∷ []

change_all-notify_example :
    is_completed 9
      (change_all ℕ_discrete changes (notify (all_phase_condition snapshotting) 9 states)).completed
    ≡ any (all_phase_condition snapshotting) (maps_after ℕ_discrete changes states.store)
change_all-notify_example =
    change_all-notify ℕ_discrete changes states (all_phase_condition snapshotting) 9 refl refl

inbound_lem_example :
    (IndexMap.get ℕ_discrete 0
        (inbound 0 (snapshot_started ∷ snapshot_complete 4 ∷ []) states).store
      ≡ some (record { phase = running; snapshot_version = some 4 }))
    × (IndexMap.get ℕ_discrete 1
          (inbound 0 (snapshot_started ∷ snapshot_complete 4 ∷ []) states).store
        ≡ IndexMap.get ℕ_discrete 1 states.store)
unfolding IndexMap.get ℕ_discrete
inbound_lem_example =
    inbound_lem 0 1 (snapshot_started ∷ snapshot_complete 4 ∷ []) states default_worker_state tt
      refl (λ e. ground arith)

abbrev rest_state : Guarded
rest_state = record { status = idle; holders = 0 }

handle_events-IsExclusive_example :
    IsExclusive
      (handle_events (asks request_snapshot ∷ asks request_suspend ∷ drops ∷ []) rest_state)
handle_events-IsExclusive_example =
    handle_events-IsExclusive (asks request_snapshot ∷ asks request_suspend ∷ drops ∷ []) rest_state
      (inl (refl, refl))

-- The job runs on the workers 0 and 1, and shall run on 0 and 2.
abbrev job : CoordinatorState
job = record {
  worker_states = states;
  active_workers = (0, 0) ∷ (1, 1) ∷ [];
  config_version = some 3;
}

finish_reconfig-active_example :
    ((k : WorkerId)
      → IndexMap.contains_key ℕ_discrete k
          (finish_reconfig (0 ∷ 2 ∷ []) (add_workers (0 ∷ 2 ∷ []) job)).active_workers
        ≡ IndexSet.contains ℕ_discrete k (0 ∷ 2 ∷ []))
    × ((finish_reconfig (0 ∷ 2 ∷ []) (add_workers (0 ∷ 2 ∷ []) job)).config_version ≡ some 4)
unfolding IndexMap.get ℕ_discrete add_workers
finish_reconfig-active_example =
    finish_reconfig-active (0 ∷ 2 ∷ []) job (add_workers (0 ∷ 2 ∷ []) job) (refl, (refl, tt)) refl
      refl

abbrev two_active : SerializableCoordinatorState
two_active = record { worker_states = []; active_workers = 0 ∷ 1 ∷ []; config_version = some 3 }

start-IsSound_example : IsSound (some 7) (
    run
      (registers ∷ says 0 snapshot_started ∷ resumes ∷ asks request_snapshot ∷ [])
      (start (some 7) two_active))
start-IsSound_example =
    start-IsSound (some 7) two_active
      (registers ∷ says 0 snapshot_started ∷ resumes ∷ asks request_snapshot ∷ [])

-- Worker 0 is done before worker 1 begins.
abbrev early : Reports
early = (0, snapshot_started) ∷ (0, snapshot_complete 8) ∷ []

abbrev early_rest : Reports
early_rest = (1, snapshot_started) ∷ (1, snapshot_complete 8) ∷ []

snapshot_missed_example :
    is_completed 9
      (take_in
        ((0, snapshot_started)
          ∷ (0, snapshot_complete 8)
          ∷ (1, snapshot_started)
          ∷ (1, snapshot_complete 8)
          ∷ [])
        (notify (all_phase_condition snapshotting) 9 states)).completed
    ≡ false
unfolding take_in worker_comm_inbound apply_or_default IndexMap.get IndexMap.modify ℕ_discrete
snapshot_missed_example =
    snapshot_missed early early_rest states 0 1
      (record { phase = running; snapshot_version = some 8 }) default_worker_state 9 (tt, (tt, tt))
      (tt, (tt, tt)) ((λ e. omega (arith, e)), ((λ e. omega (arith, e)), tt))
      ((λ e. omega (arith, e)), ((λ e. omega (arith, e)), tt)) refl refl refl refl refl refl
