-- ===== src/Coordinator/State.antt =====
-- malstrom-core/src/coordinator/state.rs, types.rs, communication.rs, and the conditions and the
-- status guard of coordinator.rs.
pub mod Inbound
pub mod Guard
use malstrom.Base.{
  ℕ, Bool, true, false, Option, none, some, List, [], ◌∷◌, ◌&&◌, ◌==◌, all, any, ◌≡◌, ◌⊎◌, inl, inr,
  refl,
}
use malstrom.Base.IndexMap
use malstrom.Base.IndexMap.{IndexMap, keys, values}
use malstrom.Base.IndexSet.{IndexSet}
use malstrom.Types.{WorkerId, Version}
use malstrom.Coordinator.WatchMap
use malstrom.Coordinator.WatchMap.{WatchMapInner, from_map, apply_or_default}
use native.Mathlib.Decide.{ℕ_discrete}

pub data WorkerPhase : Type 0 where
  unknown : WorkerPhase
  build_complete : WorkerPhase
  running : WorkerPhase
  snapshotting : WorkerPhase
  reconfiguring : WorkerPhase
  suspended : WorkerPhase
  completed : WorkerPhase

-- The derived `==`.
abbrev pub phase_eq : WorkerPhase → WorkerPhase → Bool
phase_eq unknown unknown = true
phase_eq build_complete build_complete = true
phase_eq running running = true
phase_eq snapshotting snapshotting = true
phase_eq reconfiguring reconfiguring = true
phase_eq suspended suspended = true
phase_eq completed completed = true
phase_eq _ _ = false

pub record WorkerState : Type 0 where
  pub phase : WorkerPhase
  pub snapshot_version : Option Version

abbrev pub default_worker_state : WorkerState
default_worker_state = record { phase = unknown; snapshot_version = none }

pub data WorkerMessage : Type 0 where
  build_completed : WorkerMessage
  execution_started : WorkerMessage
  snapshot_started : WorkerMessage
  snapshot_complete : Version → WorkerMessage
  reconfiguration_started : WorkerMessage
  reconfigure_complete : Version → WorkerMessage
  execution_complete : WorkerMessage
  suspend_complete : WorkerMessage
  removed : WorkerMessage

pub record BuildInformation : Type 0 where
  pub worker_set : IndexSet WorkerId
  pub resume_snapshot : Option Version

pub data CoordinationMessage : Type 0 where
  start_build : BuildInformation → CoordinationMessage
  start_execution : CoordinationMessage
  take_snapshot : Version → CoordinationMessage
  reconfigure : IndexSet WorkerId → Version → CoordinationMessage
  suspend : CoordinationMessage

abbrev pub WorkerStates : Type 0
WorkerStates = WatchMapInner WorkerId WorkerState

-- `CoordinatorState`. A sender is the worker that it sends to.
pub record CoordinatorState : Type 0 where
  pub worker_states : WorkerStates
  pub active_workers : IndexMap WorkerId WorkerId
  pub config_version : Option Version

pub record SerializableCoordinatorState : Type 0 where
  pub worker_states : IndexMap WorkerId WorkerState
  pub active_workers : IndexSet WorkerId
  pub config_version : Option Version

abbrev pub get_serializable : CoordinatorState → SerializableCoordinatorState
get_serializable s = record {
  worker_states = s.worker_states.store;
  active_workers = keys s.active_workers;
  config_version = s.config_version;
}

-- The loop body of `worker_comm_inbound`; false when the loop is left.
unfoldable pub set_phase : WorkerId → WorkerPhase → WorkerStates → WorkerStates
set_phase wid phase states =
    apply_or_default ℕ_discrete default_worker_state wid (λ s. record s { phase = phase }) states

unfoldable pub worker_comm_inbound : WorkerId → WorkerMessage → WorkerStates → WorkerStates × Bool
unfolding set_phase
worker_comm_inbound wid build_completed states = (set_phase wid build_complete states, true)
worker_comm_inbound wid execution_started states = (set_phase wid running states, true)
worker_comm_inbound wid snapshot_started states = (set_phase wid snapshotting states, true)
worker_comm_inbound wid (snapshot_complete version) states = (
  apply_or_default ℕ_discrete default_worker_state wid
      (λ s. record { phase = running; snapshot_version = some version }) states,
  true,
)
worker_comm_inbound wid reconfiguration_started states = (set_phase wid reconfiguring states, true)
worker_comm_inbound wid (reconfigure_complete version) states = (set_phase wid running states, true)
worker_comm_inbound wid execution_complete states = (set_phase wid completed states, true)
worker_comm_inbound wid suspend_complete states = (set_phase wid suspended states, true)
worker_comm_inbound wid removed states = ((WatchMap.remove ℕ_discrete wid states).1, false)

-- `AllPhaseCondition` and `PhaseCondition`.
abbrev pub all_phase_condition : WorkerPhase → IndexMap WorkerId WorkerState → Bool
all_phase_condition phase m = all (λ s. phase_eq s.phase phase) (values m)

abbrev pub phase_condition : WorkerId → WorkerPhase → IndexMap WorkerId WorkerState → Bool
phase_condition wid phase m = any (λ e. (e.0 == wid) && phase_eq e.1.phase phase) m

pub data CoordinatorStatus : Type 0 where
  idle : CoordinatorStatus
  starting : CoordinatorStatus
  scaling : CoordinatorStatus
  snapshotting_all : CoordinatorStatus
  suspending : CoordinatorStatus

pub data RequestOperation : Type 0 where
  request_snapshot : RequestOperation
  request_scale : ℕ → RequestOperation
  request_suspend : RequestOperation

-- `From<RequestOperation> for CoordinatorStatus`.
abbrev pub status_of : RequestOperation → CoordinatorStatus
status_of request_snapshot = snapshotting_all
status_of (request_scale n) = scaling
status_of request_suspend = suspending

-- `set_status`: the operation under way, or nothing when the guard is given out; and the status after it.
unfoldable pub set_status :
    CoordinatorStatus → CoordinatorStatus → Option CoordinatorStatus × CoordinatorStatus
set_status idle status = (none, status)
set_status current status = (some current, current)

-- `Drop for CoordinatorStatusGuard`.
abbrev pub drop_guard : CoordinatorStatus → CoordinatorStatus
drop_guard current = idle
