-- ===== src/Coordinator/Loop.antt =====
-- malstrom-core/src/coordinator/coordinator.rs, `coordinator_loop` and the operations that it awaits.
-- Each is cut where it waits; between the cuts the messages of the workers come in, as events. An
-- order is sent before the condition of its wait is registered, with room for events in between. What
-- `persistence_backend` commits is a list, the latest first. No connection fails.
pub mod Sound
pub mod Missed
use malstrom.Base.{
  ℕ, zero, suc, ◌+◌, ◌-◌, ◌==◌, Bool, true, false, not, Option, none, some, List, [], ◌∷◌, ◌++◌,
  map, ◌&&◌, all, any, if◌then◌else◌, ◌≡◌, length,
}
use malstrom.Base.IndexMap
use malstrom.Base.IndexMap.{IndexMap, keys}
use malstrom.Base.IndexSet.{IndexSet}
use malstrom.Types.{WorkerId, Version}
use malstrom.Coordinator.WatchMap
use malstrom.Coordinator.WatchMap.{notify, from_map}
use malstrom.Coordinator.State.{
  WorkerPhase, WorkerState, WorkerStates, WorkerMessage, CoordinatorState,
  SerializableCoordinatorState, BuildInformation, CoordinationMessage, start_build, start_execution,
  take_snapshot, suspend, build_complete, running, snapshotting, reconfiguring, suspended,
  completed, get_serializable, worker_comm_inbound, all_phase_condition, phase_condition,
  CoordinatorStatus, idle, RequestOperation, request_snapshot, request_scale, request_suspend,
  status_of, set_status, drop_guard,
}
use malstrom.Coordinator.Reconfig.{
  Sent, setup_comm, new_workers, add_workers, next_version, order_reconfig, finish_reconfig,
}
use native.Mathlib.Decide.{ℕ_discrete}

-- What the loop is at, by the wait that it is in; `ready` is the wait for a request.
pub data Operation : Type 0 where
  building : Operation
  launching : Operation
  ready : Operation
  snapshot_first : Version → Operation
  snapshot_second : Version → Operation
  suspending_all : Operation
  adding : IndexSet WorkerId → List WorkerId → Operation
  starting_new : IndexSet WorkerId → List WorkerId → Operation
  reconfig_first : IndexSet WorkerId → Operation
  reconfig_second : IndexSet WorkerId → Operation
  exited : Operation

-- Conditions that are not registered yet, or the oneshots of those that are.
pub data Wait : Type 0 where
  unregistered : List (IndexMap WorkerId WorkerState → Bool) → Wait
  registered : List ℕ → Wait

-- What a requester is answered.
pub data Answer : Type 0 where
  fulfilled : Answer
  concurrent_operation : CoordinatorStatus → Answer

pub record Coordination : Type 0 where
  pub state : CoordinatorState
  pub snapshot_version : Option Version
  pub committed : List (Version × SerializableCoordinatorState)
  pub status : CoordinatorStatus
  pub operation : Operation
  pub wait : Wait
  pub next_oneshot : ℕ
  pub execution_complete : ℕ
  pub sent : Sent
  pub answers : List Answer

-- A message of a worker comes in, the conditions are registered, the wait is over, a request comes,
-- or the loop sees that the execution is complete.
pub data Event : Type 0 where
  says : WorkerId → WorkerMessage → Event
  registers : Event
  resumes : Event
  asks : RequestOperation → Event
  notices : Event

abbrev pub is_completed : ℕ → WorkerStates → Bool
is_completed id states = any (λ j. j == id) states.completed

-- `notify` for each condition, with fresh oneshots.
unfoldable pub register_all :
    List (IndexMap WorkerId WorkerState → Bool) → ℕ → WorkerStates → List ℕ × ℕ × WorkerStates
register_all [] next states = ([], next, states)
register_all (c ∷ cs) next states =
    let (ids, next', states') = register_all cs (next + 1) (notify c next states) in
    (next ∷ ids, next', states')

abbrev pub to_each : CoordinationMessage → List WorkerId → Sent
to_each order = map (λ wid. (wid, order))

-- `(0..desired).collect()`.
abbrev pub workers_up_to : ℕ → IndexSet WorkerId
workers_up_to zero = []
workers_up_to (suc n) = workers_up_to n ++ n ∷ []

abbrev pub abs_diff : ℕ → ℕ → ℕ
abs_diff a b = a - b + (b - a)

abbrev pub active : Coordination → List WorkerId
active c = keys c.state.active_workers

-- An order, with the wait for what follows.
abbrev pub await_after :
    Operation → Sent → List (IndexMap WorkerId WorkerState → Bool) → Coordination → Coordination
await_after operation orders conditions c = record c {
  operation = operation;
  wait = unregistered conditions;
  sent = c.sent ++ orders;
}

abbrev pub each_in_phase : WorkerPhase → List WorkerId → List (IndexMap WorkerId WorkerState → Bool)
each_in_phase phase = map (λ wid. phase_condition wid phase)

-- The end of a request: the answer, the guard is dropped, and the loop is left without workers.
unfoldable pub finish_request : Coordination → Coordination
finish_request c = record c {
  operation = elim c.state.active_workers [ [] ↦ exited | w ∷ ws ↦ ready ];
  wait = registered [];
  status = drop_guard c.status;
  answers = c.answers ++ fulfilled ∷ [];
}

-- A request at the loop, once the guard is given out.
unfoldable pub perform : RequestOperation → Coordination → Coordination
unfolding finish_request
perform request_snapshot c =
    let version = next_version c.snapshot_version in
    await_after (snapshot_first version) (to_each (take_snapshot version) (active c))
      (all_phase_condition snapshotting ∷ []) c
perform (request_scale desired) c =
    let config = workers_up_to desired in
    let news = new_workers c.state config in
    let c' = record c { state = add_workers config c.state } in
    let info : BuildInformation = record { worker_set = active c'; resume_snapshot = none } in
    if abs_diff desired (length c.state.active_workers) == 0
    then finish_request c
    else await_after (adding config news) (to_each (start_build info) news)
        (each_in_phase build_complete news) c'
perform request_suspend c =
    await_after suspending_all (to_each suspend (active c)) (all_phase_condition suspended ∷ []) c

unfoldable pub handle_request : RequestOperation → Coordination → Coordination
unfolding perform
handle_request op c =
    let (busy, status) = set_status c.status (status_of op) in
    elim busy [
      | some current ↦ record c { answers = c.answers ++ concurrent_operation current ∷ [] }
      | none ↦ perform op (record c { status = status })
    ]

-- `active_workers.drain(..)`, each with its state.
unfoldable pub remove_all : List WorkerId → WorkerStates → WorkerStates
remove_all [] states = states
remove_all (wid ∷ wids) states = remove_all wids (WatchMap.remove ℕ_discrete wid states).1

-- `for_version(..).persist(..)` and `commit_version`, with the version that the loop keeps.
abbrev pub commit_version : Version → Coordination → Coordination
commit_version version c = record c {
  committed = (version, get_serializable c.state) ∷ c.committed;
  snapshot_version = some version;
}

abbrev pub drain_workers : Coordination → Coordination
drain_workers c = record c {
  state = record (c.state) {
    worker_states = remove_all (active c) c.state.worker_states;
    active_workers = [];
  };
}

abbrev pub change_config : IndexSet WorkerId → Coordination → Coordination
change_config config c = record c { state = finish_reconfig config c.state }

-- What follows a wait that is over.
unfoldable pub resume : Operation → Coordination → Coordination
unfolding finish_request register_all remove_all
resume building c =
    await_after launching (to_each start_execution (active c)) (each_in_phase running (active c)) c
resume launching c = record c {
  operation = ready;
  wait = registered [];
  execution_complete = c.next_oneshot;
  next_oneshot = c.next_oneshot + 1;
  state = record (c.state) {
    worker_states = notify (all_phase_condition completed) c.next_oneshot c.state.worker_states;
  };
}
resume ready c = c
resume (snapshot_first version) c =
    await_after (snapshot_second version) [] (all_phase_condition running ∷ []) c
resume (snapshot_second version) c = finish_request (commit_version version c)
resume suspending_all c = finish_request (drain_workers c)
resume (adding config news) c =
    await_after (starting_new config news) (to_each start_execution news)
      (each_in_phase running news) c
resume (starting_new config news) c =
    await_after (reconfig_first config) (order_reconfig config c.state)
      (all_phase_condition reconfiguring ∷ []) c
resume (reconfig_first config) c =
    await_after (reconfig_second config) [] (all_phase_condition running ∷ []) c
resume (reconfig_second config) c = finish_request (change_config config c)
resume exited c = c

-- An event that does not fit the state of the loop changes nothing.
unfoldable pub step : Event → Coordination → Coordination
unfolding handle_request resume register_all
step (says wid m) c = record c {
  state = record (c.state) { worker_states = (worker_comm_inbound wid m c.state.worker_states).0 };
}
step registers c = elim c.wait [
  | registered ids ↦ c
  | unregistered cs ↦
      let (ids, next, states) = register_all cs c.next_oneshot c.state.worker_states in
      record c {
        wait = registered ids;
        next_oneshot = next;
        state = record (c.state) { worker_states = states };
      }
]
step resumes c = elim c.wait [
  | unregistered cs ↦ c
  | registered ids ↦
      if all (λ id. is_completed id c.state.worker_states) ids then resume c.operation c else c
]
step (asks op) c = elim c.operation [ ready ↦ handle_request op c | _ ↦ c ]
step notices c = elim c.operation [
  | ready ↦
      if is_completed c.execution_complete c.state.worker_states
      then record c { operation = exited }
      else c
  | _ ↦ c
]

unfoldable pub run : List Event → Coordination → Coordination
run [] c = c
run (e ∷ es) c = run es (step e c)

-- The loop at its start: the state is that of the last committed version, if there is one, and the
-- builds are ordered.
unfoldable pub start : Option Version → SerializableCoordinatorState → Coordination
start version ser =
    let (senders, states) = setup_comm ser.active_workers (from_map ser.worker_states) in
    let info : BuildInformation = record { worker_set = keys senders; resume_snapshot = version } in
    record {
      state = record {
        worker_states = states;
        active_workers = senders;
        config_version = ser.config_version;
      };
      snapshot_version = version;
      committed = [];
      status = idle;
      operation = building;
      wait = unregistered (each_in_phase build_complete (keys senders));
      next_oneshot = 0;
      execution_complete = 0;
      sent = to_each (start_build info) (keys senders);
      answers = [];
    }
