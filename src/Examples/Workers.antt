-- ===== src/Examples/Workers.antt =====
-- Examples for workers.
use malstrom.Base.{◌++◌, ok, ℕ, false, Option, none, some, List, [], ◌∷◌, ◌≡◌, refl, arith}
use native.Mathlib.Decide.{ℕ_discrete}
use malstrom.Base.IndexMap
use malstrom.Base.Rc.{drop}
use malstrom.Channels.Output
use malstrom.Channels.Output.{Output, full_broadcast}
use malstrom.Channels.Spsc.{unbounded}
use malstrom.Coordinator.State.{
  WorkerStates, WorkerMessage, CoordinationMessage, take_snapshot, execution_started,
  default_worker_state,
}
use malstrom.Coordinator.WatchMap.{from_map}
use malstrom.Coordinator.State.Inbound.{inbound}
use malstrom.Worker.{RunnableOperator, WorkerWorld, under_way, execute, perform_snapshot, step}
use malstrom.Worker.Protocol.{Follows, replies, orders, execute-Follows}
use malstrom.Worker.Panics.{Breaks}
use malstrom.Worker.Phases.{phase_at, last_words, last_taken, execute-Known}

-- The only operator never finishes, and lets go of the first handle of each kind.
abbrev releaser : RunnableOperator ℕ
releaser = record {
  operator_step = λ w. ok (record w {
    barriers = drop 0 w.barriers;
    rescales = drop 0 w.rescales;
    suspends = drop 0 w.suspends;
  });
  has_queued_work = λ w. false;
  is_finalized = λ w. false;
  is_suspended = λ w. false;
}

-- One stream starts at the root.
abbrev fresh_world : WorkerWorld ℕ
fresh_world = record {
  root = record {
    senders = unbounded ∷ [];
    partitioner = full_broadcast;
    frontier = none;
    suspended = false;
  };
  rescales = [];
  barriers = [];
  suspends = [];
  rest = 0;
}

abbrev received : List (Option CoordinationMessage)
received = some (take_snapshot 4) ∷ none ∷ []

execute-Follows_example :
    let (ms, e) = execute 9 (releaser ∷ []) 2 received fresh_world in
    (rest : List WorkerMessage) × (ms ≡ execution_started ∷ rest)
    × Follows 2 (Breaks (releaser ∷ [])) (orders received) rest e
execute-Follows_example = execute-Follows 9 (releaser ∷ []) 2 received fresh_world

abbrev two_workers : WorkerStates
two_workers = from_map ((2, default_worker_state) ∷ (3, default_worker_state) ∷ [])

still_there : (execute 9 (releaser ∷ []) 2 received fresh_world).1 ≡ under_way none
unfolding execute perform_snapshot step Output.send Output.forward
still_there = refl

execute-Known_example :
    let (ms, e) = execute 9 (releaser ∷ []) 2 received fresh_world in
    (answered pending : List CoordinationMessage) × (orders received ≡ answered ++ pending)
    × (ms ≡ execution_started ∷ replies 2 answered ++ last_words e)
    × (IndexMap.get ℕ_discrete 2 (inbound 2 ms two_workers).store
        ≡ some (record {
          phase = phase_at e;
          snapshot_version = last_taken default_worker_state.snapshot_version answered;
        }))
    × (IndexMap.get ℕ_discrete 3 (inbound 2 ms two_workers).store
        ≡ IndexMap.get ℕ_discrete 3 two_workers.store)
unfolding IndexMap.get ℕ_discrete
execute-Known_example =
    execute-Known 9 (releaser ∷ []) 2 received fresh_world 3 two_workers default_worker_state refl
      (omega arith) (λ e. ground (arith, still_there, e))
