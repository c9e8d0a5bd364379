-- ===== src/Worker.antt =====
-- malstrom-core/src/worker/mod.rs: a worker runs its operators, and what the coordinator orders. The
-- operators are a parameter: `R` is all that they own and share, and a panic of one ends the worker. The
-- build is one without debug assertions.
pub mod Panics
pub mod Protocol
pub mod Phases
use malstrom.Base.{
  ℕ, zero, suc, ◌+◌, ltb, Bool, true, false, Option, none, some, List, [], ◌∷◌, ◌++◌, ◌&&◌, ◌≡◌,
  ◌⊎◌, inl, inr, ◌-◌, if◌then◌else◌, Result, ok, panic, ◌>>=◌, length, get_elem?,
}
use mathlib.Core.List.{reverse}
use malstrom.Base.Rc
use malstrom.Base.Rc.{Store, Handle, alloc, update_at, Shared}
use malstrom.Base.IndexSet
use malstrom.Base.IndexSet.{IndexSet}
use malstrom.Types.{
  WorkerId, OperatorId, Version, Message, Barrier, RescaleMessage, SuspendMarker, abs_barrier,
  rescale, suspend_marker,
}
use malstrom.Types.Time.{NoTime, no_time_maybe_time}
use malstrom.Channels.Output
use malstrom.Channels.Output.{Output, release}
use malstrom.Coordinator.State.{
  WorkerMessage, build_completed, execution_started, snapshot_started, snapshot_complete,
  reconfiguration_started, reconfigure_complete, execution_complete, suspend_complete, removed,
  CoordinationMessage, BuildInformation, start_build, start_execution, take_snapshot, reconfigure,
  suspend,
}
use native.Mathlib.Decide.{ℕ_discrete}

-- The root stream, the shared parts of the system messages that this worker has made, and the rest. A
-- barrier's client is the version that it writes.
pub record WorkerWorld (R : Type 0) : Type 0 where
  pub root : Output (Unit {0}) (Unit {0}) NoTime
  pub rescales : Store (Unit {0})
  pub barriers : Store Version
  pub suspends : Store (Unit {0})
  pub rest : R

-- `RunnableOperator`, by what the worker calls. A step may panic.
pub record RunnableOperator (R : Type 0) : Type 0 where
  pub operator_step : WorkerWorld R → Result (WorkerWorld R)
  pub has_queued_work : WorkerWorld R → Bool
  pub is_finalized : WorkerWorld R → Bool
  pub is_suspended : WorkerWorld R → Bool

-- `strong_count`; a handle that was given out has a place.
abbrev pub strong_count {ℓ} : {A : Type ℓ} → Handle → Store A → ℕ
strong_count h st = elim (get_elem? st h) [ none ↦ 0 | some s ↦ s.strong ]

-- The handles that `Output::send` leaves with the receivers of a system message: one for each.
abbrev pub share {ℓ} : {A : Type ℓ} → Handle → ℕ → Store A → Store A
share h n st = update_at h (λ s. record s { strong = s.strong + n }) st

-- How far a call has come: to its end, to the end of the fuel, or to a panic.
pub data Progress (A : Type 0) : Type 0 where
  done : A → Progress A
  cut : Progress A
  panicked : Progress A

abbrev pub from_result : {A : Type 0} → Result A → Progress A
from_result panic = panicked
from_result (ok a) = done a

-- What follows a call that comes to its end.
abbrev pub and_then : {A B : Type 0} → Progress A → (A → Progress B) → Progress B
and_then (done a) next = next a
and_then cut next = cut
and_then panicked next = panicked

module _ {R : Type 0} where
  -- `while op.has_queued_work() { op.step(..) }`.
  unfoldable pub work_off : ℕ → RunnableOperator R → WorkerWorld R → Progress (WorkerWorld R)
  work_off zero op w = cut
  work_off (suc fuel) op w =
      let more = and_then (from_result (op.operator_step w)) (λ w'. work_off fuel op w') in
      if op.has_queued_work w then more else done w

  -- The loop of `step`, over the operators from the last to the first.
  unfoldable pub step_operators :
      ℕ → List (RunnableOperator R) → Bool → WorkerWorld R → Progress (WorkerWorld R × Bool)
  unfolding work_off
  step_operators fuel [] all_done w = done (w, all_done)
  step_operators fuel (op ∷ ops) all_done w =
      let skipped = step_operators fuel ops all_done w in
      let stepped = and_then (from_result (op.operator_step w)) (λ v.
        and_then (work_off fuel op v)
          (λ w'. step_operators fuel ops (all_done && op.is_finalized w') w')) in
      if op.is_suspended w then skipped else stepped

  unfoldable pub step :
      ℕ → List (RunnableOperator R) → WorkerWorld R → Progress (WorkerWorld R × Bool)
  unfolding step_operators
  step fuel operators w = step_operators fuel (reverse operators) true w

  -- `while count() > 1 { schedule_fn() }`.
  unfoldable pub wait_alone :
      ℕ
      → (WorkerWorld R → ℕ)
      → (WorkerWorld R → Progress (WorkerWorld R))
      → WorkerWorld R
      → Progress (WorkerWorld R)
  wait_alone zero count schedule w = cut
  wait_alone (suc fuel) count schedule w =
      let more = and_then (schedule w) (λ w'. wait_alone fuel count schedule w') in
      if ltb 1 (count w) then more else done w

  abbrev pub into_root :
      Message (Unit {0}) (Unit {0}) NoTime → WorkerWorld R → Result (WorkerWorld R)
  into_root m w = do root ← Output.send release w.root m; ok (record w { root = root })

  -- Sending a message that the worker keeps a handle of.
  unfoldable pub send_rescale :
      IndexSet WorkerId → Version → WorkerWorld R → Result (Handle × WorkerWorld R)
  send_rescale workers version w = do
    let (h, st) = alloc tt w.rescales
    w' ← into_root (rescale (record { workers = workers; version = version; rc = h })) w
    ok (h, record w' { rescales = share h (length w.root.senders) st })

  unfoldable pub send_barrier : Version → WorkerWorld R → Result (Handle × WorkerWorld R)
  send_barrier version w = do
    let (h, st) = alloc version w.barriers
    w' ← into_root (abs_barrier (record { backend = h })) w
    ok (h, record w' { barriers = share h (length w.root.senders) st })

  unfoldable pub send_suspend : WorkerWorld R → Result (Handle × WorkerWorld R)
  send_suspend w = do
    let (h, st) = alloc tt w.suspends
    w' ← into_root (suspend_marker (record { rc = h })) w
    ok (h, record w' { suspends = share h (length w.root.senders) st })

module _ {R : Type 0} (fuel : ℕ) (operators : List (RunnableOperator R)) where
  -- `&mut || self.step()`, whose answer the waits ignore.
  abbrev pub schedule : WorkerWorld R → Progress (WorkerWorld R)
  schedule w = and_then (step fuel operators w) (λ r. done r.0)

  unfoldable pub perform_reconfig :
      IndexSet WorkerId → Version → WorkerWorld R → Progress (WorkerWorld R)
  unfolding send_rescale wait_alone
  perform_reconfig workers version w = elim (send_rescale workers version w) [
    | panic ↦ panicked
    | ok (h, w') ↦ wait_alone fuel (λ v. strong_count h v.rescales) schedule w'
  ]

  unfoldable pub perform_snapshot : Version → WorkerWorld R → Progress (WorkerWorld R)
  unfolding send_barrier wait_alone
  perform_snapshot version w = elim (send_barrier version w) [
    | panic ↦ panicked
    | ok (h, w') ↦ wait_alone fuel (λ v. strong_count h v.barriers) schedule w'
  ]

  unfoldable pub perform_suspend : WorkerWorld R → Progress (WorkerWorld R)
  unfolding send_suspend wait_alone
  perform_suspend w = elim (send_suspend w) [
    | panic ↦ panicked
    | ok (h, w') ↦ wait_alone fuel (λ v. strong_count h v.suspends) schedule w'
  ]

-- Why the messages of a run end: the job is complete, the worker has left it or is suspended, the run
-- is only looked at so far, or the worker panics; these two with the order that is being obeyed, if any.
pub data Ended : Type 0 where
  job_complete : Ended
  has_left : Ended
  is_halted : Ended
  under_way : Option CoordinationMessage → Ended
  in_panic : Option CoordinationMessage → Ended

-- A message in front of those of the rest of a run.
abbrev pub told : List WorkerMessage → List WorkerMessage × Ended → List WorkerMessage × Ended
told ms (more, ended) = (ms ++ more, ended)

-- What follows a wait, which may not have ended.
abbrev pub afterwards :
    {A : Type 0}
    → CoordinationMessage
    → Progress A
    → (A → List WorkerMessage × Ended)
    → List WorkerMessage × Ended
afterwards order (done a) next = next a
afterwards order cut next = ([], under_way (some order))
afterwards order panicked next = ([], in_panic (some order))

module _ {R : Type 0} (fuel : ℕ) (operators : List (RunnableOperator R))
    (worker_id : WorkerId) where
  -- The `match` on an order; `continue_` is the rest of the loop.
  unfoldable pub obey :
      CoordinationMessage
      → (WorkerWorld R → List WorkerMessage × Ended)
      → WorkerWorld R
      → List WorkerMessage × Ended
  obey (start_build info) continue_ w = ([], in_panic (some (start_build info)))
  obey start_execution continue_ w = ([], in_panic (some start_execution))
  obey (take_snapshot version) continue_ w = told (snapshot_started ∷ []) (
      afterwards (take_snapshot version) (perform_snapshot fuel operators version w)
        (λ w'. told (snapshot_complete version ∷ []) (continue_ w')))
  obey (reconfigure workers version) continue_ w = told (reconfiguration_started ∷ []) (
      afterwards (reconfigure workers version) (perform_reconfig fuel operators workers version w)
        (λ w'. told (reconfigure_complete version ∷ []) (
          if IndexSet.contains ℕ_discrete worker_id workers
          then continue_ w'
          else (removed ∷ [], has_left))))
  obey suspend continue_ w =
      afterwards suspend (perform_suspend fuel operators w)
        (λ w'. (suspend_complete ∷ [], is_halted))

  -- The loop of `execute`: one entry for each `coordinator.recv()`. When the entries are spent the run
  -- is not looked at any further.
  unfoldable pub execute_loop :
      List (Option CoordinationMessage) → WorkerWorld R → List WorkerMessage × Ended
  unfolding obey
  execute_loop [] w = ([], under_way none)
  execute_loop (received ∷ rest) w = elim (step fuel operators w) [
    | cut ↦ ([], under_way none)
    | panicked ↦ ([], in_panic none)
    | done (w', true) ↦ (execution_complete ∷ [], job_complete)
    | done (w', false) ↦ elim received [
      | none ↦ execute_loop rest w'
      | some order ↦ obey order (execute_loop rest) w'
    ]
  ]

  -- `Worker::execute`.
  unfoldable pub execute :
      List (Option CoordinationMessage) → WorkerWorld R → List WorkerMessage × Ended
  unfolding execute_loop
  execute received w = told (execution_started ∷ []) (execute_loop received w)

-- `WorkerExecutionError`, as far as `WorkerBuilder::execute` makes one itself.
pub data WorkerExecutionError : Type 0 where
  unfinished_streams : ℕ → WorkerExecutionError
  non_unique_name : OperatorId → WorkerExecutionError

-- The operators are built in their order, and each id must be new: the first that is not, if any. The
-- source names it by the operator's name, which the id is a hash of.
unfoldable pub find_repeated : IndexSet OperatorId → List OperatorId → Option OperatorId
find_repeated seen [] = none
find_repeated seen (id ∷ ids) =
    let rest = find_repeated (id ∷ seen) ids in
    if IndexSet.contains ℕ_discrete id seen then some id else rest

-- `WorkerBuilder::execute`, from the count of the shared builder and the operators' ids: what is told
-- the coordinator and how that ends, or an error before anything is told. `start` is the world once
-- the operators are built from the build information.
unfoldable pub execute_worker :
    {R : Type 0}
    → ℕ
    → WorkerId
    → ℕ
    → List OperatorId
    → (BuildInformation → List (RunnableOperator R) × WorkerWorld R)
    → List CoordinationMessage
    → List (Option CoordinationMessage)
    → (List WorkerMessage × Ended) ⊎ WorkerExecutionError
unfolding find_repeated
execute_worker fuel worker_id ref_count ids build first received =
    if ltb 1 ref_count then inr (unfinished_streams (ref_count - 1)) else elim first [
      | [] ↦ inl ([], under_way none)
      | start_build info ∷ next ↦ elim (find_repeated [] ids) [
        | some id ↦ inr (non_unique_name id)
        | none ↦ inl (
            told (build_completed ∷ []) (elim next [
              | [] ↦ ([], under_way none)
              | start_execution ∷ later ↦
                  let (operators, w) = build info in execute fuel operators worker_id received w
              | _ ∷ later ↦ ([], in_panic none)
            ]))
      ]
      | _ ∷ next ↦ inl ([], in_panic none)
    ]
