-- ===== src/Coordinator/Reconfig.antt =====
-- malstrom-core/src/coordinator/coordinator.rs, `perform_reconfig_all` and what it calls: the job
-- changes to another set of workers. The function waits in four places; between these it is cut
-- into steps, and what it waits for is a condition on the worker states.
pub mod Active
use malstrom.Base.{
  ℕ, suc, ◌+◌, ◌%◌, ◌^◌, Bool, true, false, not, Option, none, some, List, [], ◌∷◌, ◌++◌, map,
  if◌then◌else◌, ◌≡◌,
}
use malstrom.Base.IndexMap
use malstrom.Base.IndexMap.{IndexMap, keys}
use malstrom.Base.IndexSet
use malstrom.Base.IndexSet.{IndexSet}
use malstrom.Types.{WorkerId, Version}
use malstrom.Coordinator.WatchMap
use malstrom.Coordinator.State.{
  WorkerState, WorkerStates, CoordinatorState, CoordinationMessage, start_build, start_execution,
  reconfigure, take_snapshot, suspend, default_worker_state,
}
use native.Mathlib.Decide.{ℕ_discrete}

-- The messages of a step, each with its worker.
abbrev pub Sent : Type 0
Sent = List (WorkerId × CoordinationMessage)

-- Elements that pass a test, `iter().filter(..)`.
unfoldable pub filter : {A : Type 0} → (A → Bool) → List A → List A
filter p [] = []
filter p (x ∷ xs) = let rest = filter p xs in if p x then x ∷ rest else rest

-- `setup_comm`, when no connection fails: a sender for each worker, whose state becomes unknown.
unfoldable pub setup_comm : List WorkerId → WorkerStates → IndexMap WorkerId WorkerId × WorkerStates
setup_comm [] states = ([], states)
setup_comm (wid ∷ wids) states =
    let (senders, states') =
      setup_comm wids (WatchMap.insert ℕ_discrete wid default_worker_state states).1 in
    ((wid, wid) ∷ senders, states')

-- `merge_maps`.
unfoldable pub merge_maps :
    IndexMap WorkerId WorkerId → IndexMap WorkerId WorkerId → IndexMap WorkerId WorkerId
merge_maps a [] = a
merge_maps a ((k, v) ∷ b) = merge_maps (IndexMap.insert ℕ_discrete k v a) b

-- `for nw in new_workers { worker_states.insert(*nw, WorkerState::default()) }`.
unfoldable pub insert_all : List WorkerId → WorkerStates → WorkerStates
insert_all [] states = states
insert_all (wid ∷ wids) states =
    insert_all wids (WatchMap.insert ℕ_discrete wid default_worker_state states).1

abbrev pub new_workers : CoordinatorState → IndexSet WorkerId → List WorkerId
new_workers s config =
    filter (λ wid. not (IndexMap.contains_key ℕ_discrete wid s.active_workers)) config

-- Up to the builds of the new workers.
unfoldable pub add_workers : IndexSet WorkerId → CoordinatorState → CoordinatorState
unfolding setup_comm insert_all merge_maps
add_workers config s =
    let (senders, states) = setup_comm (new_workers s config) s.worker_states in
    record s {
      worker_states = insert_all (new_workers s config) states;
      active_workers = merge_maps s.active_workers senders;
    }

-- `state.config_version.map(|x| x + 1).unwrap_or_default()`; u64 in the source, where the addition
-- panics in a debug build and wraps in a release build past 2 ^ 64 - 1.
abbrev pub next_version : Option Version → Version
next_version none = 0
next_version (some v) = (v + 1) % 2 ^ 64

-- The orders to every active worker.
unfoldable pub order_reconfig : IndexSet WorkerId → CoordinatorState → Sent
order_reconfig config s =
    map (λ wid. (wid, reconfigure config (next_version s.config_version))) (keys s.active_workers)

-- After the waits: the workers that are not in the configuration are forgotten.
unfoldable pub remove_workers : List WorkerId → CoordinatorState → CoordinatorState
remove_workers [] s = s
remove_workers (wid ∷ wids) s = remove_workers wids (record s {
  worker_states = (WatchMap.remove ℕ_discrete wid s.worker_states).1;
  active_workers = IndexMap.swap_remove ℕ_discrete wid s.active_workers;
})

unfoldable pub finish_reconfig : IndexSet WorkerId → CoordinatorState → CoordinatorState
unfolding remove_workers
finish_reconfig config s =
    let to_remove =
      filter (λ wid. not (IndexSet.contains ℕ_discrete wid config)) (keys s.active_workers) in
    let s' = remove_workers to_remove s in
    record s' { config_version = some (next_version s.config_version) }
