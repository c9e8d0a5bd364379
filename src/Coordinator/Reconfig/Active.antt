-- ===== src/Coordinator/Reconfig/Active.antt =====
-- malstrom-core/src/coordinator/coordinator.rs: the workers that are active after a reconfiguration.
use malstrom.Base.{Bool, not, ◌&&◌, ◌||◌, some, List, [], ◌∷◌, ◌≡◌, refl, subst, sym, arith}
use malstrom.Base.IndexMap
use malstrom.Base.IndexMap.{
  IndexMap, keys, get-insert, insert-Distinct, get-swap_remove, swap_remove-Distinct,
}
use malstrom.Base.IndexSet
use malstrom.Base.IndexSet.{IndexSet}
use malstrom.Types.{WorkerId}
use malstrom.Coordinator.WatchMap
use malstrom.Coordinator.State.{WorkerStates, CoordinatorState, default_worker_state}
use malstrom.Coordinator.Reconfig.{
  filter, setup_comm, merge_maps, add_workers, remove_workers, finish_reconfig, next_version,
  new_workers,
}
use native.Mathlib.Decide.{ℕ_discrete}

contains-filter :
    (p : WorkerId → Bool) (k : WorkerId) (xs : List WorkerId)
    → IndexSet.contains ℕ_discrete k (filter p xs) ≡ IndexSet.contains ℕ_discrete k xs && p k
unfolding filter IndexSet.contains
contains-filter p k [] = refl
contains-filter p k (x ∷ xs) = ground (arith, contains-filter p k xs)

contains-keys :
    (k : WorkerId) (m : IndexMap WorkerId WorkerId)
    → IndexSet.contains ℕ_discrete k (keys m) ≡ IndexMap.contains_key ℕ_discrete k m
unfolding IndexMap.get IndexSet.contains
contains-keys k [] = refl
contains-keys k ((j, v) ∷ m) = ground (arith, contains-keys k m)

contains_key-setup_comm :
    (k : WorkerId) (wids : List WorkerId) (states : WorkerStates)
    → IndexMap.contains_key ℕ_discrete k (setup_comm wids states).0
      ≡ IndexSet.contains ℕ_discrete k wids
unfolding setup_comm IndexMap.get IndexSet.contains
contains_key-setup_comm k [] states = refl
contains_key-setup_comm k (wid ∷ wids) states = ground (
  arith,
  contains_key-setup_comm k wids (WatchMap.insert ℕ_discrete wid default_worker_state states).1,
)

contains_key-merge_maps :
    (k : WorkerId) (a b : IndexMap WorkerId WorkerId)
    → IndexMap.contains_key ℕ_discrete k (merge_maps a b)
      ≡ IndexMap.contains_key ℕ_discrete k a || IndexMap.contains_key ℕ_discrete k b
unfolding merge_maps IndexMap.get
contains_key-merge_maps k a [] = ground arith
contains_key-merge_maps k a ((j, v) ∷ b) = ground (
  arith,
  contains_key-merge_maps k (IndexMap.insert ℕ_discrete j v a) b,
  get-insert ℕ_discrete j k v a,
)

merge_maps-Distinct :
    (b a : IndexMap WorkerId WorkerId)
    → IndexMap.Distinct ℕ_discrete a
    → IndexMap.Distinct ℕ_discrete (merge_maps a b)
unfolding merge_maps
merge_maps-Distinct [] a d = d
merge_maps-Distinct ((j, v) ∷ b) a d =
    merge_maps-Distinct b (IndexMap.insert ℕ_discrete j v a) (insert-Distinct ℕ_discrete j v a d)

contains_key-remove_workers :
    (k : WorkerId) (wids : List WorkerId) (s : CoordinatorState)
    → IndexMap.Distinct ℕ_discrete s.active_workers
    → IndexMap.contains_key ℕ_discrete k (remove_workers wids s).active_workers
      ≡ IndexMap.contains_key ℕ_discrete k s.active_workers
        && not (IndexSet.contains ℕ_discrete k wids)
unfolding remove_workers IndexSet.contains
contains_key-remove_workers k [] s d = ground arith
contains_key-remove_workers k (wid ∷ wids) s d = ground (
  arith,
  contains_key-remove_workers k wids
      (record s {
        worker_states = (WatchMap.remove ℕ_discrete wid s.worker_states).1;
        active_workers = IndexMap.swap_remove ℕ_discrete wid s.active_workers;
      })
      (swap_remove-Distinct ℕ_discrete wid s.active_workers d),
  get-swap_remove ℕ_discrete wid k s.active_workers d,
)

contains_key-add_workers :
    (k : WorkerId) (config : IndexSet WorkerId) (s : CoordinatorState)
    → IndexMap.contains_key ℕ_discrete k (add_workers config s).active_workers
      ≡ IndexMap.contains_key ℕ_discrete k s.active_workers || IndexSet.contains ℕ_discrete k config
unfolding add_workers
contains_key-add_workers k config s = ground (
  arith,
  contains_key-merge_maps k s.active_workers (setup_comm (new_workers s config) s.worker_states).0,
  contains_key-setup_comm k (new_workers s config) s.worker_states,
  contains-filter (λ wid. not (IndexMap.contains_key ℕ_discrete wid s.active_workers)) k config,
)

add_workers-Distinct :
    (config : IndexSet WorkerId) (s : CoordinatorState)
    → IndexMap.Distinct ℕ_discrete s.active_workers
    → IndexMap.Distinct ℕ_discrete (add_workers config s).active_workers
unfolding add_workers
add_workers-Distinct config s d =
    merge_maps-Distinct (setup_comm (new_workers s config) s.worker_states).0 s.active_workers d

-- After `perform_reconfig_all` the active workers are exactly those of the new configuration,
-- whichever workers were active before, and the configuration version is the next one. `waited` is
-- the state when the last wait is over: meanwhile only the worker states have changed. No worker was
-- active twice.
pub finish_reconfig-active :
    (config : IndexSet WorkerId) (s waited : CoordinatorState)
    → IndexMap.Distinct ℕ_discrete s.active_workers
    → waited.active_workers ≡ (add_workers config s).active_workers
    → waited.config_version ≡ s.config_version
    → ((k : WorkerId)
        → IndexMap.contains_key ℕ_discrete k (finish_reconfig config waited).active_workers
          ≡ IndexSet.contains ℕ_discrete k config)
      × ((finish_reconfig config waited).config_version ≡ some (next_version s.config_version))
unfolding finish_reconfig
finish_reconfig-active config s waited d same version = (
  λ k. ground (
    arith,
    contains_key-remove_workers k
        (filter (λ wid. not (IndexSet.contains ℕ_discrete wid config)) (keys waited.active_workers))
        waited (subst (IndexMap.Distinct ℕ_discrete) (sym same) (add_workers-Distinct config s d)),
    contains-filter (λ wid. not (IndexSet.contains ℕ_discrete wid config)) k
        (keys waited.active_workers),
    contains-keys k waited.active_workers,
    same,
    contains_key-add_workers k config s,
  ),
  rw version refl,
)
