-- ===== src/Examples/Routers.antt =====
-- Examples for the routers.
use malstrom.Base.{ℕ, none, some, [], ◌∷◌, ◌++◌, ◌≡◌, ◌⊎◌, refl, ok, arith}
use native.Mathlib.Decide.{ℕ_discrete}
use malstrom.Base.IndexMap
use malstrom.Base.IndexSet
use malstrom.Base.Rc
use malstrom.Types.{WorkerId, collect}
use malstrom.Keyed.Types.{World, new_collect}
use malstrom.Keyed.Router.States.{
  MessageRouter, CollectRouter, FinishedRouter, NormalRouter, normal, collecting, finished,
  get_version,
}
use malstrom.Keyed.Router.Routing.{route_message}
use malstrom.Keyed.Router.Lifecycle.{
  lifecycle, lifecycle_finished, finish_collect, lifecycle_collect, conclude_collect,
  set_and_emit_collect, hand_over,
}
use malstrom.Keyed.Rescale.Phases.{InRescale, finishes, collects, not_started, lifecycle-InRescale}
use malstrom.Keyed.Rescale.Routes.{held, route_two_hops, route_message_conserves}
use malstrom.Keyed.Rescale.Handover.Held.{HandedOver, RouterIsValid, finish_collect_hands_over}
use malstrom.Keyed.Rescale.Handover.Reached.{Reaches, starts, routes, cycles, Reaches-RouterIsValid}
use malstrom.Keyed.Rescale.Handover.Keys.{all_keys, lifecycle_collect-keys}
use malstrom.Keyed.Distributor.Targets.Removal.{IsRemoval, lifecycle_finished-IsRemoval}
use malstrom.Examples.{pick, old_set, new_set, message, order, no_heap, no_world, no_remotes}
use malstrom.Keyed.Distributor.{new_remote}
use malstrom.Keyed.Types.{
  Remotes, Remote, emits, transmits, net_acquire, net_data, default_remote_state, clone_collect,
  drop_collect,
}
use malstrom.Base.{inl, inr}

abbrev collector : CollectRouter ℕ ℕ ℕ
collector = record {
  version = 1;
  whitelist = 3 ∷ [];
  old_worker_set = old_set;
  new_worker_set = new_set;
  buffered = message ∷ [];
  current_collect = some (record { key = 1; collection = 0 });
  trigger = order;
}

abbrev finisher : FinishedRouter
finisher = record {
  version = 1;
  old_worker_set = old_set;
  new_worker_set = new_set;
  trigger = order;
}

abbrev starter : NormalRouter
starter = record { worker_set = old_set; version = 0 }

-- The collect message has come back, and two workers are connected.
abbrev world : World ℕ ℕ ℕ
world = record no_world {
  heap = record no_heap { collections = record { value = (5, 9 ∷ []) ∷ []; strong = 1 } ∷ [] };
}

abbrev remotes : Remotes ℕ ℕ ℕ
remotes = (1, new_remote) ∷ (2, new_remote) ∷ []

route_two_hops_example :
    (let owner = pick message.key old_set in
      let next = pick message.key new_set in
      let (routed, r, _) =
        route_message ℕ_discrete pick (finished finisher) message none owner 0 no_remotes no_heap in
      (routed ≡ some (message, owner))
      ⊎ ((routed ≡ none) × (held r ≡ held (finished finisher) ++ message ∷ []))
      ⊎ ((routed ≡ some (message, next))
          × ((route_message ℕ_discrete pick
                (normal starter)
                message
                (some (get_version {K = ℕ} {V = ℕ} {T = ℕ} (finished finisher)))
                next
                owner
                no_remotes
                no_heap).0
              ≡ some (message, next))))
route_two_hops_example =
    route_two_hops ℕ_discrete pick old_set new_set 1 (finished finisher) (normal starter) message
      none 0 no_remotes no_remotes no_heap no_heap (finishes finisher refl refl refl (refl, refl))
      (not_started starter refl (omega arith))

route_message_conserves_example :
    (let (routed, r', _) =
        route_message ℕ_discrete pick (collecting collector) message none 1 1 no_remotes no_heap in
      ((target : WorkerId) × (routed ≡ some (message, target))
        × (held r' ≡ held (collecting collector)))
      ⊎ ((routed ≡ none) × (held r' ≡ held (collecting collector) ++ message ∷ [])))
route_message_conserves_example =
    route_message_conserves ℕ_discrete pick (collecting collector) message none 1 1 no_remotes
      no_heap

-- What `lifecycle` makes of the collector: the state of key 1 and the message held back for it go to
-- worker 2, and key 3 is collected next.
abbrev collector_next : CollectRouter ℕ ℕ ℕ
collector_next = record collector {
  whitelist = [];
  buffered = [];
  current_collect = some (record { key = 3; collection = 1 });
}

abbrev world_next : World ℕ ℕ ℕ
world_next = record {
  heap = record no_heap {
    collections =
        record { value = (5, 9 ∷ []) ∷ []; strong = 0 } ∷ record { value = []; strong = 2 } ∷ [];
  };
  trace =
      transmits 2 (net_acquire (record { key = 1; collection = (5, 9 ∷ []) ∷ [] }))
      ∷ transmits 2 (net_data (record { content = message; version = 1 }))
      ∷ emits (collect (record { key = 3; collection = 1 }))
      ∷ [];
}

finish_step : finish_collect pick collector remotes world ≡ ok (collector_next, world_next)
unfolding finish_collect set_and_emit_collect hand_over new_collect drop_collect clone_collect
    IndexSet.pop Rc.try_unwrap IndexMap.get ℕ_discrete
finish_step = refl

lifecycle_step :
    lifecycle_collect pick collector remotes world ≡ ok (collecting collector_next, world_next)
unfolding lifecycle_collect conclude_collect finish_collect set_and_emit_collect hand_over
    new_collect drop_collect clone_collect IndexSet.pop Rc.try_unwrap IndexMap.get ℕ_discrete
lifecycle_step = refl

finish_collect_hands_over_example :
    HandedOver pick
      (record { key = 1; collection = 0 })
      ((5, 9 ∷ []) ∷ [])
      collector
      collector_next
      world
      world_next
unfolding Rc.try_unwrap
finish_collect_hands_over_example =
    finish_collect_hands_over pick collector collector_next remotes world world_next
      (record { key = 1; collection = 0 }) ((5, 9 ∷ []) ∷ []) (refl, tt) refl refl finish_step

lifecycle_collect-keys_example :
    all_keys (collecting collector_next) world_next ≡ all_keys (collecting collector) world
lifecycle_collect-keys_example =
    lifecycle_collect-keys pick collector (collecting collector_next) remotes world world_next
      lifecycle_step

whole_step :
    lifecycle pick (collecting collector) remotes world
    ≡ ok (collecting collector_next, remotes, world_next)
unfolding lifecycle lifecycle_collect conclude_collect finish_collect set_and_emit_collect hand_over
    new_collect drop_collect clone_collect IndexSet.pop Rc.try_unwrap IndexMap.get ℕ_discrete
whole_step = refl

-- From the collector, a call of `lifecycle` and a message.
abbrev collector_more : MessageRouter ℕ ℕ ℕ
collector_more =
    (route_message ℕ_discrete pick (collecting collector_next) message none 1 1 no_remotes
      no_heap).1

collector-Reaches : Reaches ℕ_discrete pick (collecting collector) collector_more
collector-Reaches = routes (collecting collector_next) message none 1 1 no_remotes no_heap (
    cycles (collecting collector) (collecting collector_next) remotes remotes world world_next
      whole_step starts)

Reaches-RouterIsValid_example : RouterIsValid pick collector_more
Reaches-RouterIsValid_example =
    Reaches-RouterIsValid ℕ_discrete pick (collecting collector) collector_more collector-Reaches
      (refl, tt)

lifecycle-InRescale_example : InRescale old_set new_set 1 (collecting collector_next)
lifecycle-InRescale_example =
    lifecycle-InRescale pick old_set new_set 1 (collecting collector) (collecting collector_next)
      remotes remotes world world_next whole_step (collects collector refl refl refl (refl, refl))

-- Both other workers are at version 1 and know that this one is.
abbrev done_remotes : Remotes ℕ ℕ ℕ
done_remotes = (1, done_remote) ∷ (2, done_remote) ∷ []
  where
    done_remote : Remote ℕ ℕ ℕ
    done_remote = record new_remote {
      state = record default_remote_state { last_version = some 1; last_ack_version = some 1 };
    }

lifecycle_finished-IsRemoval_example :
    IsRemoval 0 finisher done_remotes
      (lifecycle_finished finisher done_remotes no_world).0
      (lifecycle_finished finisher done_remotes no_world).1
unfolding IndexMap.get ℕ_discrete
lifecycle_finished-IsRemoval_example =
    lifecycle_finished-IsRemoval 0 finisher done_remotes no_world (refl, (refl, tt))
      ((λ e. cc), (inl refl, (inr refl, tt)))
