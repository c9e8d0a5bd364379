-- ===== src/Keyed/Distributor/Messages.antt =====
-- malstrom-core/src/keyed/distributed.rs: the handlers of a distributor, and `run`.
use malstrom.Base.{true, Option, none, some, List, [], ◌∷◌, ◌++◌, map, Result, ok, ◌>>=◌}
use malstrom.Base.IndexMap.{keys, values}
use malstrom.Types.{
  WorkerId, Version, DataMessage, Message, RescaleMessage, data_record, epoch, abs_barrier, rescale,
  suspend_marker, interrogate, collect, acquire,
}
use malstrom.Types.Time.{MaybeTime}
use malstrom.Types.Merge.{merge_timestamps}
use malstrom.Channels.Input
use malstrom.Channels.Input.{Input}
use malstrom.Keyed.Types.{
  World, WorkerPartitioner, NetworkMessage, net_data, net_epoch, barrier_marker, net_suspend_marker,
  net_acquire, upgrade, ack_upgrade, emit, transmit, broadcast, from_network, drop_interrogate,
  drop_collect, drop_acquire,
}
use malstrom.Keyed.Router.Routing.{route_message}
use malstrom.Keyed.Router.Lifecycle
use malstrom.Keyed.Distributor.{
  Distributor, poll, change_remote, send_data_message, handle_local_barrier, connect,
  try_emit_barrier, try_emit_shutdown, set_shutdown,
}

module _ {K V T : Type 0} where
  -- `handle_rescale_message`: connections to the workers that are new, then the router.
  unfoldable pub handle_rescale_message :
      WorkerPartitioner K
      → WorkerId
      → RescaleMessage
      → Distributor K V T
      → World K V T
      → Distributor K V T × World K V T
  handle_rescale_message partitioner this_worker msg d w =
      let (router, w') = Lifecycle.handle_rescale partitioner d.router msg w in
      (record d { router = router; remotes = connect this_worker msg.workers d.remotes }, w')

module _ {K V T : Type 0} ⦃t : MaybeTime T⦄ where
  -- `handle_epoch`.
  abbrev pub frontiers : Distributor K V T → List (Option T)
  frontiers d = map (λ r. r.state.frontier) (values d.remotes) ++ d.local_frontier ∷ []

  unfoldable pub handle_epoch : Distributor K V T → World K V T → World K V T
  handle_epoch d w = elim (merge_timestamps (frontiers d)) [ none ↦ w | some e ↦ emit (epoch e) w ]

module _ {K V T : Type 0} (dec : Discrete K) (partitioner : WorkerPartitioner K) where
  -- `handle_local_data_message` and `handle_remote_data_message`, by the version and the sender.
  unfoldable pub handle_data_message :
      WorkerId
      → DataMessage K V T
      → Option Version
      → WorkerId
      → Distributor K V T
      → World K V T
      → Result (Distributor K V T × World K V T)
  handle_data_message this_worker message version sender d w =
      let (routing, router, heap) =
        route_message dec partitioner d.router message version this_worker sender d.remotes
          w.heap in
      let d' = record d { router = router } in
      let w' = record w { heap = heap } in
      elim routing [
        | none ↦ ok (d', w')
        | some (msg, target) ↦ do w'' ← send_data_message this_worker msg target d' w'; ok (d', w'')
      ]

module _ {K V T : Type 0} (partitioner : WorkerPartitioner K) where
  -- The end of `run`: what may be emitted now, and the life cycle of the router.
  unfoldable pub settle : Distributor K V T → World K V T → Result (Distributor K V T × World K V T)
  settle d w =
      let (d₁, w₁) = try_emit_barrier d w in
      let (d₂, w₂) = try_emit_shutdown d₁ w₁ in
      do
        (router, remotes, w₃) ← Lifecycle.lifecycle partitioner d₂.router d₂.remotes w₂
        ok (record d₂ { router = router; remotes = remotes }, w₃)

module _ {K V T : Type 0} ⦃t : MaybeTime T⦄ (dec : Discrete K)
    (partitioner : WorkerPartitioner K) where
  -- The `match` on a message from another worker.
  unfoldable pub handle_remote_message :
      WorkerId
      → WorkerId
      → NetworkMessage K V T
      → Distributor K V T
      → World K V T
      → Result (Distributor K V T × World K V T)
  handle_remote_message this_worker wid (net_data message) d w =
      handle_data_message dec partitioner this_worker message.content (some message.version) wid d w
  handle_remote_message this_worker wid (net_epoch e) d w = do
    d' ← change_remote wid (λ s. record s { frontier = some e }) d
    ok (d', handle_epoch d' w)
  handle_remote_message this_worker wid barrier_marker d w = do
    d' ← change_remote wid (λ s. record s { is_barred = true }) d
    ok (d', w)
  handle_remote_message this_worker wid net_suspend_marker d w = do
    d' ← change_remote wid (λ s. record s { sent_suspend = true }) d
    ok (d', w)
  handle_remote_message this_worker wid (net_acquire n) d w =
      let (a, heap) = from_network n w.heap in ok (d, emit (acquire a) (record w { heap = heap }))
  handle_remote_message this_worker wid (upgrade version) d w = do
    d' ← change_remote wid (λ s. record s { last_version = some version }) d
    ok (d', transmit wid (ack_upgrade version) w)
  handle_remote_message this_worker wid (ack_upgrade version) d w = do
    d' ← change_remote wid (λ s. record s { last_ack_version = some version }) d
    ok (d', w)

  -- The loop over the messages that were collected.
  unfoldable pub handle_all :
      WorkerId
      → List (WorkerId × NetworkMessage K V T)
      → Distributor K V T
      → World K V T
      → Result (Distributor K V T × World K V T)
  handle_all this_worker [] d w = ok (d, w)
  handle_all this_worker ((wid, msg) ∷ msgs) d w = do
    (d', w') ← handle_remote_message this_worker wid msg d w
    handle_all this_worker msgs d' w'

  -- The `match` on a message from the local upstream.
  unfoldable pub handle_local_message :
      WorkerId
      → Message K V T
      → Distributor K V T
      → World K V T
      → Result (Distributor K V T × World K V T)
  handle_local_message this_worker (data_record msg) d w =
      handle_data_message dec partitioner this_worker msg none this_worker d w
  handle_local_message this_worker (epoch e) d w =
      let d' = record d { local_frontier = some e } in
      ok (d', handle_epoch d' (broadcast (keys d.remotes) (net_epoch e) w))
  handle_local_message this_worker (abs_barrier b) d w = ok (handle_local_barrier b d w)
  handle_local_message this_worker (rescale m) d w =
      ok (handle_rescale_message partitioner this_worker m d w)
  handle_local_message this_worker (suspend_marker m) d w =
      let (d', w') = set_shutdown m d w in ok (d', broadcast (keys d.remotes) net_suspend_marker w')
  handle_local_message this_worker (interrogate i) d w =
      ok (d, record w { heap = drop_interrogate i w.heap })
  handle_local_message this_worker (collect c) d w =
      ok (d, record w { heap = drop_collect c w.heap })
  handle_local_message this_worker (acquire a) d w =
      ok (d, record w { heap = drop_acquire a w.heap })

  -- One message from the local upstream, unless a barrier is pending.
  unfoldable pub receive_local :
      WorkerId
      → Input K V T
      → Distributor K V T
      → World K V T
      → Result (Distributor K V T × Input K V T × World K V T)
  receive_local this_worker input d w = elim d.local_barrier [
    | some b ↦ ok (d, input, w)
    | none ↦ do
      (received, input') ← Input.recv input
      elim received [
        | none ↦ ok (d, input', w)
        | some msg ↦ do (d', w') ← handle_local_message this_worker msg d w; ok (d', input', w')
      ]
  ]

  -- `Distributor::run`.
  unfoldable pub run :
      WorkerId
      → Input K V T
      → Distributor K V T
      → World K V T
      → Result (Distributor K V T × Input K V T × World K V T)
  run this_worker input d w =
      let (msgs, remotes) = poll d.remotes in
      do
        (d₁, w₁) ← handle_all this_worker msgs (record d { remotes = remotes }) w
        (d₂, input', w₂) ← receive_local this_worker input d₁ w₁
        (d₃, w₃) ← settle partitioner d₂ w₂
        ok (d₃, input', w₃)
