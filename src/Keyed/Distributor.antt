-- ===== src/Keyed/Distributor.antt =====
-- malstrom-core/src/keyed/distributed.rs: the operator that distributes a keyed stream over the
-- workers. Its dealings with the surroundings are the effects of a `World`; `worker_id` is the
-- worker that it runs on.
pub mod Messages
pub mod Alignment
pub mod Targets
pub mod Epochs
pub mod Pending
use mathlib.Core.Option
use malstrom.Base.{
  ℕ, Bool, true, false, not, Option, none, some, List, [], ◌∷◌, ◌++◌, map, ◌&&◌, ◌||◌, ◌==◌, all,
  if◌then◌else◌, is_some, is_none, Result, ok, panic, ◌>>=◌, expect, length,
}
use malstrom.Base.IndexMap
use malstrom.Base.IndexMap.{IndexMap, keys, values}
use malstrom.Base.IndexSet.{IndexSet}
use malstrom.Base.Rc
use malstrom.Types.{
  WorkerId, Version, DataMessage, Message, Barrier, SuspendMarker, RescaleMessage, data_record,
  epoch, abs_barrier, rescale, suspend_marker, interrogate, collect, acquire,
}
use malstrom.Types.Time.{MaybeTime}
use malstrom.Types.Merge.{merge_timestamps}
use malstrom.Channels.Input
use malstrom.Channels.Input.{Input}
use malstrom.Keyed.Types.{
  Heap, World, Remote, RemoteState, Remotes, WorkerPartitioner, NetworkMessage, NetworkDataMessage,
  net_data, net_epoch, barrier_marker, net_suspend_marker, net_acquire, upgrade, ack_upgrade, emit,
  transmit, broadcast, default_remote_state, from_network, drop_interrogate, drop_collect,
  drop_acquire,
}
use native.Mathlib.Decide.{ℕ_discrete}
use malstrom.Keyed.Router.States.{NormalRouter, MessageRouter, normal, new_normal, get_version}
use malstrom.Keyed.Router.Routing.{route_message}
use malstrom.Keyed.Router.Lifecycle
use malstrom.Keyed.Router.Lifecycle.{lifecycle}

pub record Distributor (K V T : Type 0) : Type 0 where
  pub router : MessageRouter K V T
  pub remotes : Remotes K V T
  pub local_barrier : Option Barrier
  pub local_shutdown : Option SuspendMarker
  pub local_frontier : Option T

-- A connection that has been opened and has delivered nothing.
abbrev pub new_remote : {K V T : Type 0} → Remote K V T
new_remote = record { inbox = []; state = default_remote_state }

-- The workers other than this one.
abbrev pub others : WorkerId → List WorkerId → List WorkerId
others this_worker [] = []
others this_worker (wid ∷ wids) =
    let rest = others this_worker wids in if wid == this_worker then rest else wid ∷ rest

module _ {K V T : Type 0} where
  -- `create_remotes`.
  abbrev pub create_remotes : List WorkerId → Remotes K V T
  create_remotes = map (λ wid. (wid, new_remote))

  -- `Distributor::new`, from the workers of the build and the state that was loaded, if any.
  unfoldable pub new_distributor :
      WorkerId
      → IndexSet WorkerId
      → Option (NormalRouter × IndexMap WorkerId (RemoteState T) × Option T)
      → Result (Distributor K V T)
  new_distributor this_worker workers none = ok (record {
    router = normal (new_normal workers 0);
    remotes = create_remotes (others this_worker workers);
    local_barrier = none;
    local_shutdown = none;
    local_frontier = none;
  })
  new_distributor this_worker workers (some (router, states, frontier)) =
      if length states == length (others this_worker workers)
      then ok (record {
        router = normal router;
        remotes = create_remotes (others this_worker workers);
        local_barrier = none;
        local_shutdown = none;
        local_frontier = frontier;
      })
      else panic

  -- One message from each remote that is neither barred nor suspended.
  unfoldable pub poll : Remotes K V T → List (WorkerId × NetworkMessage K V T) × Remotes K V T
  poll [] = ([], [])
  poll ((wid, r) ∷ rs) =
      let (msgs, rs') = poll rs in
      if r.state.is_barred || r.state.sent_suspend then (msgs, (wid, r) ∷ rs') else elim r.inbox [
        | [] ↦ (msgs, (wid, r) ∷ rs')
        | m ∷ ms ↦ ((wid, m) ∷ msgs, (wid, record r { inbox = ms }) ∷ rs')
      ]

  -- `self.remotes.get_mut(&wid).unwrap().1`, with the change made to it.
  unfoldable pub change_remote :
      WorkerId → (RemoteState T → RemoteState T) → Distributor K V T → Result (Distributor K V T)
  change_remote wid f d = do
    _ ← expect (IndexMap.get ℕ_discrete wid d.remotes)
    ok (record d {
      remotes = IndexMap.modify ℕ_discrete wid (λ r. record r { state = f r.state }) d.remotes;
    })

  -- `send_data_message`.
  unfoldable pub send_data_message :
      WorkerId
      → DataMessage K V T
      → WorkerId
      → Distributor K V T
      → World K V T
      → Result (World K V T)
  send_data_message this_worker message target d w =
      if target == this_worker then ok (emit (data_record message) w) else do
        _ ← expect (IndexMap.get ℕ_discrete target d.remotes)
        ok (
            transmit target
              (net_data (record { content = message; version = get_version d.router })) w)

  -- `handle_local_barrier`.
  unfoldable pub handle_local_barrier :
      Barrier → Distributor K V T → World K V T → Distributor K V T × World K V T
  handle_local_barrier b d w =
      (record d { local_barrier = some b }, broadcast (keys d.remotes) barrier_marker w)

  -- The loop of `handle_rescale_message`: connections to the workers that are new.
  unfoldable pub connect : WorkerId → List WorkerId → Remotes K V T → Remotes K V T
  connect this_worker [] remotes = remotes
  connect this_worker (wid ∷ wids) remotes = connect this_worker wids (
      if not (IndexMap.contains_key ℕ_discrete wid remotes) && not (wid == this_worker)
      then IndexMap.insert ℕ_discrete wid new_remote remotes
      else remotes)

  -- `try_emit_barrier` and `try_emit_shutdown`.
  abbrev pub is_aligned : Remote K V T → Bool
  is_aligned r = r.state.is_barred || r.state.sent_suspend

  abbrev pub unbar : Remote K V T → Remote K V T
  unbar r = record r { state = record r.state { is_barred = false } }

  unfoldable pub try_emit_barrier :
      Distributor K V T → World K V T → Distributor K V T × World K V T
  try_emit_barrier d w = elim d.local_barrier [
    | none ↦ (d, w)
    | some b ↦
        if all is_aligned (values d.remotes)
        then (
          record d { local_barrier = none; remotes = map (λ e. (e.0, unbar e.1)) d.remotes },
          emit (abs_barrier b) w,
        )
        else (d, w)
  ]

  unfoldable pub try_emit_shutdown :
      Distributor K V T → World K V T → Distributor K V T × World K V T
  try_emit_shutdown d w = elim d.local_shutdown [
    | none ↦ (d, w)
    | some m ↦
        if all (λ r. r.state.sent_suspend) (values d.remotes)
        then (record d { local_shutdown = none }, emit (suspend_marker m) w)
        else (d, w)
  ]

  -- An assignment to `local_shutdown` drops the marker that was there.
  unfoldable pub set_shutdown :
      SuspendMarker → Distributor K V T → World K V T → Distributor K V T × World K V T
  set_shutdown m d w = (
    record d { local_shutdown = some m },
    elim d.local_shutdown [
      | none ↦ w
      | some old ↦ record w { heap = record w.heap { suspends = Rc.drop old.rc w.heap.suspends } }
    ],
  )
