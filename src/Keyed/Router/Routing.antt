-- ===== src/Keyed/Router/Routing.antt =====
-- `route_message` of the four routers and of `MessageRouter`: where a data message goes. The
-- `debug_assert!` of the normal router is absent from a release build and is left out.
use malstrom.Base.{
  Bool, true, false, Option, none, some, [], ◌∷◌, ◌++◌, ltb, ◌==◌, if◌then◌else◌, ite,
}
use malstrom.Base.IndexMap
use malstrom.Base.IndexSet
use malstrom.Base.IndexSet.{IndexSet}
use malstrom.Types.{WorkerId, Version, DataMessage, Collect}
use malstrom.Keyed.Types.{Heap, Remotes, WorkerPartitioner, add_keys}
use native.Mathlib.Decide.{ℕ_discrete}
use malstrom.Keyed.Router.States.{
  InterrogateRouter, CollectRouter, FinishedRouter, MessageRouter, normal, interrogating,
  collecting, finished, get_version,
}

abbrev pub is_version : Option Version → Version → Bool
is_version none v = false
is_version (some u) v = u == v

abbrev pub is_higher : Option Version → Version → Bool
is_higher none v = false
is_higher (some u) v = ltb v u

module _ {K : Type 0} (dec : Discrete K) where
  abbrev pub is_held : Option (Collect K) → K → Bool
  is_held none key = false
  is_held (some c) key = ite (dec c.key key) true false

module _ {K : Type 0} (dec : Discrete K) (partitioner : WorkerPartitioner K) where
  -- Rule 1.1 notes the key: its state moves. The rules test whether the old and the new target are
  -- this worker.
  unfoldable pub route_interrogate : InterrogateRouter K → K → WorkerId → Heap K → WorkerId × Heap K
  route_interrogate r key this_worker h =
      let old_target = partitioner key r.old_worker_set in
      let new_target = partitioner key r.new_worker_set in
      if old_target == this_worker
      then (if new_target == this_worker
          then (this_worker, h)
          else (this_worker, add_keys dec r.interrogate_msg (key ∷ []) h))
      else (old_target, h)

module _ {K V T : Type 0} (dec : Discrete K) (partitioner : WorkerPartitioner K) where
  unfoldable pub route_collect :
      CollectRouter K V T
      → DataMessage K V T
      → WorkerId
      → WorkerId
      → Option (DataMessage K V T × WorkerId) × CollectRouter K V T
  route_collect r msg this_worker sender =
      let new_target = partitioner msg.key r.new_worker_set in
      let old_target = partitioner msg.key r.old_worker_set in
      if new_target == this_worker
      then (if old_target == sender
          then (some (msg, this_worker), r)
          else (some (msg, old_target), r))
      else if IndexSet.contains dec msg.key r.whitelist
      then (some (msg, this_worker), r)
      else if is_held dec r.current_collect msg.key
      then (none, record r { buffered = r.buffered ++ msg ∷ [] })
      else (some (msg, new_target), r)

  unfoldable pub remote_is_at : WorkerId → Version → Remotes K V T → Bool
  remote_is_at wid v remotes = elim (IndexMap.get ℕ_discrete wid remotes) [
    | none ↦ false
    | some r ↦ is_version r.state.last_version v
  ]

  unfoldable pub route_finished :
      FinishedRouter → K → WorkerId → WorkerId → Remotes K V T → WorkerId
  unfolding remote_is_at
  route_finished r key this_worker sender remotes =
      let new_target = partitioner key r.new_worker_set in
      let old_target = partitioner key r.old_worker_set in
      if new_target == this_worker
      then (if old_target == new_target
          then new_target
          else if old_target == sender
          then this_worker
          else if remote_is_at old_target r.version remotes
          then new_target
          else old_target)
      else new_target

  -- The `match` of `MessageRouter::route_message`.
  unfoldable pub route_in_state :
      MessageRouter K V T
      → DataMessage K V T
      → WorkerId
      → WorkerId
      → Remotes K V T
      → Heap K
      → Option (DataMessage K V T × WorkerId) × MessageRouter K V T × Heap K
  unfolding route_interrogate route_collect route_finished
  route_in_state (normal r) msg this_worker sender remotes h =
      (some (msg, partitioner msg.key r.worker_set), normal r, h)
  route_in_state (interrogating r) msg this_worker sender remotes h =
      let (target, h') = route_interrogate dec partitioner r msg.key this_worker h in
      (some (msg, target), interrogating r, h')
  route_in_state (collecting r) msg this_worker sender remotes h =
      let (routed, r') = route_collect r msg this_worker sender in (routed, collecting r', h)
  route_in_state (finished r) msg this_worker sender remotes h =
      (some (msg, route_finished r msg.key this_worker sender remotes), finished r, h)

  -- `MessageRouter::route_message`: the message with its target, or nothing if it is buffered.
  -- `msg_version` is the sender's configuration, or nothing for a local message.
  unfoldable pub route_message :
      MessageRouter K V T
      → DataMessage K V T
      → Option Version
      → WorkerId
      → WorkerId
      → Remotes K V T
      → Heap K
      → Option (DataMessage K V T × WorkerId) × MessageRouter K V T × Heap K
  unfolding route_in_state
  route_message router msg msg_version this_worker sender remotes h =
      if is_higher msg_version (get_version router)
      then (some (msg, this_worker), router, h)
      else route_in_state router msg this_worker sender remotes h
