-- ===== src/Keyed/Router/Lifecycle.antt =====
-- `handle_rescale` and `lifecycle` of the routers: how one state follows another.
use malstrom.Base.{
  Bool, true, false, not, none, some, List, [], ◌∷◌, ◌++◌, map, ◌&&◌, ◌==◌, all, if◌then◌else◌,
  is_none, Result, ok, ◌>>=◌, expect,
}
use malstrom.Base.IndexMap
use malstrom.Base.IndexMap.{keys, values}
use malstrom.Base.IndexSet
use malstrom.Base.IndexSet.{IndexSet}
use malstrom.Base.Rc
use malstrom.Types.{
  WorkerId, OperatorId, Version, interrogate, collect, rescale, RescaleMessage, Interrogate,
}
use malstrom.Keyed.Types.{
  Bytes, Heap, World, Remote, Remotes, WorkerPartitioner, net_data, net_acquire, upgrade, transmits,
  new_interrogate, clone_interrogate, drop_interrogate, unwrap_interrogate, new_collect,
  clone_collect, drop_collect, unwrap_collect, emit, transmit, broadcast,
}
use native.Mathlib.Decide.{ℕ_discrete}
use malstrom.Keyed.Router.States.{
  InterrogateRouter, CollectRouter, FinishedRouter, MessageRouter, normal, interrogating,
  collecting, finished, new_normal, new_collect_router, new_finished,
}
use malstrom.Keyed.Router.Routing.{is_version}

module _ {K : Type 0} where
  -- `InterrogateRouter::new`: the router and the message that it sends share one set.
  unfoldable pub new_interrogate_router :
      WorkerPartitioner K
      → Version
      → IndexSet WorkerId
      → RescaleMessage
      → Heap K
      → InterrogateRouter K × Interrogate K × Heap K
  new_interrogate_router partitioner version old trigger h =
      let tester = λ (key : K). not (partitioner key old == partitioner key trigger.workers) in
      let (msg, h') = new_interrogate tester h in
      (
        record {
          version = version;
          old_worker_set = old;
          new_worker_set = trigger.workers;
          interrogate_msg = msg;
          trigger = trigger;
        },
        msg,
        clone_interrogate msg h',
      )

  abbrev pub is_empty_set : IndexSet K → Bool
  is_empty_set [] = true
  is_empty_set (k ∷ s) = false

module _ {K V T : Type 0} where
  -- `MessageRouter::handle_rescale`: while a rescaling is under way another message is dropped.
  unfoldable pub handle_rescale :
      WorkerPartitioner K
      → MessageRouter K V T
      → RescaleMessage
      → World K V T
      → MessageRouter K V T × World K V T
  unfolding new_interrogate_router
  handle_rescale partitioner (normal r) msg w =
      let (r', i, h) = new_interrogate_router partitioner r.version r.worker_set msg w.heap in
      (interrogating r', emit (interrogate i) (record w { heap = h }))
  handle_rescale partitioner router msg w =
      (router, record w { heap = record w.heap { rescales = Rc.drop msg.rc w.heap.rescales } })

  -- `InterrogateRouter::lifecycle`.
  unfoldable pub lifecycle_interrogate :
      InterrogateRouter K → World K V T → MessageRouter K V T × World K V T
  lifecycle_interrogate r w = elim (unwrap_interrogate r.interrogate_msg w.heap) [
    | none ↦ (interrogating r, w)
    | some whitelist ↦ (
      collecting (new_collect_router whitelist r.old_worker_set r.new_worker_set r.trigger),
      record w { heap = drop_interrogate r.interrogate_msg w.heap },
    )
  ]

  -- `set_and_emit_collect`: the last key of the whitelist is collected next.
  unfoldable pub set_and_emit_collect :
      CollectRouter K V T → World K V T → CollectRouter K V T × World K V T
  set_and_emit_collect r w =
      if is_none r.current_collect
      then elim (IndexSet.pop r.whitelist) [
        | none ↦ (r, w)
        | some (rest, key) ↦
            let (c, h) = new_collect key w.heap in
            (
              record r { whitelist = rest; current_collect = some c },
              emit (collect c) (record w { heap = clone_collect c h }),
            )
      ]
      else (r, w)

  -- The messages for the new owner of a key: its state, then what was held back meanwhile.
  unfoldable pub hand_over :
      WorkerId
      → K
      → IndexMap.IndexMap OperatorId Bytes
      → CollectRouter K V T
      → World K V T
      → World K V T
  hand_over target key collection r w =
      let w' = transmit target (net_acquire (record { key = key; collection = collection })) w in
      record w' {
        trace =
            w'.trace
            ++ map (λ m. transmits target (net_data (record { content = m; version = r.version })))
                r.buffered;
      }

  -- The first half of `CollectRouter::lifecycle`, its `match`.
  unfoldable pub finish_collect :
      WorkerPartitioner K
      → CollectRouter K V T
      → Remotes K V T
      → World K V T
      → Result (CollectRouter K V T × World K V T)
  finish_collect partitioner r remotes w = elim r.current_collect [
    | none ↦ ok (set_and_emit_collect r w)
    | some c ↦ elim (unwrap_collect c w.heap) [
      | none ↦ ok (r, w)
      | some collection ↦ do
        let target = partitioner c.key r.new_worker_set
        _ ← expect (IndexMap.get ℕ_discrete target remotes)
        ok (
            set_and_emit_collect (record r { buffered = []; current_collect = none })
              (hand_over target c.key collection r (record w { heap = drop_collect c w.heap })))
    ]
  ]

  -- The second half: with nothing left to collect, tell everyone and go on.
  unfoldable pub conclude_collect :
      CollectRouter K V T → Remotes K V T → World K V T → MessageRouter K V T × World K V T
  conclude_collect r remotes w =
      if is_none r.current_collect && is_empty_set r.whitelist
      then (
        finished (new_finished r.old_worker_set r.new_worker_set r.trigger),
        broadcast (keys remotes) (upgrade r.version) w,
      )
      else (collecting r, w)

  unfoldable pub lifecycle_collect :
      WorkerPartitioner K
      → CollectRouter K V T
      → Remotes K V T
      → World K V T
      → Result (MessageRouter K V T × World K V T)
  unfolding finish_collect conclude_collect
  lifecycle_collect partitioner r remotes w = do
    (r', w') ← finish_collect partitioner r remotes w
    ok (conclude_collect r' remotes w')

  -- A remote is done when it is at our version and knows that we are.
  abbrev pub is_done : Version → Remote K V T → Bool
  is_done v r = is_version r.state.last_version v && is_version r.state.last_ack_version v

  -- `for wid in .. { remotes.swap_remove(wid); }`.
  unfoldable pub remove_all : List WorkerId → Remotes K V T → Remotes K V T
  remove_all [] remotes = remotes
  remove_all (wid ∷ wids) remotes = remove_all wids (IndexMap.swap_remove ℕ_discrete wid remotes)

  -- `FinishedRouter::lifecycle`.
  unfoldable pub lifecycle_finished :
      FinishedRouter
      → Remotes K V T
      → World K V T
      → MessageRouter K V T × Remotes K V T × World K V T
  unfolding remove_all
  lifecycle_finished r remotes w =
      if all (is_done r.version) (values remotes)
      then (
        normal (new_normal r.new_worker_set r.version),
        remove_all (IndexSet.difference ℕ_discrete r.old_worker_set r.new_worker_set) remotes,
        emit (rescale r.trigger) w,
      )
      else (finished r, remotes, w)

  -- `MessageRouter::lifecycle`.
  unfoldable pub lifecycle :
      WorkerPartitioner K
      → MessageRouter K V T
      → Remotes K V T
      → World K V T
      → Result (MessageRouter K V T × Remotes K V T × World K V T)
  unfolding lifecycle_interrogate lifecycle_collect lifecycle_finished
  lifecycle partitioner (normal r) remotes w = ok (normal r, remotes, w)
  lifecycle partitioner (interrogating r) remotes w =
      let (router, w') = lifecycle_interrogate r w in ok (router, remotes, w')
  lifecycle partitioner (collecting r) remotes w = do
    (router, w') ← lifecycle_collect partitioner r remotes w
    ok (router, remotes, w')
  lifecycle partitioner (finished r) remotes w = ok (lifecycle_finished r remotes w)
