-- ===== src/Keyed/Rescale/Handover/Reached.antt =====
-- malstrom-core/src/keyed/distributed/message_router.rs and its child files: what a router holds back,
-- whatever it goes through.
use malstrom.Base.{Option, ok, ◌≡◌, refl, inl, inr, arith, Bool-cases, >>=-eq-ok, all, Option-cases}
use malstrom.Base.IndexMap.{values}
use malstrom.Types.{WorkerId, Version, DataMessage, RescaleMessage}
use malstrom.Keyed.Types.{Heap, World, Remotes, WorkerPartitioner, unwrap_interrogate}
use malstrom.Keyed.Router.States.{
  MessageRouter, normal, interrogating, collecting, finished, get_version, new_collect_router,
  new_normal,
}
use malstrom.Keyed.Router.Routing.{route_message, route_in_state, is_higher}
use malstrom.Keyed.Router.Lifecycle.{
  handle_rescale, lifecycle, lifecycle_interrogate, lifecycle_collect, lifecycle_finished, is_done,
}
use malstrom.Keyed.Rescale.Handover.Held.{
  RouterIsValid, route_collect-IsValid, lifecycle_collect-IsValid,
}

module _ {K V T : Type 0} (dec : Discrete K) (partitioner : WorkerPartitioner K) where
  -- The states that a router gets to by its operations, each with whatever it shares as that is then.
  pub data Reaches (r : MessageRouter K V T) : MessageRouter K V T → Type 0 where
    starts : Reaches r r
    routes :
        (q : MessageRouter K V T) (msg : DataMessage K V T) (mv : Option Version)
        (this_worker sender : WorkerId) (remotes : Remotes K V T) (h : Heap K)
        → Reaches r q
        → Reaches r (route_message dec partitioner q msg mv this_worker sender remotes h).1
    is_told :
        (q : MessageRouter K V T) (msg : RescaleMessage) (w : World K V T)
        → Reaches r q
        → Reaches r (handle_rescale partitioner q msg w).0
    cycles :
        (q q' : MessageRouter K V T) (remotes remotes' : Remotes K V T) (w w' : World K V T)
        → lifecycle partitioner q remotes w ≡ ok (q', remotes', w')
        → Reaches r q
        → Reaches r q'

  route_in_state-RouterIsValid :
      (q : MessageRouter K V T) (msg : DataMessage K V T) (this_worker sender : WorkerId)
      (remotes : Remotes K V T) (h : Heap K)
      → RouterIsValid partitioner q
      → RouterIsValid partitioner
          (route_in_state dec partitioner q msg this_worker sender remotes h).1
  unfolding route_in_state
  route_in_state-RouterIsValid (normal r) msg this_worker sender remotes h v = tt
  route_in_state-RouterIsValid (interrogating r) msg this_worker sender remotes h v = tt
  route_in_state-RouterIsValid (collecting r) msg this_worker sender remotes h v =
      route_collect-IsValid dec partitioner r msg this_worker sender v
  route_in_state-RouterIsValid (finished r) msg this_worker sender remotes h v = tt

  route_message-RouterIsValid :
      (q : MessageRouter K V T) (msg : DataMessage K V T) (mv : Option Version)
      (this_worker sender : WorkerId) (remotes : Remotes K V T) (h : Heap K)
      → RouterIsValid partitioner q
      → RouterIsValid partitioner
          (route_message dec partitioner q msg mv this_worker sender remotes h).1
  unfolding route_message
  route_message-RouterIsValid q msg mv this_worker sender remotes h v =
      elim (Bool-cases (is_higher mv (get_version q))) [
        | inl e ↦ rw e v
        | inr e ↦ rw e (route_in_state-RouterIsValid q msg this_worker sender remotes h v)
      ]

  handle_rescale-RouterIsValid :
      (q : MessageRouter K V T) (msg : RescaleMessage) (w : World K V T)
      → RouterIsValid partitioner q
      → RouterIsValid partitioner (handle_rescale partitioner q msg w).0
  unfolding handle_rescale
  handle_rescale-RouterIsValid (normal r) msg w v = tt
  handle_rescale-RouterIsValid (interrogating r) msg w v = tt
  handle_rescale-RouterIsValid (collecting r) msg w v = v
  handle_rescale-RouterIsValid (finished r) msg w v = tt

  lifecycle-RouterIsValid :
      (q q' : MessageRouter K V T) (remotes remotes' : Remotes K V T) (w w' : World K V T)
      → lifecycle partitioner q remotes w ≡ ok (q', remotes', w')
      → RouterIsValid partitioner q
      → RouterIsValid partitioner q'
  unfolding lifecycle lifecycle_interrogate lifecycle_finished
  lifecycle-RouterIsValid (normal r) q' remotes remotes' w w' h v =
      let e : q' ≡ normal r = ground (arith, h) in rw e tt
  lifecycle-RouterIsValid (interrogating r) q' remotes remotes' w w' h v =
      elim (Option-cases (unwrap_interrogate r.interrogate_msg w.heap)) [
        | inl e ↦ let same : q' ≡ interrogating r = ground (arith, e, h) in rw same tt
        | inr (whitelist, e) ↦
            let same : q'
                ≡ collecting
                    (new_collect_router whitelist r.old_worker_set r.new_worker_set r.trigger) =
              ground (arith, e, h) in
            rw same refl
      ]
  lifecycle-RouterIsValid (collecting r) q' remotes remotes' w w' h v =
      let (step, done, end) = >>=-eq-ok (lifecycle_collect partitioner r remotes w) _ h in
      let same : q' ≡ step.0 = ground (arith, end) in
      rw same (lifecycle_collect-IsValid partitioner r step.0 remotes w step.1 done v)
  lifecycle-RouterIsValid (finished r) q' remotes remotes' w w' h v =
      elim (Bool-cases (all (is_done r.version) (values remotes))) [
        | inl e ↦
            let same : q' ≡ normal (new_normal r.new_worker_set r.version) = ground (arith, e, h) in
            rw same tt
        | inr e ↦ let same : q' ≡ finished r = ground (arith, e, h) in rw same tt
      ]

  -- Whatever a router goes through, routing messages, rescale messages and calls of `lifecycle` that
  -- return, in any order and whatever is shared with it: all messages that it holds back are for the
  -- key that it is collecting then, and there are none while it collects no key, if that is so at the
  -- start, as it is for a router in no rescaling.
  pub Reaches-RouterIsValid :
      (r q : MessageRouter K V T)
      → Reaches r q
      → RouterIsValid partitioner r
      → RouterIsValid partitioner q
  Reaches-RouterIsValid r q starts v = v
  Reaches-RouterIsValid r q (routes p msg mv this_worker sender remotes h s) v =
      route_message-RouterIsValid p msg mv this_worker sender remotes h
        (Reaches-RouterIsValid r p s v)
  Reaches-RouterIsValid r q (is_told p msg w s) v =
      handle_rescale-RouterIsValid p msg w (Reaches-RouterIsValid r p s v)
  Reaches-RouterIsValid r q (cycles p p' remotes remotes' w w' h s) v =
      lifecycle-RouterIsValid p p' remotes remotes' w w' h (Reaches-RouterIsValid r p s v)
