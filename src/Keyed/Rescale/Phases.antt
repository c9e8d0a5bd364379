-- ===== src/Keyed/Rescale/Phases.antt =====
-- The course of one change of the worker set, from `old` to `new` under version `v`.
use malstrom.Base.{
  ◌<◌, ◌≡◌, refl, sym, ◌∙◌, ok, >>=-eq-ok, is_none, all, ◌&&◌, subst, Option-cases, Bool-cases, inl,
  inr, arith,
}
use malstrom.Base.IndexMap.{values}
use malstrom.Base.IndexSet.{IndexSet}
use malstrom.Types.{WorkerId, Version, RescaleMessage}
use malstrom.Keyed.Types.{World, Remotes, WorkerPartitioner, unwrap_interrogate}
use malstrom.Keyed.Router.States.{
  NormalRouter, InterrogateRouter, CollectRouter, FinishedRouter, MessageRouter, normal,
  interrogating, collecting, finished,
}
use malstrom.Keyed.Router.Lifecycle.{
  handle_rescale, lifecycle, lifecycle_interrogate, lifecycle_collect, finish_collect,
  conclude_collect, set_and_emit_collect, lifecycle_finished, hand_over, is_done, is_empty_set,
}

module _ (old new : IndexSet WorkerId) (v : Version) where
  -- The message that orders the change.
  abbrev pub Orders : RescaleMessage → Type 0
  Orders m = (m.workers ≡ new) × (m.version ≡ v)

  -- The states of a router in the course of the change.
  pub data InRescale {K V T : Type 0} : MessageRouter K V T → Type 0 where
    not_started : (r : NormalRouter) → r.worker_set ≡ old → r.version < v → InRescale (normal r)
    interrogates :
        (r : InterrogateRouter K)
        → r.old_worker_set ≡ old
        → r.new_worker_set ≡ new
        → r.version < v
        → Orders r.trigger
        → InRescale (interrogating r)
    collects :
        (r : CollectRouter K V T)
        → r.old_worker_set ≡ old
        → r.new_worker_set ≡ new
        → r.version ≡ v
        → Orders r.trigger
        → InRescale (collecting r)
    finishes :
        (r : FinishedRouter)
        → r.old_worker_set ≡ old
        → r.new_worker_set ≡ new
        → r.version ≡ v
        → Orders r.trigger
        → InRescale (finished r)
    completed : (r : NormalRouter) → r.worker_set ≡ new → r.version ≡ v → InRescale (normal r)

-- What collecting leaves alone.
abbrev SameCourse : {K V T : Type 0} → CollectRouter K V T → CollectRouter K V T → Type 0
SameCourse r r' =
    (r'.old_worker_set ≡ r.old_worker_set)
    × (r'.new_worker_set ≡ r.new_worker_set)
    × (r'.version ≡ r.version)
    × (r'.trigger ≡ r.trigger)

module _ {K V T : Type 0} (partitioner : WorkerPartitioner K) where
  set_and_emit-SameCourse :
      (r : CollectRouter K V T) (w : World K V T) → SameCourse r (set_and_emit_collect r w).0
  unfolding set_and_emit_collect
  set_and_emit-SameCourse r w = ground arith

  finish-SameCourse :
      (r r' : CollectRouter K V T) (remotes : Remotes K V T) (w w' : World K V T)
      → finish_collect partitioner r remotes w ≡ ok (r', w')
      → SameCourse r r'
  unfolding finish_collect hand_over set_and_emit_collect
  finish-SameCourse r r' remotes w w' h = ground arith

  module _ (old new : IndexSet WorkerId) (v : Version) where
    conclude-InRescale :
        (r r' : CollectRouter K V T) (remotes : Remotes K V T) (w : World K V T)
        → r.old_worker_set ≡ old
        → r.new_worker_set ≡ new
        → r.version ≡ v
        → Orders old new v r.trigger
        → SameCourse r r'
        → InRescale old new v (conclude_collect r' remotes w).0
    unfolding conclude_collect
    conclude-InRescale r r' remotes w a b c o (a', b', c', o') =
        let o'' : Orders old new v r'.trigger = subst (Orders old new v) (sym o') o in
        elim (Bool-cases (is_none r'.current_collect && is_empty_set r'.whitelist)) [
          | inl h ↦ rw h (finishes _ (a' ∙ a) (b' ∙ b) o''.1 o'')
          | inr h ↦ rw h (collects r' (a' ∙ a) (b' ∙ b) (c' ∙ c) o'')
        ]

    lifecycle_interrogate-InRescale :
        (r : InterrogateRouter K) (w : World K V T)
        → r.old_worker_set ≡ old
        → r.new_worker_set ≡ new
        → r.version < v
        → Orders old new v r.trigger
        → InRescale old new v (lifecycle_interrogate r w).0
    unfolding lifecycle_interrogate
    lifecycle_interrogate-InRescale r w a b l o =
        elim (Option-cases (unwrap_interrogate r.interrogate_msg w.heap)) [
          | inl h ↦ rw (h, lifecycle_interrogate) (interrogates r a b l o)
          | inr (s, h) ↦ rw (h, lifecycle_interrogate) (collects _ a b o.1 o)
        ]

    lifecycle_collect-InRescale :
        (r : CollectRouter K V T) (q : MessageRouter K V T) (remotes : Remotes K V T)
        (w u : World K V T)
        → lifecycle_collect partitioner r remotes w ≡ ok (q, u)
        → r.old_worker_set ≡ old
        → r.new_worker_set ≡ new
        → r.version ≡ v
        → Orders old new v r.trigger
        → InRescale old new v q
    unfolding lifecycle_collect
    lifecycle_collect-InRescale r q remotes w u h a b c o =
        let (step, done, end) = >>=-eq-ok (finish_collect partitioner r remotes w) _ h in
        let e : q ≡ (conclude_collect step.0 remotes step.1).0 = ground arith in
        rw e (
          conclude-InRescale r step.0 remotes step.1 a b c o
            (finish-SameCourse r step.0 remotes w step.1 done))

    lifecycle_finished-InRescale :
        (r : FinishedRouter) (remotes : Remotes K V T) (w : World K V T)
        → r.old_worker_set ≡ old
        → r.new_worker_set ≡ new
        → r.version ≡ v
        → Orders old new v r.trigger
        → InRescale old new v (lifecycle_finished r remotes w).0
    unfolding lifecycle_finished
    lifecycle_finished-InRescale r remotes w a b c o =
        elim (Bool-cases (all (is_done r.version) (values remotes))) [
          | inl h ↦ rw h (completed _ b c)
          | inr h ↦ rw h (finishes r a b c o)
        ]

    -- A call of `lifecycle` that returns does not leave the course of a change of the worker
    -- set: a router that works for the old set, interrogates, collects, has finished or works
    -- for the new set, with the version that belongs to it, does one of these afterwards.
    pub lifecycle-InRescale :
        (r r' : MessageRouter K V T) (remotes remotes' : Remotes K V T) (w w' : World K V T)
        → lifecycle partitioner r remotes w ≡ ok (r', remotes', w')
        → InRescale old new v r
        → InRescale old new v r'
    unfolding lifecycle
    lifecycle-InRescale _ r' remotes remotes' w w' h (not_started r e l) =
        let same : r' ≡ normal r = ground arith in rw same (not_started r e l)
    lifecycle-InRescale _ r' remotes remotes' w w' h (interrogates r a b l o) =
        let same : r' ≡ (lifecycle_interrogate r w).0 = ground arith in
        rw same (lifecycle_interrogate-InRescale r w a b l o)
    lifecycle-InRescale _ r' remotes remotes' w w' h (collects r a b c o) =
        let (step, found, rest) = >>=-eq-ok (lifecycle_collect partitioner r remotes w) _ h in
        let e : r' ≡ step.0 = ground arith in
        rw e (lifecycle_collect-InRescale r step.0 remotes w step.1 found a b c o)
    lifecycle-InRescale _ r' remotes remotes' w w' h (finishes r a b c o) =
        let same : r' ≡ (lifecycle_finished r remotes w).0 = ground arith in
        rw same (lifecycle_finished-InRescale r remotes w a b c o)
    lifecycle-InRescale _ r' remotes remotes' w w' h (completed r e g) =
        let same : r' ≡ normal r = ground arith in rw same (completed r e g)

    -- A message that orders the change starts it at a router that works for the old set, and
    -- is ignored while the change is under way: the router stays in its course either way. A
    -- router that is `Normal` has not completed the change, by its version.
    pub handle_rescale-InRescale :
        (r : MessageRouter K V T) (m : RescaleMessage) (w : World K V T)
        → Orders old new v m
        → InRescale old new v r
        → ((n : NormalRouter) → r ≡ normal n → n.version < v)
        → InRescale old new v (handle_rescale partitioner r m w).0
    unfolding handle_rescale
    handle_rescale-InRescale _ m w o (not_started r e l) open_ = interrogates _ e o.0 l o
    handle_rescale-InRescale _ m w o (interrogates r a b l o') open_ = interrogates r a b l o'
    handle_rescale-InRescale _ m w o (collects r a b c o') open_ = collects r a b c o'
    handle_rescale-InRescale _ m w o (finishes r a b c o') open_ = finishes r a b c o'
    handle_rescale-InRescale _ m w o (completed r e g) open_ = absurd (ground (arith, open_ r refl))
