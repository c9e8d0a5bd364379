-- ===== src/Keyed/Distributor/Pending.antt =====
-- malstrom-core/src/keyed/distributed.rs: a barrier that is pending stops the local upstream.
use malstrom.Base.{
  Option, some, List, [], ◌∷◌, ◌++◌, ◌≡◌, refl, sym, ◌∙◌, arith, append_assoc, append-nil, ◌==◌,
  Bool-cases, Option-cases, inl, inr, All, All-append, Result, ok, >>=-eq-ok, expect,
}
use malstrom.Base.IndexMap
use malstrom.Types.{
  WorkerId, Version, DataMessage, Barrier, data_record, epoch, abs_barrier, suspend_marker, acquire,
}
use malstrom.Types.Time.{MaybeTime}
use malstrom.Types.Merge.{merge_timestamps}
use malstrom.Channels.Input.{Input}
use malstrom.Keyed.Types.{
  World, Effect, emits, transmits, RemoteState, WorkerPartitioner, NetworkMessage, net_data,
  net_epoch, barrier_marker, net_suspend_marker, net_acquire, from_network, upgrade, ack_upgrade,
}
use malstrom.Keyed.Router.States.{MessageRouter, get_version}
use native.Mathlib.Decide.{ℕ_discrete}
use malstrom.Keyed.Router.Routing.{route_message}
use malstrom.Keyed.Distributor.{Distributor, change_remote, send_data_message, poll}
use malstrom.Keyed.Distributor.Messages.{
  frontiers, handle_epoch, handle_data_message, handle_remote_message, handle_all, receive_local,
  settle, run,
}

module _ {K V T : Type 0} where
  -- Not a barrier or a suspend marker into the output.
  unfoldable pub IsQuiet : Effect K V T → Type 0
  IsQuiet (emits (abs_barrier b)) = ⊥
  IsQuiet (emits (suspend_marker m)) = ⊥
  IsQuiet _ = Unit

  -- What is pending stays pending, and nothing that waits for it goes out.
  pub record IsWaiting (d : Distributor K V T) (w : World K V T) (d' : Distributor K V T)
      (w' : World K V T) : Type 0 where
    pub barrier : d'.local_barrier ≡ d.local_barrier
    pub shutdown : d'.local_shutdown ≡ d.local_shutdown
    pub effects : List (Effect K V T)
    pub appended : w'.trace ≡ w.trace ++ effects
    pub quiet : All IsQuiet effects

  IsWaiting-refl :
      (d d' : Distributor K V T) (w w' : World K V T)
      → d'.local_barrier ≡ d.local_barrier
      → d'.local_shutdown ≡ d.local_shutdown
      → w'.trace ≡ w.trace
      → IsWaiting d w d' w'
  IsWaiting-refl d d' w w' b s t = record {
    barrier = b;
    shutdown = s;
    effects = [];
    appended = rw t (sym (append-nil w.trace));
    quiet = tt;
  }

  IsWaiting-one :
      (d d' : Distributor K V T) (w w' : World K V T) (e : Effect K V T)
      → d'.local_barrier ≡ d.local_barrier
      → d'.local_shutdown ≡ d.local_shutdown
      → w'.trace ≡ w.trace ++ e ∷ []
      → IsQuiet e
      → IsWaiting d w d' w'
  IsWaiting-one d d' w w' e b s t q = record {
    barrier = b;
    shutdown = s;
    effects = e ∷ [];
    appended = t;
    quiet = (q, tt);
  }

  IsWaiting-trans :
      {d d' d'' : Distributor K V T} {w w' w'' : World K V T}
      → IsWaiting d w d' w'
      → IsWaiting d' w' d'' w''
      → IsWaiting d w d'' w''
  IsWaiting-trans {w} h k = record {
    barrier = k.barrier ∙ h.barrier;
    shutdown = k.shutdown ∙ h.shutdown;
    effects = h.effects ++ k.effects;
    appended = rw k.appended (rw h.appended (append_assoc w.trace h.effects k.effects));
    quiet = All-append IsQuiet h.effects k.effects h.quiet k.quiet;
  }

  IsWaiting-ok :
      {d d₁ d' : Distributor K V T} {w w₁ w' : World K V T}
      → IsWaiting d w d₁ w₁
      → ◌≡◌ {A = Result (Distributor K V T × World K V T)} (ok (d₁, w₁)) (ok (d', w'))
      → IsWaiting d w d' w'
  IsWaiting-ok {d₁} {d'} {w₁} {w'} h e =
      IsWaiting-trans h (IsWaiting-refl d₁ d' w₁ w' (cc) (cc) (cc))

  change_remote-keeps :
      (wid : WorkerId) (f : RemoteState T → RemoteState T) (d d' : Distributor K V T)
      → change_remote wid f d ≡ ok d'
      → (d'.local_barrier ≡ d.local_barrier) × (d'.local_shutdown ≡ d.local_shutdown)
  unfolding change_remote
  change_remote-keeps wid f d d' h =
      let (u, at, e) = >>=-eq-ok (expect (IndexMap.get ℕ_discrete wid d.remotes)) _ h in (cc, cc)

  send_data_message-IsWaiting :
      (this_worker target : WorkerId) (msg : DataMessage K V T) (d : Distributor K V T)
      (w w' : World K V T)
      → send_data_message this_worker msg target d w ≡ ok w'
      → IsWaiting d w d w'
  unfolding send_data_message IsQuiet
  send_data_message-IsWaiting this_worker target msg d w w' h =
      elim (Bool-cases (target == this_worker)) [
        | inl e ↦
            IsWaiting-one d d w w' (emits (data_record msg)) refl refl (ground (arith, e, h)) tt
        | inr e ↦ elim (Option-cases (IndexMap.get ℕ_discrete target d.remotes)) [
          | inl n ↦ ground (arith, e, n, h)
          | inr (r, at) ↦
              IsWaiting-one d d w w'
                (transmits target
                  (net_data (record { content = msg; version = get_version d.router })))
                refl refl (ground (arith, e, at, h)) tt
        ]
      ]

module _ {K V T : Type 0} ⦃t : MaybeTime T⦄ where
  handle_epoch-IsWaiting :
      (d : Distributor K V T) (w : World K V T) → IsWaiting d w d (handle_epoch d w)
  unfolding handle_epoch IsQuiet
  handle_epoch-IsWaiting d w = elim (Option-cases (merge_timestamps (frontiers d))) [
    | inl e ↦ IsWaiting-refl d d w _ refl refl (ground (arith, e))
    | inr (m, e) ↦ IsWaiting-one d d w _ (emits (epoch m)) refl refl (ground (arith, e)) tt
  ]

module _ {K V T : Type 0} (dec : Discrete K) (partitioner : WorkerPartitioner K) where
  handle_data_message-IsWaiting :
      (this_worker : WorkerId) (msg : DataMessage K V T) (version : Option Version)
      (sender : WorkerId) (d d' : Distributor K V T) (w w' : World K V T)
      → handle_data_message dec partitioner this_worker msg version sender d w ≡ ok (d', w')
      → IsWaiting d w d' w'
  unfolding handle_data_message
  handle_data_message-IsWaiting this_worker msg version sender d d' w w' h =
      elim (Option-cases
        (route_message dec partitioner d.router msg version this_worker sender d.remotes
          w.heap).0) [
            | inl e ↦
                IsWaiting-refl d d' w w' (ground (arith, e, h)) (ground (arith, e, h))
                  (ground (arith, e, h))
            | inr ((m, target), e) ↦ routed m target e
          ]
    where
      r : MessageRouter K V T
      r = (route_message dec partitioner d.router msg version this_worker sender d.remotes w.heap).1

      d₁ : Distributor K V T
      d₁ = record d { router = r }

      w₁ : World K V T
      w₁ = record w {
        heap =
            (route_message dec partitioner d.router msg version this_worker sender d.remotes
              w.heap).2;
      }

      routed :
          (m : DataMessage K V T) (target : WorkerId)
          → (route_message dec partitioner d.router msg version this_worker sender d.remotes
              w.heap).0
            ≡ some (m, target)
          → IsWaiting d w d' w'
      routed m target e =
          let (w₂, sent, same) =
            >>=-eq-ok (send_data_message this_worker m target d₁ w₁) (λ w₂. ok (d₁, w₂))
              (rw (sym h) (ground (arith, e))) in
          IsWaiting-ok
            (IsWaiting-trans (IsWaiting-refl d d₁ w w₁ refl refl refl)
              (send_data_message-IsWaiting this_worker target m d₁ w₁ w₂ sent))
            same

module _ {K V T : Type 0} ⦃t : MaybeTime T⦄ (dec : Discrete K)
    (partitioner : WorkerPartitioner K) where
  handle_remote_message-IsWaiting :
      (this_worker wid : WorkerId) (msg : NetworkMessage K V T) (d d' : Distributor K V T)
      (w w' : World K V T)
      → handle_remote_message dec partitioner this_worker wid msg d w ≡ ok (d', w')
      → IsWaiting d w d' w'
  unfolding handle_remote_message IsQuiet
  handle_remote_message-IsWaiting this_worker wid (net_data message) d d' w w' h =
      handle_data_message-IsWaiting dec partitioner this_worker message.content
        (some message.version) wid d d' w w' h
  handle_remote_message-IsWaiting this_worker wid (net_epoch e) d d' w w' h =
      let (d₁, changed, same) = >>=-eq-ok (change_remote wid _ d) _ h in
      let kept = change_remote-keeps wid _ d d₁ changed in
      IsWaiting-ok
        (IsWaiting-trans (IsWaiting-refl d d₁ w w kept.0 kept.1 refl) (handle_epoch-IsWaiting d₁ w))
        same
  handle_remote_message-IsWaiting this_worker wid barrier_marker d d' w w' h =
      let (d₁, changed, same) = >>=-eq-ok (change_remote wid _ d) _ h in
      let kept = change_remote-keeps wid _ d d₁ changed in
      IsWaiting-ok (IsWaiting-refl d d₁ w w kept.0 kept.1 refl) same
  handle_remote_message-IsWaiting this_worker wid net_suspend_marker d d' w w' h =
      let (d₁, changed, same) = >>=-eq-ok (change_remote wid _ d) _ h in
      let kept = change_remote-keeps wid _ d d₁ changed in
      IsWaiting-ok (IsWaiting-refl d d₁ w w kept.0 kept.1 refl) same
  handle_remote_message-IsWaiting this_worker wid (net_acquire n) d d' w w' h =
      IsWaiting-ok
        (IsWaiting-one d d w _ (emits (acquire (from_network n w.heap).0)) refl refl refl tt) h
  handle_remote_message-IsWaiting this_worker wid (upgrade version) d d' w w' h =
      let (d₁, changed, same) = >>=-eq-ok (change_remote wid _ d) _ h in
      let kept = change_remote-keeps wid _ d d₁ changed in
      IsWaiting-ok
        (IsWaiting-one d d₁ w _ (transmits wid (ack_upgrade version)) kept.0 kept.1 refl tt) same
  handle_remote_message-IsWaiting this_worker wid (ack_upgrade version) d d' w w' h =
      let (d₁, changed, same) = >>=-eq-ok (change_remote wid _ d) _ h in
      let kept = change_remote-keeps wid _ d d₁ changed in
      IsWaiting-ok (IsWaiting-refl d d₁ w w kept.0 kept.1 refl) same

  -- What `run` does with the messages of other workers, if it returns: it leaves the local
  -- barrier and the local suspend marker pending, and emits neither a barrier nor a suspend
  -- marker.
  pub handle_all-IsWaiting :
      (this_worker : WorkerId) (msgs : List (WorkerId × NetworkMessage K V T))
      (d d' : Distributor K V T) (w w' : World K V T)
      → handle_all dec partitioner this_worker msgs d w ≡ ok (d', w')
      → IsWaiting d w d' w'
  unfolding handle_all
  handle_all-IsWaiting this_worker [] d d' w w' h =
      IsWaiting-ok (IsWaiting-refl d d w w refl refl refl) h
  handle_all-IsWaiting this_worker ((wid, msg) ∷ msgs) d d' w w' h =
      let ((d₁, w₁), first, later) =
        >>=-eq-ok (handle_remote_message dec partitioner this_worker wid msg d w)
          (λ x. handle_all dec partitioner this_worker msgs x.0 x.1) h in
      IsWaiting-trans (handle_remote_message-IsWaiting this_worker wid msg d d₁ w w₁ first)
        (handle_all-IsWaiting this_worker msgs d₁ d' w₁ w' later)

  receive_local_pending :
      (this_worker : WorkerId) (b : Barrier) (input : Input K V T) (d : Distributor K V T)
      (w : World K V T)
      → d.local_barrier ≡ some b
      → receive_local dec partitioner this_worker input d w ≡ ok (d, input, w)
  unfolding receive_local
  receive_local_pending this_worker b input d w h = ground (arith, h)

  -- A run that starts with a pending barrier, and does not panic, leaves the local upstream as it was:
  -- no message behind the barrier is read before the barrier goes out.
  pub run-pending :
      (this_worker : WorkerId) (b : Barrier) (input input' : Input K V T) (d d' : Distributor K V T)
      (w w' : World K V T)
      → d.local_barrier ≡ some b
      → run dec partitioner this_worker input d w ≡ ok (d', input', w')
      → input' ≡ input
  unfolding run
  run-pending this_worker b input input' d d' w w' pending h =
      let ((d₁, w₁), first, later) =
        >>=-eq-ok
          (handle_all dec partitioner this_worker (poll d.remotes).0
            (record d { remotes = (poll d.remotes).1 }) w)
          _ h in
      let waits = handle_all-IsWaiting this_worker (poll d.remotes).0 _ d₁ w w₁ first in
      let still : d₁.local_barrier ≡ some b = waits.barrier ∙ pending in
      let ((d₂, i₂, w₂), second, end) =
        >>=-eq-ok (receive_local dec partitioner this_worker input d₁ w₁) _ later in
      let ((d₃, w₃), third, same) = >>=-eq-ok (settle partitioner d₂ w₂) _ end in
      let held = receive_local_pending this_worker b input d₁ w₁ still in cc
