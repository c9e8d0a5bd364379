-- ===== src/Keyed/Distributor/Targets/Total.antt =====
-- malstrom-core/src/keyed/distributed.rs: the handlers of a distributor do not panic.
use malstrom.Base.{
  true, Option, some, ◌≡◌, ◌≢◌, inl, inr, refl, ap, ◌∙◌, arith, ==_iff, Bool-cases, Option-cases,
  Result, ok, panic, ◌>>=◌,
}
use malstrom.Base.IndexMap
use malstrom.Base.IndexMap.{contains_key-modify, modify-Distinct}
use malstrom.Types.{WorkerId, Version, DataMessage}
use malstrom.Types.Time.{MaybeTime}
use malstrom.Keyed.Types.{
  Heap, Remote, Remotes, RemoteState, World, transmit, WorkerPartitioner, NetworkMessage, net_data,
  net_epoch, barrier_marker, net_suspend_marker, net_acquire, upgrade, ack_upgrade,
}
use malstrom.Keyed.Router.States.{
  MessageRouter, normal, interrogating, collecting, finished, get_version,
}
use malstrom.Keyed.Router.Routing.{
  route_message, route_in_state, route_interrogate, route_collect, is_higher,
}
use malstrom.Keyed.Distributor.{Distributor, change_remote, send_data_message}
use malstrom.Keyed.Distributor.Messages.{handle_epoch, handle_data_message, handle_remote_message}
use malstrom.Keyed.Distributor.Targets.{
  IsPartitioner, IsConnected, IsReachable, IsCovered, Keeps, IsCovered-Keeps,
  route_in_state-IsReachable,
}
use native.Mathlib.Decide.{ℕ_discrete}

returns : {A : Type 0} (r : Result A) → r ≢ panic → (a : A) × (r ≡ ok a)
returns (ok a) h = (a, refl)
returns panic h = absurd (h refl)

module _ {K V T : Type 0} where
  -- No worker has two connections, and every worker that the router chooses from has one.
  pub record IsReady (this_worker : WorkerId) (d : Distributor K V T) : Type 0 where
    pub distinct : IndexMap.Distinct ℕ_discrete d.remotes
    pub covered : IsCovered this_worker d.remotes d.router

  send_data_message_total :
      (this_worker target : WorkerId) (msg : DataMessage K V T) (d : Distributor K V T)
      (w : World K V T)
      → IsReachable this_worker d.remotes target
      → (w' : World K V T) × (send_data_message this_worker msg target d w ≡ ok w')
  unfolding send_data_message
  send_data_message_total this_worker target msg d w c =
      returns (send_data_message this_worker msg target d w) (λ h. elim c [
        | inl e ↦ ground (arith, h, (==_iff target this_worker).1 e)
        | inr c ↦ ground (arith, h, c)
      ])

  change_remote_total :
      (this_worker wid : WorkerId) (f : RemoteState T → RemoteState T) (d : Distributor K V T)
      → IsReady this_worker d
      → IsConnected d.remotes wid
      → (d' : Distributor K V T) × (change_remote wid f d ≡ ok d')
        × IsReady this_worker d'
        × Keeps d.remotes d'.remotes
  unfolding change_remote
  change_remote_total this_worker wid f d h c = (
    record d { remotes = changed },
    elim (Option-cases (IndexMap.get ℕ_discrete wid d.remotes)) [
      | inl e ↦ ground (arith, e, c)
      | inr (r, e) ↦ rw e refl
    ],
    record {
      distinct = modify-Distinct ℕ_discrete wid change d.remotes h.distinct;
      covered = IsCovered-Keeps this_worker d.remotes changed d.router keeps h.covered;
    },
    keeps,
  )
    where
      change : Remote K V T → Remote K V T
      change r = record r { state = f r.state }

      changed : Remotes K V T
      changed = IndexMap.modify ℕ_discrete wid change d.remotes

      keeps : Keeps d.remotes changed
      keeps i k = contains_key-modify ℕ_discrete wid i change d.remotes ∙ k

  module _ (dec : Discrete K) (partitioner : WorkerPartitioner K) where
    route_message-IsCovered :
        (this_worker sender : WorkerId) (version : Option Version) (rs : Remotes K V T)
        (router : MessageRouter K V T) (msg : DataMessage K V T) (h : Heap K)
        → IsCovered this_worker rs router
        → IsCovered this_worker rs
            (route_message dec partitioner router msg version this_worker sender rs h).1
    unfolding IsCovered route_message route_in_state route_interrogate route_collect
    route_message-IsCovered this_worker sender version rs (normal r) msg h c = ground (arith, c)
    route_message-IsCovered this_worker sender version rs (interrogating r) msg h c =
        ground (arith, c)
    route_message-IsCovered this_worker sender version rs (collecting r) msg h c = ground (arith, c)
    route_message-IsCovered this_worker sender version rs (finished r) msg h c = ground (arith, c)

    route_message-IsReachable :
        IsPartitioner partitioner
        → (this_worker sender : WorkerId) (version : Option Version) (rs : Remotes K V T)
          (router : MessageRouter K V T) (msg m : DataMessage K V T) (target : WorkerId)
          (h : Heap K)
        → IsCovered this_worker rs router
        → (route_message dec partitioner router msg version this_worker sender rs h).0
          ≡ some (m, target)
        → IsReachable this_worker rs target
    unfolding route_message
    route_message-IsReachable picks this_worker sender version rs router msg m target h c e =
        elim (Bool-cases (is_higher version (get_version router))) [
          | inl a ↦ inl (ground (arith, a, e))
          | inr a ↦
              route_in_state-IsReachable partitioner picks dec this_worker sender target rs router
                msg m h c (ground (arith, a, e))
        ]

    pub handle_data_message_total :
        IsPartitioner partitioner
        → (this_worker : WorkerId) (msg : DataMessage K V T) (version : Option Version)
          (sender : WorkerId) (d : Distributor K V T) (w : World K V T)
        → IsReady this_worker d
        → (d' : Distributor K V T) × (w' : World K V T) × (handle_data_message dec partitioner
              this_worker msg version sender d w
            ≡ ok (d', w'))
          × IsReady this_worker d'
          × (d'.remotes ≡ d.remotes)
    unfolding handle_data_message
    handle_data_message_total picks this_worker msg version sender d w h =
        elim (Option-cases routed.0) [
          | inl e ↦ (d₁, w₁, ground (arith, e), ready, refl)
          | inr ((m, target), e) ↦
              let (w₂, sent) = send_data_message_total this_worker target m d₁ w₁ (
                route_message-IsReachable picks this_worker sender version d.remotes d.router msg m
                  target w.heap h.covered e) in
              (d₁, w₂, delivered m target w₂ e sent, ready, refl)
        ]
      where
        routed : Option (DataMessage K V T × WorkerId) × MessageRouter K V T × Heap K
        routed =
            route_message dec partitioner d.router msg version this_worker sender d.remotes w.heap

        d₁ : Distributor K V T
        d₁ = record d { router = routed.1 }

        w₁ : World K V T
        w₁ = record w { heap = routed.2 }

        delivered :
            (m : DataMessage K V T) (target : WorkerId) (w₂ : World K V T)
            → routed.0 ≡ some (m, target)
            → send_data_message this_worker m target d₁ w₁ ≡ ok w₂
            → handle_data_message dec partitioner this_worker msg version sender d w ≡ ok (d₁, w₂)
        delivered m target w₂ e sent = ground (arith, e, sent)

        ready : IsReady this_worker d₁
        ready = record {
          distinct = h.distinct;
          covered =
              route_message-IsCovered this_worker sender version d.remotes d.router msg w.heap
                h.covered;
        }

module _ {K V T : Type 0} where
  -- The call returns, the result is ready, and no connection is lost.
  abbrev pub IsServed :
      WorkerId → Distributor K V T → Result (Distributor K V T × World K V T) → Type 0
  IsServed this_worker d r =
      (d' : Distributor K V T) × (w' : World K V T) × (r ≡ ok (d', w'))
      × IsReady this_worker d'
      × Keeps d.remotes d'.remotes

  changed-IsServed :
      (this_worker wid : WorkerId) (f : RemoteState T → RemoteState T)
      (g : Distributor K V T → World K V T) (d : Distributor K V T)
      → IsReady this_worker d
      → IsConnected d.remotes wid
      → IsServed this_worker d (change_remote wid f d >>= λ d'. ok (d', g d'))
  changed-IsServed this_worker wid f g d h c =
      let (d', changed, ready, keeps) = change_remote_total this_worker wid f d h c in
      (d', g d', ap (λ r. r >>= λ d''. ok (d'', g d'')) changed, ready, keeps)

module _ {K V T : Type 0} ⦃t : MaybeTime T⦄ (dec : Discrete K)
    (partitioner : WorkerPartitioner K) where
  pub handle_remote_message_total :
      IsPartitioner partitioner
      → (this_worker wid : WorkerId) (msg : NetworkMessage K V T) (d : Distributor K V T)
        (w : World K V T)
      → IsReady this_worker d
      → IsConnected d.remotes wid
      → IsServed this_worker d (handle_remote_message dec partitioner this_worker wid msg d w)
  unfolding handle_remote_message
  handle_remote_message_total picks this_worker wid (net_data message) d w h c =
      let (d', w', e, ready, same) =
        handle_data_message_total dec partitioner picks this_worker message.content
          (some message.version) wid d w h in
      (d', w', e, ready, λ i k. rw same k)
  handle_remote_message_total picks this_worker wid (net_epoch e) d w h c =
      changed-IsServed this_worker wid (λ s. record s { frontier = some e })
        (λ d'. handle_epoch d' w) d h c
  handle_remote_message_total picks this_worker wid barrier_marker d w h c =
      changed-IsServed this_worker wid (λ s. record s { is_barred = true }) (λ d'. w) d h c
  handle_remote_message_total picks this_worker wid net_suspend_marker d w h c =
      changed-IsServed this_worker wid (λ s. record s { sent_suspend = true }) (λ d'. w) d h c
  handle_remote_message_total picks this_worker wid (net_acquire n) d w h c =
      (d, _, refl, h, λ i k. k)
  handle_remote_message_total picks this_worker wid (upgrade version) d w h c =
      changed-IsServed this_worker wid (λ s. record s { last_version = some version })
        (λ d'. transmit wid (ack_upgrade version) w) d h c
  handle_remote_message_total picks this_worker wid (ack_upgrade version) d w h c =
      changed-IsServed this_worker wid (λ s. record s { last_ack_version = some version }) (λ d'. w)
        d h c
