-- ===== src/Keyed/Distributor/Targets/Receive.antt =====
-- malstrom-core/src/keyed/distributed.rs, the part of `run` that reads messages: it does not panic.
use malstrom.Base.{
  Option, none, some, List, [], ◌∷◌, ◌≡◌, ◌≢◌, ◌⊎◌, inl, inr, refl, subst, sym, ap, ◌∙◌, arith, All,
  Bool-cases, Option-cases, ok, ◌>>=◌, ◌||◌,
}
use malstrom.Base.IndexMap
use malstrom.Types.{
  WorkerId, Message, RescaleMessage, data_record, epoch, abs_barrier, rescale, suspend_marker,
  interrogate, collect, acquire,
}
use malstrom.Types.Time.{MaybeTime}
use malstrom.Channels.Input
use malstrom.Channels.Input.{Input}
use malstrom.Keyed.Types.{Remote, Remotes, World, WorkerPartitioner, NetworkMessage}
use malstrom.Keyed.Router.States.{MessageRouter, normal, interrogating, collecting, finished}
use malstrom.Keyed.Router.Lifecycle
use malstrom.Keyed.Distributor.{Distributor, poll, connect, set_shutdown, handle_local_barrier}
use malstrom.Keyed.Distributor.Messages.{
  handle_all, handle_local_message, receive_local, handle_rescale_message,
}
use malstrom.Keyed.Distributor.Alignment.{get-poll-none}
use malstrom.Keyed.Distributor.Targets.{
  IsPartitioner, IsConnected, IsCovered, Keeps, IsCovered-Keeps, connect-Keeps, connect-reaches,
  connect-Distinct,
}
use malstrom.Keyed.Distributor.Targets.Total.{
  IsReady, IsServed, handle_remote_message_total, handle_data_message_total,
}
use native.Mathlib.Decide.{ℕ_discrete}

List-cases : {A : Type 0} (xs : List A) → (xs ≡ []) ⊎ ((x : A) × (ys : List A) × (xs ≡ x ∷ ys))
List-cases [] = inl refl
List-cases (x ∷ xs) = inr (x, xs, refl)

module _ {K V T : Type 0} where
  -- A rescale message names a worker.
  abbrev pub IsSound : Option (Message K V T) → Type 0
  IsSound (some (rescale m)) = m.workers ≢ []
  IsSound _ = Unit

  poll-cons :
      (i : WorkerId) (r : Remote K V T) (rs : Remotes K V T)
      → ((poll ((i, r) ∷ rs)).0 ≡ (poll rs).0)
        ⊎ ((m : NetworkMessage K V T) × ((poll ((i, r) ∷ rs)).0 ≡ (i, m) ∷ (poll rs).0))
  unfolding poll
  poll-cons i r rs = elim (Bool-cases (r.state.is_barred || r.state.sent_suspend)) [
    | inl e ↦ inl (ground (arith, e))
    | inr e ↦ elim (List-cases r.inbox) [
      | inl n ↦ inl (ground (arith, e, n))
      | inr (m, ms, c) ↦ inr (m, ground (arith, e, c))
    ]
  ]

  IsConnected-self :
      (i : WorkerId) (r : Remote K V T) (rs : Remotes K V T) → IsConnected ((i, r) ∷ rs) i
  unfolding IndexMap.get
  IsConnected-self i r rs = ground arith

  IsConnected-cons : (i : WorkerId) (r : Remote K V T) (rs : Remotes K V T) → Keeps rs ((i, r) ∷ rs)
  unfolding IndexMap.get
  IsConnected-cons i r rs j h = ground (arith, h)

  -- The messages that are read come from remotes that are still there.
  poll-IsConnected :
      (rs rs' : Remotes K V T) → Keeps rs rs' → All (λ e. IsConnected rs' e.0) (poll rs).0
  unfolding poll
  poll-IsConnected [] rs' k = tt
  poll-IsConnected ((i, r) ∷ rs) rs' k =
      let later = poll-IsConnected rs rs' (λ j h. k j (IsConnected-cons i r rs j h)) in
      elim (poll-cons i r rs) [
        | inl e ↦ subst (All (λ e. IsConnected rs' e.0)) (sym e) later
        | inr (m, e) ↦
            subst (All (λ e. IsConnected rs' e.0)) (sym e) (k i (IsConnected-self i r rs), later)
      ]

  poll-Keeps : (rs : Remotes K V T) → Keeps rs (poll rs).1
  unfolding IndexMap.get poll
  poll-Keeps [] i h = h
  poll-Keeps ((j, r) ∷ rs) i h = ground (arith, h, poll-Keeps rs i)

  poll-Distinct :
      (rs : Remotes K V T)
      → IndexMap.Distinct ℕ_discrete rs
      → IndexMap.Distinct ℕ_discrete (poll rs).1
  unfolding IndexMap.get poll
  poll-Distinct [] d = tt
  poll-Distinct ((j, r) ∷ rs) d = ground (arith, d, get-poll-none j rs, poll-Distinct rs)

  All-Keeps :
      (rs rs' : Remotes K V T) (msgs : List (WorkerId × NetworkMessage K V T))
      → Keeps rs rs'
      → All (λ e. IsConnected rs e.0) msgs
      → All (λ e. IsConnected rs' e.0) msgs
  All-Keeps rs rs' [] k c = tt
  All-Keeps rs rs' ((i, m) ∷ msgs) k c = (k i c.0, All-Keeps rs rs' msgs k c.1)

  rescale-IsCovered :
      (partitioner : WorkerPartitioner K) (this_worker : WorkerId) (m : RescaleMessage)
      (router : MessageRouter K V T) (rs : Remotes K V T) (w : World K V T)
      → m.workers ≢ []
      → IsCovered this_worker rs router
      → IsCovered this_worker
          (connect this_worker m.workers rs)
          (Lifecycle.handle_rescale partitioner router m w).0
  unfolding Lifecycle.handle_rescale IsCovered
  rescale-IsCovered partitioner this_worker m (normal r) rs w h c = (
    IsCovered-Keeps this_worker rs _ (normal r) (connect-Keeps this_worker m.workers rs) c,
    (h, connect-reaches this_worker m.workers rs),
  )
  rescale-IsCovered partitioner this_worker m (interrogating r) rs w h c =
      IsCovered-Keeps this_worker rs _ (interrogating r) (connect-Keeps this_worker m.workers rs) c
  rescale-IsCovered partitioner this_worker m (collecting r) rs w h c =
      IsCovered-Keeps this_worker rs _ (collecting r) (connect-Keeps this_worker m.workers rs) c
  rescale-IsCovered partitioner this_worker m (finished r) rs w h c =
      IsCovered-Keeps this_worker rs _ (finished r) (connect-Keeps this_worker m.workers rs) c

module _ {K V T : Type 0} ⦃t : MaybeTime T⦄ (dec : Discrete K)
    (partitioner : WorkerPartitioner K) where
  handle_all_total :
      IsPartitioner partitioner
      → (this_worker : WorkerId) (msgs : List (WorkerId × NetworkMessage K V T))
        (d : Distributor K V T) (w : World K V T)
      → IsReady this_worker d
      → All (λ e. IsConnected d.remotes e.0) msgs
      → IsServed this_worker d (handle_all dec partitioner this_worker msgs d w)
  unfolding handle_all
  handle_all_total picks this_worker [] d w h c = (d, w, refl, h, λ i k. k)
  handle_all_total picks this_worker ((wid, msg) ∷ msgs) d w h c =
      let (d₁, w₁, first, ready, keeps) =
        handle_remote_message_total dec partitioner picks this_worker wid msg d w h c.0 in
      let (d₂, w₂, later, done, kept) =
        handle_all_total picks this_worker msgs d₁ w₁ ready
          (All-Keeps d.remotes d₁.remotes msgs keeps c.1) in
      (
        d₂,
        w₂,
        ap (λ r. r >>= λ x. handle_all dec partitioner this_worker msgs x.0 x.1) first ∙ later,
        done,
        λ i k. kept i (keeps i k),
      )

  handle_local_message_total :
      IsPartitioner partitioner
      → (this_worker : WorkerId) (msg : Message K V T) (d : Distributor K V T) (w : World K V T)
      → IsReady this_worker d
      → IsSound (some msg)
      → (d' : Distributor K V T) × (w' : World K V T) × (handle_local_message dec partitioner
            this_worker msg d w
          ≡ ok (d', w'))
        × IsReady this_worker d'
  unfolding handle_local_message handle_rescale_message set_shutdown handle_local_barrier
  handle_local_message_total picks this_worker (data_record msg) d w h s =
      let (d', w', e, ready, same) =
        handle_data_message_total dec partitioner picks this_worker msg none this_worker d w h in
      (d', w', e, ready)
  handle_local_message_total picks this_worker (epoch e) d w h s =
      (_, _, refl, record { distinct = h.distinct; covered = h.covered })
  handle_local_message_total picks this_worker (abs_barrier b) d w h s =
      (_, _, refl, record { distinct = h.distinct; covered = h.covered })
  handle_local_message_total picks this_worker (rescale m) d w h s = (
    _,
    _,
    refl,
    record {
      distinct = connect-Distinct this_worker m.workers d.remotes h.distinct;
      covered = rescale-IsCovered partitioner this_worker m d.router d.remotes w s h.covered;
    },
  )
  handle_local_message_total picks this_worker (suspend_marker m) d w h s =
      (_, _, refl, record { distinct = h.distinct; covered = h.covered })
  handle_local_message_total picks this_worker (interrogate i) d w h s = (d, _, refl, h)
  handle_local_message_total picks this_worker (collect c) d w h s = (d, _, refl, h)
  handle_local_message_total picks this_worker (acquire a) d w h s = (d, _, refl, h)

  receive_local_total :
      IsPartitioner partitioner
      → (this_worker : WorkerId) (input input' : Input K V T) (received : Option (Message K V T))
        (d : Distributor K V T) (w : World K V T)
      → IsReady this_worker d
      → Input.recv input ≡ ok (received, input')
      → IsSound received
      → (d' : Distributor K V T) × (i : Input K V T) × (w' : World K V T) × (receive_local dec
            partitioner this_worker input d w
          ≡ ok (d', i, w'))
        × IsReady this_worker d'
  unfolding receive_local
  receive_local_total picks this_worker input input' received d w h r s =
      elim (Option-cases d.local_barrier) [
        | inr (b, e) ↦ (d, input, w, ground (arith, e), h)
        | inl e ↦ elim (Option-cases received) [
          | inl n ↦ (d, input', w, ground (arith, e, r, n), h)
          | inr (msg, m) ↦
              let (d', w', served, ready) =
                handle_local_message_total picks this_worker msg d w h (subst IsSound m s) in
              (d', input', w', ground (arith, e, r, m, served), ready)
        ]
      ]

  -- What `run` does before it settles does not panic: the messages of the other workers and the one
  -- of the local upstream are handled, every data message finds its connection, and the workers that
  -- the router may choose next stay connected. The partitioner picks one of the workers it is given,
  -- the connections cover the worker sets of the router, the local input does not panic, and if it
  -- delivers a rescaling then one to a non-empty set of workers.
  pub receiving_total :
      IsPartitioner partitioner
      → (this_worker : WorkerId) (input input' : Input K V T) (received : Option (Message K V T))
        (d : Distributor K V T) (w : World K V T)
      → IsReady this_worker d
      → Input.recv input ≡ ok (received, input')
      → IsSound received
      → (d₁ : Distributor K V T) × (w₁ : World K V T) × (handle_all dec partitioner this_worker
            (poll d.remotes).0
            (record d { remotes = (poll d.remotes).1 })
            w
          ≡ ok (d₁, w₁))
        × (d₂ : Distributor K V T) × (i : Input K V T) × (w₂ : World K V T) × (receive_local dec
              partitioner this_worker input d₁ w₁
            ≡ ok (d₂, i, w₂))
        × IsReady this_worker d₂
  receiving_total picks this_worker input input' received d w h r s =
      let polled : IsReady this_worker (record d { remotes = (poll d.remotes).1 }) = record {
        distinct = poll-Distinct d.remotes h.distinct;
        covered = IsCovered-Keeps this_worker d.remotes _ d.router (poll-Keeps d.remotes) h.covered;
      } in
      let (d₁, w₁, first, ready, keeps) =
        handle_all_total picks this_worker (poll d.remotes).0 _ w polled
          (poll-IsConnected d.remotes _ (poll-Keeps d.remotes)) in
      let (d₂, i, w₂, later, done) =
        receive_local_total picks this_worker input input' received d₁ w₁ ready r s in
      (d₁, w₁, first, d₂, i, w₂, later, done)
