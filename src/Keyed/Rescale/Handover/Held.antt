-- ===== src/Keyed/Rescale/Handover/Held.antt =====
-- What a collecting router holds back, and where it goes.
use malstrom.Base.{
  true, Option, none, some, List, [], ◌∷◌, ◌++◌, map, ◌≡◌, refl, sym, ap, ◌∙◌, ◌⊎◌, inl, inr, ok,
  >>=-eq-ok, All, All-append, append-nil, Bool-cases, is_none, ◌&&◌, subst, arith,
}
use malstrom.Base.IndexMap.{IndexMap}
use malstrom.Types.{WorkerId, OperatorId, DataMessage, Collect, collect}
use malstrom.Keyed.Types.{
  Bytes, World, Effect, emits, transmits, Remotes, WorkerPartitioner, net_acquire, net_data,
  unwrap_collect,
}
use malstrom.Keyed.Router.States.{CollectRouter, MessageRouter, collecting}
use malstrom.Keyed.Router.Routing.{route_collect, is_held}
use malstrom.Keyed.Router.Lifecycle.{
  lifecycle_collect, finish_collect, conclude_collect, is_empty_set,
}
use malstrom.Keyed.Rescale.Handover.{
  HeldFor, IsValid, Emitted, idle, next, Emitted-IsValid, Finishing, starts, waits, hands,
  finish-Finishing, handover,
}

module _ {K V T : Type 0} (dec : Discrete K) (partitioner : WorkerPartitioner K) where
  HeldFor-append :
      (o : Option (Collect K)) (ms : List (DataMessage K V T)) (m : DataMessage K V T)
      → is_held dec o m.key ≡ true
      → HeldFor o ms
      → HeldFor o (ms ++ m ∷ [])
  HeldFor-append none ms m h v = cc
  HeldFor-append (some c) ms m h v =
      All-append (λ x. x.key ≡ c.key) ms (m ∷ []) v (ground arith, tt)

  route_collect_cases :
      (r : CollectRouter K V T) (msg : DataMessage K V T) (this_worker sender : WorkerId)
      → (let r' = (route_collect dec partitioner r msg this_worker sender).1 in
          (r' ≡ r)
          ⊎ ((is_held dec r.current_collect msg.key ≡ true)
              × (r' ≡ record r { buffered = r.buffered ++ msg ∷ [] })))
  unfolding route_collect
  route_collect_cases r msg this_worker sender = ground arith

  -- Routing a message through a collecting router keeps it so that messages are held back for the
  -- key that is being collected and for no other.
  pub route_collect-IsValid :
      (r : CollectRouter K V T) (msg : DataMessage K V T) (this_worker sender : WorkerId)
      → IsValid r
      → IsValid (route_collect dec partitioner r msg this_worker sender).1
  route_collect-IsValid r msg this_worker sender v =
      elim (route_collect_cases r msg this_worker sender) [
        | inl e ↦ rw e v
        | inr (h, e) ↦ rw e (HeldFor-append r.current_collect r.buffered msg h v)
      ]

module _ {K V T : Type 0} (partitioner : WorkerPartitioner K) where
  finish-IsValid :
      (r r' : CollectRouter K V T) (remotes : Remotes K V T) (w w' : World K V T)
      → finish_collect partitioner r remotes w ≡ ok (r', w')
      → IsValid r
      → IsValid r'
  finish-IsValid r r' remotes w w' h v = go (finish-Finishing partitioner r r' remotes w w' h)
    where
      go : Finishing partitioner r w r' w' → IsValid r'
      go (starts e m) = Emitted-IsValid r r' w w' m v
      go (waits c e f same _) = rw same v
      go (hands c collection between e f t m) = Emitted-IsValid _ r' between w' m refl

  -- What a router in any state holds back, by the same rule.
  abbrev pub RouterIsValid : MessageRouter K V T → Type 0
  RouterIsValid (collecting r) = IsValid r
  RouterIsValid _ = Unit

  conclude-RouterIsValid :
      (r : CollectRouter K V T) (remotes : Remotes K V T) (w : World K V T)
      → IsValid r
      → RouterIsValid (conclude_collect r remotes w).0
  unfolding conclude_collect
  conclude-RouterIsValid r remotes w v =
      elim (Bool-cases (is_none r.current_collect && is_empty_set r.whitelist)) [
        | inl h ↦ rw h tt
        | inr h ↦ rw h v
      ]

  -- A call of `lifecycle` in the `Collect` state that returns keeps it so that messages are
  -- held back for the key that is being collected and for no other, whatever state follows.
  pub lifecycle_collect-IsValid :
      (r : CollectRouter K V T) (q : MessageRouter K V T) (remotes : Remotes K V T)
      (w w' : World K V T)
      → lifecycle_collect partitioner r remotes w ≡ ok (q, w')
      → IsValid r
      → RouterIsValid q
  unfolding lifecycle_collect
  lifecycle_collect-IsValid r q remotes w w' h v =
      let (step, done, end) = >>=-eq-ok (finish_collect partitioner r remotes w) _ h in
      let e : q ≡ (conclude_collect step.0 remotes step.1).0 = ground arith in
      rw e (
        conclude-RouterIsValid step.0 remotes step.1
          (finish-IsValid r step.0 remotes w step.1 done v))

  -- Each message held back, sent to the new owner of its own key.
  abbrev pub to_owners : CollectRouter K V T → List (Effect K V T)
  to_owners r =
      map
        (λ m.
          transmits (partitioner m.key r.new_worker_set)
            (net_data (record { content = m; version = r.version })))
        r.buffered

  sent-owners :
      (c : Collect K) (r : CollectRouter K V T) (ms : List (DataMessage K V T))
      → All (λ m. m.key ≡ c.key) ms
      → map
          (λ m.
            transmits
              (partitioner c.key r.new_worker_set)
              (net_data (record { content = m; version = r.version })))
          ms
        ≡ to_owners (record r { buffered = ms })
  sent-owners c r [] h = refl
  sent-owners c r (m ∷ ms) h = cc (sent-owners c r ms h.1, h.0)

  -- What is sent off when a collect message has come back.
  pub record HandedOver (c : Collect K) (collection : IndexMap OperatorId Bytes)
      (r r' : CollectRouter K V T) (w w' : World K V T) : Type 0 where
    pub tail : List (Effect K V T)
    pub in_order :
        w'.trace
        ≡ w.trace
          ++ (transmits
                (partitioner c.key r.new_worker_set)
                (net_acquire (record { key = c.key; collection = collection }))
              ∷ to_owners r)
          ++ tail
    pub nothing_else : (tail ≡ []) ⊎ ((c' : Collect K) × (tail ≡ emits (collect c') ∷ []))
    pub cleared : r'.buffered ≡ []

  module _ (c : Collect K) (collection : IndexMap OperatorId Bytes) (r : CollectRouter K V T) where
    handover_sent :
        (w between : World K V T)
        → All (λ m. m.key ≡ c.key) r.buffered
        → between.trace
          ≡ w.trace
            ++ handover (partitioner c.key r.new_worker_set) c.key collection r.version r.buffered
        → between.trace
          ≡ w.trace
            ++ transmits
                (partitioner c.key r.new_worker_set)
                (net_acquire (record { key = c.key; collection = collection }))
              ∷ to_owners r
    handover_sent w between v t =
        let state : Effect K V T =
          transmits (partitioner c.key r.new_worker_set)
            (net_acquire (record { key = c.key; collection = collection })) in
        t ∙ ap (λ ms. w.trace ++ state ∷ ms) (sent-owners c r r.buffered v)

  hands-HandedOver :
      (c : Collect K) (collection : IndexMap OperatorId Bytes) (r r' : CollectRouter K V T)
      (w between w' : World K V T)
      → All (λ m. m.key ≡ c.key) r.buffered
      → between.trace
        ≡ w.trace
          ++ handover (partitioner c.key r.new_worker_set) c.key collection r.version r.buffered
      → Emitted (record r { buffered = []; current_collect = none }) between r' w'
      → HandedOver c collection r r' w w'
  hands-HandedOver c collection r r' w between w' v t (idle e f) = record {
    tail = [];
    in_order =
        ap (λ x. x.trace) f ∙ handover_sent c collection r w between v t ∙ sym (append-nil _);
    nothing_else = inl refl;
    cleared = ap (λ x. x.buffered) e;
  }
  hands-HandedOver c collection r r' w between w' v t (next rest c' e f g t') = record {
    tail = emits (collect c') ∷ [];
    in_order =
        t' ∙ ap (λ l. l ++ emits (collect c') ∷ []) (handover_sent c collection r w between v t);
    nothing_else = inr (c', refl);
    cleared = ap (λ x. x.buffered) g;
  }

  -- Once the last operator has given its collect message back, and messages are held back for
  -- its key only, a call of `finish_collect` that returns sends the state of the key to the
  -- key's new owner, and right behind it, in the order of arrival, each message held back to
  -- the new owner of its own key; nothing is held back any more, and at most a new collect
  -- message follows.
  pub finish_collect_hands_over :
      (r r' : CollectRouter K V T) (remotes : Remotes K V T) (w w' : World K V T) (c : Collect K)
      (collection : IndexMap OperatorId Bytes)
      → IsValid r
      → r.current_collect ≡ some c
      → unwrap_collect c w.heap ≡ some collection
      → finish_collect partitioner r remotes w ≡ ok (r', w')
      → HandedOver c collection r r' w w'
  finish_collect_hands_over r r' remotes w w' c collection v e alone h =
      go (finish-Finishing partitioner r r' remotes w w' h)
    where
      go : Finishing partitioner r w r' w' → HandedOver c collection r r' w w'
      go (starts e' m) = absurd (ground arith)
      go (waits d e' f same _) = absurd (ground arith)
      go (hands d collection' between e' f t m) =
          let this : d ≡ c = ground arith in
          let that : collection' ≡ collection = ground arith in
          subst (λ x. HandedOver x collection r r' w w') this
            (subst (λ x. HandedOver d x r r' w w') that
              (hands-HandedOver d collection' r r' w between w'
                (subst (λ o. HeldFor o r.buffered) e' v) t m))
