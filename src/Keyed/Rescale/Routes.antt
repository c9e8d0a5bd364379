-- ===== src/Keyed/Rescale/Routes.antt =====
-- Where a data message ends up while the workers change over one after the other.
use malstrom.Base.{Option, none, some, List, [], ◌∷◌, ◌++◌, ◌≡◌, ◌⊎◌, inl, inr, arith}
use malstrom.Base.IndexSet.{IndexSet}
use malstrom.Types.{WorkerId, Version, DataMessage}
use malstrom.Keyed.Types.{Heap, Remotes, WorkerPartitioner}
use malstrom.Keyed.Router.States.{
  MessageRouter, normal, interrogating, collecting, finished, get_version,
}
use malstrom.Keyed.Router.Routing.{route_message}
use malstrom.Keyed.Rescale.Phases.{
  InRescale, not_started, interrogates, collects, finishes, completed,
}

-- The messages that a router holds back.
abbrev pub held : {K V T : Type 0} → MessageRouter K V T → List (DataMessage K V T)
held (collecting r) = r.buffered
held _ = []

module _ {K V T : Type 0} (dec : Discrete K) (partitioner : WorkerPartitioner K) where
  -- A message is handed out unchanged, to one worker, and nothing is held back; or it is added to
  -- what is held back, behind all that is there. It is never dropped, doubled or altered.
  pub route_message_conserves :
      (r : MessageRouter K V T) (msg : DataMessage K V T) (mv : Option Version)
      (this_worker sender : WorkerId) (remotes : Remotes K V T) (h : Heap K)
      → (let (routed, r', _) =
            route_message dec partitioner r msg mv this_worker sender remotes h in
          ((target : WorkerId) × (routed ≡ some (msg, target)) × (held r' ≡ held r))
          ⊎ ((routed ≡ none) × (held r' ≡ held r ++ msg ∷ [])))
  unfolding route_message
  route_message_conserves (normal r) msg mv this_worker sender remotes h = ground arith
  route_message_conserves (interrogating r) msg mv this_worker sender remotes h = ground arith
  route_message_conserves (collecting r) msg mv this_worker sender remotes h = ground arith
  route_message_conserves (finished r) msg mv this_worker sender remotes h = ground arith

  module _ (old new : IndexSet WorkerId) (v : Version) where
    -- A message that its owner under the old set passes on is taken by its owner under the new
    -- set, in whatever state of the change that worker is.
    forwarded_accepted :
        (r : MessageRouter K V T) (msg : DataMessage K V T) (remotes : Remotes K V T) (h : Heap K)
        → InRescale old new v r
        → (route_message dec partitioner r msg
            (some v)
            (partitioner msg.key new)
            (partitioner msg.key old)
            remotes
            h).0
          ≡ some (msg, partitioner msg.key new)
    unfolding route_message
    forwarded_accepted (normal r) msg remotes h (not_started _ e l) = ground arith
    forwarded_accepted (interrogating r) msg remotes h (interrogates _ e f l o) = ground arith
    forwarded_accepted (collecting r) msg remotes h (collects _ e f g o) = ground arith
    forwarded_accepted (finished r) msg remotes h (finishes _ e f g o) = ground arith
    forwarded_accepted (normal r) msg remotes h (completed _ e g) = ground arith

    -- The first hop.
    owner_hop :
        (r : MessageRouter K V T) (msg : DataMessage K V T) (mv : Option Version)
        (sender : WorkerId) (remotes : Remotes K V T) (h : Heap K)
        → InRescale old new v r
        → (let (routed, r', _) =
              route_message dec partitioner r msg mv (partitioner msg.key old) sender remotes h in
            (routed ≡ some (msg, partitioner msg.key old))
            ⊎ ((routed ≡ none) × (held r' ≡ held r ++ msg ∷ []))
            ⊎ ((routed ≡ some (msg, partitioner msg.key new)) × (get_version r ≡ v)))
    unfolding route_message
    owner_hop (normal r) msg mv sender remotes h (not_started _ e l) = ground arith
    owner_hop (interrogating r) msg mv sender remotes h (interrogates _ e f l o) = ground arith
    owner_hop (collecting r) msg mv sender remotes h (collects _ e f g o) = ground arith
    owner_hop (finished r) msg mv sender remotes h (finishes _ e f g o) = ground arith
    owner_hop (normal r) msg mv sender remotes h (completed _ e g) = ground arith

    -- While the workers change from `old` to `new`, each at its own pace, a message that has
    -- reached the owner of its key under `old` is taken there, or added to what is held back there,
    -- behind all that is there, or passed to the owner under `new`, which takes it in whatever state
    -- of the change it is.
    pub route_two_hops :
        (r₁ r₂ : MessageRouter K V T) (msg : DataMessage K V T) (mv : Option Version)
        (sender : WorkerId) (remotes remotes₂ : Remotes K V T) (h h₂ : Heap K)
        → InRescale old new v r₁
        → InRescale old new v r₂
        → (let owner = partitioner msg.key old in
            let next = partitioner msg.key new in
            let (routed, r₁', _) = route_message dec partitioner r₁ msg mv owner sender remotes h in
            (routed ≡ some (msg, owner))
            ⊎ ((routed ≡ none) × (held r₁' ≡ held r₁ ++ msg ∷ []))
            ⊎ ((routed ≡ some (msg, next))
                × ((route_message dec partitioner r₂ msg
                      (some (get_version r₁))
                      next
                      owner
                      remotes₂
                      h₂).0
                    ≡ some (msg, next))))
    route_two_hops r₁ r₂ msg mv sender remotes remotes₂ h h₂ c d =
        elim (owner_hop r₁ msg mv sender remotes h c) [
          | inl taken ↦ inl taken
          | inr (inl kept) ↦ inr (inl kept)
          | inr (inr (passed, version)) ↦
              inr (inr (passed, rw version (forwarded_accepted r₂ msg remotes₂ h₂ d)))
        ]
