-- ===== src/Keyed/Distributor/Targets.antt =====
-- malstrom-core/src/keyed/distributed.rs: every worker that a message can be routed to is connected,
-- so that `send_data_message` finds it.
pub mod Total
pub mod Receive
pub mod Removal
use malstrom.Base.{
  ℕ, Bool, true, false, not, ◌&&◌, Option, none, some, List, [], ◌∷◌, ◌≡◌, ◌≢◌, ◌⊎◌, inl, inr, refl,
  subst, sym, ap, ◌∙◌, arith, All, is_some, ite, if◌then◌else◌, ◌==◌, ==_iff, Bool-cases,
  Option-cases,
}
use malstrom.Base.IndexMap
use malstrom.Base.IndexMap.{
  get-insert, get-insert_self, get-swap_remove, swap_remove-Distinct, insert-Distinct,
}
use malstrom.Base.IndexSet
use malstrom.Base.IndexSet.{IndexSet, contains-difference}
use malstrom.Types.{WorkerId, Version, DataMessage}
use malstrom.Keyed.Types.{Heap, Remotes, WorkerPartitioner}
use malstrom.Keyed.Router.States.{
  MessageRouter, normal, interrogating, collecting, finished, FinishedRouter, CollectRouter,
}
use malstrom.Keyed.Router.Routing.{
  route_message, route_in_state, route_collect, route_interrogate, route_finished,
}
use malstrom.Keyed.Router.Lifecycle.{remove_all}
use malstrom.Keyed.Distributor.{Distributor, connect, new_remote}
use native.Mathlib.Decide.{ℕ_discrete}

-- A partitioner that picks from the workers it is given.
abbrev pub IsPartitioner : {K : Type 0} → WorkerPartitioner K → Type 0
IsPartitioner {K} p =
    (k : K) (s : IndexSet WorkerId) → s ≢ [] → IndexSet.contains ℕ_discrete (p k s) s ≡ true

All-contains :
    (P : WorkerId → Type 0) (s : IndexSet WorkerId) (wid : WorkerId)
    → All P s
    → IndexSet.contains ℕ_discrete wid s ≡ true
    → P wid
unfolding IndexSet.contains
All-contains P [] wid h c = cc
All-contains P (i ∷ s) wid h c = elim (ℕ_discrete i wid) [
  | yes same ↦ subst P same h.0
  | no other ↦ All-contains P s wid h.1 (ground (arith, other, c))
]

All-weaken :
    (P Q : WorkerId → Type 0)
    → ((wid : WorkerId) → P wid → Q wid)
    → (s : IndexSet WorkerId) → All P s
    → All Q s
All-weaken P Q f [] h = tt
All-weaken P Q f (i ∷ s) h = (f i h.0, All-weaken P Q f s h.1)

module _ {K V T : Type 0} where
  abbrev pub IsConnected : Remotes K V T → WorkerId → Type 0
  IsConnected rs wid = is_some (IndexMap.get ℕ_discrete wid rs) ≡ true

  abbrev pub IsReachable : WorkerId → Remotes K V T → WorkerId → Type 0
  IsReachable this_worker rs wid = (wid ≡ this_worker) ⊎ IsConnected rs wid

  -- There is a worker in the set, and each is this one or connected.
  abbrev pub Covers : WorkerId → Remotes K V T → IndexSet WorkerId → Type 0
  Covers this_worker rs s = (s ≢ []) × All (IsReachable this_worker rs) s

  -- The worker sets that a router chooses from are covered.
  unfoldable pub IsCovered : WorkerId → Remotes K V T → MessageRouter K V T → Type 0
  IsCovered this_worker rs (normal r) = Covers this_worker rs r.worker_set
  IsCovered this_worker rs (interrogating r) =
      Covers this_worker rs r.old_worker_set × Covers this_worker rs r.new_worker_set
  IsCovered this_worker rs (collecting r) =
      Covers this_worker rs r.old_worker_set × Covers this_worker rs r.new_worker_set
  IsCovered this_worker rs (finished r) =
      Covers this_worker rs r.old_worker_set × Covers this_worker rs r.new_worker_set

  -- No connection is lost from the first to the second.
  abbrev pub Keeps : Remotes K V T → Remotes K V T → Type 0
  Keeps rs rs' = (wid : WorkerId) → IsConnected rs wid → IsConnected rs' wid

  Covers-Keeps :
      (this_worker : WorkerId) (rs rs' : Remotes K V T) (s : IndexSet WorkerId)
      → Keeps rs rs'
      → Covers this_worker rs s
      → Covers this_worker rs' s
  Covers-Keeps this_worker rs rs' s k c =
      (c.0, All-weaken _ _ (λ wid h. elim h [ inl e ↦ inl e | inr h ↦ inr (k wid h) ]) s c.1)

  pub IsCovered-Keeps :
      (this_worker : WorkerId) (rs rs' : Remotes K V T) (router : MessageRouter K V T)
      → Keeps rs rs'
      → IsCovered this_worker rs router
      → IsCovered this_worker rs' router
  unfolding IsCovered
  IsCovered-Keeps this_worker rs rs' (normal r) k c =
      Covers-Keeps this_worker rs rs' r.worker_set k c
  IsCovered-Keeps this_worker rs rs' (interrogating r) k c =
      (Covers-Keeps this_worker rs rs' _ k c.0, Covers-Keeps this_worker rs rs' _ k c.1)
  IsCovered-Keeps this_worker rs rs' (collecting r) k c =
      (Covers-Keeps this_worker rs rs' _ k c.0, Covers-Keeps this_worker rs rs' _ k c.1)
  IsCovered-Keeps this_worker rs rs' (finished r) k c =
      (Covers-Keeps this_worker rs rs' _ k c.0, Covers-Keeps this_worker rs rs' _ k c.1)

  -- `connect` keeps what there is and reaches every worker of its list.
  insert-Keeps :
      (i : WorkerId) (rs : Remotes K V T) → Keeps rs (IndexMap.insert ℕ_discrete i new_remote rs)
  insert-Keeps i rs wid h = ground (arith, get-insert ℕ_discrete i wid new_remote rs, h)

  pub connect-Keeps :
      (this_worker : WorkerId) (s : List WorkerId) (rs : Remotes K V T)
      → Keeps rs (connect this_worker s rs)
  unfolding connect
  connect-Keeps this_worker [] rs wid h = h
  connect-Keeps this_worker (i ∷ s) rs wid h =
      elim (Bool-cases (not (IndexMap.contains_key ℕ_discrete i rs) && not (i == this_worker))) [
        | inl e ↦ rw e (connect-Keeps this_worker s _ wid (insert-Keeps i rs wid h))
        | inr e ↦ rw e (connect-Keeps this_worker s rs wid h)
      ]

  step-reaches :
      (this_worker i : WorkerId) (rs : Remotes K V T)
      → IsReachable this_worker
          (if not (IndexMap.contains_key ℕ_discrete i rs) && not (i == this_worker)
            then IndexMap.insert ℕ_discrete i new_remote rs
            else rs)
          i
  step-reaches this_worker i rs = elim (Bool-cases (i == this_worker)) [
    | inl e ↦ inl ((==_iff i this_worker).0 e)
    | inr e ↦ elim (Bool-cases (IndexMap.contains_key ℕ_discrete i rs)) [
      | inl c ↦ inr (rw c c)
      | inr c ↦ inr (ground (arith, e, c, get-insert_self ℕ_discrete i new_remote rs))
    ]
  ]

  pub connect-reaches :
      (this_worker : WorkerId) (s : List WorkerId) (rs : Remotes K V T)
      → All (IsReachable this_worker (connect this_worker s rs)) s
  unfolding connect
  connect-reaches this_worker [] rs = tt
  connect-reaches this_worker (i ∷ s) rs = (
    elim (step-reaches this_worker i rs) [
      | inl e ↦ inl e
      | inr h ↦ inr (connect-Keeps this_worker s _ i h)
    ],
    connect-reaches this_worker s _,
  )

  pub connect-Distinct :
      (this_worker : WorkerId) (s : List WorkerId) (rs : Remotes K V T)
      → IndexMap.Distinct ℕ_discrete rs
      → IndexMap.Distinct ℕ_discrete (connect this_worker s rs)
  unfolding connect
  connect-Distinct this_worker [] rs d = d
  connect-Distinct this_worker (i ∷ s) rs d =
      elim (Bool-cases (not (IndexMap.contains_key ℕ_discrete i rs) && not (i == this_worker))) [
        | inl e ↦
            rw e (connect-Distinct this_worker s _ (insert-Distinct ℕ_discrete i new_remote rs d))
        | inr e ↦ rw e (connect-Distinct this_worker s rs d)
      ]

  -- The targets of the routers are among the workers of their sets, or the sender's own.
  module _ (partitioner : WorkerPartitioner K) (picks : IsPartitioner partitioner) where
    target-IsReachable :
        (this_worker : WorkerId) (rs : Remotes K V T) (k : K) (s : IndexSet WorkerId)
        → Covers this_worker rs s
        → IsReachable this_worker rs (partitioner k s)
    target-IsReachable this_worker rs k s c =
        All-contains (IsReachable this_worker rs) s (partitioner k s) c.1 (picks k s c.0)

    reached :
        (this_worker : WorkerId) (rs : Remotes K V T) (target : WorkerId) (k : K)
        (old new : IndexSet WorkerId)
        → Covers this_worker rs old
        → Covers this_worker rs new
        → (target ≡ this_worker) ⊎ (target ≡ partitioner k old) ⊎ (target ≡ partitioner k new)
        → IsReachable this_worker rs target
    reached this_worker rs target k old new c d (inl e) = inl e
    reached this_worker rs target k old new c d (inr (inl e)) =
        subst (IsReachable this_worker rs) (sym e) (target-IsReachable this_worker rs k old c)
    reached this_worker rs target k old new c d (inr (inr e)) =
        subst (IsReachable this_worker rs) (sym e) (target-IsReachable this_worker rs k new d)

    module _ (dec : Discrete K) where
      pub route_in_state-IsReachable :
          (this_worker sender target : WorkerId) (rs : Remotes K V T) (router : MessageRouter K V T)
          (msg m : DataMessage K V T) (h : Heap K)
          → IsCovered this_worker rs router
          → (route_in_state dec partitioner router msg this_worker sender rs h).0 ≡ some (m, target)
          → IsReachable this_worker rs target
      unfolding IsCovered route_in_state route_interrogate route_collect route_finished
      route_in_state-IsReachable this_worker sender target rs (normal r) msg m h c e =
          subst (IsReachable this_worker rs) (cc)
            (target-IsReachable this_worker rs msg.key r.worker_set c)
      route_in_state-IsReachable this_worker sender target rs (interrogating r) msg m h c e =
          reached this_worker rs target msg.key r.old_worker_set r.new_worker_set c.0 c.1
            (ground (arith, e))
      route_in_state-IsReachable this_worker sender target rs (collecting r) msg m h c e =
          reached this_worker rs target msg.key r.old_worker_set r.new_worker_set c.0 c.1
            (ground (arith, e))
      route_in_state-IsReachable this_worker sender target rs (finished r) msg m h c e =
          reached this_worker rs target msg.key r.old_worker_set r.new_worker_set c.0 c.1
            (ground (arith, e))
