-- ===== src/Keyed/Distributor/Targets/Removal.antt =====
-- malstrom-core/src/keyed/distributed/message_router/finished.rs: the connections that the end of a
-- rescaling removes.
use malstrom.Base.{
  true, false, not, ◌&&◌, none, List, [], ◌∷◌, ◌≡◌, ◌⊎◌, inl, inr, refl, subst, sym, arith, All,
  Bool-cases, all, if◌then◌else◌,
}
use malstrom.Base.IndexMap
use malstrom.Base.IndexMap.{values, get-swap_remove, swap_remove-Distinct}
use malstrom.Base.IndexSet
use malstrom.Base.IndexSet.{IndexSet, contains-difference}
use malstrom.Types.{WorkerId, rescale}
use malstrom.Keyed.Types.{Remotes, World, emit}
use malstrom.Keyed.Router.States.{FinishedRouter, MessageRouter, normal, finished, new_normal}
use malstrom.Keyed.Router.Lifecycle.{remove_all, lifecycle_finished, is_done}
use malstrom.Keyed.Distributor.Targets.{IsReachable, Covers, IsCovered}
use native.Mathlib.Decide.{ℕ_discrete}

module _ {K V T : Type 0} where
  remove_all-Distinct :
      (s : List WorkerId) (rs : Remotes K V T)
      → IndexMap.Distinct ℕ_discrete rs
      → IndexMap.Distinct ℕ_discrete (remove_all s rs)
  unfolding remove_all
  remove_all-Distinct [] rs d = d
  remove_all-Distinct (i ∷ s) rs d =
      remove_all-Distinct s _ (swap_remove-Distinct ℕ_discrete i rs d)

  -- Exactly the connections of the list are gone.
  get-remove_all :
      (wid : WorkerId) (s : List WorkerId) (rs : Remotes K V T)
      → IndexMap.Distinct ℕ_discrete rs
      → IndexMap.get ℕ_discrete wid (remove_all s rs)
        ≡ (if IndexSet.contains ℕ_discrete wid s then none else IndexMap.get ℕ_discrete wid rs)
  unfolding remove_all IndexSet.contains
  get-remove_all wid [] rs d = refl
  get-remove_all wid (i ∷ s) rs d = ground (
    arith,
    get-remove_all wid s (IndexMap.swap_remove ℕ_discrete i rs)
        (swap_remove-Distinct ℕ_discrete i rs d),
    get-swap_remove ℕ_discrete i wid rs d,
  )

  -- How a rescaling ends, by the router and the connections before and after: the router waits, or
  -- it takes the new workers over, the connections to workers that leave are gone, and every other
  -- connection is as it was.
  abbrev pub IsRemoval :
      WorkerId → FinishedRouter → Remotes K V T → MessageRouter K V T → Remotes K V T → Type 0
  IsRemoval this_worker r rs router rs' =
      ((router ≡ finished r) × (rs' ≡ rs))
      ⊎ (IsCovered this_worker rs' router
          × IndexMap.Distinct ℕ_discrete rs'
          × ((wid : WorkerId)
              → IndexSet.contains ℕ_discrete wid r.new_worker_set ≡ false
              → IndexSet.contains ℕ_discrete wid r.old_worker_set ≡ true
              → IndexMap.get ℕ_discrete wid rs' ≡ none)
          × ((wid : WorkerId)
              → (IndexSet.contains ℕ_discrete wid r.new_worker_set ≡ true)
                ⊎ (IndexSet.contains ℕ_discrete wid r.old_worker_set ≡ false)
              → IndexMap.get ℕ_discrete wid rs' ≡ IndexMap.get ℕ_discrete wid rs))

  module _ (r : FinishedRouter) (rs : Remotes K V T) (d : IndexMap.Distinct ℕ_discrete rs) where
    after : Remotes K V T
    after = remove_all (IndexSet.difference ℕ_discrete r.old_worker_set r.new_worker_set) rs

    get-after :
        (wid : WorkerId)
        → IndexMap.get ℕ_discrete wid after ≡ (
            if IndexSet.contains ℕ_discrete wid r.old_worker_set
              && not (IndexSet.contains ℕ_discrete wid r.new_worker_set)
            then none
            else IndexMap.get ℕ_discrete wid rs)
    unfolding after
    get-after wid = ground (
      arith,
      get-remove_all wid (IndexSet.difference ℕ_discrete r.old_worker_set r.new_worker_set) rs d,
      contains-difference ℕ_discrete wid r.old_worker_set r.new_worker_set,
    )

    reach-after :
        (this_worker : WorkerId) (s : IndexSet WorkerId)
        → ((wid : WorkerId)
            → IndexSet.contains ℕ_discrete wid s ≡ true
            → IndexSet.contains ℕ_discrete wid r.new_worker_set ≡ true)
        → All (IsReachable this_worker rs) s
        → All (IsReachable this_worker after) s
    unfolding IndexSet.contains
    reach-after this_worker [] f c = tt
    reach-after this_worker (i ∷ s) f c = (
      elim c.0 [ inl e ↦ inl e | inr h ↦ inr (ground (arith, get-after i, h, f i)) ],
      reach-after this_worker s (λ wid h. f wid (ground (arith, h))) c.1,
    )

  ended :
      (this_worker : WorkerId) (r : FinishedRouter) (rs : Remotes K V T) (w : World K V T)
      → IndexMap.Distinct ℕ_discrete rs
      → Covers this_worker rs r.new_worker_set
      → all (is_done r.version) (values rs) ≡ true
      → IsRemoval this_worker r rs (lifecycle_finished r rs w).0 (lifecycle_finished r rs w).1
  unfolding lifecycle_finished IsCovered after
  ended this_worker r rs w d c e =
      let same : lifecycle_finished r rs w ≡ (
        normal (new_normal r.new_worker_set r.version),
        after r rs d,
        emit (rescale r.trigger) w,
      ) =
        ground (arith, e) in
      subst (λ x. IsRemoval this_worker r rs x.0 x.1) (sym same)
        (inr (
          (c.0, reach-after r rs d this_worker r.new_worker_set (λ wid h. h) c.1),
          remove_all-Distinct (IndexSet.difference ℕ_discrete r.old_worker_set r.new_worker_set) rs
              d,
          (λ wid new old. ground (arith, get-after r rs d wid, new, old)),
          λ wid h. ground (arith, get-after r rs d wid, h),
        ))

  -- The life cycle of a finished router, when no worker has two connections and the new workers are covered:
  -- the distributor keeps a connection to every worker that it routes to from then on, and drops
  -- exactly those to workers that have left.
  pub lifecycle_finished-IsRemoval :
      (this_worker : WorkerId) (r : FinishedRouter) (rs : Remotes K V T) (w : World K V T)
      → IndexMap.Distinct ℕ_discrete rs
      → Covers this_worker rs r.new_worker_set
      → IsRemoval this_worker r rs (lifecycle_finished r rs w).0 (lifecycle_finished r rs w).1
  unfolding lifecycle_finished IsCovered after
  lifecycle_finished-IsRemoval this_worker r rs w d c =
      elim (Bool-cases (all (is_done r.version) (values rs))) [
        | inr e ↦ inl (ground (arith, e), ground (arith, e))
        | inl e ↦ ended this_worker r rs w d c e
      ]
