-- ===== src/Keyed/Distributor/Epochs.antt =====
-- malstrom-core/src/keyed/distributed.rs: the epochs that a distributor lets out.
use malstrom.Base.{
  Option, none, some, List, [], ◌∷◌, ◌++◌, ◌≡◌, ◌≢◌, ◌⊎◌, inl, inr, All, Option-cases, false, arith,
}
use malstrom.Types.{epoch}
use malstrom.Types.Time.{MaybeTime, IsTimestamp}
use malstrom.Types.Merge.{merge_timestamps, merge_timestamps_bound, merge_timestamps_greatest, Low}
use malstrom.Keyed.Types.{World, emit}
use malstrom.Keyed.Distributor.{Distributor}
use malstrom.Keyed.Distributor.Messages.{frontiers, handle_epoch}

append_ne : {A : Type 0} (xs : List A) (y : A) → xs ++ y ∷ [] ≢ []
append_ne [] y = λ e. cc
append_ne (x ∷ xs) y = λ e. cc

module _ {T : Type 0} ⦃t : MaybeTime T⦄ (laws : IsTimestamp t) where
  largest :
      (xs : List (Option T)) (m c : T)
      → xs ≢ []
      → merge_timestamps xs ≡ some m
      → All (Low c) xs
      → t.lt m c ≡ false
  largest xs m c h e l =
      let (n, same, above) = merge_timestamps_greatest laws xs c h l in
      ground (arith, e, same, above)

  no_bound :
      (xs : List (Option T)) (c : T) → xs ≢ [] → merge_timestamps xs ≡ none → ¬ All (Low c) xs
  no_bound xs c h e l = let (n, same, above) = merge_timestamps_greatest laws xs c h l in cc

module _ {K V T : Type 0} ⦃t : MaybeTime T⦄ where
  -- The epoch that all frontiers agree on goes out, the greatest there is; or they agree on none.
  abbrev pub IsAgreed : Distributor K V T → World K V T → World K V T → Type 0
  IsAgreed d w w' =
      ((m : T) × (w' ≡ emit (epoch m) w)
        × All (Low m) (frontiers d)
        × ((c : T) → All (Low c) (frontiers d) → t.lt m c ≡ false))
      ⊎ ((w' ≡ w) × ((c : T) → ¬ All (Low c) (frontiers d)))

  module _ (laws : IsTimestamp t) where
    -- `handle_epoch`, for timestamps that are linearly ordered: if every remote and this worker have
    -- announced an epoch and these have a common lower bound, the greatest such bound is emitted, and
    -- otherwise nothing is.
    pub handle_epoch-IsAgreed :
        (d : Distributor K V T) (w : World K V T) → IsAgreed d w (handle_epoch d w)
    unfolding handle_epoch
    handle_epoch-IsAgreed d w = elim (Option-cases (merge_timestamps (frontiers d))) [
      | inl e ↦
          inr
            (ground (arith, e), λ c. no_bound laws (frontiers d) c (append_ne _ d.local_frontier) e)
      | inr (m, e) ↦ inl (
        m,
        ground (arith, e),
        merge_timestamps_bound laws (frontiers d) m e,
        λ c. largest laws (frontiers d) m c (append_ne _ d.local_frontier) e,
      )
    ]
