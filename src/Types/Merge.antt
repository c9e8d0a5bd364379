-- ===== src/Types/Merge.antt =====
-- `merge_timestamps` of malstrom-core/src/channels/operator_io.rs (once more in
-- malstrom-core/src/keyed/distributed.rs): the time that several sources have all reached.
use mathlib.Core.Option
use malstrom.Base.{
  Option, none, some, List, [], ◌∷◌, ◌≡◌, ◌≢◌, refl, sym, ap, ◌∙◌, All, false, arith,
}
use malstrom.Types.Time.{MaybeTime, IsTimestamp}

module _ {T : Type 0} ⦃t : MaybeTime T⦄ where
  -- The loop, with `merged` as its accumulator; a missing time returns early.
  unfoldable pub merge_from : Option T → List (Option T) → Option T
  unfolding Option.bind
  merge_from merged [] = merged
  merge_from merged (none ∷ xs) = none
  merge_from merged (some y ∷ xs) = merge_from (Option.bind merged (λ a. t.try_merge a y)) xs

  unfoldable pub merge_timestamps : List (Option T) → Option T
  unfolding merge_from
  merge_timestamps [] = none
  merge_timestamps (x ∷ xs) = merge_from x xs

  -- `m` is a time, and not above the one that is there.
  abbrev pub Low : T → Option T → Type 0
  Low m none = ⊥
  Low m (some v) = t.lt v m ≡ false

module _ {T : Type 0} ⦃t : MaybeTime T⦄ (laws : IsTimestamp t) where
  Low-trans : (a b : T) (x : Option T) → t.lt a b ≡ false → Low a x → Low b x
  Low-trans a b none h l = l
  Low-trans a b (some v) h l = laws.not-lt_trans b a v h l

  All-Low : (a b : T) (xs : List (Option T)) → t.lt a b ≡ false → All (Low a) xs → All (Low b) xs
  All-Low a b [] h l = tt
  All-Low a b (x ∷ xs) h l = (Low-trans a b x h l.0, All-Low a b xs h l.1)

  merge_from_step :
      (a y : T) (xs : List (Option T))
      → merge_from (some a) (some y ∷ xs) ≡ merge_from (some (laws.merge a y)) xs
  unfolding merge_from
  merge_from_step a y xs = ap (λ o. merge_from o xs) (laws.try_merge_total a y)

  merge_from_bound :
      (a m : T) (xs : List (Option T)) → merge_from (some a) xs ≡ some m → All (Low m) (some a ∷ xs)
  unfolding merge_from
  merge_from_bound a m [] e = (ground (arith, laws.lt_irrefl a), tt)
  merge_from_bound a m (none ∷ xs) e = cc
  merge_from_bound a m (some y ∷ xs) e =
      let (below, rest) =
        merge_from_bound (laws.merge a y) m xs (sym (merge_from_step a y xs) ∙ e) in
      (
        laws.not-lt_trans m (laws.merge a y) a below (laws.merge_left a y),
        (laws.not-lt_trans m (laws.merge a y) y below (laws.merge_right a y), rest),
      )

  merge_from_total :
      (a c : T) (xs : List (Option T))
      → All (Low c) (some a ∷ xs)
      → (m : T) × (merge_from (some a) xs ≡ some m) × (t.lt m c ≡ false)
  unfolding merge_from
  merge_from_total a c [] l = (a, refl, l.0)
  merge_from_total a c (none ∷ xs) l = absurd l.1.0
  merge_from_total a c (some y ∷ xs) l =
      let (m, e, g) =
        merge_from_total (laws.merge a y) c xs (laws.merge_greatest a y c l.0 l.1.0, l.1.1) in
      (m, merge_from_step a y xs ∙ e, g)

  merge_from-none : (xs : List (Option T)) → merge_from none xs ≡ none
  unfolding merge_from
  merge_from-none [] = refl
  merge_from-none (none ∷ xs) = refl
  merge_from-none (some y ∷ xs) = merge_from-none xs

  -- A merged time is not above any of the times, all of which are there.
  pub merge_timestamps_bound :
      (xs : List (Option T)) (m : T) → merge_timestamps xs ≡ some m → All (Low m) xs
  unfolding merge_timestamps
  merge_timestamps_bound [] m e = tt
  merge_timestamps_bound (none ∷ xs) m e = cc (merge_from-none xs)
  merge_timestamps_bound (some a ∷ xs) m e = merge_from_bound a m xs e

  -- It is there, and the greatest such, as soon as any lower bound of all the times is.
  pub merge_timestamps_greatest :
      (xs : List (Option T)) (c : T)
      → xs ≢ []
      → All (Low c) xs
      → (m : T) × (merge_timestamps xs ≡ some m) × (t.lt m c ≡ false)
  unfolding merge_timestamps
  merge_timestamps_greatest [] c h l = absurd (h refl)
  merge_timestamps_greatest (none ∷ xs) c h l = absurd l.0
  merge_timestamps_greatest (some a ∷ xs) c h l = merge_from_total a c xs l
