-- ===== src/Base/IndexSet.antt =====
-- `IndexSet` of the crate `indexmap`: the elements in insertion order. `pop` takes the last one.
use mathlib.Core.Path.{◌≡◌, refl}
use mathlib.Core.Logic.{ite, inl, inr}
use mathlib.Core.Bool.{Bool, true, false, not, ◌&&◌, ◌||◌}
use mathlib.Core.List.{List, [], ◌∷◌, ◌++◌}
use mathlib.Core.Option.{Option, none, some}
use native.Mathlib.Omega.{arith}
use malstrom.Base.Tests.{if◌then◌else◌, Option-cases}

abbrev pub IndexSet {ℓ} : Type ℓ → Type ℓ
IndexSet K = List K

module _ {ℓ} {K : Type ℓ} where
  -- The elements but the last, and the last.
  unfoldable pub pop : IndexSet K → Option (IndexSet K × K)
  pop [] = none
  pop (k ∷ s) = elim (pop s) [ none ↦ some ([], k) | some (rest, l) ↦ some (k ∷ rest, l) ]

  pub pop-none : (s : IndexSet K) → pop s ≡ none → s ≡ []
  unfolding pop
  pop-none [] h = refl
  pop-none (k ∷ s) h = ground arith

  pub pop-some : (s rest : IndexSet K) (l : K) → pop s ≡ some (rest, l) → s ≡ rest ++ l ∷ []
  unfolding pop
  pop-some [] rest l h = cc
  pop-some (k ∷ s) rest l h = elim (Option-cases (pop s)) [
    | inl e ↦ ground (arith, pop-none s)
    | inr ((r, m), e) ↦ ground (arith, pop-some s r m e)
  ]

module _ {ℓ} {K : Type ℓ} (dec : Discrete K) where
  unfoldable pub contains : K → IndexSet K → Bool
  contains k [] = false
  contains k (j ∷ s) = ite (dec j k) true (contains k s)

  unfoldable pub insert : K → IndexSet K → IndexSet K
  insert k s = if contains k s then s else s ++ k ∷ []

  -- The elements of the first set that the second lacks.
  unfoldable pub difference : IndexSet K → IndexSet K → IndexSet K
  difference [] t = []
  difference (k ∷ s) t = let rest = difference s t in if contains k t then rest else k ∷ rest

  pub contains-append :
      (k : K) (s t : IndexSet K) → contains k (s ++ t) ≡ contains k s || contains k t
  unfolding contains
  contains-append k [] t = refl
  contains-append k (j ∷ s) t = ground (arith, contains-append k s t)

  pub contains-insert :
      (k j : K) (s : IndexSet K) → contains j (insert k s) ≡ ite (dec k j) true (contains j s)
  unfolding insert contains
  contains-insert k j s = ground (arith, contains-append j s (k ∷ []))

  pub contains-difference :
      (k : K) (s t : IndexSet K) → contains k (difference s t) ≡ contains k s && not (contains k t)
  unfolding contains difference
  contains-difference k [] t = refl
  contains-difference k (j ∷ s) t = ground (arith, contains-difference k s t)
