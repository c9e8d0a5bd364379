-- ===== src/Keyed/Partitioners.antt =====
-- malstrom-core/src/keyed/partitioners.rs: `index_select`. `rendezvous_select` depends on the hasher
-- of the standard library.
use Prim.Native.Nat.{◌<◌}
use malstrom.Base.{
  ℕ, zero, suc, ◌%◌, true, some, [], ◌∷◌, ◌≡◌, ◌⊎◌, inl, inr, refl, ap, arith, length, get_elem?,
  Result, ok, panic, expect,
}
use native.Mathlib.Nat.{mod-lt, zero-lt-suc}
use malstrom.Base.IndexSet
use malstrom.Base.IndexSet.{IndexSet}
use malstrom.Types.{WorkerId}
use native.Mathlib.Decide.{ℕ_discrete}

-- The remainder by 0 panics, and so does a missing index. A key is a u64, and so is `usize` on the
-- 64-bit machines that this is about.
unfoldable pub index_select : ℕ → IndexSet WorkerId → Result WorkerId
index_select i [] = panic
index_select i (w ∷ s) = expect (get_elem? (w ∷ s) (i % length (w ∷ s)))

get_elem?-contains :
    (s : IndexSet WorkerId) (n : ℕ)
    → n < length s
    → (w : WorkerId) × (get_elem? s n ≡ some w) × (IndexSet.contains ℕ_discrete w s ≡ true)
unfolding IndexSet.contains
get_elem?-contains [] n h = absurd (omega arith)
get_elem?-contains (w ∷ s) zero h = (w, refl, ground arith)
get_elem?-contains (w ∷ s) (suc n) h =
    let (v, at, c) = get_elem?-contains s n (omega arith) in (v, at, ground (arith, c))

-- `index_select` panics exactly on an empty set, and otherwise picks one of its workers.
pub index_select-contains :
    (i : ℕ) (s : IndexSet WorkerId)
    → ((s ≡ []) × (index_select i s ≡ panic))
      ⊎ ((w : WorkerId) × (index_select i s ≡ ok w) × (IndexSet.contains ℕ_discrete w s ≡ true))
unfolding index_select
index_select-contains i [] = inl (refl, refl)
index_select-contains i (w ∷ s) =
    let (v, at, c) =
      get_elem?-contains (w ∷ s) (i % length (w ∷ s)) (mod-lt i (zero-lt-suc (length s))) in
    inr (v, ap expect at, c)
