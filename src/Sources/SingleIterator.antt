-- ===== src/Sources/SingleIterator.antt =====
-- malstrom-core/src/sources/single_iterator.rs: the values of an iterator, each with its index. The
-- iterator is a list; the index does not come near the end of `usize`.
pub mod Sequence
use malstrom.Base.{ℕ, ◌+◌, Bool, true, false, Option, none, some, List, [], ◌∷◌, Result, ok, panic}
use malstrom.Sources.Stateless.{StatelessSourceImpl}

-- The values left, and the index of the next.
abbrev pub SingleIteratorPartition : Type 0 → Type 0
SingleIteratorPartition V = List V × ℕ

module _ {V : Type 0} where
  unfoldable pub poll_next : SingleIteratorPartition V → SingleIteratorPartition V × Option (V × ℕ)
  poll_next ([], i) = (([], i), none)
  poll_next (x ∷ xs, i) = ((xs, i + 1), some (x, i))

  abbrev pub is_at_end : SingleIteratorPartition V → Bool
  is_at_end ([], i) = true
  is_at_end (x ∷ xs, i) = false

  -- The iterator is taken out of the source, which has one part.
  abbrev pub build_single :
      Option (List V) → Unit {0} → Result (Option (List V) × SingleIteratorPartition V)
  build_single none part = panic
  build_single (some xs) part = ok (none, (xs, 0))

  abbrev pub single_iterator :
      StatelessSourceImpl (Option (List V)) (Unit {0}) (SingleIteratorPartition V) V ℕ
  single_iterator = record {
    list_parts = λ b. tt ∷ [];
    build_part = build_single;
    poll = poll_next;
    suspend = λ p. p;
    is_finished = λ p. (p, is_at_end p);
  }
