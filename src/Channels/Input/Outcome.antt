-- ===== src/Channels/Input/Outcome.antt =====
-- What one call of `Input::recv` can do, said without indices.
use malstrom.Base.{
  ℕ, ◌+◌, Bool, true, false, not, Option, none, some, List, [], ◌∷◌, ◌++◌, map, ◌||◌, ◌≡◌, refl,
  ◌⊎◌, inl, inr, Result, ok, panic, all, any, length, arith, Bool-cases,
}
use native.Mathlib.Nat.{zero-add}
use mathlib.Core.Option
use malstrom.Types.{Message, epoch}
use malstrom.Types.Time.{MaybeTime}
use malstrom.Types.Merge.{merge_timestamps}
use malstrom.Channels.Spsc
use malstrom.Channels.Spsc.{SharedInner}
use malstrom.Channels.Input
use malstrom.Channels.Input.{
  Input, UpstreamState, is_barrier, is_suspend, can_recv_unaligned, find_next, set_epoch, heads,
  drop_heads, last, recv_aligned, handle_next, advance, is_nil,
}

module _ {K V T : Type 0} where
  abbrev pub needs_alignment : Message K V T → Bool
  needs_alignment m = is_barrier m || is_suspend m

  -- The edge once its head `m` is taken; an epoch is noted.
  abbrev pub absorb : Message K V T → UpstreamState K V T → UpstreamState K V T
  absorb (epoch e) u = record { last_epoch = some e; receiver = (Spsc.recv u.receiver).1 }
  absorb _ u = record u { receiver = (Spsc.recv u.receiver).1 }

  abbrev pub epochs : List (UpstreamState K V T) → List (Option T)
  epochs = map (λ u. u.last_epoch)

  abbrev pub no_empty : List (UpstreamState K V T) → Bool
  no_empty us = not (any (λ u. Spsc.is_empty u.receiver) us)

  abbrev pub all_heads : (Message K V T → Bool) → List (UpstreamState K V T) → Bool
  all_heads p = all (λ u. Spsc.peek_test p u.receiver)

module _ {K V T : Type 0} ⦃t : MaybeTime T⦄ where
  -- What is handed on for a message `m`, and the new frontier: an epoch is merged over all edges.
  abbrev pub handed : Message K V T → List (UpstreamState K V T) → Option (Message K V T)
  handed (epoch e) us = Option.map epoch (merge_timestamps (epochs us))
  handed m us = some m

  abbrev pub new_frontier : Message K V T → List (UpstreamState K V T) → Option T → Option T
  new_frontier (epoch e) us f = advance (merge_timestamps (epochs us)) f
  new_frontier m us f = f

  pub data Outcome (i : Input K V T) (r : Result (Option (Message K V T) × Input K V T))
      : Type 0 where
    -- One edge loses its head, which needs no alignment; no edge before it had such a message.
    took :
        (before after : List (UpstreamState K V T)) (u : UpstreamState K V T) (m : Message K V T)
        (rest : List (Message K V T))
        → i.receivers ≡ before ++ u ∷ after
        → u.receiver.buffer ≡ m ∷ rest
        → needs_alignment m ≡ false
        → any can_recv_unaligned before ≡ false
        → (let us = before ++ absorb m u ∷ after in
            r
            ≡ ok (handed m us, record { receivers = us; frontier = new_frontier m us i.frontier }))
        → Outcome i r
    -- Nothing to take, and an edge is empty or there is none.
    waits :
        any can_recv_unaligned i.receivers ≡ false
        → (no_empty i.receivers ≡ false) ⊎ (i.receivers ≡ [])
        → r ≡ ok (none, i)
        → Outcome i r
    -- Every edge holds a barrier, or every edge a suspend marker: all lose their head.
    aligned :
        no_empty i.receivers ≡ true
        → (all_heads is_barrier i.receivers ≡ true) ⊎ (all_heads is_suspend i.receivers ≡ true)
        → r ≡ ok (last (heads i.receivers), record i { receivers = drop_heads i.receivers })
        → Outcome i r
    -- Barriers on some edges and suspend markers on all the others: `unreachable!`.
    stuck :
        any can_recv_unaligned i.receivers ≡ false
        → no_empty i.receivers ≡ true
        → all_heads is_barrier i.receivers ≡ false
        → all_heads is_suspend i.receivers ≡ false
        → r ≡ panic
        → Outcome i r

-- What `find_map` leaves: nothing found and nothing changed, or the first edge split off.
data Found {K V T : Type 0} (n : ℕ) (us : List (UpstreamState K V T))
    (r : Option (Message K V T × ℕ) × List (UpstreamState K V T)) : Type 0 where
  missed : any can_recv_unaligned us ≡ false → r ≡ (none, us) → Found n us r
  hit :
      (before after : List (UpstreamState K V T)) (u : UpstreamState K V T) (m : Message K V T)
      (rest : List (Message K V T))
      → us ≡ before ++ u ∷ after
      → u.receiver.buffer ≡ m ∷ rest
      → needs_alignment m ≡ false
      → any can_recv_unaligned before ≡ false
      → r ≡ (
        some (m, n + length before),
        before ++ record u { receiver = (Spsc.recv u.receiver).1 } ∷ after,
      )
      → Found n us r

List-cases {ℓ} : {A : Type ℓ} (xs : List A) → (xs ≡ []) ⊎ (is_nil xs ≡ false)
List-cases [] = inl refl
List-cases (x ∷ xs) = inr refl

module _ {K V T : Type 0} where
  head_split :
      (u : UpstreamState K V T)
      → can_recv_unaligned u ≡ true
      → (m : Message K V T) × (rest : List (Message K V T)) × (u.receiver.buffer ≡ m ∷ rest)
        × (needs_alignment m ≡ false)
  head_split u h = go u.receiver.buffer refl
    where
      go :
          (b : List (Message K V T))
          → u.receiver.buffer ≡ b
          → (m : Message K V T) × (rest : List (Message K V T)) × (u.receiver.buffer ≡ m ∷ rest)
            × (needs_alignment m ≡ false)
      go [] e = absurd (ground arith)
      go (m ∷ rest) e = (m, rest, e, ground arith)

  find_next_skip :
      (n : ℕ) (u : UpstreamState K V T) (us : List (UpstreamState K V T))
      → can_recv_unaligned u ≡ false
      → find_next n (u ∷ us) ≡ ((find_next (n + 1) us).0, u ∷ (find_next (n + 1) us).1)
  unfolding find_next
  find_next_skip n u us h = ground arith

  -- An edge in front with nothing to take does not count.
  Found-cons :
      (n : ℕ) (u : UpstreamState K V T) (us : List (UpstreamState K V T))
      → can_recv_unaligned u ≡ false
      → Found (n + 1) us (find_next (n + 1) us)
      → Found n (u ∷ us) (find_next n (u ∷ us))
  Found-cons n u us h (missed none_found e) =
      missed (ground arith) (rw (find_next_skip n u us h, e))
  Found-cons n u us h (hit before after v m rest split head plain quiet e) =
      hit (u ∷ before) after v m rest (ground arith) head plain (ground arith)
        (rw (find_next_skip n u us h, e) (ground arith))

  find_next-Found : (n : ℕ) (us : List (UpstreamState K V T)) → Found n us (find_next n us)
  unfolding find_next Spsc.recv
  find_next-Found n [] = missed refl refl
  find_next-Found n (u ∷ us) = elim (Bool-cases (can_recv_unaligned u)) [
    | inl h ↦
        let (m, rest, e, plain) = head_split u h in
        hit [] us u m rest refl e plain refl (ground arith)
    | inr h ↦ Found-cons n u us h (find_next-Found (n + 1) us)
  ]

  set_epoch-append :
      (before after : List (UpstreamState K V T)) (u : UpstreamState K V T) (e : T)
      → set_epoch (before ++ u ∷ after) (length before) e
        ≡ ok (before ++ record u { last_epoch = some e } ∷ after)
  unfolding set_epoch
  set_epoch-append [] after u e = refl
  set_epoch-append (v ∷ before) after u e = rw (set_epoch-append before after u e)

module _ {K V T : Type 0} ⦃t : MaybeTime T⦄ where
  recv_aligned-Outcome :
      (i : Input K V T) → any can_recv_unaligned i.receivers ≡ false → Outcome i (recv_aligned i)
  unfolding recv_aligned
  recv_aligned-Outcome i h = elim (Bool-cases (no_empty i.receivers)) [
    | inr e ↦ waits h (inl e) (ground arith)
    | inl full ↦ elim (List-cases i.receivers) [
      | inl e ↦ waits h (inr e) (rw (e, recv_aligned))
      | inr some_edge ↦ elim (Bool-cases (all_heads is_barrier i.receivers)) [
        | inl b ↦ aligned full (inl b) (ground arith)
        | inr b ↦ elim (Bool-cases (all_heads is_suspend i.receivers)) [
          | inl s ↦ aligned full (inr s) (ground arith)
          | inr s ↦ stuck h full b s (ground arith)
        ]
      ]
    ]
  ]

  handle_next_hit :
      (i : Input K V T) (before after : List (UpstreamState K V T)) (u : UpstreamState K V T)
      (m : Message K V T)
      → (let us = before ++ absorb m u ∷ after in
          handle_next
            (record i {
              receivers = before ++ record u { receiver = (Spsc.recv u.receiver).1 } ∷ after;
            })
            (some (m, length before))
          ≡ ok (handed m us, record { receivers = us; frontier = new_frontier m us i.frontier }))
  unfolding handle_next
  handle_next_hit i before after u (epoch e) =
      rw (set_epoch-append before after (record u { receiver = (Spsc.recv u.receiver).1 }) e)
  handle_next_hit i before after u m = refl

  -- Each call of `recv` does one of four things. It takes the head of the first edge whose
  -- head is no barrier or suspend marker, and hands it on, an epoch merged over all edges; it
  -- hands on nothing and changes nothing, when there is no such head and some edge is empty or
  -- there is no edge; it takes the head of every edge, when all are barriers or all are
  -- suspend markers, and hands on the last; or it panics, when every edge has a marker and
  -- both kinds occur.
  pub recv-Outcome : (i : Input K V T) → Outcome i (Input.recv i)
  unfolding Input.recv
  recv-Outcome i = go (find_next-Found 0 i.receivers)
    where
      go : Found 0 i.receivers (find_next 0 i.receivers) → Outcome i (Input.recv i)
      go (missed h e) = rw e (recv_aligned-Outcome i h)
      go (hit before after u m rest split head plain quiet e) =
          took before after u m rest split head plain quiet
            (rw (e, zero-add) (handle_next_hit i before after u m))
