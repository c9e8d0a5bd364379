-- ===== src/Channels/Input/Alignment.antt =====
-- Barriers and suspend markers wait until every edge has one.
use malstrom.Base.{
  ℕ, zero, suc, Bool, true, false, some, List, [], ◌∷◌, ◌++◌, ◌≡◌, ◌↔◌, ◌⊎◌, inl, inr, ok, panic,
  any, get_elem?, arith, All,
}
use malstrom.Types.{Message, Barrier, epoch, abs_barrier}
use malstrom.Types.Time.{MaybeTime}
use malstrom.Channels.Spsc
use malstrom.Channels.Input
use malstrom.Channels.Input.{
  Input, UpstreamState, is_barrier, is_suspend, can_recv_unaligned, heads, drop_heads, last,
}
use malstrom.Channels.Input.Outcome.{
  needs_alignment, absorb, no_empty, all_heads, handed, Outcome, took, waits, aligned, stuck,
  recv-Outcome,
}

module _ {K V T : Type 0} where
  All-heads :
      (p : Message K V T → Bool) (us : List (UpstreamState K V T))
      → all_heads p us ≡ true
      → All (λ m. p m ≡ true) (heads us)
  unfolding Spsc.recv
  All-heads p [] h = tt
  All-heads p (u ∷ us) h = ground (arith, All-heads p us)

  last-All :
      (p : Message K V T → Bool) (ms : List (Message K V T)) (m : Message K V T)
      → All (λ x. p x ≡ true) ms
      → last ms ≡ some m
      → p m ≡ true
  last-All p [] m a e = cc
  last-All p (x ∷ []) m a e = ground arith
  last-All p (x ∷ y ∷ ms) m a e = last-All p (y ∷ ms) m a.1 e

  -- A message handed on from one edge is no marker.
  handed_plain :
      ⦃t : MaybeTime T⦄ (m x : Message K V T) (us : List (UpstreamState K V T))
      → needs_alignment m ≡ false
      → handed m us ≡ some x
      → needs_alignment x ≡ false
  handed_plain (epoch e) x us h e' = ground arith
  handed_plain m x us h e' = ground arith

-- The facts about a row of edges in which one edge is changed.
module _ {ℓ} {A : Type ℓ} where
  any-split :
      (p : A → Bool) (before after : List A) (u : A)
      → p u ≡ true
      → any p (before ++ u ∷ after) ≡ true
  any-split p [] after u h = ground arith
  any-split p (x ∷ before) after u h = ground (arith, any-split p before after u h)

  get_elem?-split :
      (before after : List A) (u u' v : A) (j : ℕ)
      → get_elem? (before ++ u ∷ after) j ≡ some v
      → (v ≡ u) ⊎ (get_elem? (before ++ u' ∷ after) j ≡ some v)
  get_elem?-split [] after u u' v zero h = inl (ground arith)
  get_elem?-split [] after u u' v (suc j) h = inr h
  get_elem?-split (x ∷ before) after u u' v zero h = inr h
  get_elem?-split (x ∷ before) after u u' v (suc j) h = get_elem?-split before after u u' v j h

module _ {K V T : Type 0} ⦃t : MaybeTime T⦄ where
  pub heads_marker :
      (i : Input K V T) (m : Message K V T)
      → (all_heads is_barrier i.receivers ≡ true) ⊎ (all_heads is_suspend i.receivers ≡ true)
      → last (heads i.receivers) ≡ some m
      → needs_alignment m ≡ true
  heads_marker i m (inl b) e =
      ground (arith, last-All is_barrier _ m (All-heads is_barrier i.receivers b) e)
  heads_marker i m (inr s) e =
      ground (arith, last-All is_suspend _ m (All-heads is_suspend i.receivers s) e)

  -- `recv` hands a barrier on only when every edge had one at its front, and then it has taken
  -- exactly one barrier from each.
  pub recv_barrier_aligned :
      (i i' : Input K V T) (b : Barrier)
      → Input.recv i ≡ ok (some (abs_barrier b), i')
      → (all_heads is_barrier i.receivers ≡ true) × (i'.receivers ≡ drop_heads i.receivers)
  recv_barrier_aligned i i' b h = go (recv-Outcome i)
    where
      go :
          Outcome i (Input.recv i)
          → (all_heads is_barrier i.receivers ≡ true) × (i'.receivers ≡ drop_heads i.receivers)
      go (took before after u m rest split head plain quiet e) =
          absurd
            (ground (arith, handed_plain m (abs_barrier b) (before ++ absorb m u ∷ after) plain))
      go (waits quiet _ e) = absurd (ground arith)
      go (aligned full (inl bs) e) = (bs, ground arith)
      go (aligned full (inr ss) e) = absurd (
          ground
            (arith, last-All is_suspend _ (abs_barrier b) (All-heads is_suspend i.receivers ss)))
      go (stuck quiet full b s e) = absurd (ground arith)

  -- While a barrier or a suspend marker stands at the front of an edge and `recv` hands on some
  -- other message, that edge is left exactly as it was.
  pub recv_blocked :
      (i i' : Input K V T) (m : Message K V T) (j : ℕ) (u : UpstreamState K V T)
      → Input.recv i ≡ ok (some m, i')
      → needs_alignment m ≡ false
      → get_elem? i.receivers j ≡ some u
      → Spsc.peek_test needs_alignment u.receiver ≡ true
      → get_elem? i'.receivers j ≡ some u
  recv_blocked i i' m j u h plain at front = go (recv-Outcome i)
    where
      go : Outcome i (Input.recv i) → get_elem? i'.receivers j ≡ some u
      go (took before after v x rest split head plain' quiet e) =
          ground (arith, get_elem?-split before after v (absorb x v) u j)
      go (waits quiet _ e) = absurd (ground arith)
      go (aligned full which e) = absurd (ground (arith, heads_marker i m which))
      go (stuck quiet full b s e) = absurd (ground arith)

  -- Every edge has a message, each message a barrier or a suspend marker, and both occur.
  pub record IsMixed (i : Input K V T) : Type 0 where
    pub nothing_plain : any can_recv_unaligned i.receivers ≡ false
    pub all_full : no_empty i.receivers ≡ true
    pub some_suspend : all_heads is_barrier i.receivers ≡ false
    pub some_barrier : all_heads is_suspend i.receivers ≡ false

  -- `recv` reaches its `unreachable!` exactly when barriers meet suspend markers at the fronts of
  -- the edges.
  pub recv-panic_iff : (i : Input K V T) → (Input.recv i ≡ panic) ↔ IsMixed i
  recv-panic_iff i = (λ h. forth h (recv-Outcome i), λ x. back x (recv-Outcome i))
    where
      forth : Input.recv i ≡ panic → Outcome i (Input.recv i) → IsMixed i
      forth h (took before after v x rest split head plain quiet e) = absurd (ground arith)
      forth h (waits quiet _ e) = absurd (ground arith)
      forth h (aligned full which e) = absurd (ground arith)
      forth h (stuck quiet full b s e) = record {
        nothing_plain = quiet;
        all_full = full;
        some_suspend = b;
        some_barrier = s;
      }

      back : IsMixed i → Outcome i (Input.recv i) → Input.recv i ≡ panic
      back x (took before after v m rest split head plain quiet e) =
          absurd (ground (arith, x.nothing_plain, any-split can_recv_unaligned before after v))
      back x (waits quiet why e) = absurd (ground arith)
      back x (aligned full which e) = absurd (ground arith)
      back x (stuck quiet full b s e) = e
