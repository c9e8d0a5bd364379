-- ===== src/Channels/Input/Order.antt =====
-- No edge is reordered, and nothing on it is lost.
use malstrom.Base.{Option, List, [], ◌∷◌, ◌++◌, ◌≡◌, refl, ◌⊎◌, inl, inr, ok, All₂, arith}
use malstrom.Types.{Message, epoch}
use malstrom.Types.Time.{MaybeTime}
use malstrom.Channels.Spsc
use malstrom.Channels.Input
use malstrom.Channels.Input.{Input, UpstreamState, drop_heads}
use malstrom.Channels.Input.Outcome.{absorb, Outcome, took, waits, aligned, stuck, recv-Outcome}

module _ {K V T : Type 0} where
  -- The edge is as before, or it has lost its oldest message.
  abbrev pub LosesAtMostHead : UpstreamState K V T → UpstreamState K V T → Type 0
  LosesAtMostHead u u' =
      (u'.receiver.buffer ≡ u.receiver.buffer)
      ⊎ ((m : Message K V T) × (u.receiver.buffer ≡ m ∷ u'.receiver.buffer))

  unchanged : (us : List (UpstreamState K V T)) → All₂ LosesAtMostHead us us
  unchanged [] = tt
  unchanged (u ∷ us) = (inl refl, unchanged us)

  absorb-loses :
      (u : UpstreamState K V T) (m : Message K V T) (rest : List (Message K V T))
      → u.receiver.buffer ≡ m ∷ rest
      → LosesAtMostHead u (absorb m u)
  unfolding Spsc.recv
  absorb-loses u (epoch e) rest h = inr (epoch e, ground arith)
  absorb-loses u m rest h = inr (m, ground arith)

  split_loses :
      (before after : List (UpstreamState K V T)) (u : UpstreamState K V T) (m : Message K V T)
      (rest : List (Message K V T))
      → u.receiver.buffer ≡ m ∷ rest
      → All₂ LosesAtMostHead (before ++ u ∷ after) (before ++ absorb m u ∷ after)
  split_loses [] after u m rest h = (absorb-loses u m rest h, unchanged after)
  split_loses (v ∷ before) after u m rest h = (inl refl, split_loses before after u m rest h)

  drop_heads-loses : (us : List (UpstreamState K V T)) → All₂ LosesAtMostHead us (drop_heads us)
  unfolding Spsc.recv
  drop_heads-loses [] = tt
  drop_heads-loses (u ∷ us) = (head_lost u.receiver.buffer refl, drop_heads-loses us)
    where
      head_lost :
          (b : List (Message K V T))
          → u.receiver.buffer ≡ b
          → LosesAtMostHead u (Input.recv_from u).1
      head_lost [] e = inl (ground arith)
      head_lost (m ∷ rest) e = inr (m, ground arith)

module _ {K V T : Type 0} ⦃t : MaybeTime T⦄ where
  -- A call of `recv` that returns leaves as many edges, in their order, and each has lost at most
  -- its oldest message.
  pub recv_in_order :
      (i i' : Input K V T) (m : Option (Message K V T))
      → Input.recv i ≡ ok (m, i')
      → All₂ LosesAtMostHead i.receivers i'.receivers
  recv_in_order i i' m h = go (recv-Outcome i)
    where
      go : Outcome i (Input.recv i) → All₂ LosesAtMostHead i.receivers i'.receivers
      go (took before after u x rest split head plain quiet e) =
          let e' : i'.receivers ≡ before ++ absorb x u ∷ after = ground arith in
          rw (split, e') (split_loses before after u x rest head)
      go (waits quiet _ e) =
          let e' : i'.receivers ≡ i.receivers = ground arith in rw e' (unchanged i.receivers)
      go (aligned full which e) =
          let e' : i'.receivers ≡ drop_heads i.receivers = ground arith in
          rw e' (drop_heads-loses i.receivers)
      go (stuck quiet full b s e) = absurd (ground arith)
