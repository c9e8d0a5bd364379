-- ===== src/Channels/Output/Frontier.antt =====
-- What `get_frontier` of an output tells.
use mathlib.Core.List.{Memᴰ}
use malstrom.Base.{
  Bool-cases, ◌&&◌, inl, inr, false, Option, none, some, List, [], ◌∷◌, map, ◌≡◌, refl, inl, inr,
  ok, All, Bool-cases, >>=-eq-ok, arith,
}
use malstrom.Types.{Message, data_record, epoch, suspend_marker}
use malstrom.Types.Time.{MaybeTime, IsTimestamp}
use malstrom.Channels.Output
use malstrom.Channels.Output.{Build, asserts, Output, raise, is_above}

module _ {K V T : Type 0} where
  abbrev pub epochs : List (Message K V T) → List T
  epochs [] = []
  epochs (epoch e ∷ ms) = e ∷ epochs ms
  epochs (_ ∷ ms) = epochs ms

module _ {T : Type 0} ⦃t : MaybeTime T⦄ where
  abbrev raise_all : Option T → List T → Option T
  raise_all f [] = f
  raise_all f (e ∷ es) = raise_all (raise e f) es

  -- The frontier is there, and `a` is not above it.
  abbrev pub Reached : Option T → T → Type 0
  Reached none a = ⊥
  Reached (some f) a = t.lt f a ≡ false

  raise_all-Memᴰ : (f : Option T) (es : List T) → Memᴰ (raise_all f es) (f ∷ map some es)
  raise_all-Memᴰ f [] = Memᴰ.head refl
  raise_all-Memᴰ f (e ∷ es) = elim (Bool-cases (is_above e f)) [
    | inl h ↦ rw h (Memᴰ.tail (raise_all-Memᴰ (some e) es))
    | inr h ↦ rw h (skip (raise_all-Memᴰ f es))
  ]
    where
      skip : {g : Option T} → Memᴰ g (f ∷ map some es) → Memᴰ g (f ∷ some e ∷ map some es)
      skip (Memᴰ.head p) = Memᴰ.head p
      skip (Memᴰ.tail m) = Memᴰ.tail (Memᴰ.tail m)

module _ {T : Type 0} ⦃t : MaybeTime T⦄ (laws : IsTimestamp t) where
  raise-Reached_self : (e : T) (f : Option T) → Reached (raise e f) e
  raise-Reached_self e none = laws.lt_irrefl e
  raise-Reached_self e (some x) = ground (arith, laws.lt_irrefl e)

  raise-Reached : (e a : T) (f : Option T) → Reached f a → Reached (raise e f) a
  raise-Reached e a none h = absurd h
  raise-Reached e a (some x) h = ground (arith, laws.lt_asymm x e, laws.not-lt_trans a x e)

  raise_all-Reached :
      (a : T) (f : Option T) (es : List T) → Reached f a → Reached (raise_all f es) a
  raise_all-Reached a f [] h = h
  raise_all-Reached a f (e ∷ es) h = raise_all-Reached a (raise e f) es (raise-Reached e a f h)

  raise_all-All : (f : Option T) (es : List T) → All (Reached (raise_all f es)) es
  raise_all-All f [] = tt
  raise_all-All f (e ∷ es) =
      (raise_all-Reached e (raise e f) es (raise-Reached_self e f), raise_all-All (raise e f) es)

module _ {K V T : Type 0} ⦃t : MaybeTime T⦄ where
  forward-frontier :
      (o o' : Output K V T) (m : Message K V T)
      → Output.forward o m ≡ ok o'
      → o'.frontier ≡ raise_all o.frontier (epochs (m ∷ []))
  unfolding Output.forward
  forward-frontier o o' (data_record x) h = ground arith
  forward-frontier o o' (epoch x) h = ground arith
  forward-frontier o o' (suspend_marker m) h = ground arith
  forward-frontier o o' m h = ground arith

  send-frontier :
      (build : Build) (o o' : Output K V T) (m : Message K V T)
      → Output.send build o m ≡ ok o'
      → o'.frontier ≡ raise_all o.frontier (epochs (m ∷ []))
  unfolding Output.send
  send-frontier build o o' m h = elim (Bool-cases (asserts build && o.suspended)) [
    | inl e ↦ absurd (ground (arith, e, h))
    | inr e ↦ forward-frontier o o' m (ground (arith, e, h))
  ]

  raise_all-epochs :
      (f : Option T) (m : Message K V T) (ms : List (Message K V T))
      → raise_all f (epochs (m ∷ ms)) ≡ raise_all (raise_all f (epochs (m ∷ []))) (epochs ms)
  raise_all-epochs f (epoch e) ms = refl
  raise_all-epochs f m ms = refl

  send_all-frontier :
      (build : Build) (o o' : Output K V T) (ms : List (Message K V T))
      → Output.send_all build o ms ≡ ok o'
      → o'.frontier ≡ raise_all o.frontier (epochs ms)
  unfolding Output.send_all
  send_all-frontier build o o' [] h = ground arith
  send_all-frontier build o o' (m ∷ ms) h =
      let (o₁, sent, more) =
        >>=-eq-ok (Output.send build o m) (λ o₁. Output.send_all build o₁ ms) h in
      cc (
        send_all-frontier build o₁ o' ms more,
        send-frontier build o o₁ m sent,
        raise_all-epochs o.frontier m ms,
      )

  -- With lawful timestamps, after any messages whose sending does not panic the frontier of an
  -- output is the largest epoch that it has seen: no epoch sent is above it, and it is one of
  -- them or the frontier that stood before.
  pub send_all-frontier_largest :
      IsTimestamp t
      → (build : Build) (o o' : Output K V T) (ms : List (Message K V T))
      → Output.send_all build o ms ≡ ok o'
      → All (Reached o'.frontier) (epochs ms) × Memᴰ o'.frontier (o.frontier ∷ map some (epochs ms))
  send_all-frontier_largest laws build o o' ms h =
      rw (send_all-frontier build o o' ms h)
        (raise_all-All laws o.frontier (epochs ms), raise_all-Memᴰ o.frontier (epochs ms))
