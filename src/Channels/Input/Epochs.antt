-- ===== src/Channels/Input/Epochs.antt =====
-- The epochs that an input hands on.
use malstrom.Base.{false, Option, none, some, List, [], ◌∷◌, ◌++◌, ◌≡◌, ◌≢◌, ok, All, arith}
use malstrom.Types.{Message, epoch}
use malstrom.Types.Time.{MaybeTime, IsTimestamp}
use malstrom.Types.Merge.{merge_timestamps, Low, merge_timestamps_bound, merge_timestamps_greatest}
use malstrom.Channels.Input
use malstrom.Channels.Input.{Input, UpstreamState, advance, heads, last}
use malstrom.Channels.Input.Outcome.{
  absorb, epochs, handed, new_frontier, Outcome, took, waits, aligned, stuck, recv-Outcome,
}
use malstrom.Channels.Input.Alignment.{heads_marker}
use malstrom.Channels.Output.Frontier.{Reached}

module _ {T : Type 0} ⦃t : MaybeTime T⦄ (laws : IsTimestamp t) where
  advance-Reached_self : (e : T) (f : Option T) → Reached (advance (some e) f) e
  advance-Reached_self e none = laws.lt_irrefl e
  advance-Reached_self e (some x) = ground (arith, laws.lt_irrefl e)

  advance-Reached : (m f : Option T) (x : T) → Reached f x → Reached (advance m f) x
  advance-Reached none f x h = h
  advance-Reached (some m) none x h = absurd h
  advance-Reached (some m) (some f) x h = ground (arith, laws.lt_asymm f m, laws.not-lt_trans x f m)

  merge-ne-nil : (xs : List (Option T)) (e : T) → merge_timestamps xs ≡ some e → xs ≢ []
  unfolding merge_timestamps
  merge-ne-nil [] e h = cc
  merge-ne-nil (x ∷ xs) e h = λ n. cc

  merge_largest :
      (xs : List (Option T)) (e c : T)
      → merge_timestamps xs ≡ some e
      → All (Low c) xs
      → t.lt e c ≡ false
  merge_largest xs e c h l =
      let (m, same, above) = merge_timestamps_greatest laws xs c (merge-ne-nil xs e h) l in
      ground arith

module _ {K V T : Type 0} ⦃t : MaybeTime T⦄ where
  new_frontier-Reached :
      IsTimestamp t
      → (m : Message K V T) (us : List (UpstreamState K V T)) (f : Option T) (x : T) → Reached f x
      → Reached (new_frontier m us f) x
  new_frontier-Reached laws (epoch e) us f x h =
      advance-Reached laws (merge_timestamps (epochs us)) f x h
  new_frontier-Reached laws m us f x h = h

  -- What an epoch that is handed on says of the edges `us` and of the frontier `f`: each edge has
  -- an epoch and none is below it, no later time has that property, and the frontier is not below.
  pub record IsMerged (e : T) (us : List (UpstreamState K V T)) (f : Option T) : Type 0 where
    pub bound : All (Low e) (epochs us)
    pub largest : (c : T) → All (Low c) (epochs us) → t.lt e c ≡ false
    pub reached : Reached f e

  handed-IsMerged :
      IsTimestamp t
      → (m : Message K V T) (us : List (UpstreamState K V T)) (f : Option T) (e : T)
      → handed m us ≡ some (epoch e)
      → IsMerged e us (new_frontier m us f)
  handed-IsMerged laws (epoch x) us f e h =
      let merged : merge_timestamps (epochs us) ≡ some e = ground arith in
      record {
        bound = merge_timestamps_bound laws (epochs us) e merged;
        largest = λ c. merge_largest laws (epochs us) e c merged;
        reached = rw merged (advance-Reached_self laws e f);
      }
  handed-IsMerged laws m us f e h = absurd (ground arith)

  -- With lawful timestamps, an epoch that `recv` hands on is the lowest common timestamp of the
  -- latest epochs of all edges, each of which has one, and the frontier is at it or beyond.
  pub recv_epoch-IsMerged :
      IsTimestamp t
      → (i i' : Input K V T) (e : T) → Input.recv i ≡ ok (some (epoch e), i')
      → IsMerged e i'.receivers i'.frontier
  recv_epoch-IsMerged laws i i' e h = go (recv-Outcome i)
    where
      go : Outcome i (Input.recv i) → IsMerged e i'.receivers i'.frontier
      go (took before after u m rest split head plain quiet r) =
          let us : List (UpstreamState K V T) = before ++ absorb m u ∷ after in
          let front : i'.frontier ≡ new_frontier m us i.frontier = ground arith in
          let edges : i'.receivers ≡ us = ground arith in
          rw (front, edges) (handed-IsMerged laws m us i.frontier e (ground arith))
      go (waits quiet _ r) = absurd (ground arith)
      go (aligned full which r) = absurd (ground (arith, heads_marker i (epoch e) which))
      go (stuck quiet full b s r) = absurd (ground arith)

  -- With lawful timestamps, the frontier of an input never falls in a call of `recv` that
  -- returns: a time that it has reached stays reached.
  pub recv_frontier_mono :
      IsTimestamp t
      → (i i' : Input K V T) (m : Option (Message K V T)) (x : T) → Input.recv i ≡ ok (m, i')
      → Reached i.frontier x
      → Reached i'.frontier x
  recv_frontier_mono laws i i' m x h low = go (recv-Outcome i)
    where
      go : Outcome i (Input.recv i) → Reached i'.frontier x
      go (took before after u y rest split head plain quiet r) =
          let us : List (UpstreamState K V T) = before ++ absorb y u ∷ after in
          let front : i'.frontier ≡ new_frontier y us i.frontier = ground arith in
          rw front (new_frontier-Reached laws y us i.frontier x low)
      go (waits quiet _ r) = let front : i'.frontier ≡ i.frontier = ground arith in rw front low
      go (aligned full which r) =
          let front : i'.frontier ≡ i.frontier = ground arith in rw front low
      go (stuck quiet full b s r) = absurd (ground arith)
