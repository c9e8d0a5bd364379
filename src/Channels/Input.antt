-- ===== src/Channels/Input.antt =====
-- malstrom-core/src/channels/operator_io.rs, `Input`: the incoming edges of an operator.
pub mod Outcome
pub mod Alignment
pub mod Order
pub mod Epochs
use malstrom.Base.{
  ℕ, zero, suc, ◌+◌, Bool, true, false, not, Option, none, some, List, [], ◌∷◌, ◌++◌, map, ◌&&◌,
  ◌||◌, if◌then◌else◌, Result, ok, panic, ◌>>=◌, all, any, is_none,
}
use mathlib.Core.Option
use malstrom.Types.{
  DataMessage, Message, data_record, epoch, abs_barrier, rescale, suspend_marker, interrogate,
  collect, acquire,
}
use malstrom.Types.Time.{MaybeTime}
use malstrom.Types.Merge.{merge_timestamps}
use malstrom.Channels.Spsc
use malstrom.Channels.Spsc.{SharedInner}

pub record UpstreamState (K V T : Type 0) : Type 0 where
  pub last_epoch : Option T
  pub receiver : SharedInner (Message K V T)

pub record Input (K V T : Type 0) : Type 0 where
  pub receivers : List (UpstreamState K V T)
  pub frontier : Option T

abbrev pub last {ℓ} : {A : Type ℓ} → List A → Option A
last [] = none
last (x ∷ []) = some x
last (x ∷ y ∷ xs) = last (y ∷ xs)

abbrev pub is_nil {ℓ} : {A : Type ℓ} → List A → Bool
is_nil [] = true
is_nil (x ∷ xs) = false

module _ {K V T : Type 0} where
  -- `Input::new_unlinked`.
  abbrev pub new_unlinked : Input K V T
  new_unlinked = record { receivers = []; frontier = none }

  abbrev pub is_barrier : Message K V T → Bool
  is_barrier (abs_barrier b) = true
  is_barrier _ = false

  abbrev pub is_suspend : Message K V T → Bool
  is_suspend (suspend_marker m) = true
  is_suspend _ = false

  abbrev pub can_recv_unaligned : UpstreamState K V T → Bool
  can_recv_unaligned u = Spsc.peek_test (λ m. not (is_barrier m || is_suspend m)) u.receiver

  abbrev pub can_progress : Input K V T → Bool
  can_progress i = any can_recv_unaligned i.receivers

  abbrev pub recv_from : UpstreamState K V T → Option (Message K V T) × UpstreamState K V T
  recv_from u = let (m, r) = Spsc.recv u.receiver in (m, record u { receiver = r })

  unfoldable pub concat_receivers : List (Input K V T) → List (UpstreamState K V T)
  concat_receivers [] = []
  concat_receivers (i ∷ is) = i.receivers ++ concat_receivers is

  -- `recv_unaligned`.
  abbrev pub recv_unaligned : UpstreamState K V T → Option (Message K V T) × UpstreamState K V T
  recv_unaligned u = if can_recv_unaligned u then recv_from u else (none, u)

  -- `receivers.iter().enumerate().find_map(..)`: the message and the index of its edge.
  unfoldable pub find_next :
      ℕ → List (UpstreamState K V T) → Option (Message K V T × ℕ) × List (UpstreamState K V T)
  find_next n [] = (none, [])
  find_next n (u ∷ us) =
      let rest = find_next (n + 1) us in
      let (found, u') = recv_unaligned u in
      elim found [ none ↦ (rest.0, u' ∷ rest.1) | some m ↦ (some (m, n), u' ∷ us) ]

  -- `receivers.get_mut(sender_idx).expect(..).epoch = Some(e)`.
  unfoldable pub set_epoch :
      List (UpstreamState K V T) → ℕ → T → Result (List (UpstreamState K V T))
  set_epoch [] n e = panic
  set_epoch (u ∷ us) zero e = ok (record u { last_epoch = some e } ∷ us)
  set_epoch (u ∷ us) (suc n) e = do us' ← set_epoch us n e; ok (u ∷ us')

  -- `receivers.iter().flat_map(|x| x.receiver.recv()).last()`: every edge loses its head, and the
  -- last of them is kept.
  abbrev pub heads : List (UpstreamState K V T) → List (Message K V T)
  heads [] = []
  heads (u ∷ us) = elim (recv_from u).0 [ none ↦ heads us | some m ↦ m ∷ heads us ]

  abbrev pub drop_heads : List (UpstreamState K V T) → List (UpstreamState K V T)
  drop_heads = map (λ u. (recv_from u).1)

  -- The last case of `recv`: no edge has a message that needs no alignment.
  unfoldable pub recv_aligned : Input K V T → Result (Option (Message K V T) × Input K V T)
  recv_aligned i =
      if any (λ u. Spsc.is_empty u.receiver) us
      then ok (none, i)
      else if is_nil us
      then ok (none, i)
      else if all (λ u. Spsc.peek_test is_barrier u.receiver) us
      then taken
      else if all (λ u. Spsc.peek_test is_suspend u.receiver) us
      then taken
      else panic
    where
      us : List (UpstreamState K V T)
      us = i.receivers

      taken : Result (Option (Message K V T) × Input K V T)
      taken = ok (last (heads us), record i { receivers = drop_heads us })

module _ {T : Type 0} ⦃t : MaybeTime T⦄ where
  -- The frontier is raised by a merged epoch that is above it.
  abbrev pub advance : Option T → Option T → Option T
  advance none f = f
  advance (some m) none = some m
  advance (some m) (some f) = if t.lt f m then some m else some f

module _ {K V T : Type 0} ⦃t : MaybeTime T⦄ where
  unfoldable pub handle_next :
      Input K V T → Option (Message K V T × ℕ) → Result (Option (Message K V T) × Input K V T)
  handle_next i none = recv_aligned i
  handle_next i (some (epoch e, idx)) = do
    us ← set_epoch i.receivers idx e
    let merged = merge_timestamps (map (λ u. u.last_epoch) us)
    ok (Option.map epoch merged, record { receivers = us; frontier = advance merged i.frontier })
  handle_next i (some (m, idx)) = ok (some m, i)

  -- `Input::recv`.
  unfoldable pub recv : Input K V T → Result (Option (Message K V T) × Input K V T)
  unfolding handle_next
  recv i =
      let (found, us) = find_next 0 i.receivers in handle_next (record i { receivers = us }) found

  -- `merge_inputs`.
  unfoldable pub merge_inputs : List (Input K V T) → Input K V T
  unfolding concat_receivers
  merge_inputs groups = record {
    receivers = concat_receivers groups;
    frontier = merge_timestamps (map (λ i. i.frontier) groups);
  }
