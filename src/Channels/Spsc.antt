-- ===== src/Channels/Spsc.antt =====
-- malstrom-core/src/channels/spsc.rs. `Sender` and `Receiver` share one `SharedInner`; a call on
-- either end takes its state and returns it.
pub mod Fifo
use malstrom.Base.{Bool, true, false, Option, none, some, List, [], ◌∷◌, ◌++◌, if◌then◌else◌}
use mathlib.Core.Option

pub record SharedInner {ℓ} (A : Type ℓ) : Type ℓ where
  pub buffer : List A
  pub has_receiver : Bool

module _ {ℓ} {A : Type ℓ} where
  -- `unbounded`: the default is an empty buffer, and `Receiver::new` sets the flag.
  abbrev pub unbounded : SharedInner A
  unbounded = record { buffer = []; has_receiver = true }

  -- `Sender::send` by `SharedInner::push`.
  unfoldable pub send : SharedInner A → A → SharedInner A
  send s msg = if s.has_receiver then record s { buffer = s.buffer ++ msg ∷ [] } else s

  abbrev front : List A → Option A
  front [] = none
  front (x ∷ xs) = some x

  abbrev rest : List A → List A
  rest [] = []
  rest (x ∷ xs) = xs

  -- `Receiver::recv` by `SharedInner::pop`.
  unfoldable pub recv : SharedInner A → Option A × SharedInner A
  recv s = (front s.buffer, record s { buffer = rest s.buffer })

  abbrev pub is_empty : SharedInner A → Bool
  is_empty s = elim s.buffer [ [] ↦ true | x ∷ xs ↦ false ]

  -- `peek_apply` with a test and `.unwrap_or(false)`.
  abbrev pub peek_test : (A → Bool) → SharedInner A → Bool
  peek_test p s = elim s.buffer [ [] ↦ false | x ∷ xs ↦ p x ]

  -- `Drop for Receiver`.
  unfoldable pub drop_receiver : SharedInner A → SharedInner A
  drop_receiver s = record s { has_receiver = false }
