-- ===== src/Channels/Output.antt =====
-- malstrom-core/src/channels/operator_io.rs, `Output`: the outgoing edges of an operator.
pub mod Delivery
pub mod Frontier
use malstrom.Base.{
  ℕ, zero, suc, ◌+◌, Bool, true, false, Option, none, some, List, [], ◌∷◌, ◌++◌, map, ◌||◌, ◌&&◌,
  if◌then◌else◌, Result, ok, panic, ◌>>=◌, length, is_none,
}
use malstrom.Types.{
  DataMessage, Message, data_record, epoch, abs_barrier, rescale, suspend_marker, interrogate,
  collect, acquire,
}
use malstrom.Types.Time.{MaybeTime}
use malstrom.Channels.Spsc
use malstrom.Channels.Spsc.{SharedInner}

-- The partitioner sets flags in a slice that starts all false.
pub record Output (K V T : Type 0) : Type 0 where
  pub senders : List (SharedInner (Message K V T))
  pub partitioner : DataMessage K V T → List Bool → List Bool
  pub frontier : Option T
  pub suspended : Bool

-- `full_broadcast`.
abbrev pub full_broadcast : {K V T : Type 0} → DataMessage K V T → List Bool → List Bool
full_broadcast _ = map (λ _. true)

abbrev pub replicate_false : ℕ → List Bool
replicate_false zero = []
replicate_false (suc n) = false ∷ replicate_false n

abbrev pub count_true : List Bool → ℕ
count_true [] = 0
count_true (b ∷ bs) = (if b then 1 else 0) + count_true bs

module _ {ℓ} {A : Type ℓ} where
  -- The loop over `output_flags.into_iter().zip_eq(senders)`. `left` counts what `repeat_n` still
  -- holds: `next().unwrap()` panics at 0, and `zip_eq` where the lengths differ.
  unfoldable pub deliver : List Bool → List (SharedInner A) → ℕ → A → Result (List (SharedInner A))
  deliver [] [] left msg = ok []
  deliver [] (s ∷ ss) left msg = panic
  deliver (b ∷ bs) [] left msg = panic
  deliver (false ∷ bs) (s ∷ ss) left msg = do rest ← deliver bs ss left msg; ok (s ∷ rest)
  deliver (true ∷ bs) (s ∷ ss) zero msg = panic
  deliver (true ∷ bs) (s ∷ ss) (suc left) msg = do
    rest ← deliver bs ss left msg
    ok (Spsc.send s msg ∷ rest)

  -- Every edge gets a message of the system.
  abbrev pub broadcast : A → List (SharedInner A) → List (SharedInner A)
  broadcast msg = map (λ s. Spsc.send s msg)

-- Whether the program is built with debug assertions.
pub data Build : Type 0 where
  debug : Build
  release : Build

abbrev pub asserts : Build → Bool
asserts debug = true
asserts release = false

module _ {K V T : Type 0} where
  -- `Output::new_unlinked`.
  abbrev pub new_unlinked : (DataMessage K V T → List Bool → List Bool) → Output K V T
  new_unlinked p = record { senders = []; partitioner = p; frontier = none; suspended = false }

module _ {T : Type 0} ⦃t : MaybeTime T⦄ where
  -- An epoch raises the frontier if it is above it, or the first.
  abbrev pub is_above : T → Option T → Bool
  is_above e none = true
  is_above e (some x) = t.lt x e

  abbrev pub raise : T → Option T → Option T
  raise e f = if is_above e f then some e else f

module _ {K V T : Type 0} ⦃t : MaybeTime T⦄ where
  -- `send` behind its assertion.
  unfoldable pub forward : Output K V T → Message K V T → Result (Output K V T)
  unfolding deliver
  forward o (data_record x) = do
    let flags = o.partitioner x (replicate_false (length o.senders))
    senders ← deliver flags o.senders (count_true flags) (data_record x)
    ok (record o { senders = senders })
  forward o (epoch e) =
      ok (record o { senders = broadcast (epoch e) o.senders; frontier = raise e o.frontier })
  forward o (suspend_marker m) =
      ok (record o { senders = broadcast (suspend_marker m) o.senders; suspended = true })
  forward o msg = ok (record o { senders = broadcast msg o.senders })

  -- `debug_assert!(!self.suspended)` and what follows.
  unfoldable pub send : Build → Output K V T → Message K V T → Result (Output K V T)
  unfolding forward
  send build o m = if asserts build && o.suspended then panic else forward o m

  unfoldable pub send_all : Build → Output K V T → List (Message K V T) → Result (Output K V T)
  send_all build o [] = ok o
  send_all build o (m ∷ ms) = send build o m >>= λ o'. send_all build o' ms
