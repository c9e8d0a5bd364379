-- ===== src/Base/Rc.antt =====
-- `Rc<Mutex<A>>` of the standard library on an explicit store: a handle is an index, and the store
-- keeps each value with its strong count.
use Prim.Native.Nat.{ℕ, ◌+◌, ◌-◌}
use mathlib.Core.List.{List, [], ◌∷◌, ◌++◌}
use mathlib.Core.Option.{Option, none, some}
use malstrom.Base.Tests.{◌==◌, if◌then◌else◌}
use malstrom.Base.Lists.{length, get_elem?, set}

pub record Shared {ℓ} (A : Type ℓ) : Type ℓ where
  pub value : A
  pub strong : ℕ

abbrev pub Store {ℓ} : Type ℓ → Type ℓ
Store A = List (Shared A)

abbrev pub Handle : Type 0
Handle = ℕ

module _ {ℓ} {A : Type ℓ} where
  -- `Rc::new`: a fresh handle, which is the only one.
  abbrev pub alloc : A → Store A → Handle × Store A
  alloc a st = (length st, st ++ record { value = a; strong = 1 } ∷ [])

  abbrev pub update_at : Handle → (Shared A → Shared A) → Store A → Store A
  update_at h f st = elim (get_elem? st h) [ none ↦ st | some s ↦ set st h (f s) ]

  -- `Rc::clone`, `drop`, and a change under the lock.
  abbrev pub clone : Handle → Store A → Store A
  clone h = update_at h (λ s. record s { strong = s.strong + 1 })

  abbrev pub drop : Handle → Store A → Store A
  drop h = update_at h (λ s. record s { strong = s.strong - 1 })

  abbrev pub with_lock : Handle → (A → A) → Store A → Store A
  with_lock h f = update_at h (λ s. record s { value = f s.value })

  -- `Rc::try_unwrap`: the value, if this is the only handle left.
  unfoldable pub try_unwrap : Handle → Store A → Option A
  try_unwrap h st = elim (get_elem? st h) [
    | none ↦ none
    | some s ↦ if s.strong == 1 then some s.value else none
  ]

  -- The value behind a handle, for a reader that holds the lock.
  abbrev pub value_or : A → Handle → Store A → A
  value_or a h st = elim (get_elem? st h) [ none ↦ a | some s ↦ s.value ]
