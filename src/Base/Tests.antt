-- ===== src/Base/Tests.antt =====
-- Boolean tests on the native numbers, the conditional, and a result that may be a panic.
use Prim.Native.Nat.{ℕ, ◌<◌, compare, Ordering}
use mathlib.Core.Path.{◌≡◌, refl, subst}
use mathlib.Core.Logic.{◌↔◌, ◌≢◌, ◌⊎◌, inl, inr}
use mathlib.Core.Bool.{Bool, true, false}
use mathlib.Core.Option.{Option, none, some}
use native.Mathlib.Omega.{arith}

abbrev pub ltb : ℕ → ℕ → Bool
ltb a b = elim (compare a b) [ Ordering.lt ↦ true | _ ↦ false ]

abbrev pub leb : ℕ → ℕ → Bool
leb a b = elim (compare a b) [ Ordering.gt ↦ false | _ ↦ true ]

infix 50 ◌==◌
abbrev pub ◌==◌ : ℕ → ℕ → Bool
a == b = elim (compare a b) [ Ordering.eq ↦ true | _ ↦ false ]

infix 1 if◌then◌else◌
abbrev pub if◌then◌else◌ {ℓ} : {A : Type ℓ} → Bool → A → A → A
if true then x else y = x
if false then x else y = y

pub ltb→lt : (a b : ℕ) → ltb a b ≡ true → a < b
ltb→lt a b h = ground arith

pub ==_iff : (a b : ℕ) → ((a == b) ≡ true) ↔ (a ≡ b)
==_iff a b = ground arith

pub Bool-cases : (b : Bool) → (b ≡ true) ⊎ (b ≡ false)
Bool-cases true = inl refl
Bool-cases false = inr refl

pub Option-cases {ℓ} : {A : Type ℓ} (o : Option A) → (o ≡ none) ⊎ ((a : A) × (o ≡ some a))
Option-cases none = inl refl
Option-cases (some a) = inr (a, refl)

abbrev pub is_some {ℓ} : {A : Type ℓ} → Option A → Bool
is_some none = false
is_some (some _) = true

abbrev pub is_none {ℓ} : {A : Type ℓ} → Option A → Bool
is_none none = true
is_none (some _) = false

-- The value of a call that may end in a Rust panic (`unwrap`, `expect`, `unreachable!`).
pub data Result {ℓ} (A : Type ℓ) : Type ℓ where
  ok : A → Result A
  panic : Result A

-- What follows a panic is not run.
infixl 5 ◌>>=◌
abbrev pub ◌>>=◌ {ℓ κ} :
    {Before : Type ℓ} {After : Type κ} → Result Before → (Before → Result After) → Result After
panic >>= next = panic
ok value >>= next = next value

-- `Option::expect`.
abbrev pub expect {ℓ} : {A : Type ℓ} → Option A → Result A
expect none = panic
expect (some a) = ok a

module _ {ℓ κ} {Before : Type ℓ} {After : Type κ} where
  -- A sequence that returns has returned from its first call.
  pub >>=-eq-ok :
      (first : Result Before) (next : Before → Result After) {end : After}
      → (first >>= next) ≡ ok end
      → (value : Before) × (first ≡ ok value) × (next value ≡ ok end)
  >>=-eq-ok panic next h = cc
  >>=-eq-ok (ok value) next h = (value, refl, h)

-- A call that returns meets `Q`.
abbrev pub Ensures {ℓ κ} : {A : Type ℓ} → Result A → (A → Type κ) → Type κ
Ensures panic Q = Unit
Ensures (ok a) Q = Q a

pub ok_injective {ℓ} : {A : Type ℓ} {a b : A} → ok a ≡ ok b → a ≡ b
ok_injective e = cc

pub Ensures-eq_ok {ℓ κ} :
    {A : Type ℓ} (Q : A → Type κ) (m : Result A) {a : A} → m ≡ ok a → Ensures m Q → Q a
Ensures-eq_ok Q panic e h = cc
Ensures-eq_ok Q (ok b) e h = subst Q (ok_injective e) h

module _ {ℓ κ} {Before : Type ℓ} {After : Type ℓ} where
  pub Ensures->>= :
      (Q : Before → Type κ) (R : After → Type κ) (first : Result Before)
      (next : Before → Result After)
      → Ensures first Q
      → ((a : Before) → Q a → Ensures (next a) R)
      → Ensures (first >>= next) R
  Ensures->>= Q R panic next h k = tt
  Ensures->>= Q R (ok a) next h k = k a h

pub some-ne-none {ℓ} : {A : Type ℓ} (a : A) → some a ≢ none
some-ne-none a e = cc
