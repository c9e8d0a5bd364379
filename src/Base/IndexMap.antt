-- ===== src/Base/IndexMap.antt =====
-- `IndexMap` of the crate `indexmap`, as its documentation describes it: an association list in
-- insertion order. `insert` keeps the place of a key that is there and appends a new one;
-- `swap_remove` puts the last entry in the place of the removed one.
use mathlib.Core.Path.{◌≡◌, refl}
use mathlib.Core.Logic.{◌≢◌, ite, if_pos}
use mathlib.Core.Bool.{Bool}
use mathlib.Core.List.{List, [], ◌∷◌, map}
use mathlib.Core.Option.{Option, none, some}
use native.Mathlib.Omega.{arith}
use malstrom.Base.Tests.{is_some}

abbrev pub IndexMap {ℓ} : Type ℓ → Type ℓ → Type ℓ
IndexMap K V = List (K × V)

module _ {ℓ} {K V : Type ℓ} where
  abbrev pub keys : IndexMap K V → List K
  keys = map (λ e. e.0)

  abbrev pub values : IndexMap K V → List V
  values = map (λ e. e.1)

  -- The last entry of `e ∷ m`, and the entries before it.
  last_of : (K × V) → IndexMap K V → K × V
  last_of e [] = e
  last_of e (f ∷ m) = last_of f m

  init_of : (K × V) → IndexMap K V → IndexMap K V
  init_of e [] = []
  init_of e (f ∷ m) = e ∷ init_of f m

  last_to_front : IndexMap K V → IndexMap K V
  unfolding last_of init_of
  last_to_front [] = []
  last_to_front (e ∷ m) = last_of e m ∷ init_of e m

module _ {ℓ} {K V : Type ℓ} (dec : Discrete K) where
  unfoldable pub get : K → IndexMap K V → Option V
  get k [] = none
  get k ((j, v) ∷ m) = ite (dec j k) (some v) (get k m)

  abbrev pub contains_key : K → IndexMap K V → Bool
  contains_key k m = is_some (get k m)

  unfoldable pub insert : K → V → IndexMap K V → IndexMap K V
  insert k v [] = (k, v) ∷ []
  insert k v ((j, w) ∷ m) = ite (dec j k) ((j, v) ∷ m) ((j, w) ∷ insert k v m)

  -- `get_mut`, with the change that the caller makes.
  unfoldable pub modify : K → (V → V) → IndexMap K V → IndexMap K V
  modify k f [] = []
  modify k f ((j, w) ∷ m) = ite (dec j k) ((j, f w) ∷ m) ((j, w) ∷ modify k f m)

  unfoldable pub swap_remove : K → IndexMap K V → IndexMap K V
  unfolding last_to_front
  swap_remove k [] = []
  swap_remove k ((j, w) ∷ m) = ite (dec j k) (last_to_front m) ((j, w) ∷ swap_remove k m)

  -- No key stands twice: what the type guarantees.
  abbrev pub Distinct : IndexMap K V → Type ℓ
  Distinct [] = Unit
  Distinct (e ∷ m) = (get e.0 m ≡ none) × Distinct m

  pub get-insert :
      (k j : K) (v : V) (m : IndexMap K V) → get j (insert k v m) ≡ ite (dec k j) (some v) (get j m)
  unfolding get insert
  get-insert k j v [] = refl
  get-insert k j v ((i, w) ∷ m) = ground (arith, get-insert k j v m)

  pub get-insert_self : (k : K) (v : V) (m : IndexMap K V) → get k (insert k v m) ≡ some v
  get-insert_self k v m = rw get-insert (if_pos (dec k k) refl _ _)

  pub insert-Distinct : (k : K) (v : V) (m : IndexMap K V) → Distinct m → Distinct (insert k v m)
  unfolding get insert
  insert-Distinct k v [] d = (refl, tt)
  insert-Distinct k v ((i, w) ∷ m) d = ground (arith, get-insert k i v m, insert-Distinct k v m d.1)

  pub get-modify_self :
      (k : K) (f : V → V) (m : IndexMap K V) (v : V)
      → get k m ≡ some v
      → get k (modify k f m) ≡ some (f v)
  unfolding get modify
  get-modify_self k f [] v h = cc
  get-modify_self k f ((i, w) ∷ m) v h = ground (arith, get-modify_self k f m v)

  pub get-modify_ne :
      (k j : K) (f : V → V) (m : IndexMap K V) → k ≢ j → get j (modify k f m) ≡ get j m
  unfolding get modify
  get-modify_ne k j f [] h = refl
  get-modify_ne k j f ((i, w) ∷ m) h = ground (arith, get-modify_ne k j f m h)

  pub keys-modify : (k : K) (f : V → V) (m : IndexMap K V) → keys (modify k f m) ≡ keys m
  unfolding modify
  keys-modify k f [] = refl
  keys-modify k f ((i, w) ∷ m) = ground (arith, keys-modify k f m)

  pub contains_key-modify :
      (k j : K) (f : V → V) (m : IndexMap K V) → contains_key j (modify k f m) ≡ contains_key j m
  unfolding get modify
  contains_key-modify k j f [] = refl
  contains_key-modify k j f ((i, w) ∷ m) = ground (arith, contains_key-modify k j f m)

  pub modify-Distinct :
      (k : K) (f : V → V) (m : IndexMap K V) → Distinct m → Distinct (modify k f m)
  unfolding get modify
  modify-Distinct k f [] d = tt
  modify-Distinct k f ((i, w) ∷ m) d =
      ground (arith, d, contains_key-modify k i f m, modify-Distinct k f m d.1)

  -- With distinct keys a lookup does not see where an entry stands.
  get-last_to_front :
      (j : K) (e : K × V) (m : IndexMap K V)
      → Distinct (e ∷ m)
      → get j (last_of e m ∷ init_of e m) ≡ get j (e ∷ m)
  unfolding get last_of init_of
  get-last_to_front j e [] d = refl
  get-last_to_front j e (f ∷ m) d =
      ground (arith, get-last_to_front j f m d.1, get-last_to_front e.0 f m d.1)

  last_to_front-Distinct :
      (e : K × V) (m : IndexMap K V) → Distinct (e ∷ m) → Distinct (last_of e m ∷ init_of e m)
  unfolding get last_of init_of
  last_to_front-Distinct e [] d = d
  last_to_front-Distinct e (f ∷ m) d =
      ground (arith, get-last_to_front e.0 f m d.1, last_to_front-Distinct f m d.1)

  pub get-swap_remove :
      (k j : K) (m : IndexMap K V)
      → Distinct m
      → get j (swap_remove k m) ≡ ite (dec k j) none (get j m)
  unfolding get swap_remove
  get-swap_remove k j [] d = ground arith
  get-swap_remove k j ((i, w) ∷ []) d = ground arith
  get-swap_remove k j ((i, w) ∷ e ∷ m) d =
      ground (arith, get-last_to_front j e m d.1, get-swap_remove k j (e ∷ m) d.1)

  pub swap_remove-Distinct : (k : K) (m : IndexMap K V) → Distinct m → Distinct (swap_remove k m)
  unfolding get swap_remove
  swap_remove-Distinct k [] d = tt
  swap_remove-Distinct k ((i, w) ∷ []) d = ground arith
  swap_remove-Distinct k ((i, w) ∷ e ∷ m) d = ground (
    arith,
    last_to_front-Distinct e m d.1,
    get-swap_remove k i (e ∷ m) d.1,
    swap_remove-Distinct k (e ∷ m) d.1,
  )
