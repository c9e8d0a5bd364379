-- ===== src/Coordinator/WatchMap/Completion.antt =====
-- malstrom-core/src/coordinator/watchmap.rs: when a notification completes.
use malstrom.Base.{
  ℕ, Bool, true, false, List, [], ◌∷◌, ◌++◌, ◌≡◌, refl, ap, ◌∙◌, arith, ◌||◌, any, if◌then◌else◌,
  ◌==◌, Bool-cases, inl, inr,
}
use malstrom.Base.IndexMap
use malstrom.Base.IndexMap.{IndexMap}
use malstrom.Coordinator.WatchMap.{
  Notification, WatchMapInner, check_all, fire_notifications, notify, insert, remove, changed,
  apply_or_default,
}

-- The three changes to a map.
pub data Change (K V : Type 0) : Type 0 where
  inserts : K → V → Change K V
  removes : K → Change K V
  applies : V → K → (V → V) → Change K V

-- Whether a oneshot is among those completed, or still waiting.
abbrev pub is_completed : ℕ → List ℕ → Bool
is_completed id xs = any (λ j. j == id) xs

abbrev pub is_waiting : {K V : Type 0} → ℕ → List (Notification K V) → Bool
is_waiting id ns = any (λ n. n.on_complete == id) ns

any-append : {A : Type 0} (p : A → Bool) (xs ys : List A) → any p (xs ++ ys) ≡ any p xs || any p ys
any-append p [] ys = refl
any-append p (x ∷ xs) ys = ground (arith, any-append p xs ys)

module _ {K V : Type 0} (dec : Discrete K) where
  unfoldable pub change : Change K V → WatchMapInner K V → WatchMapInner K V
  change (inserts k v) w = (insert dec k v w).1
  change (removes k) w = (remove dec k w).1
  change (applies default k f) w = apply_or_default dec default k f w

  unfoldable pub change_all : List (Change K V) → WatchMapInner K V → WatchMapInner K V
  change_all [] w = w
  change_all (c ∷ cs) w = change_all cs (change c w)

  -- The same on the plain map, and the maps after each of the changes.
  unfoldable pub change_map : Change K V → IndexMap K V → IndexMap K V
  change_map (inserts k v) m = IndexMap.insert dec k v m
  change_map (removes k) m = IndexMap.swap_remove dec k m
  change_map (applies default k f) m = changed dec default k f m

  unfoldable pub maps_after : List (Change K V) → IndexMap K V → List (IndexMap K V)
  maps_after [] m = []
  maps_after (c ∷ cs) m = change_map c m ∷ maps_after cs (change_map c m)

  change-fire :
      (c : Change K V) (w : WatchMapInner K V)
      → change c w ≡ fire_notifications (record w { store = change_map c w.store })
  unfolding change change_map insert remove apply_or_default
  change-fire (inserts k v) w = refl
  change-fire (removes k) w = refl
  change-fire (applies default k f) w = refl

  -- A oneshot that is neither completed nor waiting stays so.
  check_all-absent :
      (m : IndexMap K V) (ns : List (Notification K V)) (id : ℕ)
      → is_waiting id ns ≡ false
      → (is_waiting id (check_all m ns).0 ≡ false) × (is_completed id (check_all m ns).1 ≡ false)
  unfolding check_all
  check_all-absent m [] id h = (refl, refl)
  check_all-absent m (n ∷ ns) id h = ground (arith, h, check_all-absent m ns id)

  check_all-last :
      (m : IndexMap K V) (ns : List (Notification K V)) (n : Notification K V)
      → check_all m (ns ++ n ∷ []) ≡ (
          if n.condition m
          then ((check_all m ns).0, (check_all m ns).1 ++ n.on_complete ∷ [])
          else ((check_all m ns).0 ++ n ∷ [], (check_all m ns).1))
  unfolding check_all
  check_all-last m [] n = ground arith
  check_all-last m (k ∷ ns) n = ground (arith, check_all-last m ns n)

  fire-completed :
      (w : WatchMapInner K V) (id : ℕ)
      → is_completed id w.completed ≡ true
      → is_completed id (fire_notifications w).completed ≡ true
  unfolding fire_notifications
  fire-completed w id h =
      ground (arith, h, any-append (λ j. j == id) w.completed (check_all w.store w.notifications).1)

  change_all-completed :
      (cs : List (Change K V)) (w : WatchMapInner K V) (id : ℕ)
      → is_completed id w.completed ≡ true
      → is_completed id (change_all cs w).completed ≡ true
  unfolding change_all
  change_all-completed [] w id h = h
  change_all-completed (c ∷ cs) w id h =
      change_all-completed cs (change c w) id
        (rw (change-fire c w) (fire-completed (record w { store = change_map c w.store }) id h))

  -- The state of a oneshot that waits: the last notification is its own, and no other is.
  record IsRegistered (w : WatchMapInner K V) (condition : IndexMap K V → Bool) (id : ℕ)
      : Type 0 where
    before : List (Notification K V)
    last : w.notifications ≡ before ++ record { condition = condition; on_complete = id } ∷ []
    alone : is_waiting id before ≡ false
    pending : is_completed id w.completed ≡ false

  fire-IsRegistered :
      (w : WatchMapInner K V) (condition : IndexMap K V → Bool) (id : ℕ)
      → IsRegistered w condition id
      → condition w.store ≡ false
      → IsRegistered (fire_notifications w) condition id
  unfolding fire_notifications
  fire-IsRegistered w condition id r h = record {
    before = (check_all w.store r.before).0;
    last = rw r.last (
        rw (check_all-last w.store r.before (record { condition = condition; on_complete = id }))
          (rw h refl));
    alone = (check_all-absent w.store r.before id r.alone).0;
    pending = ground (
      arith,
      h,
      r.last,
      r.pending,
      check_all-last w.store r.before (record { condition = condition; on_complete = id }),
      check_all-absent w.store r.before id r.alone,
      any-append (λ j. j == id) w.completed (check_all w.store r.before).1,
    );
  }

  fire-completes :
      (w : WatchMapInner K V) (condition : IndexMap K V → Bool) (id : ℕ)
      → IsRegistered w condition id
      → condition w.store ≡ true
      → is_completed id (fire_notifications w).completed ≡ true
  unfolding fire_notifications
  fire-completes w condition id r h = ground (
    arith,
    h,
    r.last,
    check_all-last w.store r.before (record { condition = condition; on_complete = id }),
    any-append (λ j. j == id) w.completed ((check_all w.store r.before).1 ++ id ∷ []),
    any-append (λ j. j == id) (check_all w.store r.before).1 (id ∷ []),
  )

  registered :
      (cs : List (Change K V)) (w : WatchMapInner K V) (condition : IndexMap K V → Bool) (id : ℕ)
      → IsRegistered w condition id
      → is_completed id (change_all cs w).completed ≡ any condition (maps_after cs w.store)
  unfolding change_all maps_after fire_notifications
  registered [] w condition id r = r.pending
  registered (c ∷ cs) w condition id r =
      ap (λ v. is_completed id (change_all cs v).completed) (change-fire c w)
      ∙ elim (Bool-cases (condition (change_map c w.store))) [
        | inl e ↦
            change_all-completed cs (fire_notifications changed_to) id
              (fire-completes changed_to condition id moved e)
            ∙ ground (arith, e)
        | inr e ↦
            registered cs (fire_notifications changed_to) condition id
              (fire-IsRegistered changed_to condition id moved e)
            ∙ ground (arith, e)
      ]
    where
      changed_to : WatchMapInner K V
      changed_to = record w { store = change_map c w.store }

      moved : IsRegistered changed_to condition id
      moved = record { before = r.before; last = r.last; alone = r.alone; pending = r.pending }

  -- A notification that is registered with a fresh oneshot completes exactly when its condition holds
  -- on the map after one of the changes that follow: a condition that holds at the registration
  -- itself does not count.
  pub change_all-notify :
      (cs : List (Change K V)) (w : WatchMapInner K V) (condition : IndexMap K V → Bool) (id : ℕ)
      → is_waiting id w.notifications ≡ false
      → is_completed id w.completed ≡ false
      → is_completed id (change_all cs (notify condition id w)).completed
        ≡ any condition (maps_after cs w.store)
  unfolding notify
  change_all-notify cs w condition id alone pending =
      registered cs (notify condition id w) condition id
        (record { before = w.notifications; last = refl; alone = alone; pending = pending })
