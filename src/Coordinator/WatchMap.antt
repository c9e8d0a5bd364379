-- ===== src/Coordinator/WatchMap.antt =====
-- malstrom-core/src/coordinator/watchmap.rs: a map whose changes complete notifications. A oneshot
-- channel is a number; the numbers of those that were completed are part of the state.
pub mod Completion
use malstrom.Base.{
  ℕ, Bool, true, false, Option, none, some, List, [], ◌∷◌, ◌++◌, ◌≡◌, ◌≢◌, ◌⊎◌, inl, inr, refl, sym,
  ◌∙◌, arith, ◌||◌, any, if◌then◌else◌, ◌==◌, Bool-cases, All, append_assoc, append-nil,
}
use malstrom.Base.IndexMap
use malstrom.Base.IndexMap.{IndexMap}

pub record Notification (K V : Type 0) : Type 0 where
  pub condition : IndexMap K V → Bool
  pub on_complete : ℕ

pub record WatchMapInner (K V : Type 0) : Type 0 where
  pub store : IndexMap K V
  pub notifications : List (Notification K V)
  pub completed : List ℕ

-- `Notification::check` on each, in their order: those that stay, and those that are completed.
unfoldable pub check_all :
    {K V : Type 0} → IndexMap K V → List (Notification K V) → List (Notification K V) × List ℕ
check_all store [] = ([], [])
check_all store (n ∷ ns) =
    let (kept, fired) = check_all store ns in
    if n.condition store then (kept, n.on_complete ∷ fired) else (n ∷ kept, fired)

module _ {K V : Type 0} where
  unfoldable pub fire_notifications : WatchMapInner K V → WatchMapInner K V
  unfolding check_all
  fire_notifications w =
      let (kept, fired) = check_all w.store w.notifications in
      record w { notifications = kept; completed = w.completed ++ fired }

  -- `From<IndexMap>`.
  abbrev pub from_map : IndexMap K V → WatchMapInner K V
  from_map m = record { store = m; notifications = []; completed = [] }

  unfoldable pub notify : (IndexMap K V → Bool) → ℕ → WatchMapInner K V → WatchMapInner K V
  notify condition id w = record w {
    notifications = w.notifications ++ record { condition = condition; on_complete = id } ∷ [];
  }

module _ {K V : Type 0} (dec : Discrete K) where
  unfoldable pub insert : K → V → WatchMapInner K V → Option V × WatchMapInner K V
  unfolding fire_notifications
  insert k v w = (
    IndexMap.get dec k w.store,
    fire_notifications (record w { store = IndexMap.insert dec k v w.store }),
  )

  unfoldable pub remove : K → WatchMapInner K V → Option V × WatchMapInner K V
  unfolding fire_notifications
  remove k w = (
    IndexMap.get dec k w.store,
    fire_notifications (record w { store = IndexMap.swap_remove dec k w.store }),
  )

  -- `entry(key).or_default()`, with the change that the caller makes.
  abbrev pub changed : V → K → (V → V) → IndexMap K V → IndexMap K V
  changed default k f m = elim (IndexMap.get dec k m) [
    | none ↦ IndexMap.insert dec k (f default) m
    | some v ↦ IndexMap.modify dec k f m
  ]

  unfoldable pub apply_or_default : V → K → (V → V) → WatchMapInner K V → WatchMapInner K V
  unfolding fire_notifications
  apply_or_default default k f w =
      fire_notifications (record w { store = changed default k f w.store })
