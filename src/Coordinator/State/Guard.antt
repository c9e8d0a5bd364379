-- ===== src/Coordinator/State/Guard.antt =====
-- malstrom-core/src/coordinator/coordinator.rs, `CoordinatorStatusGuard`: one operation at a time.
use malstrom.Base.{ℕ, zero, suc, ◌+◌, none, some, List, [], ◌∷◌, ◌≡◌, ◌≢◌, ◌⊎◌, arith}
use malstrom.Coordinator.State.{
  CoordinatorStatus, idle, RequestOperation, request_snapshot, request_scale, request_suspend,
  status_of, set_status, drop_guard,
}

-- Requests that ask for the guard, and holders that drop it.
pub data Event : Type 0 where
  asks : RequestOperation → Event
  drops : Event

pub record Guarded : Type 0 where
  pub status : CoordinatorStatus
  pub holders : ℕ

-- Only a holder can drop a guard.
unfoldable pub handle : Event → Guarded → Guarded
handle (asks op) g =
    let (busy, status) = set_status g.status (status_of op) in
    elim busy [
      | none ↦ record { status = status; holders = g.holders + 1 }
      | some current ↦ record { status = status; holders = g.holders }
    ]
handle drops g = elim g.holders [
  | zero ↦ g
  | suc n ↦ record { status = drop_guard g.status; holders = n }
]

unfoldable pub handle_events : List Event → Guarded → Guarded
handle_events [] g = g
handle_events (e ∷ es) g = handle_events es (handle e g)

-- Idle without a holder, or busy with one.
abbrev pub IsExclusive : Guarded → Type 0
IsExclusive g = ((g.status ≡ idle) × (g.holders ≡ 0)) ⊎ ((g.status ≢ idle) × (g.holders ≡ 1))

handle-IsExclusive : (e : Event) (g : Guarded) → IsExclusive g → IsExclusive (handle e g)
unfolding handle set_status
handle-IsExclusive (asks request_snapshot) g h = ground (arith, h)
handle-IsExclusive (asks (request_scale n)) g h = ground (arith, h)
handle-IsExclusive (asks request_suspend) g h = ground (arith, h)
handle-IsExclusive drops g h = ground (arith, h)

-- However requests and the ends of operations follow each other, there is never more than one holder
-- of the guard, and there is none exactly when the coordinator is idle, if it was so at first.
pub handle_events-IsExclusive :
    (es : List Event) (g : Guarded) → IsExclusive g → IsExclusive (handle_events es g)
unfolding handle_events
handle_events-IsExclusive [] g h = h
handle_events-IsExclusive (e ∷ es) g h =
    handle_events-IsExclusive es (handle e g) (handle-IsExclusive e g h)
