-- ===== src/Coordinator/State/Inbound.antt =====
-- malstrom-core/src/coordinator/communication.rs, `worker_comm_inbound`: what is known of a worker.
use malstrom.Base.{true, false, Option, some, List, [], ◌∷◌, ◌≡◌, ◌≢◌, refl, ◌∙◌, arith}
use malstrom.Base.IndexMap
use malstrom.Base.IndexMap.{IndexMap, get-insert, get-insert_self, get-modify_self, get-modify_ne}
use malstrom.Types.{WorkerId, Version}
use malstrom.Coordinator.WatchMap.{apply_or_default, fire_notifications}
use malstrom.Coordinator.State.{
  WorkerPhase, WorkerState, WorkerStates, WorkerMessage, unknown, build_complete, running,
  snapshotting, reconfiguring, suspended, completed, build_completed, execution_started,
  snapshot_started, snapshot_complete, reconfiguration_started, reconfigure_complete,
  execution_complete, suspend_complete, removed, default_worker_state, worker_comm_inbound,
  set_phase,
}
use native.Mathlib.Decide.{ℕ_discrete}

-- The loop of `worker_comm_inbound` over the messages of a worker, which ends when it is removed.
unfoldable pub inbound : WorkerId → List WorkerMessage → WorkerStates → WorkerStates
inbound wid [] states = states
inbound wid (m ∷ ms) states =
    let (states', continues) = worker_comm_inbound wid m states in
    let rest = inbound wid ms states' in elim continues [ true ↦ rest | false ↦ states' ]

-- The phase that the last message means, and the version of the last snapshot that was completed.
abbrev pub phase_after : WorkerMessage → WorkerPhase
phase_after build_completed = build_complete
phase_after execution_started = running
phase_after snapshot_started = snapshotting
phase_after (snapshot_complete v) = running
phase_after reconfiguration_started = reconfiguring
phase_after (reconfigure_complete v) = running
phase_after execution_complete = completed
phase_after suspend_complete = suspended
phase_after removed = unknown

abbrev pub last_phase : WorkerPhase → List WorkerMessage → WorkerPhase
last_phase p [] = p
last_phase p (m ∷ ms) = last_phase (phase_after m) ms

abbrev pub last_snapshot : Option Version → List WorkerMessage → Option Version
last_snapshot v [] = v
last_snapshot v (snapshot_complete u ∷ ms) = last_snapshot (some u) ms
last_snapshot v (m ∷ ms) = last_snapshot v ms

abbrev pub IsActive : List WorkerMessage → Type 0
IsActive [] = Unit
IsActive (removed ∷ ms) = ⊥
IsActive (m ∷ ms) = IsActive ms

store_at : WorkerId → WorkerStates → Option WorkerState
store_at wid states = IndexMap.get ℕ_discrete wid states.store

apply-known :
    (wid j : WorkerId) (f : WorkerState → WorkerState) (states : WorkerStates) (s : WorkerState)
    → store_at wid states ≡ some s
    → (store_at wid (apply_or_default ℕ_discrete default_worker_state wid f states) ≡ some (f s))
      × (wid ≢ j
          → store_at j (apply_or_default ℕ_discrete default_worker_state wid f states)
            ≡ store_at j states)
unfolding apply_or_default fire_notifications store_at
apply-known wid j f states s h = (
  ground (arith, h, get-modify_self ℕ_discrete wid f states.store s h),
  λ n. ground (arith, h, get-modify_ne ℕ_discrete wid j f states.store n),
)

passed :
    (after : IndexMap WorkerId WorkerState) {r : Option WorkerState} (wid : WorkerId)
    (f : WorkerState → WorkerState) (states : WorkerStates) (s : WorkerState)
    → IndexMap.get ℕ_discrete wid states.store ≡ some s
    → (IndexMap.get ℕ_discrete wid after ≡ r)
      × ((j : WorkerId)
          → wid ≢ j
          → IndexMap.get ℕ_discrete j after
            ≡ store_at j (apply_or_default ℕ_discrete default_worker_state wid f states))
    → (IndexMap.get ℕ_discrete wid after ≡ r)
      × ((j : WorkerId)
          → wid ≢ j
          → IndexMap.get ℕ_discrete j after ≡ IndexMap.get ℕ_discrete j states.store)
unfolding store_at
passed after wid f states s h r = (r.0, λ j n. r.1 j n ∙ (apply-known wid j f states s h).1 n)

inbound-known :
    (wid : WorkerId) (ms : List WorkerMessage) (states : WorkerStates) (s : WorkerState)
    → IsActive ms
    → IndexMap.get ℕ_discrete wid states.store ≡ some s
    → (IndexMap.get ℕ_discrete wid (inbound wid ms states).store
        ≡ some (record {
          phase = last_phase s.phase ms;
          snapshot_version = last_snapshot s.snapshot_version ms;
        }))
      × ((j : WorkerId)
          → wid ≢ j
          → IndexMap.get ℕ_discrete j (inbound wid ms states).store
            ≡ IndexMap.get ℕ_discrete j states.store)
unfolding inbound worker_comm_inbound set_phase store_at
inbound-known wid [] states s a h = (h, λ j n. refl)
inbound-known wid (build_completed ∷ ms) states s a h =
    passed (inbound wid ms _).store wid (λ s. record s { phase = build_complete }) states s h
      (inbound-known wid ms _ _ a
        (apply-known wid wid (λ s. record s { phase = build_complete }) states s h).0)
inbound-known wid (execution_started ∷ ms) states s a h =
    passed (inbound wid ms _).store wid (λ s. record s { phase = running }) states s h
      (inbound-known wid ms _ _ a
        (apply-known wid wid (λ s. record s { phase = running }) states s h).0)
inbound-known wid (snapshot_started ∷ ms) states s a h =
    passed (inbound wid ms _).store wid (λ s. record s { phase = snapshotting }) states s h
      (inbound-known wid ms _ _ a
        (apply-known wid wid (λ s. record s { phase = snapshotting }) states s h).0)
inbound-known wid (snapshot_complete v ∷ ms) states s a h =
    passed (inbound wid ms _).store wid (λ s. record { phase = running; snapshot_version = some v })
      states s h
      (inbound-known wid ms _ _ a
        (apply-known wid wid (λ s. record { phase = running; snapshot_version = some v }) states s
          h).0)
inbound-known wid (reconfiguration_started ∷ ms) states s a h =
    passed (inbound wid ms _).store wid (λ s. record s { phase = reconfiguring }) states s h
      (inbound-known wid ms _ _ a
        (apply-known wid wid (λ s. record s { phase = reconfiguring }) states s h).0)
inbound-known wid (reconfigure_complete v ∷ ms) states s a h =
    passed (inbound wid ms _).store wid (λ s. record s { phase = running }) states s h
      (inbound-known wid ms _ _ a
        (apply-known wid wid (λ s. record s { phase = running }) states s h).0)
inbound-known wid (execution_complete ∷ ms) states s a h =
    passed (inbound wid ms _).store wid (λ s. record s { phase = completed }) states s h
      (inbound-known wid ms _ _ a
        (apply-known wid wid (λ s. record s { phase = completed }) states s h).0)
inbound-known wid (suspend_complete ∷ ms) states s a h =
    passed (inbound wid ms _).store wid (λ s. record s { phase = suspended }) states s h
      (inbound-known wid ms _ _ a
        (apply-known wid wid (λ s. record s { phase = suspended }) states s h).0)
inbound-known wid (removed ∷ ms) states s a h = absurd a

-- While a worker is not removed, what is known of it is the phase of its last message and the
-- version of its last completed snapshot, and its messages change nothing that is known of another
-- worker. The worker was known before, as `setup_comm` sees to.
pub inbound_lem :
    (wid j : WorkerId) (ms : List WorkerMessage) (states : WorkerStates) (s : WorkerState)
    → IsActive ms
    → IndexMap.get ℕ_discrete wid states.store ≡ some s
    → wid ≢ j
    → (IndexMap.get ℕ_discrete wid (inbound wid ms states).store
        ≡ some (record {
          phase = last_phase s.phase ms;
          snapshot_version = last_snapshot s.snapshot_version ms;
        }))
      × (IndexMap.get ℕ_discrete j (inbound wid ms states).store
          ≡ IndexMap.get ℕ_discrete j states.store)
inbound_lem wid j ms states s a h n =
    let known = inbound-known wid ms states s a h in (known.0, known.1 j n)
