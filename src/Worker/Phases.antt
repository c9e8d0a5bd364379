-- ===== src/Worker/Phases.antt =====
-- malstrom-core/src/worker/mod.rs and malstrom-core/src/coordinator/communication.rs: what the
-- coordinator knows of a worker by its messages.
use malstrom.Base.{
  ℕ, Option, none, some, List, [], ◌∷◌, ◌++◌, append_assoc, ◌≡◌, ◌≢◌, refl, sym, ap, ◌∙◌, subst,
  All,
}
use malstrom.Base.IndexMap
use malstrom.Types.{WorkerId, Version}
use malstrom.Coordinator.State.{
  WorkerMessage, WorkerPhase, WorkerState, WorkerStates, running, snapshotting, reconfiguring,
  suspended, completed, unknown, CoordinationMessage, start_build, start_execution, take_snapshot,
  reconfigure, suspend, execution_started, execution_complete, suspend_complete,
}
use malstrom.Coordinator.State.Inbound.{inbound, inbound_lem, last_phase, last_snapshot, IsActive}
use malstrom.Worker.{
  RunnableOperator, WorkerWorld, Ended, job_complete, has_left, is_halted, under_way, in_panic,
  execute,
}
use malstrom.Worker.Protocol.{
  Follows, waits, completes, answers, leaves, halts, is_busy, fails, breaks_off, breaks_in, reply,
  replies, first_word, orders, Stays, execute-Follows, reply_staying,
}
use native.Mathlib.Decide.{ℕ_discrete}

-- The phase of a worker that obeys an order, or none: it runs, but for the orders that it tells of.
abbrev pub phase_in : Option CoordinationMessage → WorkerPhase
phase_in none = running
phase_in (some (take_snapshot version)) = snapshotting
phase_in (some (reconfigure workers version)) = reconfiguring
phase_in (some suspend) = running
phase_in (some (start_build info)) = running
phase_in (some start_execution) = running

-- The phase of a worker whose messages end so. One that has left is forgotten.
abbrev pub phase_at : Ended → WorkerPhase
phase_at job_complete = completed
phase_at is_halted = suspended
phase_at (under_way order) = phase_in order
phase_at (in_panic order) = phase_in order
phase_at has_left = unknown

-- What is told last, behind the answers in full.
abbrev pub told_in : Option CoordinationMessage → List WorkerMessage
told_in none = []
told_in (some order) = first_word order

abbrev pub last_words : Ended → List WorkerMessage
last_words job_complete = execution_complete ∷ []
last_words is_halted = suspend_complete ∷ []
last_words (under_way order) = told_in order
last_words (in_panic order) = told_in order
last_words has_left = []

-- The version of the last snapshot that was ordered, or the one before.
abbrev pub last_taken : Option Version → List CoordinationMessage → Option Version
last_taken version [] = version
last_taken version (take_snapshot v ∷ os) = last_taken (some v) os
last_taken version (_ ∷ os) = last_taken version os

-- The orders that were answered in full, those that were not, and all messages by these.
abbrev pub Split :
    WorkerId
    → List CoordinationMessage
    → List WorkerMessage
    → Ended
    → List CoordinationMessage
    → Type 0
Split worker_id os ms e answered =
    ((pending : List CoordinationMessage) × (os ≡ answered ++ pending))
    × (ms ≡ replies worker_id answered ++ last_words e)
    × All (Stays worker_id) answered

Follows-Split :
    {worker_id : WorkerId} {breaks : Type 0} {os : List CoordinationMessage}
    {ms : List WorkerMessage} {e : Ended}
    → Follows worker_id breaks os ms e
    → e ≢ has_left
    → (answered : List CoordinationMessage) × Split worker_id os ms e answered
Follows-Split (waits os) n = ([], ((os, refl), refl, tt))
Follows-Split (completes os) n = ([], ((os, refl), refl, tt))
Follows-Split {worker_id} (answers o os ms e s f) n =
    let (answered, ((pending, split), words, stay)) = Follows-Split f n in
    (
      o ∷ answered,
      (
        (pending, ap (λ l. o ∷ l) split),
        ap (λ l. reply worker_id o ++ l) words
            ∙ sym (append_assoc (reply worker_id o) (replies worker_id answered) (last_words e)),
        (s, stay),
      ),
    )
Follows-Split (leaves workers version os h) n = absurd (n refl)
Follows-Split (halts os) n = ([], ((suspend ∷ os, refl), refl, tt))
Follows-Split (is_busy o os t) n = ([], ((o ∷ os, refl), refl, tt))
Follows-Split (fails (start_build info) os h) n = ([], ((start_build info ∷ os, refl), refl, tt))
Follows-Split (fails start_execution os h) n = ([], ((start_execution ∷ os, refl), refl, tt))
Follows-Split (fails (take_snapshot v) os h) n = absurd h
Follows-Split (fails (reconfigure workers v) os h) n = absurd h
Follows-Split (fails suspend os h) n = absurd h
Follows-Split (breaks_off os b) n = ([], ((os, refl), refl, tt))
Follows-Split (breaks_in o os t b) n = ([], ((o ∷ os, refl), refl, tt))

-- What the coordinator makes of the messages.
abbrev pub Known : List WorkerMessage → Option Version → WorkerPhase → Option Version → Type 0
Known ms version phase taken =
    (last_phase running ms ≡ phase) × (last_snapshot version ms ≡ taken) × IsActive ms

in-Known :
    (o : Option CoordinationMessage) (version : Option Version)
    → Known (told_in o) version (phase_in o) version
in-Known none version = (refl, refl, tt)
in-Known (some (take_snapshot v)) version = (refl, refl, tt)
in-Known (some (reconfigure workers v)) version = (refl, refl, tt)
in-Known (some suspend) version = (refl, refl, tt)
in-Known (some (start_build info)) version = (refl, refl, tt)
in-Known (some start_execution) version = (refl, refl, tt)

words-Known :
    (e : Ended) (version : Option Version)
    → e ≢ has_left
    → Known (last_words e) version (phase_at e) version
words-Known job_complete version n = (refl, refl, tt)
words-Known is_halted version n = (refl, refl, tt)
words-Known (under_way o) version n = in-Known o version
words-Known (in_panic o) version n = in-Known o version
words-Known has_left version n = absurd (n refl)

replies-Known :
    (worker_id : WorkerId) (answered : List CoordinationMessage) (e : Ended)
    (version : Option Version)
    → All (Stays worker_id) answered
    → e ≢ has_left
    → Known
        (replies worker_id answered ++ last_words e)
        version
        (phase_at e)
        (last_taken version answered)
replies-Known worker_id [] e version s n = words-Known e version n
replies-Known worker_id (take_snapshot v ∷ os) e version s n =
    replies-Known worker_id os e (some v) s.1 n
replies-Known worker_id (reconfigure workers v ∷ os) e version s n =
    subst
      (λ r.
        Known ((r ++ replies worker_id os) ++ last_words e) version (phase_at e)
          (last_taken version os))
      (sym (reply_staying worker_id workers v s.0)) (replies-Known worker_id os e version s.1 n)
replies-Known worker_id (start_build info ∷ os) e version s n = absurd s.0
replies-Known worker_id (start_execution ∷ os) e version s n = absurd s.0
replies-Known worker_id (suspend ∷ os) e version s n = absurd s.0

module _ {R : Type 0} (fuel : ℕ) (operators : List (RunnableOperator R)) (wid : WorkerId) where
  -- When the coordinator has taken in all that a worker has told it in a run that the worker has not
  -- left, it knows where the run has come to. The orders that the worker was given are those that it
  -- has answered in full, and the rest. The worker is known as completed if the job is complete there,
  -- as suspended if it was suspended, as snapshotting or reconfiguring if the run is cut or has
  -- panicked within such an order, and as running if that is elsewhere; its snapshot is the last among
  -- the orders that it has answered, or the one known before. Nothing that is known of another worker
  -- changes. The worker was known before.
  pub execute-Known :
      (received : List (Option CoordinationMessage)) (w : WorkerWorld R) (j : WorkerId)
      (states : WorkerStates) (s : WorkerState)
      → IndexMap.get ℕ_discrete wid states.store ≡ some s
      → wid ≢ j
      → (execute fuel operators wid received w).1 ≢ has_left
      → let (ms, e) = execute fuel operators wid received w in
        (answered pending : List CoordinationMessage) × (orders received ≡ answered ++ pending)
        × (ms ≡ execution_started ∷ replies wid answered ++ last_words e)
        × (IndexMap.get ℕ_discrete wid (inbound wid ms states).store
            ≡ some (record {
              phase = phase_at e;
              snapshot_version = last_taken s.snapshot_version answered;
            }))
        × (IndexMap.get ℕ_discrete j (inbound wid ms states).store
            ≡ IndexMap.get ℕ_discrete j states.store)
  execute-Known received w j states s h n stays =
      let (ms, e) = execute fuel operators wid received w in
      let (rest, started, f) = execute-Follows fuel operators wid received w in
      let (answered, ((pending, split), words, stay)) = Follows-Split f stays in
      let whole = started ∙ ap (λ l. execution_started ∷ l) words in
      let (phase, taken, active) = replies-Known wid answered e s.snapshot_version stay stays in
      let known =
        inbound_lem wid j (execution_started ∷ replies wid answered ++ last_words e) states s active
          h n in
      (
        answered,
        pending,
        split,
        whole,
        rw whole (rw (sym phase) (rw (sym taken) known.0)),
        rw whole known.1,
      )
