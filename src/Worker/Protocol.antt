-- ===== src/Worker/Protocol.antt =====
-- malstrom-core/src/worker/mod.rs, `execute`: what a worker tells the coordinator.
use malstrom.Base.{
  ℕ, Bool, true, false, Option, none, some, List, [], ◌∷◌, ◌++◌, ◌≡◌, refl, ap, subst,
  if◌then◌else◌, Bool-cases, inl, inr,
}
use malstrom.Base.IndexSet
use malstrom.Types.{WorkerId, Version}
use malstrom.Coordinator.State.{
  WorkerMessage, execution_started, snapshot_started, snapshot_complete, reconfiguration_started,
  reconfigure_complete, execution_complete, suspend_complete, removed, CoordinationMessage,
  start_build, start_execution, take_snapshot, reconfigure, suspend,
}
use malstrom.Worker.{
  Progress, done, cut, panicked, RunnableOperator, WorkerWorld, Ended, job_complete, has_left,
  is_halted, under_way, in_panic, told, afterwards, obey, step, execute_loop, execute,
}
use malstrom.Worker.Panics.{
  Breaks, step-panicked, snapshot-panicked, reconfig-panicked, suspend-panicked,
}
use native.Mathlib.Decide.{ℕ_discrete}

-- The answer to an order that is carried out.
abbrev pub reply : WorkerId → CoordinationMessage → List WorkerMessage
reply worker_id (take_snapshot version) = snapshot_started ∷ snapshot_complete version ∷ []
reply worker_id (reconfigure workers version) =
    reconfiguration_started
    ∷ reconfigure_complete version
    ∷ (if IndexSet.contains ℕ_discrete worker_id workers then [] else removed ∷ [])
reply worker_id suspend = suspend_complete ∷ []
reply worker_id (start_build info) = []
reply worker_id start_execution = []

abbrev pub replies : WorkerId → List CoordinationMessage → List WorkerMessage
replies worker_id [] = []
replies worker_id (order ∷ orders) = reply worker_id order ++ replies worker_id orders

-- What is told of an order that is not carried out to its end.
abbrev pub first_word : CoordinationMessage → List WorkerMessage
first_word (take_snapshot version) = snapshot_started ∷ []
first_word (reconfigure workers version) = reconfiguration_started ∷ []
first_word _ = []

-- The orders among what was received, in their order.
abbrev pub orders : List (Option CoordinationMessage) → List CoordinationMessage
orders [] = []
orders (none ∷ rest) = orders rest
orders (some order ∷ rest) = order ∷ orders rest

-- An order that only a worker that has not started can take.
abbrev pub IsStart : CoordinationMessage → Type 0
IsStart (start_build info) = Unit
IsStart start_execution = Unit
IsStart _ = ⊥

-- An order after which the worker goes on.
abbrev pub Stays : WorkerId → CoordinationMessage → Type 0
Stays worker_id (take_snapshot version) = Unit
Stays worker_id (reconfigure workers version) =
    IndexSet.contains ℕ_discrete worker_id workers ≡ true
Stays worker_id _ = ⊥

pub reply_staying :
    (worker_id : WorkerId) (workers : List WorkerId) (version : Version)
    → IndexSet.contains ℕ_discrete worker_id workers ≡ true
    → reply worker_id (reconfigure workers version)
      ≡ reconfiguration_started ∷ reconfigure_complete version ∷ []
reply_staying worker_id workers version e = rw e refl

reply_leaving :
    (worker_id : WorkerId) (workers : List WorkerId) (version : Version)
    → IndexSet.contains ℕ_discrete worker_id workers ≡ false
    → reply worker_id (reconfigure workers version)
      ≡ reconfiguration_started ∷ reconfigure_complete version ∷ removed ∷ []
reply_leaving worker_id workers version e = rw e refl

-- An order that a running worker takes.
abbrev pub IsTaken : CoordinationMessage → Type 0
IsTaken (start_build info) = ⊥
IsTaken start_execution = ⊥
IsTaken _ = Unit

-- The protocol that a worker promises, where `breaks` says that an operator may panic. It answers the
-- orders in the order of their arrival, each in full before the next, and ends when the job is
-- complete, which leaves the orders that are still to come without an answer, when an order takes it
-- out of the job, at an order that it cannot take, or, before an order or within the answer to it, where
-- the run is cut or an operator panics.
pub data Follows (worker_id : WorkerId) (breaks : Type 0)
    : List CoordinationMessage → List WorkerMessage → Ended → Type 0 where
  waits : (os : List CoordinationMessage) → Follows worker_id breaks os [] (under_way none)
  completes :
      (os : List CoordinationMessage)
      → Follows worker_id breaks os (execution_complete ∷ []) job_complete
  answers :
      (o : CoordinationMessage) (os : List CoordinationMessage) (ms : List WorkerMessage)
      (e : Ended)
      → Stays worker_id o
      → Follows worker_id breaks os ms e
      → Follows worker_id breaks (o ∷ os) (reply worker_id o ++ ms) e
  leaves :
      (workers : List WorkerId) (version : Version) (os : List CoordinationMessage)
      → IndexSet.contains ℕ_discrete worker_id workers ≡ false
      → Follows worker_id breaks
          (reconfigure workers version ∷ os)
          (reply worker_id (reconfigure workers version))
          has_left
  halts :
      (os : List CoordinationMessage)
      → Follows worker_id breaks (suspend ∷ os) (reply worker_id suspend) is_halted
  is_busy :
      (o : CoordinationMessage) (os : List CoordinationMessage)
      → IsTaken o
      → Follows worker_id breaks (o ∷ os) (first_word o) (under_way (some o))
  fails :
      (o : CoordinationMessage) (os : List CoordinationMessage)
      → IsStart o
      → Follows worker_id breaks (o ∷ os) [] (in_panic (some o))
  breaks_off :
      (os : List CoordinationMessage) → breaks → Follows worker_id breaks os [] (in_panic none)
  breaks_in :
      (o : CoordinationMessage) (os : List CoordinationMessage)
      → IsTaken o
      → breaks
      → Follows worker_id breaks (o ∷ os) (first_word o) (in_panic (some o))

module _ {R : Type 0} (worker_id : WorkerId) (breaks : Type 0) (os : List CoordinationMessage)
    (continue_ : WorkerWorld R → List WorkerMessage × Ended)
    (h : (v : WorkerWorld R) → Follows worker_id breaks os (continue_ v).0 (continue_ v).1) where
  after_snapshot :
      (version : Version) (p : Progress (WorkerWorld R))
      → (p ≡ panicked → breaks)
      → let (ms, e) = told (snapshot_started ∷ []) (
          afterwards
            (take_snapshot version)
            p
            (λ w'. told (snapshot_complete version ∷ []) (continue_ w'))) in
        Follows worker_id breaks (take_snapshot version ∷ os) ms e
  after_snapshot version cut b = is_busy (take_snapshot version) os tt
  after_snapshot version panicked b = breaks_in (take_snapshot version) os tt (b refl)
  after_snapshot version (done v) b =
      answers (take_snapshot version) os (continue_ v).0 (continue_ v).1 tt (h v)

  after_reconfig :
      (workers : List WorkerId) (version : Version) (p : Progress (WorkerWorld R))
      → (p ≡ panicked → breaks)
      → let (ms, e) = told (reconfiguration_started ∷ []) (
          afterwards (reconfigure workers version) p (λ w'.
            told (reconfigure_complete version ∷ []) (
              if IndexSet.contains ℕ_discrete worker_id workers
              then continue_ w'
              else (removed ∷ [], has_left)))) in
        Follows worker_id breaks (reconfigure workers version ∷ os) ms e
  after_reconfig workers version cut b = is_busy (reconfigure workers version) os tt
  after_reconfig workers version panicked b = breaks_in (reconfigure workers version) os tt (b refl)
  after_reconfig workers version (done v) b =
      elim (Bool-cases (IndexSet.contains ℕ_discrete worker_id workers)) [
        | inl stays ↦ rw stays (
            subst
              (λ ms. Follows worker_id breaks (reconfigure workers version ∷ os) ms (continue_ v).1)
              (ap (λ (r : List WorkerMessage). r ++ (continue_ v).0)
                (reply_staying worker_id workers version stays))
              (answers (reconfigure workers version) os (continue_ v).0 (continue_ v).1 stays
                (h v)))
        | inr leaves_ ↦ rw leaves_ (
            subst (λ ms. Follows worker_id breaks (reconfigure workers version ∷ os) ms has_left)
              (reply_leaving worker_id workers version leaves_) (leaves workers version os leaves_))
      ]

  after_suspend :
      (p : Progress (WorkerWorld R))
      → (p ≡ panicked → breaks)
      → let (ms, e) = afterwards suspend p (λ w'. (suspend_complete ∷ [], is_halted)) in
        Follows worker_id breaks (suspend ∷ os) ms e
  after_suspend cut b = is_busy suspend os tt
  after_suspend panicked b = breaks_in suspend os tt (b refl)
  after_suspend (done v) b = halts os

module _ {R : Type 0} (fuel : ℕ) (operators : List (RunnableOperator R))
    (worker_id : WorkerId) where
  obey-Follows :
      (o : CoordinationMessage) (os : List CoordinationMessage)
      (continue_ : WorkerWorld R → List WorkerMessage × Ended) (w : WorkerWorld R)
      → ((v : WorkerWorld R)
          → Follows worker_id (Breaks operators) os (continue_ v).0 (continue_ v).1)
      → Follows worker_id
          (Breaks operators)
          (o ∷ os)
          (obey fuel operators worker_id o continue_ w).0
          (obey fuel operators worker_id o continue_ w).1
  unfolding obey
  obey-Follows (start_build info) os continue_ w h = fails (start_build info) os tt
  obey-Follows start_execution os continue_ w h = fails start_execution os tt
  obey-Follows (take_snapshot version) os continue_ w h =
      after_snapshot worker_id (Breaks operators) os continue_ h version _
        (snapshot-panicked fuel operators version w)
  obey-Follows (reconfigure workers version) os continue_ w h =
      after_reconfig worker_id (Breaks operators) os continue_ h workers version _
        (reconfig-panicked fuel operators workers version w)
  obey-Follows suspend os continue_ w h =
      after_suspend worker_id (Breaks operators) os continue_ h _
        (suspend-panicked fuel operators w)

  execute_loop-Follows :
      (received : List (Option CoordinationMessage)) (w : WorkerWorld R)
      → Follows worker_id
          (Breaks operators)
          (orders received)
          (execute_loop fuel operators worker_id received w).0
          (execute_loop fuel operators worker_id received w).1
  unfolding execute_loop
  execute_loop-Follows [] w = waits []
  execute_loop-Follows (received ∷ rest) w =
      stepped received (step fuel operators w) (λ v. execute_loop-Follows rest v)
        (step-panicked fuel operators w)
    where
      stepped :
          (received : Option CoordinationMessage) (p : Progress (WorkerWorld R × Bool))
          → ((v : WorkerWorld R)
              → Follows worker_id
                  (Breaks operators)
                  (orders rest)
                  (execute_loop fuel operators worker_id rest v).0
                  (execute_loop fuel operators worker_id rest v).1)
          → (p ≡ panicked → Breaks operators)
          → let r : List WorkerMessage × Ended = elim p [
            | cut ↦ ([], under_way none)
            | panicked ↦ ([], in_panic none)
            | done (w', true) ↦ (execution_complete ∷ [], job_complete)
            | done (w', false) ↦ elim received [
              | none ↦ execute_loop fuel operators worker_id rest w'
              | some order ↦
                  obey fuel operators worker_id order
                    (execute_loop fuel operators worker_id rest)
                    w'
            ]
          ] in
            Follows worker_id (Breaks operators) (orders (received ∷ rest)) r.0 r.1
      stepped received cut h b = waits (orders (received ∷ rest))
      stepped received panicked h b = breaks_off (orders (received ∷ rest)) (b refl)
      stepped received (done (v, true)) h b = completes (orders (received ∷ rest))
      stepped none (done (v, false)) h b = h v
      stepped (some o) (done (v, false)) h b =
          obey-Follows o (orders rest) (execute_loop fuel operators worker_id rest) v h

  -- However far a run is looked at: once it has told the coordinator that it executes, a worker
  -- follows the protocol. It answers each order that it takes in full before it takes the next, in the
  -- order of their arrival, and tells of its removal exactly if it is not in the new set. It takes no
  -- order after that, after it is suspended, or when the job is complete: orders that are still to come
  -- then get no answer. It panics only at an order to start again, unless one of its operators can
  -- panic in some world.
  pub execute-Follows :
      (received : List (Option CoordinationMessage)) (w : WorkerWorld R)
      → let (ms, e) = execute fuel operators worker_id received w in
        (rest : List WorkerMessage) × (ms ≡ execution_started ∷ rest)
        × Follows worker_id (Breaks operators) (orders received) rest e
  unfolding execute
  execute-Follows received w = (_, refl, execute_loop-Follows received w)
