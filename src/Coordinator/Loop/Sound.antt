-- ===== src/Coordinator/Loop/Sound.antt =====
-- malstrom-core/src/coordinator/coordinator.rs, `coordinator_loop`: what stays true of it, whatever
-- workers and requesters do.
use malstrom.Base.{
  ◌==◌, Bool, true, false, Option, some, List, [], ◌∷◌, all, All, All-append, if◌then◌else◌, ◌≡◌,
  refl, ap, ◌∙◌, Bool-cases, inl, inr, length, subst,
}
use malstrom.Base.IndexMap.{IndexMap}
use malstrom.Types.{WorkerId, Version}
use malstrom.Coordinator.State.{
  SerializableCoordinatorState, CoordinatorStatus, idle, scaling, snapshotting_all, suspending,
  RequestOperation, request_snapshot, request_scale, request_suspend, status_of, set_status,
}
use malstrom.Coordinator.Reconfig.{next_version}
use malstrom.Coordinator.Loop.{
  Operation, building, launching, ready, snapshot_first, snapshot_second, suspending_all, adding,
  starting_new, reconfig_first, reconfig_second, exited, Wait, unregistered, registered, fulfilled,
  Coordination, Event, says, registers, resumes, asks, notices, is_completed, register_all,
  abs_diff, finish_request, perform, handle_request, resume, step, run, start, commit_version,
  drain_workers, change_config,
}

-- The status of the guard that belongs to an operation.
abbrev pub status_in : Operation → CoordinatorStatus
status_in (snapshot_first v) = snapshotting_all
status_in (snapshot_second v) = snapshotting_all
status_in suspending_all = suspending
status_in (adding config news) = scaling
status_in (starting_new config news) = scaling
status_in (reconfig_first config) = scaling
status_in (reconfig_second config) = scaling
status_in _ = idle

-- The version that a snapshot under way will have.
abbrev pub IsNext : Operation → Option Version → Type 0
IsNext (snapshot_first v) current = v ≡ next_version current
IsNext (snapshot_second v) current = v ≡ next_version current
IsNext _ current = Unit

-- The commits since the start, the latest first: each has the version next to the one before, and the
-- last is the current one.
abbrev pub IsChain :
    Option Version → List (Version × SerializableCoordinatorState) → Option Version → Type 0
IsChain first [] current = current ≡ first
IsChain first ((version, state) ∷ commits) current =
    (before : Option Version) × (current ≡ some version)
    × (version ≡ next_version before)
    × IsChain first commits before

pub record IsSound (first : Option Version) (c : Coordination) : Type 0 where
  pub status : c.status ≡ status_in c.operation
  pub next : IsNext c.operation c.snapshot_version
  pub chain : IsChain first c.committed c.snapshot_version
  pub answered : All (λ a. a ≡ fulfilled) c.answers

module _ (first : Option Version) where
  finish_request-IsSound :
      (c : Coordination)
      → IsChain first c.committed c.snapshot_version
      → All (λ a. a ≡ fulfilled) c.answers
      → IsSound first (finish_request c)
  unfolding finish_request
  finish_request-IsSound c chain answered = record {
    status = ended c.state.active_workers;
    next = ended-next c.state.active_workers;
    chain = chain;
    answered = All-append (λ a. a ≡ fulfilled) c.answers (fulfilled ∷ []) answered (refl, tt);
  }
    where
      ended :
          (m : IndexMap WorkerId WorkerId)
          → idle ≡ status_in (elim m [ [] ↦ exited | w ∷ ws ↦ ready ])
      ended [] = refl
      ended (w ∷ ws) = refl

      ended-next :
          (m : IndexMap WorkerId WorkerId)
          → IsNext (elim m [ [] ↦ exited | w ∷ ws ↦ ready ]) c.snapshot_version
      ended-next [] = tt
      ended-next (w ∷ ws) = tt

  perform-IsSound :
      (op : RequestOperation) (c : Coordination)
      → c.status ≡ status_of op
      → IsChain first c.committed c.snapshot_version
      → All (λ a. a ≡ fulfilled) c.answers
      → IsSound first (perform op c)
  unfolding perform
  perform-IsSound request_snapshot c e chain answered = record {
    status = e;
    next = refl;
    chain = chain;
    answered = answered;
  }
  perform-IsSound request_suspend c e chain answered = record {
    status = e;
    next = tt;
    chain = chain;
    answered = answered;
  }
  perform-IsSound (request_scale n) c e chain answered =
      elim (Bool-cases (abs_diff n (length c.state.active_workers) == 0)) [
        | inl same ↦ rw same (finish_request-IsSound c chain answered)
        | inr other ↦
            rw other (record { status = e; next = tt; chain = chain; answered = answered })
      ]

  handle_request-IsSound :
      (op : RequestOperation) (c : Coordination)
      → c.operation ≡ ready
      → IsSound first c
      → IsSound first (handle_request op c)
  unfolding handle_request set_status
  handle_request-IsSound op c e s =
      let is_idle : c.status ≡ idle = s.status ∙ ap status_in e in
      rw is_idle (perform-IsSound op (record c { status = status_of op }) refl s.chain s.answered)

  resume-IsSound :
      (op : Operation) (c : Coordination)
      → c.operation ≡ op
      → IsSound first c
      → IsSound first (resume op c)
  unfolding resume
  resume-IsSound building c e s = record {
    status = s.status ∙ ap status_in e;
    next = tt;
    chain = s.chain;
    answered = s.answered;
  }
  resume-IsSound launching c e s = record {
    status = s.status ∙ ap status_in e;
    next = tt;
    chain = s.chain;
    answered = s.answered;
  }
  resume-IsSound ready c e s = s
  resume-IsSound (snapshot_first v) c e s = record {
    status = s.status ∙ ap status_in e;
    next = subst (λ op. IsNext op c.snapshot_version) e s.next;
    chain = s.chain;
    answered = s.answered;
  }
  resume-IsSound (snapshot_second v) c e s =
      finish_request-IsSound (commit_version v c)
        (c.snapshot_version, refl, subst (λ op. IsNext op c.snapshot_version) e s.next, s.chain)
        s.answered
  resume-IsSound suspending_all c e s = finish_request-IsSound (drain_workers c) s.chain s.answered
  resume-IsSound (adding config news) c e s = record {
    status = s.status ∙ ap status_in e;
    next = tt;
    chain = s.chain;
    answered = s.answered;
  }
  resume-IsSound (starting_new config news) c e s = record {
    status = s.status ∙ ap status_in e;
    next = tt;
    chain = s.chain;
    answered = s.answered;
  }
  resume-IsSound (reconfig_first config) c e s = record {
    status = s.status ∙ ap status_in e;
    next = tt;
    chain = s.chain;
    answered = s.answered;
  }
  resume-IsSound (reconfig_second config) c e s =
      finish_request-IsSound (change_config config c) s.chain s.answered
  resume-IsSound exited c e s = s

  asks-IsSound :
      (op : RequestOperation) (o : Operation) (c : Coordination)
      → c.operation ≡ o
      → IsSound first c
      → IsSound first (elim o [ ready ↦ handle_request op c | _ ↦ c ])
  asks-IsSound op ready c e s = handle_request-IsSound op c e s
  asks-IsSound op building c e s = s
  asks-IsSound op launching c e s = s
  asks-IsSound op (snapshot_first v) c e s = s
  asks-IsSound op (snapshot_second v) c e s = s
  asks-IsSound op suspending_all c e s = s
  asks-IsSound op (adding config news) c e s = s
  asks-IsSound op (starting_new config news) c e s = s
  asks-IsSound op (reconfig_first config) c e s = s
  asks-IsSound op (reconfig_second config) c e s = s
  asks-IsSound op exited c e s = s

  notices-IsSound :
      (b : Bool) (o : Operation) (c : Coordination)
      → c.operation ≡ o
      → IsSound first c
      → IsSound first (elim o [ ready ↦ if b then record c { operation = exited } else c | _ ↦ c ])
  notices-IsSound true ready c e s = record {
    status = s.status ∙ ap status_in e;
    next = tt;
    chain = s.chain;
    answered = s.answered;
  }
  notices-IsSound false ready c e s = s
  notices-IsSound b building c e s = s
  notices-IsSound b launching c e s = s
  notices-IsSound b (snapshot_first v) c e s = s
  notices-IsSound b (snapshot_second v) c e s = s
  notices-IsSound b suspending_all c e s = s
  notices-IsSound b (adding config news) c e s = s
  notices-IsSound b (starting_new config news) c e s = s
  notices-IsSound b (reconfig_first config) c e s = s
  notices-IsSound b (reconfig_second config) c e s = s
  notices-IsSound b exited c e s = s

  resumes-IsSound :
      (w : Wait) (c : Coordination)
      → IsSound first c
      → IsSound first (elim w [
        | unregistered cs ↦ c
        | registered ids ↦
            if all (λ id. is_completed id c.state.worker_states) ids
            then resume c.operation c
            else c
      ])
  resumes-IsSound (unregistered cs) c s = s
  resumes-IsSound (registered ids) c s =
      elim (Bool-cases (all (λ id. is_completed id c.state.worker_states) ids)) [
        | inl over ↦ rw over (resume-IsSound c.operation c refl s)
        | inr not_yet ↦ rw not_yet s
      ]

  registers-IsSound :
      (w : Wait) (c : Coordination)
      → IsSound first c
      → IsSound first (elim w [
        | registered ids ↦ c
        | unregistered cs ↦
            let (ids, next, states) = register_all cs c.next_oneshot c.state.worker_states in
            record c {
              wait = registered ids;
              next_oneshot = next;
              state = record (c.state) { worker_states = states };
            }
      ])
  registers-IsSound (registered ids) c s = s
  registers-IsSound (unregistered cs) c s = record {
    status = s.status;
    next = s.next;
    chain = s.chain;
    answered = s.answered;
  }

  step-IsSound : (e : Event) (c : Coordination) → IsSound first c → IsSound first (step e c)
  unfolding step
  step-IsSound (says wid m) c s = record {
    status = s.status;
    next = s.next;
    chain = s.chain;
    answered = s.answered;
  }
  step-IsSound registers c s = registers-IsSound c.wait c s
  step-IsSound resumes c s = resumes-IsSound c.wait c s
  step-IsSound (asks op) c s = asks-IsSound op c.operation c refl s
  step-IsSound notices c s =
      notices-IsSound (is_completed c.execution_complete c.state.worker_states) c.operation c refl s

  run-IsSound : (es : List Event) (c : Coordination) → IsSound first c → IsSound first (run es c)
  unfolding run
  run-IsSound [] c s = s
  run-IsSound (e ∷ es) c s = run-IsSound es (step e c) (step-IsSound e c s)

  -- However the messages of the workers, the requests and the loop's own steps follow each other: the
  -- versions that are committed follow each other without a gap from the one that the job started
  -- with, the version that the loop keeps is the last of them, the one of a snapshot under way is the
  -- next; the status is that of the operation under way, and no request is ever refused because of
  -- another one.
  pub start-IsSound :
      (ser : SerializableCoordinatorState) (es : List Event)
      → IsSound first (run es (start first ser))
  unfolding start
  start-IsSound ser es =
      run-IsSound es (start first ser)
        (record { status = refl; next = tt; chain = refl; answered = tt })
