-- ===== src/Sources/Stateful/Runs.antt =====
-- malstrom-core/src/sources/stateful.rs: all that a source sends from the time on when its partitions
-- are assigned.
use malstrom.Base.{
  not, Option, none, some, List, [], ◌∷◌, ◌++◌, ◌&&◌, Result, ok, panic, ◌>>=◌, Ensures,
  Ensures->>=, Ensures-eq_ok, All, All-append, ◌≡◌, refl, sym, subst, ◌∙◌, Bool-cases, inl, inr,
  ◌==◌, if_pos, if_neg,
}
use malstrom.Base.IndexMap
use malstrom.Base.IndexMap.{IndexMap, keys}
use malstrom.Base.IndexSet
use malstrom.Types.{
  WorkerId, OperatorId, Message, data_record, epoch, abs_barrier, rescale, suspend_marker,
  interrogate, collect, acquire,
}
use malstrom.Types.Time.{NoTime}
use malstrom.Keyed.Types.{Bytes}
use malstrom.Stream.Logic.{dispatch, turn, then_send}
use malstrom.Sources.Stateful.{
  StatefulSourceImpl, SourceOp, on_schedule, on_barrier, on_rescale, add_clients, retain, u64_not,
  logic, snapshot_all,
}
use malstrom.Sources.Stateful.Marks.{IsClosed, IsOpen, Said, Said-append, AllDone}
use malstrom.Sources.Stateful.Finish.{IsSource, Foreign, Absent}
use malstrom.Sources.Stateful.Turns.{
  IsAssigned, Turned, on_schedule-Turned, keys-snapshot_all, snapshot_all-Known, suspend_all,
  keys-suspend_all, suspend_all-Known, replaced-IsAssigned, retain-Foreign, insert-Foreign,
}
use native.Mathlib.Decide.{ℕ_discrete}

-- A marker of a finished partition arrives from another worker, or the operator is scheduled once,
-- with the message that its input delivers.
pub data Event (Part : Type 0) : Type 0 where
  arrives : WorkerId → Part → Event Part
  scheduled : Option (Message Part (Unit {0}) NoTime) → Event Part

module _ {B Part P S V T : Type 0} (dec : Discrete Part) (impl : StatefulSourceImpl B Part P S V T)
    (encode : S → Bytes) (decode : Bytes → S) (this_worker : WorkerId)
    (operator_id : OperatorId) where
  unfoldable pub happen :
      Event Part → SourceOp B Part P S T → Result (SourceOp B Part P S T × List (Message Part V T))
  happen (arrives wid part) o = ok (
    record o { comm_clients = IndexMap.modify ℕ_discrete wid (λ q. q ++ part ∷ []) o.comm_clients },
    [],
  )
  happen (scheduled received) o =
      turn (logic dec impl encode decode this_worker operator_id) received o

  unfoldable pub run :
      List (Event Part)
      → SourceOp B Part P S T
      → Result (SourceOp B Part P S T × List (Message Part V T))
  run [] o = ok (o, [])
  run (e ∷ es) o = do (o', sent) ← happen e o; (o'', more) ← run es o'; ok (o'', sent ++ more)

  -- No partition comes or goes, and the other workers report partitions of their own.
  abbrev pub IsSettled : List Part → Event Part → Type 0
  IsSettled held (arrives wid part) = Absent dec impl part held
  IsSettled held (scheduled none) = Unit
  IsSettled held (scheduled (some (data_record d))) = ⊥
  IsSettled held (scheduled (some (collect c))) = ⊥
  IsSettled held (scheduled (some (acquire a))) = ⊥
  IsSettled held (scheduled (some m)) = Unit

  arrived-Foreign :
      (held : List Part) (wid : WorkerId) (part : Part) (clients : IndexMap WorkerId (List Part))
      → Absent dec impl part held
      → Foreign dec impl held clients
      → Foreign dec impl held (IndexMap.modify ℕ_discrete wid (λ q. q ++ part ∷ []) clients)
  unfolding IndexMap.modify
  arrived-Foreign held wid part [] a f = tt
  arrived-Foreign held wid part ((j, parts) ∷ rest) a f = elim (ℕ_discrete j wid) [
    | yes e ↦
        rw (if_pos (ℕ_discrete j wid) e _ _)
          (All-append (λ p. Absent dec impl p held) parts (part ∷ []) f.0 (a, tt), f.1)
    | no e ↦ rw (if_neg (ℕ_discrete j wid) e _ _) (f.0, arrived-Foreign held wid part rest a f.1)
  ]

  add_clients-Foreign :
      (held : List Part) (wids : List WorkerId) (clients : IndexMap WorkerId (List Part))
      → Foreign dec impl held clients
      → Ensures (add_clients dec impl this_worker wids clients) (Foreign dec impl held)
  unfolding add_clients
  add_clients-Foreign held [] clients f = f
  add_clients-Foreign held (wid ∷ wids) clients f =
      elim (Bool-cases
        (not (IndexMap.contains_key ℕ_discrete wid clients) && (u64_not wid == this_worker))) [
          | inr e ↦ rw e (add_clients-Foreign held wids clients f)
          | inl e ↦ rw e (elim (Bool-cases (wid == this_worker)) [
            | inl self ↦ rw self tt
            | inr other ↦ rw other (
                add_clients-Foreign held wids (IndexMap.insert ℕ_discrete wid [] clients)
                  (insert-Foreign dec impl held wid clients f))
          ])
        ]

  Said-same :
      (max : Option T) (ms : List (Message Part V T)) → IsClosed ms → IsOpen ms → Said max max ms
  Said-same none ms c o = c
  Said-same (some t) ms c o = (refl, o)

  Turned-trans :
      (o o' o'' : SourceOp B Part P S T) (xs ys : List (Message Part V T))
      → Turned dec impl o (o', xs)
      → Turned dec impl o' (o'', ys)
      → Turned dec impl o (o'', xs ++ ys)
  Turned-trans o o' o'' xs ys h k = record {
    assigned = k.assigned;
    same_keys = k.same_keys ∙ h.same_keys;
    said = Said-append o.max_t o'.max_t o''.max_t xs ys h.said k.said;
  }

  dispatch-Turned :
      IsSource impl
      → (m : Message Part (Unit {0}) NoTime) (o : SourceOp B Part P S T)
      → IsSettled (keys o.partitions) (scheduled (some m))
      → IsAssigned dec impl o
      → Ensures
          (dispatch (logic dec impl encode decode this_worker operator_id) m o)
          (Turned dec impl o)
  unfolding dispatch on_barrier on_rescale
  dispatch-Turned laws (data_record d) o s a = absurd s
  dispatch-Turned laws (collect c) o s a = absurd s
  dispatch-Turned laws (acquire x) o s a = absurd s
  dispatch-Turned laws (epoch e) o s a = record {
    assigned = a;
    same_keys = refl;
    said = Said-same o.max_t [] tt tt;
  }
  dispatch-Turned laws (interrogate i) o s a = record {
    assigned = record {
      unique = a.unique;
      known = a.known;
      foreign = a.foreign;
      closed = a.closed;
    };
    same_keys = refl;
    said = Said-same o.max_t (interrogate i ∷ []) tt tt;
  }
  dispatch-Turned laws (abs_barrier b) o s a = record {
    assigned =
        replaced-IsAssigned dec impl o (snapshot_all dec impl o.partitions).0 _
          (keys-snapshot_all dec impl o.partitions)
          (snapshot_all-Known dec impl laws o.partitions o.all_partitions a.known) a;
    same_keys = keys-snapshot_all dec impl o.partitions;
    said = Said-same o.max_t (abs_barrier b ∷ []) tt tt;
  }
  dispatch-Turned laws (suspend_marker m) o s a = record {
    assigned =
        replaced-IsAssigned dec impl o (suspend_all dec impl o.partitions) o.persisted
          (keys-suspend_all dec impl o.partitions)
          (suspend_all-Known dec impl laws o.partitions o.all_partitions a.known) a;
    same_keys = keys-suspend_all dec impl o.partitions;
    said = Said-same o.max_t (suspend_marker m ∷ []) tt tt;
  }
  dispatch-Turned laws (rescale m) o s a =
      rescaled (add_clients dec impl this_worker m.workers kept) (
        add_clients-Foreign (keys o.partitions) m.workers kept
          (retain-Foreign dec impl (keys o.partitions) _ o.comm_clients a.foreign))
    where
      kept : IndexMap WorkerId (List Part)
      kept = retain (λ wid. IndexSet.contains ℕ_discrete wid m.workers) o.comm_clients

      rescaled :
          (r : Result (IndexMap WorkerId (List Part)))
          → Ensures r (Foreign dec impl (keys o.partitions))
          → Ensures
              (then_send
                ((do clients ← r; ok (record o { comm_clients = clients })) >>= λ o'. ok (o', []))
                (rescale m))
              (Turned dec impl o)
      rescaled panic f = tt
      rescaled (ok clients) f = record {
        assigned = record { unique = a.unique; known = a.known; foreign = f; closed = a.closed };
        same_keys = refl;
        said = Said-same o.max_t (rescale m ∷ []) tt tt;
      }

  happen-Turned :
      IsSource impl
      → (e : Event Part) (o : SourceOp B Part P S T) → IsSettled (keys o.partitions) e
      → IsAssigned dec impl o
      → Ensures (happen e o) (Turned dec impl o)
  unfolding happen turn
  happen-Turned laws (arrives wid part) o s a = record {
    assigned = record {
      unique = a.unique;
      known = a.known;
      foreign = arrived-Foreign (keys o.partitions) wid part o.comm_clients s a.foreign;
      closed = a.closed;
    };
    same_keys = refl;
    said = Said-same o.max_t [] tt tt;
  }
  happen-Turned laws (scheduled none) o s a =
      Ensures->>= (Turned dec impl o) (Turned dec impl o) (on_schedule dec impl o) _
        (on_schedule-Turned dec impl laws o a) (λ r t. t)
  happen-Turned laws (scheduled (some m)) o s a =
      Ensures->>= (Turned dec impl o) (Turned dec impl o) (on_schedule dec impl o) _
        (on_schedule-Turned dec impl laws o a)
        (λ r t.
          Ensures->>= (Turned dec impl r.0) (Turned dec impl o)
            (dispatch (logic dec impl encode decode this_worker operator_id) m r.0) _
            (dispatch-Turned laws m r.0
              (subst (λ ks. IsSettled ks (scheduled (some m))) (sym t.same_keys) s) t.assigned)
            (λ q k. Turned-trans o r.0 q.0 r.1 q.1 t k))

  run-Turned :
      IsSource impl
      → (es : List (Event Part)) (o : SourceOp B Part P S T)
      → All (IsSettled (keys o.partitions)) es
      → IsAssigned dec impl o
      → Ensures (run es o) (Turned dec impl o)
  unfolding run
  run-Turned laws [] o s a = record {
    assigned = a;
    same_keys = refl;
    said = Said-same o.max_t [] tt tt;
  }
  run-Turned laws (e ∷ es) o s a =
      Ensures->>= (Turned dec impl o) (Turned dec impl o) (happen e o) _
        (happen-Turned laws e o s.0 a)
        (λ r t.
          Ensures->>= (Turned dec impl r.0) (Turned dec impl o) (run es r.0) _
            (run-Turned laws es r.0 (rw t.same_keys s.1) t.assigned)
            (λ q k. Turned-trans o r.0 q.0 r.1 q.1 t k))

  -- What a source sends in a run that does not panic, from the time on when the partitions are
  -- assigned: no epoch while its maximal time is unsent; that one epoch and no record behind it, if it
  -- is sent in the run, and then all partitions are marked as finished; no record and no epoch if it
  -- was sent before. Finished partitions stay finished and have no records.
  pub run-Said :
      IsSource impl
      → (es : List (Event Part)) (o o' : SourceOp B Part P S T) (sent : List (Message Part V T))
      → All (IsSettled (keys o.partitions)) es
      → IsAssigned dec impl o
      → run es o ≡ ok (o', sent)
      → Said o.max_t o'.max_t sent × (o'.max_t ≡ none → AllDone dec o'.all_partitions)
  run-Said laws es o o' sent s a e =
      let t = Ensures-eq_ok (Turned dec impl o) (run es o) e (run-Turned laws es o s a) in
      (t.said, t.assigned.closed)
