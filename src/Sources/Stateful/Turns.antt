-- ===== src/Sources/Stateful/Turns.antt =====
-- malstrom-core/src/sources/stateful.rs: the turns of a source from the time on when its partitions are
-- assigned.
use malstrom.Base.{
  Bool, Option, none, some, List, [], ◌∷◌, ◌++◌, map, Ensures, Ensures->>=, all, ◌≡◌, refl, sym, ap,
  ◌∙◌, Bool-cases, inl, inr, some-ne-none, if_pos, if_neg,
}
use mathlib.Core.List.{append-nil}
use malstrom.Base.IndexMap
use malstrom.Base.IndexMap.{IndexMap, keys, values}
use malstrom.Types.{WorkerId, OperatorId, Message, Barrier, epoch}
use malstrom.Sources.Stateful.{
  StatefulSourceImpl, SourceOp, take_max, on_schedule, snapshot_all, retain, poll_partitions,
  receive_markers,
}
use malstrom.Sources.Stateful.Marks.{
  IsOpen, Said, EndsAt-append_right, AllDone, Unique, all-values-AllDone,
}
use malstrom.Sources.Stateful.Finish.{
  IsSource, Known, Foreign, PolledAll, Marked, poll_partitions-PolledAll, receive_markers-Marked,
}
use native.Mathlib.Decide.{ℕ_discrete}

module _ {B Part P S V T : Type 0} (dec : Discrete Part)
    (impl : StatefulSourceImpl B Part P S V T) where
  -- No partition is held twice, what is marked here has finished, the markers under way are about
  -- partitions of other workers, and the maximal time is only gone when all have finished.
  pub record IsAssigned (o : SourceOp B Part P S T) : Type 0 where
    pub unique : Unique dec (keys o.partitions)
    pub known : Known dec impl o.partitions o.all_partitions
    pub foreign : Foreign dec impl (keys o.partitions) o.comm_clients
    pub closed : o.max_t ≡ none → AllDone dec o.all_partitions

  pub record Turned (o : SourceOp B Part P S T)
      (r : SourceOp B Part P S T × List (Message Part V T)) : Type 0 where
    pub assigned : IsAssigned r.0
    pub same_keys : keys r.0.partitions ≡ keys o.partitions
    pub said : Said o.max_t r.0.max_t r.1

  taken-closed :
      (max : Option T) (marks marks' : IndexMap Part Bool)
      → (max ≡ none → AllDone dec marks')
      → (take_max dec impl max marks').0 ≡ none
      → AllDone dec marks'
  unfolding take_max
  taken-closed none marks marks' h e = h refl
  taken-closed (some t) marks marks' h e = elim (Bool-cases (all (λ b. b) (values marks'))) [
    | inl done ↦ all-values-AllDone dec marks' done
    | inr open_ ↦ absurd (some-ne-none t (sym (rw open_ refl) ∙ e))
  ]

  taken-Said :
      (max : Option T) (marks : IndexMap Part Bool) (sent : List (Message Part V T))
      → IsOpen sent
      → (max ≡ none → sent ≡ [])
      → Said max (take_max dec impl max marks).0 (sent ++ (take_max dec impl max marks).1)
  unfolding take_max
  taken-Said none marks sent h q = rw (q refl) tt
  taken-Said (some t) marks sent h q = elim (Bool-cases (all (λ b. b) (values marks))) [
    | inl done ↦ rw done (EndsAt-append_right t sent (epoch t ∷ []) h (refl, tt))
    | inr open_ ↦ rw open_ (refl, rw (append-nil sent) h)
  ]

  pub on_schedule-Turned :
      IsSource impl
      → (o : SourceOp B Part P S T) → IsAssigned o
      → Ensures (on_schedule dec impl o) (Turned o)
  unfolding on_schedule
  on_schedule-Turned laws o a =
      Ensures->>= (PolledAll dec impl o.partitions o.all_partitions) (Turned o)
        (poll_partitions dec impl o.partitions o.all_partitions) _
        (poll_partitions-PolledAll dec impl laws o.partitions o.all_partitions a.unique a.known)
        (λ p q.
          Ensures->>= (Marked dec impl (keys p.0) p.0 p.1) (Turned o)
            (receive_markers dec impl o.comm_clients p.1) _
            (receive_markers-Marked dec impl p.0 o.comm_clients p.1 (rw q.same_keys a.foreign)
              q.known)
            (λ r m. record {
              assigned = record {
                unique = rw q.same_keys a.unique;
                known = m.known;
                foreign = m.foreign;
                closed =
                    taken-closed o.max_t o.all_partitions r.1 (λ e. m.grows (q.grows (a.closed e)));
              };
              same_keys = q.same_keys;
              said = taken-Said o.max_t r.1 p.2 q.open_end (λ e. q.quiet (a.closed e));
            }))

  pub keys-snapshot_all : (ps : IndexMap Part P) → keys (snapshot_all dec impl ps).0 ≡ keys ps
  unfolding snapshot_all
  keys-snapshot_all [] = refl
  keys-snapshot_all ((k, p) ∷ ps) = ap (λ ks. k ∷ ks) (keys-snapshot_all ps)

  pub snapshot_all-Known :
      IsSource impl
      → (ps : IndexMap Part P) (marks : IndexMap Part Bool) → Known dec impl ps marks
      → Known dec impl (snapshot_all dec impl ps).0 marks
  unfolding snapshot_all
  snapshot_all-Known laws [] marks h = tt
  snapshot_all-Known laws ((k, p) ∷ ps) marks h =
      (λ e. laws.finished-snapshot p (h.0 e), snapshot_all-Known laws ps marks h.1)

  abbrev pub suspend_all : IndexMap Part P → IndexMap Part P
  suspend_all = map (λ e. (e.0, impl.suspend e.1))

  pub keys-suspend_all : (ps : IndexMap Part P) → keys (suspend_all ps) ≡ keys ps
  keys-suspend_all [] = refl
  keys-suspend_all ((k, p) ∷ ps) = ap (λ ks. k ∷ ks) (keys-suspend_all ps)

  pub suspend_all-Known :
      IsSource impl
      → (ps : IndexMap Part P) (marks : IndexMap Part Bool) → Known dec impl ps marks
      → Known dec impl (suspend_all ps) marks
  suspend_all-Known laws [] marks h = tt
  suspend_all-Known laws ((k, p) ∷ ps) marks h =
      (λ e. laws.finished-suspend p (h.0 e), suspend_all-Known laws ps marks h.1)

  -- A change of the partitions that keeps their keys.
  pub replaced-IsAssigned :
      (o : SourceOp B Part P S T) (ps : IndexMap Part P)
      (persisted : List (Barrier × OperatorId × IndexMap Part S))
      → keys ps ≡ keys o.partitions
      → Known dec impl ps o.all_partitions
      → IsAssigned o
      → IsAssigned (record o { partitions = ps; persisted = persisted })
  replaced-IsAssigned o ps persisted e h a = record {
    unique = rw e a.unique;
    known = h;
    foreign = rw e a.foreign;
    closed = a.closed;
  }

  module _ (held : List Part) where
    pub retain-Foreign :
        (p : WorkerId → Bool) (clients : IndexMap WorkerId (List Part))
        → Foreign dec impl held clients
        → Foreign dec impl held (retain p clients)
    retain-Foreign p [] f = tt
    retain-Foreign p ((wid, parts) ∷ rest) f = elim (Bool-cases (p wid)) [
      | inl e ↦ rw e (f.0, retain-Foreign p rest f.1)
      | inr e ↦ rw e (retain-Foreign p rest f.1)
    ]

    pub insert-Foreign :
        (wid : WorkerId) (clients : IndexMap WorkerId (List Part))
        → Foreign dec impl held clients
        → Foreign dec impl held (IndexMap.insert ℕ_discrete wid [] clients)
    unfolding IndexMap.insert
    insert-Foreign wid [] f = (tt, tt)
    insert-Foreign wid ((j, parts) ∷ rest) f = elim (ℕ_discrete j wid) [
      | yes e ↦ rw (if_pos (ℕ_discrete j wid) e _ _) (tt, f.1)
      | no e ↦ rw (if_neg (ℕ_discrete j wid) e _ _) (f.0, insert-Foreign wid rest f.1)
    ]
