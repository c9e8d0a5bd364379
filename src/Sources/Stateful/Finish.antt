-- ===== src/Sources/Stateful/Finish.antt =====
-- malstrom-core/src/sources/stateful.rs: a source sends its maximal time once all its partitions have
-- finished, and nothing behind it.
use malstrom.Base.{
  Bool, true, not, Option, none, some, List, [], ◌∷◌, ◌&&◌, Ensures, Ensures->>=, All, ◌≡◌, ◌≢◌,
  refl, sym, ap, ◌∙◌, arith, Bool-cases, Option-cases, inl, inr,
}
use malstrom.Base.IndexMap
use malstrom.Base.IndexMap.{IndexMap, keys, values, get-modify_self, get-modify_ne}
use malstrom.Types.{WorkerId, Message}
use malstrom.Sources.Stateful.{
  StatefulSourceImpl, poll_one, poll_partitions, receive_markers, record_of,
}
use malstrom.Sources.Stateful.Marks.{IsOpen, IsOpen-append, AllDone, Unique, get-mark}

-- What the traits document: a finished partition has no more records. It also stays finished.
pub record IsSource {B Part P S V T : Type 0} (impl : StatefulSourceImpl B Part P S V T)
    : Type 0 where
  pub finished_polls : (p : P) → (impl.is_finished p).1 ≡ true → (impl.poll p).1 ≡ none
  pub finished-poll :
      (p : P) → (impl.is_finished p).1 ≡ true → (impl.is_finished (impl.poll p).0).1 ≡ true
  pub finished-asked :
      (p : P) → (impl.is_finished p).1 ≡ true → (impl.is_finished (impl.is_finished p).0).1 ≡ true
  pub finished-snapshot :
      (p : P) → (impl.is_finished p).1 ≡ true → (impl.is_finished (impl.snapshot p).0).1 ≡ true
  pub finished-suspend :
      (p : P) → (impl.is_finished p).1 ≡ true → (impl.is_finished (impl.suspend p)).1 ≡ true

module _ {B Part P S V T : Type 0} (dec : Discrete Part)
    (impl : StatefulSourceImpl B Part P S V T) where
  abbrev pub KnownOne : IndexMap Part Bool → Part → P → Type 0
  KnownOne marks part p = IndexMap.get dec part marks ≡ some true → (impl.is_finished p).1 ≡ true

  -- Partitions held here that are marked have finished.
  abbrev pub Known : IndexMap Part P → IndexMap Part Bool → Type 0
  Known ps marks = All (λ e. KnownOne marks e.0 e.1) ps

  record PolledOne (part : Part) (marks : IndexMap Part Bool)
      (r : P × IndexMap Part Bool × List (Message Part V T) × List Part) : Type 0 where
    known : KnownOne r.1 part r.0
    elsewhere : (j : Part) → part ≢ j → IndexMap.get dec j r.1 ≡ IndexMap.get dec j marks
    grows : AllDone dec marks → AllDone dec r.1
    open_end : IsOpen r.2
    quiet : AllDone dec marks → r.2 ≡ []

  modified-AllDone :
      (part : Part) (marks : IndexMap Part Bool)
      → AllDone dec marks
      → AllDone dec (IndexMap.modify dec part (λ _. true) marks)
  modified-AllDone part marks h j b e = elim (get-mark dec part j marks b e) [
    | inl t ↦ t
    | inr old ↦ h j b old
  ]

  record_of-IsOpen : (part : Part) (o : Option (V × T)) → IsOpen (record_of dec impl part o)
  record_of-IsOpen part none = tt
  record_of-IsOpen part (some (v, t)) = tt

  poll_one-PolledOne :
      IsSource impl
      → (part : Part) (p : P) (marks : IndexMap Part Bool) → KnownOne marks part p
      → Ensures (poll_one dec impl part p marks) (PolledOne part marks)
  unfolding poll_one
  poll_one-PolledOne laws part p marks h = elim (Option-cases (IndexMap.get dec part marks)) [
    | inl e ↦ rw e tt
    | inr (b, e) ↦ rw e (elim (Bool-cases ((impl.is_finished (impl.poll p).0).1 && not b)) [
      | inl new ↦ rw new (record {
        known = λ _. laws.finished-asked (impl.poll p).0 (ground (arith, new));
        elsewhere = λ j ne. get-modify_ne dec part j (λ _. true) marks ne;
        grows = modified-AllDone part marks;
        open_end = record_of-IsOpen part (impl.poll p).1;
        quiet = λ done. ground (arith, new, done part b e);
      })
      | inr old ↦ rw old (record {
        known = λ marked. laws.finished-asked (impl.poll p).0 (laws.finished-poll p (h marked));
        elsewhere = λ j ne. refl;
        grows = λ done. done;
        open_end = record_of-IsOpen part (impl.poll p).1;
        quiet = λ done. rw (laws.finished_polls p (h (e ∙ ap some (done part b e)))) refl;
      })
    ])
  ]

  -- `part` is none of these.
  abbrev pub Absent : Part → List Part → Type 0
  Absent part ks = All (λ k. part ≢ k) ks

  pub record PolledAll (ps : IndexMap Part P) (marks : IndexMap Part Bool)
      (r : IndexMap Part P × IndexMap Part Bool × List (Message Part V T) × List Part)
      : Type 0 where
    pub same_keys : keys r.0 ≡ keys ps
    pub known : Known r.0 r.1
    pub elsewhere :
        (j : Part) → Absent j (keys ps) → IndexMap.get dec j r.1 ≡ IndexMap.get dec j marks
    pub grows : AllDone dec marks → AllDone dec r.1
    pub open_end : IsOpen r.2
    pub quiet : AllDone dec marks → r.2 ≡ []

  -- Marks elsewhere do not matter to the partitions of a map.
  Known-elsewhere :
      (part : Part) (marks marks' : IndexMap Part Bool) (ps : IndexMap Part P)
      → ((j : Part) → part ≢ j → IndexMap.get dec j marks' ≡ IndexMap.get dec j marks)
      → Absent part (keys ps)
      → Known ps marks
      → Known ps marks'
  Known-elsewhere part marks marks' [] same a h = tt
  Known-elsewhere part marks marks' ((j, p) ∷ ps) same a h =
      (λ e. h.0 (sym (same j a.0) ∙ e), Known-elsewhere part marks marks' ps same a.1 h.1)

  pub poll_partitions-PolledAll :
      IsSource impl
      → (ps : IndexMap Part P) (marks : IndexMap Part Bool) → Unique dec (keys ps)
      → Known ps marks
      → Ensures (poll_partitions dec impl ps marks) (PolledAll ps marks)
  unfolding poll_partitions
  poll_partitions-PolledAll laws [] marks u h = record {
    same_keys = refl;
    known = tt;
    elsewhere = λ j a. refl;
    grows = λ d. d;
    open_end = tt;
    quiet = λ d. refl;
  }
  poll_partitions-PolledAll laws ((part, p) ∷ ps) marks u h =
      Ensures->>= (PolledOne part marks) (PolledAll ((part, p) ∷ ps) marks)
        (poll_one dec impl part p marks) _ (poll_one-PolledOne laws part p marks h.0)
        (λ one q.
          Ensures->>= (PolledAll ps one.1) (PolledAll ((part, p) ∷ ps) marks)
            (poll_partitions dec impl ps one.1) _
            (poll_partitions-PolledAll laws ps one.1 u.1
              (Known-elsewhere part marks one.1 ps q.elsewhere u.0 h.1))
            (λ more r. record {
              same_keys = ap (λ ks. part ∷ ks) r.same_keys;
              known = (λ e. q.known (sym (r.elsewhere part u.0) ∙ e), r.known);
              elsewhere = λ j a. r.elsewhere j a.1 ∙ q.elsewhere j (λ e. a.0 (sym e));
              grows = λ d. r.grows (q.grows d);
              open_end = IsOpen-append one.2 more.2 q.open_end r.open_end;
              quiet = λ d. rw (q.quiet d) (r.quiet (q.grows d));
            }))

  -- The markers that wait at the clients are about partitions of other workers.
  abbrev pub Foreign : List Part → IndexMap WorkerId (List Part) → Type 0
  Foreign held clients = All (λ e. All (λ part. Absent part held) e.1) clients

  pub record Marked (held : List Part) (ps : IndexMap Part P) (marks : IndexMap Part Bool)
      (r : IndexMap WorkerId (List Part) × IndexMap Part Bool) : Type 0 where
    pub known : Known ps r.1
    pub foreign : Foreign held r.0
    pub grows : AllDone dec marks → AllDone dec r.1

  pub receive_markers-Marked :
      (ps : IndexMap Part P) (clients : IndexMap WorkerId (List Part)) (marks : IndexMap Part Bool)
      → Foreign (keys ps) clients
      → Known ps marks
      → Ensures (receive_markers dec impl clients marks) (Marked (keys ps) ps marks)
  unfolding receive_markers
  receive_markers-Marked ps [] marks f h = record { known = h; foreign = tt; grows = λ d. d }
  receive_markers-Marked ps ((wid, []) ∷ rest) marks f h =
      Ensures->>= (Marked (keys ps) ps marks) (Marked (keys ps) ps marks)
        (receive_markers dec impl rest marks) _ (receive_markers-Marked ps rest marks f.1 h)
        (λ r q. record { known = q.known; foreign = (tt, q.foreign); grows = q.grows })
  receive_markers-Marked ps ((wid, part ∷ parts) ∷ rest) marks f h =
      let marks' = IndexMap.modify dec part (λ _. true) marks in
      elim (Option-cases (IndexMap.get dec part marks)) [
        | inl e ↦ rw e tt
        | inr (b, e) ↦ rw e (
            Ensures->>= (Marked (keys ps) ps marks') (Marked (keys ps) ps marks)
              (receive_markers dec impl rest marks') _
              (receive_markers-Marked ps rest marks' f.1 (
                Known-elsewhere part marks marks' ps
                  (λ j ne. get-modify_ne dec part j (λ _. true) marks ne) f.0.0 h))
              (λ r q. record {
                known = q.known;
                foreign = (f.0.1, q.foreign);
                grows = λ d. q.grows (modified-AllDone part marks d);
              }))
      ]
