-- ===== src/Sources/SingleIterator/Sequence.antt =====
-- malstrom-core/src/sources/single_iterator.rs as a source of a job on one worker.
use malstrom.Base.{
  ℕ, ◌+◌, true, false, Option, none, some, List, [], ◌∷◌, ◌++◌, Result, ok, ◌≡◌, refl,
}
use malstrom.Base.IndexMap
use malstrom.Types.Time.{no_time}
use malstrom.Types.{OperatorId, Message, data_record, epoch}
use malstrom.Keyed.Types.{Bytes, Heap}
use malstrom.Stream.Logic.{turn, dispatch}
use malstrom.Sources.Stateful.{SourceOp, on_schedule, new, on_data}
use malstrom.Sources.Stateful.Finish.{IsSource}
use malstrom.Sources.Stateful.Runs.{Event, scheduled, run, happen}
use malstrom.Sources.Stateless.{source_wrapper}
use malstrom.Sources.SingleIterator.{SingleIteratorPartition, single_iterator, poll_next, is_at_end}

unfoldable pub unit_discrete : Discrete (Unit {0})
unit_discrete a b = yes refl

abbrev pub SingleOp : Type 0 → Type 0
SingleOp V = SourceOp (Option (List V)) (Unit {0}) (SingleIteratorPartition V) (Unit {0}) ℕ

-- The source at its end.
abbrev pub ended : (V : Type 0) → ℕ → Heap (Unit {0}) → SingleOp V
ended V i heap = record {
  partitions = (tt, ([], i)) ∷ [];
  part_builder = none;
  all_partitions = (tt, true) ∷ [];
  comm_clients = [];
  max_t = none;
  heap = heap;
  broadcasts = [];
  persisted = [];
}

module _ {V : Type 0} where
  pub single_iterator-IsSource : IsSource (source_wrapper (single_iterator {V = V}))
  unfolding poll_next
  single_iterator-IsSource = record {
    finished_polls = polls;
    finished-poll = stays;
    finished-asked = λ p h. h;
    finished-snapshot = λ p h. h;
    finished-suspend = λ p h. h;
  }
    where
      polls : (p : SingleIteratorPartition V) → is_at_end p ≡ true → (poll_next p).1 ≡ none
      polls ([], i) h = refl
      polls (x ∷ xs, i) h = cc

      stays :
          (p : SingleIteratorPartition V) → is_at_end p ≡ true → is_at_end (poll_next p).0 ≡ true
      stays ([], i) h = refl
      stays (x ∷ xs, i) h = cc

  -- The records of a list from an index on.
  abbrev pub records_from : ℕ → List V → List (Message (Unit {0}) V ℕ)
  records_from i [] = []
  records_from i (x ∷ xs) =
      data_record (record { key = tt; value = x; timestamp = i }) ∷ records_from (i + 1) xs

  -- As many turns without a message.
  abbrev pub idle_turns : List V → List (Event (Unit {0}))
  idle_turns [] = []
  idle_turns (x ∷ xs) = scheduled none ∷ idle_turns xs

  -- The source on its way, alone in the job.
  abbrev pub midway : ℕ → List V → ℕ → Heap (Unit {0}) → SingleOp V
  midway i xs max heap = record {
    partitions = (tt, (xs, i)) ∷ [];
    part_builder = none;
    all_partitions = (tt, false) ∷ [];
    comm_clients = [];
    max_t = some max;
    heap = heap;
    broadcasts = [];
    persisted = [];
  }

module _ {V : Type 0} (encode : Unit {0} → Bytes) (decode : Bytes → Unit {0})
    (operator_id : OperatorId) (max : ℕ) (heap : Heap (Unit {0})) where
  abbrev pub run_single :
      List (Event (Unit {0})) → SingleOp V → Result (SingleOp V × List (Message (Unit {0}) V ℕ))
  run_single =
      run unit_discrete (source_wrapper (single_iterator {V = V})) encode decode 0 operator_id

  run_single-midway :
      (i : ℕ) (x : V) (xs : List V)
      → (j : ℕ) × (run_single (idle_turns (x ∷ xs)) (midway i (x ∷ xs) max heap)
          ≡ ok (ended V j heap, records_from i (x ∷ xs) ++ epoch max ∷ []))
  unfolding run happen turn on_schedule poll_next IndexMap.get IndexMap.modify unit_discrete
  run_single-midway i x [] = (i + 1, refl)
  run_single-midway i x (y ∷ ys) = let (j, ih) = run_single-midway (i + 1) y ys in (j, rw ih refl)

  -- A source of one iterator, alone in its job: once its part is assigned, as many turns as there are
  -- values send the values in their order, each with its index, and then the maximal time.
  pub run_single-new :
      (x : V) (xs : List V)
      → (o o' : SingleOp V) × (new unit_discrete
            (source_wrapper single_iterator)
            max
            0
            (0 ∷ [])
            heap
            (some (x ∷ xs))
            none
          ≡ ok o)
        × (run_single
              (scheduled (some (data_record (record { key = tt; value = tt; timestamp = no_time })))
                ∷ idle_turns (x ∷ xs))
              o
            ≡ ok (o', records_from 0 (x ∷ xs) ++ epoch max ∷ []))
  unfolding run happen turn dispatch on_schedule on_data new IndexMap.get IndexMap.insert
      unit_discrete
  run_single-new x xs =
      let (j, e) = run_single-midway 0 x xs in (_, ended V j heap, refl, rw e refl)
