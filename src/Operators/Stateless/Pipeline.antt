-- ===== src/Operators/Stateless/Pipeline.antt =====
-- The example of malstrom-core/src/operators/map.rs as a whole: a source of one iterator, a mapper and a
-- sink that collects.
use malstrom.Base.{
  ℕ, ◌+◌, none, some, List, [], ◌∷◌, ◌++◌, append_assoc, append-nil, ok, ◌≡◌, sym, ◌∙◌,
}
use malstrom.Types.{OperatorId, DataMessage, Message, data_record, epoch}
use malstrom.Types.Time.{no_time}
use malstrom.Keyed.Types.{Bytes, Heap}
use malstrom.Sources.Stateful.{new}
use malstrom.Sources.Stateful.Runs.{scheduled}
use malstrom.Sources.Stateless.{source_wrapper}
use malstrom.Sources.SingleIterator.{single_iterator}
use malstrom.Sources.SingleIterator.Sequence.{
  SingleOp, unit_discrete, idle_turns, run_single, records_from, run_single-new,
}
use malstrom.Sinks.Stateless.{consume_all, give}
use malstrom.Operators.Stateless.{process, map_logic}

module _ {V VO : Type 0} (f : V → VO) where
  -- What the sink shall hold: the mapped values in order, each with its index.
  abbrev pub collected_from : ℕ → List V → List (DataMessage (Unit {0}) VO ℕ)
  collected_from i [] = []
  collected_from i (x ∷ xs) =
      record { key = tt; value = f x; timestamp = i } ∷ collected_from (i + 1) xs

  -- A mapper without a state.
  abbrev pub pure_mapper : Unit {0} → V → Unit {0} × VO
  pure_mapper l v = (l, f v)

  -- The messages of a stream through the mapper into the sink.
  abbrev pub collect_mapped :
      List (Message (Unit {0}) V ℕ)
      → List (DataMessage (Unit {0}) VO ℕ)
      → List (DataMessage (Unit {0}) VO ℕ)
  collect_mapped ms inner = consume_all give (process (map_logic pure_mapper) ms tt).1 inner

  collect_mapped-records :
      (max i : ℕ) (xs : List V) (inner : List (DataMessage (Unit {0}) VO ℕ))
      → collect_mapped (records_from i xs ++ epoch max ∷ []) inner ≡ inner ++ collected_from i xs
  unfolding process consume_all
  collect_mapped-records max i [] inner = sym (append-nil inner)
  collect_mapped-records max i (x ∷ xs) inner =
      collect_mapped-records max (i + 1) xs
        (inner ++ record { key = tt; value = f x; timestamp = i } ∷ [])
      ∙ append_assoc inner (record { key = tt; value = f x; timestamp = i } ∷ [])
          (collected_from (i + 1) xs)

  module _ (encode : Unit {0} → Bytes) (decode : Bytes → Unit {0}) (operator_id : OperatorId)
      (max : ℕ) (heap : Heap (Unit {0})) where
    -- A job of a source of one iterator, a mapper and a collecting sink collects the mapped values in
    -- the order of the iterator, each with its index as its time, once the part of the source is
    -- assigned and the source has had a turn for each value.
    pub single_iterator-collected :
        (x : V) (xs : List V)
        → (o o' : SingleOp V) × (sent : List (Message (Unit {0}) V ℕ)) × (new unit_discrete
              (source_wrapper single_iterator)
              max
              0
              (0 ∷ [])
              heap
              (some (x ∷ xs))
              none
            ≡ ok o)
          × (run_single encode decode operator_id max heap
                (scheduled
                    (some (data_record (record { key = tt; value = tt; timestamp = no_time })))
                  ∷ idle_turns (x ∷ xs))
                o
              ≡ ok (o', sent))
          × (collect_mapped sent [] ≡ collected_from 0 (x ∷ xs))
    single_iterator-collected x xs =
        let (o, o', built, ran) = run_single-new encode decode operator_id max heap x xs in
        (
          o,
          o',
          records_from 0 (x ∷ xs) ++ epoch max ∷ [],
          built,
          ran,
          collect_mapped-records max 0 (x ∷ xs) [],
        )
