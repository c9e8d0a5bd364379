-- ===== src/Sinks/Stateful/Delivery.antt =====
-- malstrom-core/src/sinks/stateful.rs: what is written to a partition of a sink.
use malstrom.Base.{Option, none, some, List, [], ◌∷◌, ◌++◌, ◌≡◌, ◌≢◌, ◌⊎◌, ite, Result, ok, ◌>>=◌}
use malstrom.Base.IndexMap
use malstrom.Base.IndexMap.{IndexMap}
use malstrom.Types.{
  OperatorId, DataMessage, Message, data_record, abs_barrier, interrogate, collect, acquire,
}
use malstrom.Keyed.Types.{Bytes}
use malstrom.Stream.Logic.{turn}
use malstrom.Sinks.Stateful.{
  StatefulSinkImpl, SinkOp, logic, on_data, on_barrier, on_collect, on_acquire, on_interrogate,
  unassigned,
}

module _ {B Part P S K V T : Type 0} (dec : Discrete Part)
    (impl : StatefulSinkImpl B Part P S K V T) (encode : S → Bytes) (decode : Bytes → S)
    (operator_id : OperatorId) where
  -- The turns of the sink, with a message that is received in each.
  unfoldable pub run :
      List (Message Part (K × V) T) → SinkOp B Part P S → Result (SinkOp B Part P S)
  run [] o = ok o
  run (m ∷ ms) o = do
    (o', sent) ←
        turn (logic dec impl {VO = Unit {0}} {TO = Unit {0}} encode decode operator_id) (some m) o
    run ms o'

  -- What a partition goes through that is held: its records, and its snapshots.
  abbrev pub course : Part → List (Message Part (K × V) T) → P → P
  course part [] p = p
  course part (data_record d ∷ ms) p =
      ite (dec d.key part) (course part ms (impl.sink p (unassigned dec impl d))) (course part ms p)
  course part (abs_barrier b ∷ ms) p = course part ms (impl.snapshot p).0
  course part (_ ∷ ms) p = course part ms p

  -- No record of the partition is among the messages.
  abbrev pub NoRecord : Part → List (Message Part (K × V) T) → Type 0
  NoRecord part [] = Unit
  NoRecord part (data_record d ∷ ms) = (d.key ≢ part) × NoRecord part ms
  NoRecord part (_ ∷ ms) = NoRecord part ms

  -- The partition neither leaves nor arrives.
  abbrev pub StaysPut : Part → List (Message Part (K × V) T) → Type 0
  StaysPut part [] = Unit
  StaysPut part (collect c ∷ ms) = (c.key ≢ part) × StaysPut part ms
  StaysPut part (acquire a ∷ ms) = (a.key ≢ part) × StaysPut part ms
  StaysPut part (_ ∷ ms) = StaysPut part ms

  -- What becomes of a partition, by whether it is held at the start. One that is not comes with its
  -- first record, made by the builder as the messages before that have left it, and stays away if
  -- there is none.
  abbrev pub Written :
      Part → List (Message Part (K × V) T) → SinkOp B Part P S → Option P → Option P → Type 0
  Written part ms o (some p) after = after ≡ some (course part ms p)
  Written part ms o none after =
      (NoRecord part ms × (after ≡ none))
      ⊎ ((earlier later : List (Message Part (K × V) T)) × (d : DataMessage Part (K × V) T)
          × (o' : SinkOp B Part P S) × (ms ≡ earlier ++ data_record d ∷ later)
          × (d.key ≡ part)
          × NoRecord part earlier
          × (run earlier o ≡ ok o')
          × (after
              ≡ some (
                  course part later (
                    impl.sink (impl.build_part o'.part_builder part none).1
                      (unassigned dec impl d)))))

  -- The sink after a turn.
  abbrev next : Message Part (K × V) T → SinkOp B Part P S → SinkOp B Part P S
  next (data_record d) o = on_data dec impl d o
  next (abs_barrier b) o = on_barrier dec impl operator_id b o
  next (interrogate i) o = on_interrogate dec impl i o
  next (collect c) o = on_collect dec impl encode operator_id c o
  next (acquire a) o = on_acquire dec impl decode operator_id a o
  next _ o = o

  -- The messages are taken without a panic, and the partition is written as it should be.
  abbrev pub WrittenIn : Part → List (Message Part (K × V) T) → SinkOp B Part P S → Type 0
  WrittenIn part ms o =
      (o' : SinkOp B Part P S) × (run ms o ≡ ok o')
      × Written part ms o (IndexMap.get dec part o.partitions) (IndexMap.get dec part o'.partitions)
