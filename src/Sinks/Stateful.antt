-- ===== src/Sinks/Stateful.antt =====
-- malstrom-core/src/sinks/stateful.rs: a sink of several partitions, each written on one worker. The
-- user's sink is a parameter.
pub mod Partitions
pub mod Delivery
use malstrom.Base.{Bool, Option, none, some, List, [], ◌∷◌, ◌++◌, Result, ok, panic, ◌≡◌}
use malstrom.Base.IndexMap
use malstrom.Base.IndexMap.{IndexMap, keys}
use malstrom.Types.{
  OperatorId, DataMessage, Message, Barrier, Interrogate, Collect, Acquire, data_record, epoch,
  abs_barrier, rescale, suspend_marker, interrogate, collect, acquire,
}
use malstrom.Types.Time.{NoTime}
use malstrom.Keyed.Types.{Bytes, Heap, add_keys, add_state, take_state}
use malstrom.Stream.Logic.{LogicWrapper, ignore}

-- `StatefulSinkImpl` with its `StatefulSinkPartition`: `B` builds partitions, `P` is a partition and
-- `S` its state.
pub record StatefulSinkImpl (B Part P S K V T : Type 0) : Type 0 where
  pub assign_part : B → DataMessage K V T → Part
  pub build_part : B → Part → Option S → B × P
  pub sink : P → DataMessage K V T → P
  pub snapshot : P → P × S
  pub collect : P → S

-- `StatefulSinkPartitionOp`, with the shared objects of the worker and what was persisted.
pub record SinkOp (B Part P S : Type 0) : Type 0 where
  pub partitions : IndexMap Part P
  pub part_builder : B
  pub heap : Heap Part
  pub persisted : List (Barrier × OperatorId × List (Part × S))

module _ {B Part P S K V T : Type 0} (dec : Discrete Part)
    (impl : StatefulSinkImpl B Part P S K V T) where
  -- The operator `assign-parts` on a message, with the builder as it stands.
  unfoldable pub assign_parts : B → Message K V T → List (Message Part (K × V) T)
  assign_parts b (data_record d) =
      data_record
        (record { key = impl.assign_part b d; value = (d.key, d.value); timestamp = d.timestamp })
      ∷ []
  assign_parts b (epoch e) = epoch e ∷ []
  assign_parts b (abs_barrier x) = abs_barrier x ∷ []
  assign_parts b (rescale x) = rescale x ∷ []
  assign_parts b (suspend_marker x) = suspend_marker x ∷ []
  assign_parts b (interrogate x) = []
  assign_parts b (collect x) = []
  assign_parts b (acquire x) = []

  -- `new` takes nothing from the build context.
  abbrev pub new : Heap Part → B → SinkOp B Part P S
  new heap builder = record { partitions = []; part_builder = builder; heap = heap; persisted = [] }

  unfoldable pub add_partition : Part → Option S → SinkOp B Part P S → SinkOp B Part P S
  add_partition part part_state o =
      let (builder, partition) = impl.build_part o.part_builder part part_state in
      record o {
        partitions = IndexMap.insert dec part partition o.partitions;
        part_builder = builder;
      }

  -- The message as it was before its partition was assigned.
  abbrev pub unassigned : DataMessage Part (K × V) T → DataMessage K V T
  unassigned d = record { key = d.value.0; value = d.value.1; timestamp = d.timestamp }

  unfoldable pub on_data : DataMessage Part (K × V) T → SinkOp B Part P S → SinkOp B Part P S
  on_data d o = elim (IndexMap.get dec d.key o.partitions) [
    | none ↦
        let (builder, partition) = impl.build_part o.part_builder d.key none in
        record o {
          partitions = IndexMap.insert dec d.key (impl.sink partition (unassigned d)) o.partitions;
          part_builder = builder;
        }
    | some p ↦ record o {
      partitions = IndexMap.modify dec d.key (λ q. impl.sink q (unassigned d)) o.partitions;
    }
  ]

  -- `iter().map(|(k, v)| (k, v.snapshot()))`.
  unfoldable pub snapshot_all : IndexMap Part P → IndexMap Part P × List (Part × S)
  snapshot_all [] = ([], [])
  snapshot_all ((part, partition) ∷ rest) =
      let (partition', s) = impl.snapshot partition in
      let (rest', states) = snapshot_all rest in ((part, partition') ∷ rest', (part, s) ∷ states)

  unfoldable pub on_barrier : OperatorId → Barrier → SinkOp B Part P S → SinkOp B Part P S
  unfolding snapshot_all
  on_barrier operator_id b o =
      let (partitions, state) = snapshot_all o.partitions in
      record o { partitions = partitions; persisted = o.persisted ++ (b, operator_id, state) ∷ [] }

  abbrev pub on_interrogate : Interrogate Part → SinkOp B Part P S → SinkOp B Part P S
  on_interrogate i o = record o { heap = add_keys dec i (keys o.partitions) o.heap }

  unfoldable pub on_collect :
      (S → Bytes) → OperatorId → Collect Part → SinkOp B Part P S → SinkOp B Part P S
  on_collect encode operator_id c o = elim (IndexMap.get dec c.key o.partitions) [
    | none ↦ o
    | some partition ↦ record o {
      partitions = IndexMap.swap_remove dec c.key o.partitions;
      heap = add_state encode c operator_id (impl.collect partition) o.heap;
    }
  ]

  unfoldable pub on_acquire :
      (Bytes → S) → OperatorId → Acquire Part → SinkOp B Part P S → SinkOp B Part P S
  unfolding add_partition
  on_acquire decode operator_id a o =
      let (taken, heap) = take_state decode a operator_id o.heap in
      let o' = record o { heap = heap } in
      elim taken [ none ↦ o' | some (part, s) ↦ add_partition part (some s) o' ]

  -- `impl LogicWrapper`: nothing is ever sent.
  abbrev pub logic :
      {VO TO : Type 0}
      → (S → Bytes)
      → (Bytes → S)
      → OperatorId
      → LogicWrapper (SinkOp B Part P S) Part (K × V) T VO TO
  logic encode decode operator_id = record {
    on_schedule = λ o. ok (o, []);
    on_data = λ d o. ok (on_data d o, []);
    on_epoch = ignore;
    on_barrier = λ b o. ok (on_barrier operator_id b o, []);
    on_rescale = ignore;
    on_suspend = ignore;
    on_interrogate = λ i o. ok (on_interrogate i o, []);
    on_collect = λ c o. ok (on_collect encode operator_id c o, []);
    on_acquire = λ a o. ok (on_acquire decode operator_id a o, []);
  }
