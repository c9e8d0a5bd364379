-- ===== src/Sources/Stateful.antt =====
-- malstrom-core/src/sources/stateful.rs: a source of several partitions, each read on one worker. The
-- user's source is a parameter; a marker of a finished partition is the partition's key.
pub mod Marks
pub mod Finish
pub mod Turns
pub mod Runs
pub mod Rescaled
use malstrom.Base.{
  ℕ, ◌+◌, ◌-◌, ◌^◌, Bool, true, false, not, Option, none, some, List, [], ◌∷◌, ◌++◌, map, ◌&&◌,
  if◌then◌else◌, Result, ok, panic, ◌>>=◌, ◌==◌, all, expect, is_some,
}
use malstrom.Base.IndexMap
use malstrom.Base.IndexMap.{IndexMap, keys, values}
use malstrom.Base.IndexSet
use malstrom.Base.IndexSet.{IndexSet}
use malstrom.Types.{
  WorkerId, OperatorId, DataMessage, Message, Barrier, RescaleMessage, SuspendMarker, Interrogate,
  Collect, Acquire, data_record, epoch, abs_barrier, rescale, suspend_marker, interrogate, collect,
  acquire,
}
use malstrom.Types.Time.{NoTime, no_time}
use malstrom.Keyed.Types.{Bytes, Heap, add_keys, add_state, take_state}
use malstrom.Stream.Logic.{LogicWrapper, ignore}
use native.Mathlib.Decide.{ℕ_discrete}

-- `StatefulSourceImpl` with its `StatefulSourcePartition`: `B` builds partitions, `P` is a partition
-- and `S` its state. A method on `&mut self` returns the new object; so does `snapshot`, whose
-- implementations may have interior mutability.
pub record StatefulSourceImpl (B Part P S V T : Type 0) : Type 0 where
  pub list_parts : B → List Part
  pub build_part : B → Part → Option S → Result (B × P)
  pub poll : P → P × Option (V × T)
  pub is_finished : P → P × Bool
  pub snapshot : P → P × S
  pub collect : P → S
  pub suspend : P → P

-- `StatefulSourcePartitionOp`. A client is what it has received and not read. Beside the source's
-- fields: the shared objects of the worker, what was broadcast to the clients and what was persisted.
pub record SourceOp (B Part P S T : Type 0) : Type 0 where
  pub partitions : IndexMap Part P
  pub part_builder : B
  pub all_partitions : IndexMap Part Bool
  pub comm_clients : IndexMap WorkerId (List Part)
  pub max_t : Option T
  pub heap : Heap Part
  pub broadcasts : List (WorkerId × Part)
  pub persisted : List (Barrier × OperatorId × IndexMap Part S)

-- The entries that pass a test, in their order: `IndexMap::retain`.
abbrev pub retain : {K V : Type 0} → (K → Bool) → IndexMap K V → IndexMap K V
retain p [] = []
retain p ((k, v) ∷ m) = let rest = retain p m in if p k then (k, v) ∷ rest else rest

-- `!wid` on a `u64`.
abbrev pub u64_not : ℕ → ℕ
u64_not w = 2 ^ 64 - 1 - w

-- The clients of a built operator: to each other worker.
unfoldable pub create_all_communication_clients :
    {Part : Type 0} → WorkerId → IndexSet WorkerId → IndexMap WorkerId (List Part)
create_all_communication_clients this_worker [] = []
create_all_communication_clients this_worker (wid ∷ wids) =
    let rest = create_all_communication_clients this_worker wids in
    if wid == this_worker then rest else (wid, []) ∷ rest

-- The operator `list-parts`: the first worker sends every part, and then system messages pass.
unfoldable pub initial_parts : {Part : Type 0} → WorkerId → List Part → List Part
initial_parts this_worker parts = if this_worker == 0 then parts else []

abbrev pub part_messages : {Part : Type 0} → List Part → List (Message Part (Unit {0}) NoTime)
part_messages = map (λ part. data_record (record { key = part; value = tt; timestamp = no_time }))

module _ {Part K V T : Type 0} where
  abbrev pub pass_system : Message K V T → Result (List (Message Part (Unit {0}) NoTime))
  pass_system (data_record d) = ok []
  pass_system (epoch e) = ok []
  pass_system (abs_barrier x) = ok (abs_barrier x ∷ [])
  pass_system (rescale x) = ok (rescale x ∷ [])
  pass_system (suspend_marker x) = ok (suspend_marker x ∷ [])
  pass_system (interrogate x) = panic
  pass_system (collect x) = panic
  pass_system (acquire x) = panic

  -- One call: what is sent, and the parts that are left to send.
  unfoldable pub list_parts_turn :
      Option (Message K V T)
      → List Part
      → Result (List (Message Part (Unit {0}) NoTime) × List Part)
  list_parts_turn none inner = ok (part_messages inner, [])
  list_parts_turn (some m) inner = do sent ← pass_system m; ok (part_messages inner ++ sent, [])

module _ {B Part P S V T : Type 0} (dec : Discrete Part)
    (impl : StatefulSourceImpl B Part P S V T) where
  -- `parts.iter().map(|x| (x.clone(), false)).collect()`.
  unfoldable pub unmarked : List Part → IndexMap Part Bool → IndexMap Part Bool
  unmarked [] marks = marks
  unmarked (part ∷ parts) marks = unmarked parts (IndexMap.insert dec part false marks)

  unfoldable pub add_partition :
      Part → Option S → SourceOp B Part P S T → Result (SourceOp B Part P S T)
  add_partition part part_state o = do
    (builder, partition) ← impl.build_part o.part_builder part part_state
    ok (record o {
      partitions = IndexMap.insert dec part partition o.partitions;
      part_builder = builder;
    })

  -- The loop of `new` over the state that was loaded.
  unfoldable pub add_partitions :
      IndexMap Part S → SourceOp B Part P S T → Result (SourceOp B Part P S T)
  unfolding add_partition
  add_partitions [] o = ok o
  add_partitions ((k, v) ∷ m) o = do o' ← add_partition k (some v) o; add_partitions m o'

  -- `new`, from the maximal time and the state that was loaded, if there is one.
  unfoldable pub new :
      T
      → WorkerId
      → IndexSet WorkerId
      → Heap Part
      → B
      → Option (IndexMap Part S)
      → Result (SourceOp B Part P S T)
  unfolding add_partitions create_all_communication_clients unmarked
  new max this_worker workers heap builder loaded =
      let this : SourceOp B Part P S T = record {
        partitions = [];
        part_builder = builder;
        all_partitions = unmarked (impl.list_parts builder) [];
        comm_clients = create_all_communication_clients this_worker workers;
        max_t = some max;
        heap = heap;
        broadcasts = [];
        persisted = [];
      } in
      elim loaded [ none ↦ ok this | some state ↦ add_partitions state this ]

  abbrev pub record_of : Part → Option (V × T) → List (Message Part V T)
  record_of part none = []
  record_of part (some (v, t)) = data_record (record { key = part; value = v; timestamp = t }) ∷ []

  -- The body of the loop over the partitions: the partition, the marks, what is sent, and whether the
  -- partition is reported.
  unfoldable pub poll_one :
      Part
      → P
      → IndexMap Part Bool
      → Result (P × IndexMap Part Bool × List (Message Part V T) × List Part)
  poll_one part partition marks =
      let (polled, out) = impl.poll partition in
      let (asked, finished) = impl.is_finished polled in
      do
        part_state ← expect (IndexMap.get dec part marks)
        if finished && not part_state
            then ok
                (asked, IndexMap.modify dec part (λ _. true) marks, record_of part out, part ∷ [])
            else ok (asked, marks, record_of part out, [])

  unfoldable pub poll_partitions :
      IndexMap Part P
      → IndexMap Part Bool
      → Result (IndexMap Part P × IndexMap Part Bool × List (Message Part V T) × List Part)
  unfolding poll_one
  poll_partitions [] marks = ok ([], marks, [], [])
  poll_partitions ((part, partition) ∷ rest) marks = do
    (partition', marks', sent, reports) ← poll_one part partition marks
    (rest', marks'', more, further) ← poll_partitions rest marks'
    ok ((part, partition') ∷ rest', marks'', sent ++ more, reports ++ further)

  -- `comm_clients.values().flat_map(|x| x.recv())`: one marker from each client that has any.
  unfoldable pub receive_markers :
      IndexMap WorkerId (List Part)
      → IndexMap Part Bool
      → Result (IndexMap WorkerId (List Part) × IndexMap Part Bool)
  receive_markers [] marks = ok ([], marks)
  receive_markers ((wid, []) ∷ rest) marks = do
    (rest', marks') ← receive_markers rest marks
    ok ((wid, []) ∷ rest', marks')
  receive_markers ((wid, part ∷ parts) ∷ rest) marks = do
    known ← expect (IndexMap.get dec part marks)
    (rest', marks') ← receive_markers rest (IndexMap.modify dec part (λ _. true) marks)
    ok ((wid, parts) ∷ rest', marks')

  -- `broadcast` of each report, in their order.
  unfoldable pub broadcast_reports : List WorkerId → List Part → List (WorkerId × Part)
  broadcast_reports wids [] = []
  broadcast_reports wids (part ∷ parts) =
      map (λ wid. (wid, part)) wids ++ broadcast_reports wids parts

  -- `max_t.take_if(..)`: the epoch to send, and what is left.
  unfoldable pub take_max : Option T → IndexMap Part Bool → Option T × List (Message Part V T)
  take_max none marks = (none, [])
  take_max (some t) marks =
      if all (λ b. b) (values marks) then (none, epoch t ∷ []) else (some t, [])

  unfoldable pub on_schedule :
      SourceOp B Part P S T → Result (SourceOp B Part P S T × List (Message Part V T))
  unfolding poll_partitions receive_markers broadcast_reports take_max
  on_schedule o = do
    (partitions, marks, sent, reports) ← poll_partitions o.partitions o.all_partitions
    (clients, marks') ← receive_markers o.comm_clients marks
    let (max_t, last) = take_max o.max_t marks'
    ok (
      record o {
        partitions = partitions;
        all_partitions = marks';
        comm_clients = clients;
        max_t = max_t;
        broadcasts = o.broadcasts ++ broadcast_reports (keys o.comm_clients) reports;
      },
      sent ++ last,
    )

  unfoldable pub on_data :
      DataMessage Part (Unit {0}) NoTime → SourceOp B Part P S T → Result (SourceOp B Part P S T)
  unfolding add_partition
  on_data d o =
      if not (IndexMap.contains_key dec d.key o.partitions)
      then add_partition d.key none o
      else ok o

  -- `iter().map(|(k, v)| (k, v.snapshot()))`.
  unfoldable pub snapshot_all : IndexMap Part P → IndexMap Part P × IndexMap Part S
  snapshot_all [] = ([], [])
  snapshot_all ((part, partition) ∷ rest) =
      let (partition', s) = impl.snapshot partition in
      let (rest', states) = snapshot_all rest in ((part, partition') ∷ rest', (part, s) ∷ states)

  unfoldable pub on_barrier : OperatorId → Barrier → SourceOp B Part P S T → SourceOp B Part P S T
  unfolding snapshot_all
  on_barrier operator_id b o =
      let (partitions, state) = snapshot_all o.partitions in
      record o { partitions = partitions; persisted = o.persisted ++ (b, operator_id, state) ∷ [] }

  -- The loop of `on_rescale` over the new workers. Creating a client to oneself panics.
  unfoldable pub add_clients :
      WorkerId
      → List WorkerId
      → IndexMap WorkerId (List Part)
      → Result (IndexMap WorkerId (List Part))
  add_clients this_worker [] clients = ok clients
  add_clients this_worker (wid ∷ wids) clients =
      let added =
        if wid == this_worker
        then panic
        else add_clients this_worker wids (IndexMap.insert ℕ_discrete wid [] clients) in
      let kept = add_clients this_worker wids clients in
      if not (IndexMap.contains_key ℕ_discrete wid clients) && (u64_not wid == this_worker)
      then added
      else kept

  unfoldable pub on_rescale :
      WorkerId → RescaleMessage → SourceOp B Part P S T → Result (SourceOp B Part P S T)
  unfolding add_clients
  on_rescale this_worker m o = do
    clients ←
        add_clients this_worker m.workers
          (retain (λ wid. IndexSet.contains ℕ_discrete wid m.workers) o.comm_clients)
    ok (record o { comm_clients = clients })

  abbrev pub on_suspend : SourceOp B Part P S T → SourceOp B Part P S T
  on_suspend o = record o { partitions = map (λ e. (e.0, impl.suspend e.1)) o.partitions }

  abbrev pub on_interrogate : Interrogate Part → SourceOp B Part P S T → SourceOp B Part P S T
  on_interrogate i o = record o { heap = add_keys dec i (keys o.partitions) o.heap }

  unfoldable pub on_collect :
      (S → Bytes) → OperatorId → Collect Part → SourceOp B Part P S T → SourceOp B Part P S T
  on_collect encode operator_id c o = elim (IndexMap.get dec c.key o.partitions) [
    | none ↦ o
    | some partition ↦ record o {
      partitions = IndexMap.swap_remove dec c.key o.partitions;
      heap = add_state encode c operator_id (impl.collect partition) o.heap;
    }
  ]

  unfoldable pub on_acquire :
      (Bytes → S)
      → OperatorId
      → Acquire Part
      → SourceOp B Part P S T
      → Result (SourceOp B Part P S T)
  unfolding add_partition
  on_acquire decode operator_id a o =
      let (taken, heap) = take_state decode a operator_id o.heap in
      let o' = record o { heap = heap } in
      elim taken [ none ↦ ok o' | some (part, s) ↦ add_partition part (some s) o' ]

  -- A handler that sends nothing.
  abbrev pub silent :
      Result (SourceOp B Part P S T) → Result (SourceOp B Part P S T × List (Message Part V T))
  silent r = r >>= λ o. ok (o, [])

  -- `impl LogicWrapper`.
  abbrev pub logic :
      (S → Bytes)
      → (Bytes → S)
      → WorkerId
      → OperatorId
      → LogicWrapper (SourceOp B Part P S T) Part (Unit {0}) NoTime V T
  logic encode decode this_worker operator_id = record {
    on_schedule = on_schedule;
    on_data = λ d o. silent (on_data d o);
    on_epoch = ignore;
    on_barrier = λ b o. ok (on_barrier operator_id b o, []);
    on_rescale = λ m o. silent (on_rescale this_worker m o);
    on_suspend = λ m o. ok (on_suspend o, []);
    on_interrogate = λ i o. ok (on_interrogate i o, []);
    on_collect = λ c o. ok (on_collect encode operator_id c o, []);
    on_acquire = λ a o. silent (on_acquire decode operator_id a o);
  }
