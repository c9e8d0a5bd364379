-- ===== src/Sources/Stateless.antt =====
-- malstrom-core/src/sources/stateless.rs: a source whose partitions have no state, as a stateful one.
use malstrom.Base.{Bool, Option, List, Result}
use malstrom.Sources.Stateful.{StatefulSourceImpl}

-- `StatelessSourceImpl` with its `StatelessSourcePartition`.
pub record StatelessSourceImpl (B Part P V T : Type 0) : Type 0 where
  pub list_parts : B → List Part
  pub build_part : B → Part → Result (B × P)
  pub poll : P → P × Option (V × T)
  pub suspend : P → P
  pub is_finished : P → P × Bool

-- `SourceWrapper` and `PartitionWrapper`. A partition that is moved is suspended and forgotten.
abbrev pub source_wrapper :
    {B Part P V T : Type 0}
    → StatelessSourceImpl B Part P V T
    → StatefulSourceImpl B Part P (Unit {0}) V T
source_wrapper s = record {
  list_parts = s.list_parts;
  build_part = λ b part part_state. s.build_part b part;
  poll = s.poll;
  is_finished = s.is_finished;
  snapshot = λ p. (p, tt);
  collect = λ p. tt;
  suspend = s.suspend;
}
