-- ===== src/Types.antt =====
-- malstrom-core/src/types and the message payloads of malstrom-core/src/keyed/distributed/types.rs
-- and malstrom-core/src/snapshot/mod.rs: what moves along the edges of a stream.
pub mod Time
pub mod Merge
use malstrom.Base.{ℕ, Bool, ◌≡◌, Option}
use malstrom.Base.IndexSet.{IndexSet}
use malstrom.Base.Rc.{Handle}

abbrev pub WorkerId : Type 0
WorkerId = ℕ

abbrev pub OperatorId : Type 0
OperatorId = ℕ

-- Configuration versions, u64 in the source; nothing here adds to one.
abbrev pub Version : Type 0
Version = ℕ

pub record DataMessage (K V T : Type 0) : Type 0 where
  pub key : K
  pub value : V
  pub timestamp : T

-- The handles are places in a store of shared values (Base/Rc).
pub record RescaleMessage : Type 0 where
  pub workers : IndexSet WorkerId
  pub version : Version
  pub rc : Handle

pub record SuspendMarker : Type 0 where
  pub rc : Handle

pub record Barrier : Type 0 where
  pub backend : Handle

pub record Interrogate (K : Type 0) : Type 0 where
  pub shared : Handle
  pub tester : K → Bool

pub record Collect (K : Type 0) : Type 0 where
  pub key : K
  pub collection : Handle

pub record Acquire (K : Type 0) : Type 0 where
  pub key : K
  pub collection : Handle

pub data Message (K V T : Type 0) : Type 0 where
  data_record : DataMessage K V T → Message K V T
  epoch : T → Message K V T
  abs_barrier : Barrier → Message K V T
  rescale : RescaleMessage → Message K V T
  suspend_marker : SuspendMarker → Message K V T
  interrogate : Interrogate K → Message K V T
  collect : Collect K → Message K V T
  acquire : Acquire K → Message K V T
