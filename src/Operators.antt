-- ===== src/Operators.antt =====
-- malstrom-core/src/operators: the operators of a stream.
pub mod StatefulOp
pub mod GenerateEpochs
pub mod Stateless
pub mod Split
pub mod StatefulMap
pub mod AssignTimestamps
