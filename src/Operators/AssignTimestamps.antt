-- ===== src/Operators/AssignTimestamps.antt =====
-- malstrom-core/src/operators/time/assign_timestamps.rs. The user's assigner is a parameter with its own
-- state, and so are the greatest times of the two streams and the equality of the first.
pub mod Ends
use malstrom.Base.{Bool, List, [], ◌∷◌, ◌++◌, if◌then◌else◌}
use malstrom.Types.{
  DataMessage, Message, data_record, epoch, abs_barrier, rescale, suspend_marker, interrogate,
  collect, acquire,
}

module _ {L K V T TO : Type 0} (assigner : L → DataMessage K V T → L × TO) (is_max : T → Bool)
    (max : TO) where
  -- The `match` on a message: the new state of the assigner, and what is sent.
  unfoldable pub assign : Message K V T → L → L × List (Message K V TO)
  assign (data_record d) l =
      let (l', timestamp) = assigner l d in
      (l', data_record (record { key = d.key; value = d.value; timestamp = timestamp }) ∷ [])
  assign (epoch e) l = (l, if is_max e then epoch max ∷ [] else [])
  assign (interrogate x) l = (l, interrogate x ∷ [])
  assign (collect c) l = (l, collect c ∷ [])
  assign (acquire a) l = (l, acquire a ∷ [])
  assign (abs_barrier b) l = (l, abs_barrier b ∷ [])
  assign (rescale x) l = (l, rescale x ∷ [])
  assign (suspend_marker x) l = (l, suspend_marker x ∷ [])

  -- The messages that the operator receives, one in each call of its closure.
  unfoldable pub assign_all : List (Message K V T) → L → L × List (Message K V TO)
  unfolding assign
  assign_all [] l = (l, [])
  assign_all (m ∷ ms) l =
      let (l', sent) = assign m l in let (l'', more) = assign_all ms l' in (l'', sent ++ more)
