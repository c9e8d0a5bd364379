-- ===== src/Sinks/Stateless.antt =====
-- malstrom-core/src/sinks/stateless.rs and vec_sink.rs: a sink that takes each record.
use malstrom.Base.{List, [], ◌∷◌, ◌++◌}
use malstrom.Types.{DataMessage, Message, data_record}

module _ {S K V T : Type 0} where
  -- The closure of `consume_stream` on a message. Nothing is sent, and all but records is dropped.
  unfoldable pub consume : (S → DataMessage K V T → S) → Message K V T → S → S
  consume sink (data_record d) s = sink s d
  consume sink m s = s

  unfoldable pub consume_all : (S → DataMessage K V T → S) → List (Message K V T) → S → S
  unfolding consume
  consume_all sink [] s = s
  consume_all sink (m ∷ ms) s = consume_all sink ms (consume sink m s)

-- `VecSink::give`.
abbrev pub give :
    {K V T : Type 0} → List (DataMessage K V T) → DataMessage K V T → List (DataMessage K V T)
give inner value = inner ++ value ∷ []
