-- ===== src/Examples/Sinks.antt =====
-- Examples for stateful sinks.
use malstrom.Base.{ℕ, ◌+◌, none, some, List, [], ◌∷◌}
use malstrom.Base.IndexMap
use malstrom.Types.{Message, data_record, abs_barrier, collect}
use malstrom.Keyed.Types.{Bytes}
use malstrom.Sinks.Stateful.{StatefulSinkImpl, SinkOp}
use malstrom.Examples.{no_heap}

-- A partition of a sink adds up its values.
abbrev adding : StatefulSinkImpl ℕ ℕ ℕ ℕ ℕ ℕ ℕ
adding = record {
  assign_part = λ b d. d.key;
  build_part = λ b part state. (b, elim state [ none ↦ 0 | some n ↦ n ]);
  sink = λ p d. p + d.value;
  snapshot = λ p. (p, p);
  collect = λ p. p;
}

abbrev first_sink : SinkOp ℕ ℕ ℕ ℕ
first_sink = record { partitions = (7, 10) ∷ []; part_builder = 0; heap = no_heap; persisted = [] }

abbrev as_bytes : ℕ → Bytes
as_bytes n = n ∷ []

abbrev of_bytes : Bytes → ℕ
of_bytes [] = 0
of_bytes (n ∷ ns) = n

-- Partition 7 is collected; partition 8 comes with its first record.
abbrev to_sink : List (Message ℕ (ℕ × ℕ) ℕ)
to_sink =
    data_record (record { key = 7; value = (1, 5); timestamp = 0 })
    ∷ abs_barrier (record { backend = 0 })
    ∷ collect (record { key = 7; collection = 0 })
    ∷ data_record (record { key = 8; value = (2, 3); timestamp = 1 })
    ∷ data_record (record { key = 8; value = (2, 4); timestamp = 1 })
    ∷ []
