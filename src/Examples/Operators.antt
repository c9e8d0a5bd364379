-- ===== src/Examples/Operators.antt =====
-- Examples for the operators.
use malstrom.Base.{ℕ, ◌+◌, true, false, List, Option, none, some, [], ◌∷◌, ok, ◌≡◌, refl}
use native.Mathlib.Decide.{ℕ_discrete}
use malstrom.Base.IndexMap
use malstrom.Types.{DataMessage, Message, data_record, epoch}
use malstrom.Types.Time.{nat_maybe_time, no_time}
use malstrom.Operators.GenerateEpochs.{handle_messages}
use malstrom.Operators.GenerateEpochs.Timely.{IsTimely, handle_messages-IsTimely}
use malstrom.Keyed.Types.{Bytes, Heap}
use malstrom.Operators.StatefulOp.{StatefulLogic, OpState}
use malstrom.Operators.StatefulOp.Migration.{IsMoved, collect-IsMoved}
use malstrom.Channels.Output.{Output}
use malstrom.Operators.GenerateEpochs.{OnTimeLate}
use malstrom.Operators.Stateless.Pipeline.{
  collected_from, collect_mapped, single_iterator-collected,
}
use malstrom.Operators.Split.{split, by_lateness, expect_on_time, expect_late, try_map_all}
use malstrom.Operators.Split.Edges.{on_time_of, late_of, holding}
use malstrom.Operators.Split.OnTime.{Keeps, split-OnTime}
use malstrom.Sources.Stateful.{new}
use malstrom.Sources.Stateful.Runs.{scheduled}
use malstrom.Sources.Stateless.{source_wrapper}
use malstrom.Sources.SingleIterator.{single_iterator}
use malstrom.Sources.SingleIterator.Sequence.{SingleOp, unit_discrete, idle_turns, run_single}
use malstrom.Examples.{no_heap}

-- The state of a key is the last value, and each message is answered by the one before.
abbrev remember : StatefulLogic ℕ ℕ ℕ ℕ ℕ ℕ
remember = record {
  on_data = λ l msg s. (
    l,
    data_record (record { key = msg.key; value = s; timestamp = msg.timestamp }) ∷ [],
    some msg.value,
  );
  on_epoch = λ l e m. (l, [], m);
  on_schedule = λ l m. (l, [], m);
}

abbrev one_byte : ℕ → Bytes
one_byte n = n ∷ []

abbrev from_byte : Bytes → ℕ
from_byte [] = 0
from_byte (n ∷ ns) = n

abbrev old_worker : OpState ℕ ℕ ℕ
old_worker = record {
  logic = 0;
  state = (1, 7) ∷ (2, 8) ∷ (3, 9) ∷ [];
  heap = record no_heap { collections = record { value = []; strong = 2 } ∷ [] };
  persisted = [];
}

abbrev new_worker : OpState ℕ ℕ ℕ
new_worker = record old_worker { state = (4, 6) ∷ []; heap = no_heap }

collect-IsMoved_example :
    IsMoved ℕ_discrete 0 one_byte from_byte remember 5
      (record { key = 1; collection = 0 })
      7
      old_worker
      new_worker
      (record { value = IndexMap.insert ℕ_discrete 5 (7 ∷ []) []; strong = 2 })
unfolding IndexMap.get ℕ_discrete
collect-IsMoved_example =
    collect-IsMoved ℕ_discrete 0 one_byte from_byte remember 5 (record { key = 1; collection = 0 })
      7 old_worker new_worker (record { value = []; strong = 2 }) (λ x. refl)
      (refl, (refl, (refl, tt))) refl refl

-- Each value is an epoch; the second message is late.
abbrev value_as_epoch : ℕ → DataMessage ℕ ℕ ℕ → Option ℕ → ℕ × Option ℕ
value_as_epoch l d prev = (l, some d.value)

handle_messages-IsTimely_example :
    IsTimely none
      (handle_messages value_as_epoch 5
        (data_record (record { key = 1; value = 4; timestamp = 4 })
          ∷ data_record (record { key = 1; value = 2; timestamp = 3 })
          ∷ epoch 6
          ∷ [])
        (record { generator = 0; prev_epoch = none; persisted = [] })).0
handle_messages-IsTimely_example =
    handle_messages-IsTimely value_as_epoch 5
      (data_record (record { key = 1; value = 4; timestamp = 4 })
        ∷ data_record (record { key = 1; value = 2; timestamp = 3 })
        ∷ epoch 6
        ∷ [])
      (record { generator = 0; prev_epoch = none; persisted = [] })

abbrev mixed_input : List (Message ℕ ℕ ℕ)
mixed_input =
    data_record (record { key = 1; value = 4; timestamp = 4 })
    ∷ data_record (record { key = 1; value = 2; timestamp = 3 })
    ∷ epoch 6
    ∷ []

abbrev mixed_output : List (Message ℕ (OnTimeLate ℕ) ℕ)
mixed_output =
    (handle_messages value_as_epoch 5 mixed_input
      (record { generator = 0; prev_epoch = none; persisted = [] })).0

split-OnTime_example :
    (o : Output ℕ (OnTimeLate ℕ) ℕ) × (q r : List (Message ℕ (OnTimeLate ℕ) ℕ)) × (split by_lateness
        2 mixed_output
      ≡ ok o)
    × (o.senders ≡ holding q ∷ holding r ∷ [])
    × (try_map_all expect_on_time q ≡ ok (on_time_of mixed_output))
    × (try_map_all expect_late r ≡ ok (late_of mixed_output))
    × Keeps true none (on_time_of mixed_output)
    × Keeps false none (late_of mixed_output)
split-OnTime_example =
    split-OnTime value_as_epoch 5 mixed_input
      (record { generator = 0; prev_epoch = none; persisted = [] })

abbrev no_unit_heap : Heap (Unit {0})
no_unit_heap = record { interrogations = []; collections = []; rescales = []; suspends = [] }

abbrev three_five : List ℕ
three_five = 3 ∷ 5 ∷ []

abbrev doubled : ℕ → ℕ
doubled n = n + n

single_iterator-collected_example :
    (o o' : SingleOp ℕ) × (sent : List (Message (Unit {0}) ℕ ℕ)) × (new unit_discrete
        (source_wrapper single_iterator)
        99
        0
        (0 ∷ [])
        no_unit_heap
        (some three_five)
        none
      ≡ ok o)
    × (run_single
          (λ x. [])
          (λ x. tt)
          4
          99
          no_unit_heap
          (scheduled (some (data_record (record { key = tt; value = tt; timestamp = no_time })))
            ∷ idle_turns three_five)
          o
        ≡ ok (o', sent))
    × (collect_mapped doubled sent [] ≡ collected_from doubled 0 three_five)
single_iterator-collected_example =
    single_iterator-collected doubled (λ x. []) (λ x. tt) 4 99 no_unit_heap 3 (5 ∷ [])
