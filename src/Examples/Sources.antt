-- ===== src/Examples/Sources.antt =====
-- Examples for stateful sources.
use malstrom.Base.{
  ℕ, zero, suc, Bool, true, false, Option, none, some, List, [], ◌∷◌, ◌≡◌, ok, refl, arith,
}
use native.Mathlib.Decide.{ℕ_discrete}
use malstrom.Base.IndexMap
use malstrom.Base.IndexSet
use malstrom.Types.{Message, data_record, epoch, abs_barrier, RescaleMessage}
use malstrom.Keyed.Types.{Bytes}
use malstrom.Stream.Logic.{turn, dispatch}
use malstrom.Sources.Stateful.{
  StatefulSourceImpl, SourceOp, on_schedule, on_barrier, on_rescale, retain,
}
use malstrom.Sources.Stateful.Marks.{Said, AllDone}
use malstrom.Sources.Stateful.Finish.{IsSource}
use malstrom.Sources.Stateful.Turns.{IsAssigned}
use malstrom.Sources.Stateful.Runs.{Event, arrives, scheduled, run, happen, run-Said}
use malstrom.Sources.Stateful.Rescaled.{on_rescale-clients}
use malstrom.Examples.{no_heap}

-- A partition counts down, and is finished at zero.
abbrev countdown : ℕ → ℕ × Option (ℕ × ℕ)
countdown zero = (0, none)
countdown (suc n) = (n, some (n, n))

abbrev is_zero : ℕ → Bool
is_zero zero = true
is_zero (suc n) = false

abbrev counters : StatefulSourceImpl ℕ ℕ ℕ ℕ ℕ ℕ
counters = record {
  list_parts = λ b. 1 ∷ 2 ∷ [];
  build_part = λ b part state. ok (b, elim state [ none ↦ part | some n ↦ n ]);
  poll = countdown;
  is_finished = λ p. (p, is_zero p);
  snapshot = λ p. (p, p);
  collect = λ p. p;
  suspend = λ p. p;
}

zero_polls : (p : ℕ) → is_zero p ≡ true → (countdown p).1 ≡ none
zero_polls zero h = refl
zero_polls (suc p) h = cc

zero_stays : (p : ℕ) → is_zero p ≡ true → is_zero (countdown p).0 ≡ true
zero_stays zero h = refl
zero_stays (suc p) h = cc

counters-IsSource : IsSource counters
counters-IsSource = record {
  finished_polls = zero_polls;
  finished-poll = zero_stays;
  finished-asked = λ p h. h;
  finished-snapshot = λ p h. h;
  finished-suspend = λ p h. h;
}

-- Partition 1 is here, with two records to read; partition 2 is on worker 1.
abbrev first_source : SourceOp ℕ ℕ ℕ ℕ ℕ
first_source = record {
  partitions = (1, 2) ∷ [];
  part_builder = 0;
  all_partitions = (1, false) ∷ (2, false) ∷ [];
  comm_clients = (1, []) ∷ [];
  max_t = some 99;
  heap = no_heap;
  broadcasts = [];
  persisted = [];
}

abbrev same_bytes : ℕ → Bytes
same_bytes n = n ∷ []

abbrev events : List (Event ℕ)
events =
    scheduled none
    ∷ arrives 1 2
    ∷ scheduled (some (abs_barrier (record { backend = 0 })))
    ∷ scheduled none
    ∷ []

abbrev end_of : SourceOp ℕ ℕ ℕ ℕ ℕ
end_of = record first_source {
  partitions = (1, 0) ∷ [];
  all_partitions = (1, true) ∷ (2, true) ∷ [];
  max_t = none;
  broadcasts = (1, 1) ∷ [];
  persisted = (record { backend = 0 }, 5, (1, 0) ∷ []) ∷ [];
}

abbrev said : List (Message ℕ ℕ ℕ)
said =
    data_record (record { key = 1; value = 1; timestamp = 1 })
    ∷ data_record (record { key = 1; value = 0; timestamp = 0 })
    ∷ epoch 99
    ∷ abs_barrier (record { backend = 0 })
    ∷ []

abbrev from_bytes : Bytes → ℕ
from_bytes [] = 0
from_bytes (n ∷ ns) = n

first_source-IsAssigned : IsAssigned ℕ_discrete counters first_source
unfolding IndexMap.get ℕ_discrete
first_source-IsAssigned = record {
  unique = (tt, tt);
  known = ((λ e. cc), tt);
  foreign = (tt, tt);
  closed = λ e. cc;
}

run-Said_example :
    Said (some 99) none said × (end_of.max_t ≡ none → AllDone ℕ_discrete end_of.all_partitions)
unfolding run happen turn dispatch on_schedule on_barrier IndexMap.get IndexMap.modify ℕ_discrete
run-Said_example =
    run-Said ℕ_discrete counters same_bytes from_bytes 0 5 counters-IsSource events first_source
      end_of said (tt, (((λ e. omega (arith, e)), tt), (tt, (tt, tt)))) first_source-IsAssigned refl

abbrev grown : RescaleMessage
grown = record { workers = 0 ∷ 1 ∷ 2 ∷ []; version = 0; rc = 0 }

on_rescale-clients_example :
    on_rescale ℕ_discrete counters 0 grown first_source
    ≡ ok (record first_source {
      comm_clients =
          retain
            (λ wid. IndexSet.contains ℕ_discrete wid (0 ∷ 1 ∷ 2 ∷ []))
            first_source.comm_clients;
    })
on_rescale-clients_example =
    on_rescale-clients ℕ_discrete counters 0 grown first_source (omega arith) (omega arith)
