-- ===== src/Examples/Runtimes.antt =====
-- Examples for the connections of threads.
use malstrom.Base.{ℕ, Option, none, some, List, [], ◌∷◌, ◌++◌, ◌≡◌, ◌≢◌, arith, if◌then◌else◌}
use malstrom.Keyed.Types.{Bytes}
use malstrom.Runtime.Threads.{operator_to_operator, send}
use malstrom.Runtime.Threads.Delivery.{
  Event, connects, sends, receives, run, none_shared, is_other_end, run-delivers,
}

-- A queue as the list of what waits in it.
abbrev push_back : List Bytes → Bytes → List Bytes
push_back q msg = q ++ msg ∷ []

abbrev pop_front : List Bytes → Option Bytes × List Bytes
pop_front [] = (none, [])
pop_front (m ∷ q) = (some m, q)

-- Workers 0 and 2 are connected first, and while 1 has not yet looked for worker 0, that sends.
abbrev earlier : List Event
earlier = connects 2 0 7 ∷ []

abbrev meanwhile : List Event
meanwhile =
    sends (record { sender = 3; receiver = 2 }) (8 ∷ [])
    ∷ connects 0 2 7
    ∷ receives (record { sender = 0; receiver = 1 })
    ∷ []

one_not_zero : ◌≢◌ {A = ℕ} 1 0
one_not_zero e = ground (arith, e)

run-delivers_example :
    let (t, s) =
      operator_to_operator [] 1 0 7
        (run [] push_back pop_front earlier (none_shared [] push_back pop_front)) in
    let (t', s') = operator_to_operator [] 0 1 7 (run [] push_back pop_front meanwhile s) in
    (send push_back pop_front t (9 ∷ []) s').queues t'.receiver ≡ (
      if is_other_end 1 0 7 0 1 7
      then push_back (s'.queues t'.receiver) (9 ∷ [])
      else s'.queues t'.receiver)
run-delivers_example =
    run-delivers [] push_back pop_front earlier meanwhile 1 0 0 1 7 7 (9 ∷ []) one_not_zero
