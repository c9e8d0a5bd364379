-- ===== src/Examples/Channels.antt =====
-- Examples for the channels, inputs and outputs.
use mathlib.Core.List.{Memᴰ}
use mathlib.Core.Option
use malstrom.Base.{
  ℕ, suc, true, false, Option, none, some, List, [], ◌∷◌, ◌++◌, ◌≡◌, ◌↔◌, refl, ap, ok, panic, All,
  get_elem?,
}
use malstrom.Types.{Message, data_record, epoch, abs_barrier}
use malstrom.Types.Time.{nat_maybe_time, nat-IsTimestamp}
use malstrom.Types.Merge.{merge_timestamps, merge_from}
use malstrom.Channels.Spsc
use malstrom.Channels.Spsc.{SharedInner}
use malstrom.Channels.Spsc.Fifo.{sends, recvs, run, run-fifo}
use malstrom.Channels.Output
use malstrom.Channels.Output.{Output, debug, full_broadcast}
use malstrom.Channels.Output.Delivery.{KeepsLength, SentWhen, send-SentWhen}
use malstrom.Channels.Output.Frontier.{Reached, send_all-frontier_largest}
use malstrom.Channels.Input
use malstrom.Channels.Input.{
  Input, UpstreamState, is_barrier, drop_heads, find_next, set_epoch, recv_aligned, handle_next,
}
use malstrom.Channels.Input.Outcome.{Outcome, recv-Outcome, all_heads}
use malstrom.Channels.Input.Alignment.{IsMixed, recv_barrier_aligned, recv_blocked, recv-panic_iff}
use malstrom.Channels.Input.Epochs.{IsMerged, recv_epoch-IsMerged, recv_frontier_mono}

abbrev Msg : Type 0
Msg = Message ℕ ℕ ℕ

abbrev item : Msg
item = data_record (record { key = 1; value = 7; timestamp = 3 })

abbrev barrier : Msg
barrier = abs_barrier (record { backend = 0 })

abbrev edge : Option ℕ → List Msg → UpstreamState ℕ ℕ ℕ
edge e ms = record { last_epoch = e; receiver = record { buffer = ms; has_receiver = true } }

abbrev input_of : List (UpstreamState ℕ ℕ ℕ) → Input ℕ ℕ ℕ
input_of us = record { receivers = us; frontier = some 2 }

-- A barrier on the first edge, and a message on the second.
abbrev half_aligned : Input ℕ ℕ ℕ
half_aligned = input_of (edge none (barrier ∷ []) ∷ edge none (item ∷ barrier ∷ []) ∷ [])

abbrev half_aligned_next : Input ℕ ℕ ℕ
half_aligned_next = input_of (edge none (barrier ∷ []) ∷ edge none (barrier ∷ []) ∷ [])

half_aligned_step : Input.recv half_aligned ≡ ok (some item, half_aligned_next)
unfolding Input.recv find_next handle_next Spsc.recv
half_aligned_step = refl

abbrev all_aligned_next : Input ℕ ℕ ℕ
all_aligned_next = input_of (edge none [] ∷ edge none [] ∷ [])

all_aligned_step : Input.recv half_aligned_next ≡ ok (some barrier, all_aligned_next)
unfolding Input.recv find_next handle_next recv_aligned Spsc.recv
all_aligned_step = refl

-- An epoch on the second edge, above that of the first.
abbrev two_epochs : Input ℕ ℕ ℕ
two_epochs = input_of (edge (some 3) [] ∷ edge none (epoch 5 ∷ []) ∷ [])

abbrev two_epochs_next : Input ℕ ℕ ℕ
two_epochs_next = record { receivers = edge (some 3) [] ∷ edge (some 5) [] ∷ []; frontier = some 3 }

two_epochs_step : Input.recv two_epochs ≡ ok (some (epoch 3), two_epochs_next)
unfolding Input.recv find_next handle_next set_epoch Spsc.recv merge_timestamps merge_from
    Option.bind
two_epochs_step = refl

recv-Outcome_example : Outcome half_aligned (Input.recv half_aligned)
recv-Outcome_example = recv-Outcome half_aligned

recv_barrier_aligned_example :
    (all_heads is_barrier half_aligned_next.receivers ≡ true)
    × (all_aligned_next.receivers ≡ drop_heads half_aligned_next.receivers)
recv_barrier_aligned_example =
    recv_barrier_aligned half_aligned_next all_aligned_next (record { backend = 0 })
      all_aligned_step

recv_blocked_example : get_elem? half_aligned_next.receivers 0 ≡ some (edge none (barrier ∷ []))
recv_blocked_example =
    recv_blocked half_aligned half_aligned_next item 0 (edge none (barrier ∷ [])) half_aligned_step
      refl refl refl

recv-panic_iff_example : (Input.recv half_aligned ≡ panic) ↔ IsMixed half_aligned
recv-panic_iff_example = recv-panic_iff half_aligned

recv_epoch-IsMerged_example : IsMerged 3 two_epochs_next.receivers two_epochs_next.frontier
recv_epoch-IsMerged_example =
    recv_epoch-IsMerged nat-IsTimestamp two_epochs two_epochs_next 3 two_epochs_step

recv_frontier_mono_example : Reached two_epochs_next.frontier 2
recv_frontier_mono_example =
    recv_frontier_mono nat-IsTimestamp two_epochs two_epochs_next (some (epoch 3)) 2 two_epochs_step
      refl

run-fifo_example :
    ((run (Spsc.unbounded {A = ℕ}) (sends 4 ∷ recvs ∷ sends 5 ∷ [])).0
        ++ (run Spsc.unbounded (sends 4 ∷ recvs ∷ sends 5 ∷ [])).1.buffer
      ≡ 4 ∷ 5 ∷ [])
    × ((run (Spsc.unbounded {A = ℕ}) (sends 4 ∷ recvs ∷ sends 5 ∷ [])).1.has_receiver ≡ true)
run-fifo_example = run-fifo Spsc.unbounded (sends 4 ∷ recvs ∷ sends 5 ∷ []) refl

abbrev output : Output ℕ ℕ ℕ
output = record (Output.new_unlinked full_broadcast) {
  senders = Spsc.unbounded ∷ Spsc.unbounded ∷ [];
}

broadcast_keeps : KeepsLength (full_broadcast {K = ℕ} {V = ℕ} {T = ℕ})
broadcast_keeps x [] = refl
broadcast_keeps x (b ∷ bs) = ap suc (broadcast_keeps x bs)

send-SentWhen_example : SentWhen false output item (Output.send debug output item)
send-SentWhen_example = send-SentWhen debug output item broadcast_keeps

abbrev output_next : Output ℕ ℕ ℕ
output_next = record output {
  senders =
      record { buffer = epoch 4 ∷ epoch 2 ∷ []; has_receiver = true }
      ∷ record { buffer = epoch 4 ∷ epoch 2 ∷ []; has_receiver = true }
      ∷ [];
  frontier = some 4;
}

output_step : Output.send_all debug output (epoch 4 ∷ epoch 2 ∷ []) ≡ ok output_next
unfolding Output.send_all Output.send Output.forward Spsc.send
output_step = refl

send_all-frontier_largest_example :
    All (Reached output_next.frontier) (4 ∷ 2 ∷ [])
    × Memᴰ output_next.frontier (none ∷ some 4 ∷ some 2 ∷ [])
send_all-frontier_largest_example =
    send_all-frontier_largest nat-IsTimestamp debug output output_next (epoch 4 ∷ epoch 2 ∷ [])
      output_step
