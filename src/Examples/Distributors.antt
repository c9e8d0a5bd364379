-- ===== src/Examples/Distributors.antt =====
-- Examples for the distributor.
use malstrom.Base.{ℕ, true, none, some, [], ◌∷◌, ◌≡◌, inl, inr, refl, ok, arith}
use mathlib.Core.Option
use native.Mathlib.Decide.{ℕ_discrete}
use malstrom.Base.IndexMap
use malstrom.Base.IndexSet
use malstrom.Types.{rescale, epoch}
use malstrom.Types.Time.{nat_maybe_time, nat-IsTimestamp}
use malstrom.Channels.Input
use malstrom.Channels.Input.{Input, find_next, handle_next, recv_aligned}
use malstrom.Channels.Spsc
use malstrom.Types.Merge.{merge_timestamps, merge_from}
use malstrom.Keyed.Router.Lifecycle.{lifecycle}
use malstrom.Keyed.Types.{
  Remotes, World, emits, net_epoch, barrier_marker, net_data, default_remote_state,
}
use malstrom.Keyed.Router.States.{normal, new_normal}
use malstrom.Keyed.Distributor.{
  Distributor, poll, change_remote, try_emit_barrier, try_emit_shutdown,
}
use malstrom.Keyed.Distributor.Messages.{
  handle_epoch, handle_remote_message, settle, handle_all, run, receive_local,
}
use malstrom.Keyed.Distributor.Epochs.{IsAgreed, handle_epoch-IsAgreed}
use malstrom.Keyed.Distributor.Alignment.{
  sent_by, IsPolled, IsBarrierStep, poll-IsPolled, try_emit_barrier-IsBarrierStep,
}
use malstrom.Keyed.Distributor.Pending.{run-pending}
use malstrom.Keyed.Distributor.Targets.{IsPartitioner, IsCovered}
use malstrom.Keyed.Distributor.Targets.Total.{IsReady}
use malstrom.Keyed.Distributor.Targets.Receive.{receiving_total}
use malstrom.Examples.{pick, old_set, message, order, no_world}

-- Worker 1 has sent an epoch and then a barrier, worker 2 a barrier that was read.
abbrev remotes : Remotes ℕ ℕ ℕ
remotes =
    (1, record { inbox = net_epoch 4 ∷ barrier_marker ∷ []; state = default_remote_state })
    ∷ (
      2,
      record {
        inbox = net_data (record { content = message; version = 0 }) ∷ [];
        state = record default_remote_state { is_barred = true; frontier = some 6 };
      },
    )
    ∷ []

abbrev distributor : Distributor ℕ ℕ ℕ
distributor = record {
  router = normal (new_normal old_set 0);
  remotes = remotes;
  local_barrier = some (record { backend = 0 });
  local_shutdown = none;
  local_frontier = some 5;
}

abbrev input : Input ℕ ℕ ℕ
input = record {
  receivers =
      record {
        last_epoch = none;
        receiver = record { buffer = rescale order ∷ []; has_receiver = true };
      }
      ∷ [];
  frontier = none;
}

abbrev input_next : Input ℕ ℕ ℕ
input_next = record {
  receivers = record { last_epoch = none; receiver = Spsc.unbounded } ∷ [];
  frontier = none;
}

remotes-Distinct : IndexMap.Distinct ℕ_discrete remotes
unfolding IndexMap.get ℕ_discrete
remotes-Distinct = (refl, (refl, tt))

handle_epoch-IsAgreed_example : IsAgreed distributor no_world (handle_epoch distributor no_world)
handle_epoch-IsAgreed_example = handle_epoch-IsAgreed nat-IsTimestamp distributor no_world

poll-IsPolled_example :
    IsPolled
      (IndexMap.get ℕ_discrete 1 remotes)
      (IndexMap.get ℕ_discrete 1 (poll remotes).1)
      (sent_by 1 (poll remotes).0)
poll-IsPolled_example = poll-IsPolled 1 remotes remotes-Distinct

try_emit_barrier-IsBarrierStep_example :
    IsBarrierStep distributor no_world
      (try_emit_barrier distributor no_world).0
      (try_emit_barrier distributor no_world).1
try_emit_barrier-IsBarrierStep_example =
    try_emit_barrier-IsBarrierStep distributor no_world remotes-Distinct

-- The epoch is the earliest of 4, 6 and 5.
abbrev told : World ℕ ℕ ℕ
told = record no_world { trace = emits (epoch 4) ∷ [] }

abbrev after_both : Distributor ℕ ℕ ℕ
after_both = record distributor {
  remotes =
      (
        1,
        record {
          inbox = net_epoch 4 ∷ barrier_marker ∷ [];
          state = record default_remote_state { is_barred = true; frontier = some 4 };
        },
      )
      ∷ (
        2,
        record {
          inbox = net_data (record { content = message; version = 0 }) ∷ [];
          state = record default_remote_state { is_barred = true; frontier = some 6 };
        },
      )
      ∷ [];
}

both_handled :
    handle_all ℕ_discrete pick 0 ((1, net_epoch 4) ∷ (1, barrier_marker) ∷ []) distributor no_world
    ≡ ok (after_both, told)
unfolding handle_all handle_remote_message change_remote handle_epoch merge_timestamps merge_from
    Option.bind IndexMap.get IndexMap.modify ℕ_discrete
both_handled = refl

-- A run reads the epoch only.
abbrev after_run : Distributor ℕ ℕ ℕ
after_run = record distributor {
  remotes =
      (
        1,
        record {
          inbox = barrier_marker ∷ [];
          state = record default_remote_state { frontier = some 4 };
        },
      )
      ∷ (
        2,
        record {
          inbox = net_data (record { content = message; version = 0 }) ∷ [];
          state = record default_remote_state { is_barred = true; frontier = some 6 };
        },
      )
      ∷ [];
}

run_step : run ℕ_discrete pick 0 input distributor no_world ≡ ok (after_run, input, told)
unfolding run poll handle_all handle_remote_message change_remote handle_epoch merge_timestamps
    merge_from Option.bind IndexMap.get IndexMap.modify ℕ_discrete receive_local settle
    try_emit_barrier try_emit_shutdown lifecycle
run_step = refl

run-pending_example : input ≡ input
run-pending_example =
    run-pending ℕ_discrete pick 0 (record { backend = 0 }) input input distributor after_run
      no_world told refl run_step

-- Without a barrier the rescale message is read.
abbrev unbarred : Distributor ℕ ℕ ℕ
unbarred = record distributor { local_barrier = none }

input_step : Input.recv input ≡ ok (some (rescale order), input_next)
unfolding Input.recv find_next handle_next Spsc.recv
input_step = refl

unbarred-IsReady : IsReady 0 unbarred
unfolding IsCovered IndexMap.get ℕ_discrete
unbarred-IsReady = record {
  distinct = remotes-Distinct;
  covered = ((λ e. cc), (inl refl, (inr refl, tt)));
}

pick-IsPartitioner : IsPartitioner pick
unfolding IndexSet.contains
pick-IsPartitioner k [] h = absurd (h refl)
pick-IsPartitioner k (w ∷ []) h = ground arith
pick-IsPartitioner k (w ∷ u ∷ ws) h = ground arith

receiving_total_example :
    (d₁ : Distributor ℕ ℕ ℕ) × (w₁ : World ℕ ℕ ℕ) × (handle_all ℕ_discrete pick 0
        (poll remotes).0
        (record unbarred { remotes = (poll remotes).1 })
        no_world
      ≡ ok (d₁, w₁))
    × (d₂ : Distributor ℕ ℕ ℕ) × (i : Input ℕ ℕ ℕ) × (w₂ : World ℕ ℕ ℕ) × (receive_local ℕ_discrete
          pick 0 input d₁ w₁
        ≡ ok (d₂, i, w₂))
    × IsReady 0 d₂
receiving_total_example =
    receiving_total ℕ_discrete pick pick-IsPartitioner 0 input input_next (some (rescale order))
      unbarred no_world unbarred-IsReady input_step (λ e. cc)
