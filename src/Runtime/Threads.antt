-- ===== src/Runtime/Threads.antt =====
-- malstrom-core/src/runtime/threaded/communication.rs: connections between the threads of one process.
-- A channel of `flume` is a number, for both its ends and their clones; its queue is a parameter.
pub mod Wired
pub mod Delivery
use malstrom.Base.{
  ℕ, ◌+◌, ◌-◌, ◌^◌, min, Bool, Option, none, some, List, [], ◌∷◌, ◌≡◌, ◌==◌, ltb, if◌then◌else◌,
}
use Prim.Native.Nat.{max}
use native.Mathlib.Decide.{ℕ_discrete}
use malstrom.Base.IndexMap
use malstrom.Base.IndexMap.{IndexMap}
use malstrom.Types.{WorkerId, OperatorId}
use malstrom.Keyed.Types.{Bytes}

pub record ConnectionKey : Type 0 where
  pub worker_low : WorkerId
  pub worker_high : WorkerId
  pub operator : OperatorId

pub key_discrete : Discrete ConnectionKey
key_discrete = hlevel ℕ_discrete

abbrev pub connection_key : WorkerId → WorkerId → OperatorId → ConnectionKey
connection_key a b operator = record {
  worker_low = min a b;
  worker_high = max a b;
  operator = operator;
}

pub record ChannelTransport : Type 0 where
  pub sender : ℕ
  pub receiver : ℕ

pub record ChannelTransportContainer : Type 0 where
  pub to_low : ChannelTransport
  pub to_high : ChannelTransport

-- The map that the threads share, and the queues of the channels that were opened.
pub record Shared (Q : Type 0) : Type 0 where
  pub addresses : IndexMap ConnectionKey ChannelTransportContainer
  pub queues : ℕ → Q
  pub opened : ℕ

abbrev pub at_channel : {Q : Type 0} → ℕ → (Q → Q) → (ℕ → Q) → ℕ → Q
at_channel c f queues i = if i == c then f (queues i) else queues i

-- The pair on the channels `n` and `n + 1`.
abbrev pub transport_pair : ℕ → ChannelTransportContainer
transport_pair n = record {
  to_low = record { sender = n; receiver = n + 1 };
  to_high = record { sender = n + 1; receiver = n };
}

module _ {Q : Type 0} (unbounded : Q) where
  unfoldable pub new_transport_pair : Shared Q → ChannelTransportContainer × Shared Q
  new_transport_pair s = (
    transport_pair s.opened,
    record s {
      queues =
          at_channel (s.opened + 1) (λ q. unbounded)
            (at_channel s.opened (λ q. unbounded) s.queues);
      opened = s.opened + 2;
    },
  )

  -- `entry(key).or_insert_with(new_transport_pair)`, from what the map has for the key.
  unfoldable pub or_insert_pair :
      ConnectionKey
      → Option ChannelTransportContainer
      → Shared Q
      → ChannelTransportContainer × Shared Q
  unfolding new_transport_pair
  or_insert_pair key (some c) s = (c, s)
  or_insert_pair key none s =
      let (c, s') = new_transport_pair s in
      (c, record s' { addresses = IndexMap.insert key_discrete key c s.addresses })

  unfoldable pub operator_to_operator :
      WorkerId → WorkerId → OperatorId → Shared Q → ChannelTransport × Shared Q
  unfolding or_insert_pair
  operator_to_operator to_worker from_worker operator s =
      let key = connection_key to_worker from_worker operator in
      let (c, s') = or_insert_pair key (IndexMap.get key_discrete key s.addresses) s in
      (if ltb to_worker from_worker then c.to_low else c.to_high, s')

-- `WorkerId::MAX`, by which the coordinator goes.
abbrev pub max_worker : WorkerId
max_worker = 2 ^ 64 - 1

module _ {Q : Type 0} (unbounded : Q) where
  abbrev pub worker_to_coordinator : WorkerId → Shared Q → ChannelTransport × Shared Q
  worker_to_coordinator this_worker s = operator_to_operator unbounded max_worker this_worker 0 s

  abbrev pub coordinator_to_worker : WorkerId → Shared Q → ChannelTransport × Shared Q
  coordinator_to_worker worker_id s = operator_to_operator unbounded worker_id max_worker 0 s

module _ {Q : Type 0} (push : Q → Bytes → Q) (pop : Q → Option Bytes × Q) where
  unfoldable pub send : ChannelTransport → Bytes → Shared Q → Shared Q
  send t msg s = record s { queues = at_channel t.sender (λ q. push q msg) s.queues }

  unfoldable pub recv : ChannelTransport → Shared Q → Option Bytes × Shared Q
  recv t s = (
    (pop (s.queues t.receiver)).0,
    record s { queues = at_channel t.receiver (λ q. (pop q).1) s.queues },
  )
