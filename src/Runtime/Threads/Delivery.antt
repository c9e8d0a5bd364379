-- ===== src/Runtime/Threads/Delivery.antt =====
-- malstrom-core/src/runtime/threaded/communication.rs: what is sent on a connection gets to its other end.
use malstrom.Base.{
  ℕ, ◌+◌, ◌<◌, min, Bool, Option, some, List, [], ◌∷◌, ◌≡◌, ◌≢◌, ◌⊎◌, inl, inr, sym, ap, ◌∙◌, ◌==◌,
  ◌&&◌, false, Bool-cases, arith, if◌then◌else◌,
}
use Prim.Native.Nat.{max}
use malstrom.Base.IndexMap
use malstrom.Types.{WorkerId, OperatorId}
use malstrom.Keyed.Types.{Bytes}
use malstrom.Runtime.Threads.{
  ConnectionKey, key_discrete, connection_key, ChannelTransport, Shared, transport_pair,
  operator_to_operator, send, recv,
}
use malstrom.Runtime.Threads.Wired.{
  IsWired, IsAt, end_of, same_number, no_entry, operator_to_operator-IsWired,
  operator_to_operator-IsAt,
}

-- What the threads do, in the order in which they get at the shared objects.
pub data Event : Type 0 where
  connects : WorkerId → WorkerId → OperatorId → Event
  sends : ChannelTransport → Bytes → Event
  receives : ChannelTransport → Event

-- The two ends of one connection.
abbrev pub is_other_end : WorkerId → WorkerId → OperatorId → WorkerId → WorkerId → OperatorId → Bool
is_other_end to_worker from_worker operator to' from' operator' =
    (to' == from_worker) && (from' == to_worker) && (operator' == operator)

-- On the channels of one connection, what is sent at an end is received at the other one.
same_connection :
    (to_worker from_worker to' from' : WorkerId) (operator operator' : OperatorId) (n : ℕ)
    → to_worker ≢ from_worker
    → min to_worker from_worker ≡ min to' from'
    → max to_worker from_worker ≡ max to' from'
    → operator ≡ operator'
    → ((end_of to' from' n).receiver == (end_of to_worker from_worker n).sender)
      ≡ is_other_end to_worker from_worker operator to' from' operator'
same_connection to_worker from_worker to' from' operator operator' n other low high op =
    ground (arith, other, low, high, op)

other_channels :
    (to_worker from_worker to' from' n n' : ℕ)
    → (n + 1 < n') ⊎ (n' + 1 < n)
    → ((end_of to' from' n').receiver == (end_of to_worker from_worker n).sender) ≡ false
other_channels to_worker from_worker to' from' n n' h = ground (arith, h)

other_key :
    (to_worker from_worker to' from' : WorkerId) (operator operator' : OperatorId)
    → connection_key to_worker from_worker operator ≢ connection_key to' from' operator'
    → is_other_end to_worker from_worker operator to' from' operator' ≡ false
other_key to_worker from_worker to' from' operator operator' differs =
    elim (Bool-cases (is_other_end to_worker from_worker operator to' from' operator')) [
      | inl e ↦
          let low : min to_worker from_worker ≡ min to' from' = ground (arith, e) in
          let high : max to_worker from_worker ≡ max to' from' = ground (arith, e) in
          let op : operator ≡ operator' = ground (arith, e) in absurd (differs cc)
      | inr e ↦ e
    ]

module _ {Q : Type 0} (unbounded : Q) (push : Q → Bytes → Q) (pop : Q → Option Bytes × Q) where
  unfoldable pub happen : Event → Shared Q → Shared Q
  happen (connects to_worker from_worker operator) s =
      (operator_to_operator unbounded to_worker from_worker operator s).1
  happen (sends t msg) s = send push pop t msg s
  happen (receives t) s = (recv push pop t s).1

  unfoldable pub run : List Event → Shared Q → Shared Q
  run [] s = s
  run (e ∷ es) s = run es (happen e s)

  -- What the threads start with.
  abbrev pub none_shared : Shared Q
  none_shared = record { addresses = []; queues = λ c. unbounded; opened = 0 }

  none_shared-IsWired : IsWired none_shared
  unfolding IndexMap.get
  none_shared-IsWired = record {
    pairs = λ k c h. absurd (no_entry h);
    apart = λ k k' n n' other h h'. absurd (no_entry h);
  }

  happen-IsWired : (e : Event) (s : Shared Q) → IsWired s → IsWired (happen e s)
  unfolding happen send recv
  happen-IsWired (connects to_worker from_worker operator) s w =
      let (n, same, at_, w') =
        operator_to_operator-IsWired unbounded to_worker from_worker operator s w in
      w'
  happen-IsWired (sends t msg) s w = record { pairs = w.pairs; apart = w.apart }
  happen-IsWired (receives t) s w = record { pairs = w.pairs; apart = w.apart }

  run-IsWired : (es : List Event) (s : Shared Q) → IsWired s → IsWired (run es s)
  unfolding run
  run-IsWired [] s w = w
  run-IsWired (e ∷ es) s w = run-IsWired es (happen e s) (happen-IsWired e s w)

  happen-IsAt :
      (k : ConnectionKey) (n : ℕ) (e : Event) (s : Shared Q) → IsAt k n s → IsAt k n (happen e s)
  unfolding happen send recv
  happen-IsAt k n (connects to_worker from_worker operator) s h =
      operator_to_operator-IsAt unbounded k n to_worker from_worker operator s h
  happen-IsAt k n (sends t msg) s h = h
  happen-IsAt k n (receives t) s h = h

  run-IsAt :
      (k : ConnectionKey) (n : ℕ) (es : List Event) (s : Shared Q)
      → IsAt k n s
      → IsAt k n (run es s)
  unfolding run
  run-IsAt k n [] s h = h
  run-IsAt k n (e ∷ es) s h = run-IsAt k n es (happen e s) (happen-IsAt k n e s h)

  sent_on :
      (t t' : ChannelTransport) (msg : Bytes) (s : Shared Q) (b : Bool)
      → (t'.receiver == t.sender) ≡ b
      → (send push pop t msg s).queues t'.receiver
        ≡ (if b then push (s.queues t'.receiver) msg else s.queues t'.receiver)
  unfolding send
  sent_on t t' msg s b e =
      ap (λ x. if x then push (s.queues t'.receiver) msg else s.queues t'.receiver) e

  -- Which of the ends are the two of one connection.
  received_by :
      (to_worker from_worker to' from' : WorkerId) (operator operator' : OperatorId) (n n' : ℕ)
      (s : Shared Q)
      → IsWired s
      → IsAt (connection_key to_worker from_worker operator) n s
      → IsAt (connection_key to' from' operator') n' s
      → to_worker ≢ from_worker
      → ((end_of to' from' n').receiver == (end_of to_worker from_worker n).sender)
        ≡ is_other_end to_worker from_worker operator to' from' operator'
  received_by to_worker from_worker to' from' operator operator' n n' s w at_ at' other =
      elim (key_discrete (connection_key to_worker from_worker operator)
        (connection_key to' from' operator')) [
          | yes same ↦
              let there : some (transport_pair n) ≡ some (transport_pair n') =
                sym at_ ∙ ap (λ k. IndexMap.get key_discrete k s.addresses) same ∙ at' in
              let number = same_number n n' cc in
              rw (sym number) (
                same_connection to_worker from_worker to' from' operator operator' n other
                  (ap (λ k. k.worker_low) same) (ap (λ k. k.worker_high) same)
                  (ap (λ k. k.operator) same))
          | no differs ↦
              other_channels to_worker from_worker to' from' n n' (
                w.apart (connection_key to_worker from_worker operator)
                  (connection_key to' from' operator') n n' differs at_ at')
              ∙ sym (other_key to_worker from_worker to' from' operator operator' differs)
        ]

  -- A message that a thread sends on a connection is put into the queue that the other end of that
  -- connection reads, and into no queue that an end of another connection reads, or the same end: whatever
  -- the threads have done before, and whatever they do, other connections, lookups of this one, messages
  -- sent and received included, between the time when one looks its end up and the time when the other
  -- does. A connection joins two different workers.
  pub run-delivers :
      (before between : List Event) (to_worker from_worker to' from' : WorkerId)
      (operator operator' : OperatorId) (msg : Bytes)
      → to_worker ≢ from_worker
      → let (t, s) =
          operator_to_operator unbounded to_worker from_worker operator (run before none_shared) in
        let (t', s') = operator_to_operator unbounded to' from' operator' (run between s) in
        (send push pop t msg s').queues t'.receiver ≡ (
          if is_other_end to_worker from_worker operator to' from' operator'
          then push (s'.queues t'.receiver) msg
          else s'.queues t'.receiver)
  run-delivers before between to_worker from_worker to' from' operator operator' msg other =
      let start = run before none_shared in
      let (t, s) = operator_to_operator unbounded to_worker from_worker operator start in
      let (t', s') = operator_to_operator unbounded to' from' operator' (run between s) in
      let (n, t_end, at_, w) =
        operator_to_operator-IsWired unbounded to_worker from_worker operator start
          (run-IsWired before none_shared none_shared-IsWired) in
      let (n', t'_end, at', w') =
        operator_to_operator-IsWired unbounded to' from' operator' (run between s)
          (run-IsWired between s w) in
      let key = connection_key to_worker from_worker operator in
      let at_' =
        operator_to_operator-IsAt unbounded key n to' from' operator' (run between s)
          (run-IsAt key n between s at_) in
      sent_on t t' msg s' (is_other_end to_worker from_worker operator to' from' operator') (
        rw t_end (
          rw t'_end (
            received_by to_worker from_worker to' from' operator operator' n n' s' w' at_' at'
              other)))
