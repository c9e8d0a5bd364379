-- ===== src/Examples/States.antt =====
-- Examples for the operators with a state per key, and for those that assign times.
use malstrom.Base.{
  ℕ, ◌+◌, Bool, false, Option, none, some, List, [], ◌∷◌, map, ◌≡◌, refl, arith, ltb, leb, ◌==◌,
  if◌then◌else◌, ◌≤◌, min,
}
use native.Mathlib.Decide.{ℕ_discrete}
use malstrom.Base.IndexMap
use malstrom.Types.{Message, DataMessage, data_record, epoch, collect}
use malstrom.Types.Time.{nat_maybe_time}
use malstrom.Operators.StatefulOp.{OpState}
use malstrom.Operators.StatefulMap.{mapper_logic, ttl_logic, handle_each}
use malstrom.Operators.StatefulMap.Records.{of_key}
use malstrom.Operators.StatefulMap.ByKey.{follow, keeping_nothing, stateful_map-by_key}
use malstrom.Operators.StatefulMap.Expiry.{IsExpiry, remaining, ttl_map-epochs}
use malstrom.Types.Time.{MaybeTime, IsTimestamp}
use malstrom.Operators.GenerateEpochs.{handle_messages}
use malstrom.Operators.AssignTimestamps.{assign_all}
use malstrom.Operators.AssignTimestamps.Ends.{OnlyLate, assign_all-OnlyLate}
use malstrom.Examples.{no_heap}

-- The mapper of the example in the documentation: it adds up what it sees.
abbrev add_up : ℕ → ℕ → ℕ → ℕ × Option ℕ
add_up k value state = (state + value, some (state + value))

abbrev number : ℕ → ℕ → Message ℕ ℕ ℕ
number k v = data_record (record { key = k; value = v; timestamp = v })

-- Two keys, and a third whose state leaves.
abbrev numbers : List (Message ℕ ℕ ℕ)
numbers =
    number 1 4
    ∷ number 2 5
    ∷ epoch 5
    ∷ number 1 6
    ∷ collect (record { key = 3; collection = 0 })
    ∷ number 1 7
    ∷ []

abbrev to_bytes : ℕ → List ℕ
to_bytes n = n ∷ []

abbrev from_bytes : List ℕ → ℕ
from_bytes [] = 0
from_bytes (n ∷ ns) = n

abbrev three_sums : OpState ℕ ℕ ℕ
three_sums = record { logic = 0; state = (3, 8) ∷ (1, 10) ∷ []; heap = no_heap; persisted = [] }

stateful_map-by_key_example :
    (
      of_key ℕ_discrete 1
          (handle_each ℕ_discrete 0 to_bytes from_bytes
            (mapper_logic (keeping_nothing add_up))
            5
            numbers
            three_sums).0,
      IndexMap.get ℕ_discrete 1
          (handle_each ℕ_discrete 0 to_bytes from_bytes
            (mapper_logic (keeping_nothing add_up))
            5
            numbers
            three_sums).1.state,
    )
    ≡ follow 0 add_up (of_key ℕ_discrete 1 numbers) (IndexMap.get ℕ_discrete 1 three_sums.state)
unfolding IndexMap.get ℕ_discrete
stateful_map-by_key_example =
    stateful_map-by_key ℕ_discrete 0 to_bytes from_bytes 5 add_up 1 numbers three_sums
      (refl, (refl, tt)) ((λ e. cc), tt)

-- A map with at most one entry, as the time when that expires, or 0.
abbrev expire_one : ℕ → ℕ → ℕ
expire_one e v = if leb v e then 0 else v

abbrev is_none_left : ℕ → Bool
is_none_left v = v == 0

expire_one-IsExpiry : IsExpiry expire_one is_none_left
expire_one-IsExpiry = record {
  absorbs = λ d e v below. ground arith;
  stays_empty = λ e v empty. ground arith;
}

abbrev count_seen : ℕ → ℕ → ℕ → ℕ → ℕ → ℕ × ℕ × Option ℕ
count_seen l k value time state = (l + 1, value, some (time + 10))

ttl_map-epochs_example :
    ((handle_each ℕ_discrete 0 to_bytes from_bytes
        (ttl_logic expire_one is_none_left count_seen)
        5
        (map epoch (3 ∷ 6 ∷ 8 ∷ []))
        three_sums).0
      ≡ map epoch (3 ∷ 6 ∷ 8 ∷ []))
    × (IndexMap.get ℕ_discrete 3
          (handle_each ℕ_discrete 0 to_bytes from_bytes
            (ttl_logic expire_one is_none_left count_seen)
            5
            (map epoch (3 ∷ 6 ∷ 8 ∷ []))
            three_sums).1.state
        ≡ remaining expire_one is_none_left 8 (IndexMap.get ℕ_discrete 3 three_sums.state))
unfolding IndexMap.get ℕ_discrete
ttl_map-epochs_example =
    ttl_map-epochs expire_one is_none_left ℕ_discrete 0 to_bytes from_bytes 5 count_seen 3
      (3 ∷ 6 ∷ []) 8 three_sums expire_one-IsExpiry (refl, (refl, tt)) (refl, (refl, tt))

-- The timestamps of type u8, with their greatest value.
record U8 : Type 0 where
  value : ℕ
  bound : value ≤ 255

merged : (a b : U8) → min a.value b.value ≤ 255
merged a b = ground (arith, a.bound, b.bound)

abbrev lower : U8 → U8 → U8
lower a b = record { value = min a.value b.value; bound = merged a b }

abbrev u8_maybe_time : MaybeTime U8
u8_maybe_time = record { try_merge = λ a b. some (lower a b); lt = λ a b. ltb a.value b.value }

u8-IsTimestamp : IsTimestamp u8_maybe_time
u8-IsTimestamp = record {
  lt_irrefl = λ a. ground arith;
  lt_asymm = λ a b h. ground arith;
  not-lt_trans = λ a b c h k. ground arith;
  merge = lower;
  try_merge_total = λ a b. refl;
  merge_left = λ a b. ground arith;
  merge_right = λ a b. ground arith;
  merge_greatest = λ a b c h k. ground arith;
}

abbrev u8 : (n : ℕ) → n ≤ 255 → U8
u8 n h = record { value = n; bound = h }

max_bound : 255 ≤ 255
max_bound = ground arith

seven_bound : 7 ≤ 255
seven_bound = ground arith

greatest_u8 : (x : U8) → ltb 255 x.value ≡ false
greatest_u8 x = ground (arith, x.bound)

-- The assigner counts, and the generator sends every time as an epoch.
abbrev count_up : U8 → DataMessage ℕ ℕ ℕ → U8 × U8
count_up n d = (n, n)

abbrev each_time : ℕ → DataMessage ℕ ℕ U8 → Option U8 → ℕ × Option U8
each_time l d prev = (l, some d.timestamp)

abbrev is_ten : ℕ → Bool
is_ten n = n == 10

assign_all-OnlyLate_example :
    let (m', sent) =
      assign_all count_up is_ten
        (u8 255 max_bound)
        (number 1 4 ∷ epoch 5 ∷ epoch 10 ∷ [])
        (u8 7 seven_bound) in
    OnlyLate
      (handle_messages ⦃t = u8_maybe_time⦄ each_time 5
        (assign_all count_up is_ten (u8 255 max_bound) (number 2 6 ∷ epoch 10 ∷ []) m').1
        (handle_messages ⦃t = u8_maybe_time⦄ each_time 5 sent
          (record { generator = 0; prev_epoch = none; persisted = [] })).1).0
assign_all-OnlyLate_example =
    assign_all-OnlyLate ⦃t = u8_maybe_time⦄ count_up is_ten (u8 255 max_bound) each_time 5
      (number 1 4 ∷ epoch 5 ∷ []) 10 (number 2 6 ∷ epoch 10 ∷ []) (u8 7 seven_bound)
      (record { generator = 0; prev_epoch = none; persisted = [] }) u8-IsTimestamp greatest_u8 refl
