-- ===== src/Types/Time.antt =====
-- malstrom-core/src/types/time.rs: what a stream needs of its timestamps.
use malstrom.Base.{ℕ, min, Bool, true, false, ◌≡◌, refl, Option, some, ltb, arith}

-- `MaybeTime`: `try_merge`, and `<` of its supertrait `PartialOrd` as a test.
pub record MaybeTime (T : Type 0) : Type 0 where
  pub try_merge : T → T → Option T
  pub lt : T → T → Bool

-- `impl MaybeTime for NoTime`: times merge, and none is below another.
pub data NoTime : Type 0 where
  no_time : NoTime

instance abbrev pub no_time_maybe_time : MaybeTime NoTime
no_time_maybe_time = record { try_merge = λ _ _. some no_time; lt = λ _ _. false }

-- `timestamp_impl!` for the unsigned types: `merge` is the minimum.
instance abbrev pub nat_maybe_time : MaybeTime ℕ
nat_maybe_time = record { try_merge = λ a b. some (min a b); lt = ltb }

-- What `Timestamp` documents: a linear order, with the lowest common timestamp as the merge.
-- `a` is not above `b` when `lt b a` is false.
pub record IsTimestamp {T : Type 0} (t : MaybeTime T) : Type 0 where
  pub lt_irrefl : (a : T) → t.lt a a ≡ false
  pub lt_asymm : (a b : T) → t.lt a b ≡ true → t.lt b a ≡ false
  pub not-lt_trans : (a b c : T) → t.lt b a ≡ false → t.lt c b ≡ false → t.lt c a ≡ false
  pub merge : T → T → T
  pub try_merge_total : (a b : T) → t.try_merge a b ≡ some (merge a b)
  pub merge_left : (a b : T) → t.lt a (merge a b) ≡ false
  pub merge_right : (a b : T) → t.lt b (merge a b) ≡ false
  pub merge_greatest :
      (a b c : T) → t.lt a c ≡ false → t.lt b c ≡ false → t.lt (merge a b) c ≡ false

-- The unsigned timestamps meet it.
pub nat-IsTimestamp : IsTimestamp nat_maybe_time
nat-IsTimestamp = record {
  lt_irrefl = λ a. ground arith;
  lt_asymm = λ a b h. ground arith;
  not-lt_trans = λ a b c h k. ground arith;
  merge = min;
  try_merge_total = λ a b. refl;
  merge_left = λ a b. ground arith;
  merge_right = λ a b. ground arith;
  merge_greatest = λ a b c h k. ground arith;
}
