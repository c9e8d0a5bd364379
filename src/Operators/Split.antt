-- ===== src/Operators/Split.antt =====
-- malstrom-core/src/operators/split.rs and cloned.rs, and `split_mixed_stream` of
-- malstrom-core/src/operators/time/util.rs: one stream becomes several. The edges are fresh, and hold what
-- was sent until it is read. The build is one without debug assertions.
pub mod Edges
pub mod OnTime
use malstrom.Base.{
  ℕ, zero, suc, Bool, true, false, Option, none, some, List, [], ◌∷◌, map, Result, ok, panic, ◌>>=◌,
}
use malstrom.Types.{
  DataMessage, Message, data_record, epoch, abs_barrier, rescale, suspend_marker, interrogate,
  collect, acquire,
}
use malstrom.Types.Time.{MaybeTime}
use malstrom.Channels.Spsc.{SharedInner, unbounded}
use malstrom.Channels.Output
use malstrom.Channels.Output.{Output, release, new_unlinked, send_all}
use malstrom.Operators.GenerateEpochs.{OnTimeLate, on_time, late}

-- An edge for each downstream receiver, by `link`.
abbrev pub fresh_edges : {A : Type 0} → ℕ → List (SharedInner A)
fresh_edges zero = []
fresh_edges (suc n) = unbounded ∷ fresh_edges n

-- The output of the operator that `split` makes.
abbrev pub split_output :
    {K V T : Type 0} → (DataMessage K V T → List Bool → List Bool) → ℕ → Output K V T
split_output partitioner outputs = record (new_unlinked partitioner) {
  senders = fresh_edges outputs;
}

-- What the operator sends on: all that it receives.
unfoldable pub split :
    {K V T : Type 0} ⦃t : MaybeTime T⦄
    → (DataMessage K V T → List Bool → List Bool)
    → ℕ
    → List (Message K V T)
    → Result (Output K V T)
split partitioner outputs ms = send_all release (split_output partitioner outputs) ms

-- The partitioner of `cloned`.
abbrev pub fill_true : {K V T : Type 0} → DataMessage K V T → List Bool → List Bool
fill_true d = map (λ b. true)

-- The partitioner of `split_mixed_stream`. A slice shorter than two panics in the source.
abbrev pub by_lateness : {K V T : Type 0} → DataMessage K (OnTimeLate V) T → List Bool → List Bool
by_lateness d [] = []
by_lateness d (a ∷ []) = a ∷ []
by_lateness d (a ∷ b ∷ flags) = elim d.value [
  | on_time v ↦ true ∷ b ∷ flags
  | late v ↦ a ∷ true ∷ flags
]

-- The mappers behind it.
abbrev pub expect_on_time : {V : Type 0} → OnTimeLate V → Result V
expect_on_time (on_time v) = ok v
expect_on_time (late v) = panic

abbrev pub expect_late : {V : Type 0} → OnTimeLate V → Result V
expect_late (on_time v) = panic
expect_late (late v) = ok v

module _ {K V VO T : Type 0} where
  -- `map` with a mapper that may panic, on a message and on a stream.
  abbrev pub try_map : (V → Result VO) → Message K V T → Result (Message K VO T)
  try_map f (data_record d) = do
    v ← f d.value
    ok (data_record (record { key = d.key; value = v; timestamp = d.timestamp }))
  try_map f (epoch e) = ok (epoch e)
  try_map f (abs_barrier x) = ok (abs_barrier x)
  try_map f (rescale x) = ok (rescale x)
  try_map f (suspend_marker x) = ok (suspend_marker x)
  try_map f (interrogate x) = ok (interrogate x)
  try_map f (collect x) = ok (collect x)
  try_map f (acquire x) = ok (acquire x)

  unfoldable pub try_map_all :
      (V → Result VO) → List (Message K V T) → Result (List (Message K VO T))
  try_map_all f [] = ok []
  try_map_all f (m ∷ ms) = do m' ← try_map f m; ms' ← try_map_all f ms; ok (m' ∷ ms')
