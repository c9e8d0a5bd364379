-- ===== src/Operators/GenerateEpochs.antt =====
-- malstrom-core/src/operators/time/generate_epochs.rs, and `handle_maybe_late_msg` of
-- malstrom-core/src/operators/time/util.rs. The user's generator is a parameter with its own state.
pub mod Timely
use malstrom.Base.{ℕ, Bool, true, false, Option, none, some, List, [], ◌∷◌, ◌++◌, if◌then◌else◌}
use malstrom.Types.{
  OperatorId, DataMessage, Message, Barrier, data_record, epoch, abs_barrier, rescale,
  suspend_marker, interrogate, collect, acquire,
}
use malstrom.Types.Time.{MaybeTime}

pub data OnTimeLate (V : Type 0) : Type 0 where
  on_time : V → OnTimeLate V
  late : V → OnTimeLate V

pub record EpochState (L T : Type 0) : Type 0 where
  pub generator : L
  pub prev_epoch : Option T
  pub persisted : List (Barrier × OperatorId × Option T)

module _ {T : Type 0} ⦃t : MaybeTime T⦄ where
  -- `prev.is_none_or(|prev| *prev < e)`.
  abbrev pub is_below : Option T → T → Bool
  is_below none e = true
  is_below (some prev) e = t.lt prev e

  -- The new `prev_epoch`, and the epoch that is sent if any.
  unfoldable pub next_epoch : Option T → Option T → Option T × Option T
  next_epoch none prev = (prev, none)
  next_epoch (some x) none = (some x, some x)
  next_epoch (some x) (some y) = if t.lt y x then (some x, some x) else (some y, none)

module _ {K V T : Type 0} ⦃t : MaybeTime T⦄ where
  unfoldable pub handle_maybe_late_msg : Option T → DataMessage K V T → Message K (OnTimeLate V) T
  handle_maybe_late_msg prev d = data_record (record {
    key = d.key;
    value = if is_below prev d.timestamp then on_time d.value else late d.value;
    timestamp = d.timestamp;
  })

  abbrev pub sent_epoch : Option T → List (Message K (OnTimeLate V) T)
  sent_epoch none = []
  sent_epoch (some e) = epoch e ∷ []

module _ {L K V T : Type 0} ⦃t : MaybeTime T⦄
    (gen : L → DataMessage K V T → Option T → L × Option T) (operator_id : OperatorId) where
  -- The `match` on a message: what is sent, and the new state.
  unfoldable pub handle_message :
      Message K V T → EpochState L T → List (Message K (OnTimeLate V) T) × EpochState L T
  unfolding next_epoch handle_maybe_late_msg
  handle_message (data_record d) s =
      let (l, new_epoch) = gen s.generator d s.prev_epoch in
      let (prev, sent) = next_epoch new_epoch s.prev_epoch in
      (
        handle_maybe_late_msg s.prev_epoch d ∷ sent_epoch sent,
        record s { generator = l; prev_epoch = prev },
      )
  handle_message (abs_barrier b) s = (
    abs_barrier b ∷ [],
    record s { persisted = s.persisted ++ (b, operator_id, s.prev_epoch) ∷ [] },
  )
  handle_message (epoch e) s =
      if is_below s.prev_epoch e then (epoch e ∷ [], record s { prev_epoch = some e }) else ([], s)
  handle_message (interrogate x) s = (interrogate x ∷ [], s)
  handle_message (collect c) s = (collect c ∷ [], s)
  handle_message (acquire a) s = (acquire a ∷ [], s)
  handle_message (rescale x) s = (rescale x ∷ [], s)
  handle_message (suspend_marker x) s = (suspend_marker x ∷ [], s)

  -- The messages that the operator receives, one in each call of its closure.
  unfoldable pub handle_messages :
      List (Message K V T) → EpochState L T → List (Message K (OnTimeLate V) T) × EpochState L T
  handle_messages [] s = ([], s)
  handle_messages (m ∷ ms) s =
      let (sent, s') = handle_message m s in
      let (more, s'') = handle_messages ms s' in (sent ++ more, s'')
