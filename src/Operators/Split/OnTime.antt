-- ===== src/Operators/Split/OnTime.antt =====
-- malstrom-core/src/operators/time/util.rs, `split_mixed_stream` behind the operator of
-- time/generate_epochs.rs: the stream of what is on time and the stream of what is late.
use malstrom.Base.{Bool, true, false, Option, none, some, List, [], ◌∷◌, ok, ◌≡◌}
use malstrom.Types.{
  OperatorId, DataMessage, Message, data_record, epoch, abs_barrier, rescale, suspend_marker,
  interrogate, collect, acquire,
}
use malstrom.Types.Time.{MaybeTime}
use malstrom.Channels.Output.{Output}
use malstrom.Operators.GenerateEpochs.{
  OnTimeLate, on_time, late, EpochState, is_below, handle_messages,
}
use malstrom.Operators.GenerateEpochs.Timely.{IsTimely, handle_messages-IsTimely}
use malstrom.Operators.Split.{split, by_lateness, expect_on_time, expect_late, try_map_all}
use malstrom.Operators.Split.Edges.{
  on_time_of, late_of, holding, first_edge, second_edge, mapped_on_time, mapped_late,
  send_all-edges, Sent,
}

module _ {K V T : Type 0} ⦃t : MaybeTime T⦄ where
  -- Whether each record is above the last epoch before it, is the given answer.
  abbrev pub Keeps : Bool → Option T → List (Message K V T) → Type 0
  Keeps b prev [] = Unit
  Keeps b prev (epoch e ∷ ms) = Keeps b (some e) ms
  Keeps b prev (data_record d ∷ ms) = (is_below prev d.timestamp ≡ b) × Keeps b prev ms
  Keeps b prev (_ ∷ ms) = Keeps b prev ms

  on_time-Keeps :
      (k : K) (w : OnTimeLate V) (ts : T) (ms : List (Message K (OnTimeLate V) T)) (prev : Option T)
      → Keeps true prev (on_time_of ms)
      → IsTimely prev (data_record (record { key = k; value = w; timestamp = ts }) ∷ ms)
      → Keeps true prev
          (on_time_of (data_record (record { key = k; value = w; timestamp = ts }) ∷ ms))
  on_time-Keeps k (on_time v) ts ms prev kept h = (h.0, kept)
  on_time-Keeps k (late v) ts ms prev kept h = kept

  on_time_of-Keeps :
      (ms : List (Message K (OnTimeLate V) T)) (prev : Option T)
      → IsTimely prev ms
      → Keeps true prev (on_time_of ms)
  on_time_of-Keeps [] prev h = tt
  on_time_of-Keeps (data_record d ∷ ms) prev h =
      on_time-Keeps d.key d.value d.timestamp ms prev (on_time_of-Keeps ms prev h.1) h
  on_time_of-Keeps (epoch e ∷ ms) prev h = on_time_of-Keeps ms (some e) h.1
  on_time_of-Keeps (abs_barrier x ∷ ms) prev h = on_time_of-Keeps ms prev h
  on_time_of-Keeps (rescale x ∷ ms) prev h = on_time_of-Keeps ms prev h
  on_time_of-Keeps (interrogate x ∷ ms) prev h = on_time_of-Keeps ms prev h
  on_time_of-Keeps (collect x ∷ ms) prev h = on_time_of-Keeps ms prev h
  on_time_of-Keeps (acquire x ∷ ms) prev h = on_time_of-Keeps ms prev h
  on_time_of-Keeps (suspend_marker x ∷ ms) prev h = on_time_of-Keeps ms prev h

  late-Keeps :
      (k : K) (w : OnTimeLate V) (ts : T) (ms : List (Message K (OnTimeLate V) T)) (prev : Option T)
      → Keeps false prev (late_of ms)
      → IsTimely prev (data_record (record { key = k; value = w; timestamp = ts }) ∷ ms)
      → Keeps false prev
          (late_of (data_record (record { key = k; value = w; timestamp = ts }) ∷ ms))
  late-Keeps k (on_time v) ts ms prev kept h = kept
  late-Keeps k (late v) ts ms prev kept h = (h.0, kept)

  late_of-Keeps :
      (ms : List (Message K (OnTimeLate V) T)) (prev : Option T)
      → IsTimely prev ms
      → Keeps false prev (late_of ms)
  late_of-Keeps [] prev h = tt
  late_of-Keeps (data_record d ∷ ms) prev h =
      late-Keeps d.key d.value d.timestamp ms prev (late_of-Keeps ms prev h.1) h
  late_of-Keeps (epoch e ∷ ms) prev h = late_of-Keeps ms (some e) h.1
  late_of-Keeps (abs_barrier x ∷ ms) prev h = late_of-Keeps ms prev h
  late_of-Keeps (rescale x ∷ ms) prev h = late_of-Keeps ms prev h
  late_of-Keeps (interrogate x ∷ ms) prev h = late_of-Keeps ms prev h
  late_of-Keeps (collect x ∷ ms) prev h = late_of-Keeps ms prev h
  late_of-Keeps (acquire x ∷ ms) prev h = late_of-Keeps ms prev h
  late_of-Keeps (suspend_marker x ∷ ms) prev h = late_of-Keeps ms prev h

module _ {L K V T : Type 0} ⦃t : MaybeTime T⦄
    (gen : L → DataMessage K V T → Option T → L × Option T) (operator_id : OperatorId) where
  -- Behind the operator that generates epochs, the split into what is on time and what is late does
  -- not panic, nor do the mappers behind its two edges. One stream is the records that were on time
  -- and the other those that were late, each with every message that is not a record, in order; each
  -- record of the first is above the last epoch before it, if any, and none of the second is.
  pub split-OnTime :
      (ms : List (Message K V T)) (s : EpochState L T)
      → (o : Output K (OnTimeLate V) T) × (q r : List (Message K (OnTimeLate V) T)) × (split
            by_lateness 2
            (handle_messages gen operator_id ms s).0
          ≡ ok o)
        × (o.senders ≡ holding q ∷ holding r ∷ [])
        × (try_map_all expect_on_time q ≡ ok (on_time_of (handle_messages gen operator_id ms s).0))
        × (try_map_all expect_late r ≡ ok (late_of (handle_messages gen operator_id ms s).0))
        × Keeps true s.prev_epoch (on_time_of (handle_messages gen operator_id ms s).0)
        × Keeps false s.prev_epoch (late_of (handle_messages gen operator_id ms s).0)
  unfolding split Sent
  split-OnTime ms s =
      let mixed = (handle_messages gen operator_id ms s).0 in
      let (o, sent, held) = send_all-edges mixed [] [] none false in
      let timely = handle_messages-IsTimely gen operator_id ms s in
      (
        o,
        first_edge mixed,
        second_edge mixed,
        sent,
        held,
        mapped_on_time mixed,
        mapped_late mixed,
        on_time_of-Keeps mixed s.prev_epoch timely,
        late_of-Keeps mixed s.prev_epoch timely,
      )
