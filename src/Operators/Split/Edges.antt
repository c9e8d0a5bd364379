-- ===== src/Operators/Split/Edges.antt =====
-- malstrom-core/src/operators/time/util.rs: what the two edges of `split_mixed_stream` get, and what the
-- mappers behind them make of it.
use malstrom.Base.{
  Bool, true, Option, List, [], ◌∷◌, ◌++◌, append_assoc, append-nil, ok, ◌≡◌, refl, ap, ◌∙◌,
}
use malstrom.Types.{
  Message, data_record, epoch, abs_barrier, rescale, suspend_marker, interrogate, collect, acquire,
}
use malstrom.Types.Time.{MaybeTime}
use malstrom.Channels.Spsc
use malstrom.Channels.Spsc.{SharedInner}
use malstrom.Channels.Output
use malstrom.Channels.Output.{release, Output, send_all, deliver, raise}
use malstrom.Operators.GenerateEpochs.{OnTimeLate, on_time, late}
use malstrom.Operators.Split.{by_lateness, expect_on_time, expect_late, try_map_all}

module _ {K V T : Type 0} where
  -- The records that are on time, and those that are late, each with all other messages.
  abbrev pub on_time_of : List (Message K (OnTimeLate V) T) → List (Message K V T)
  on_time_of [] = []
  on_time_of (data_record d ∷ ms) = elim d.value [
    | on_time v ↦
        data_record (record { key = d.key; value = v; timestamp = d.timestamp }) ∷ on_time_of ms
    | late v ↦ on_time_of ms
  ]
  on_time_of (epoch e ∷ ms) = epoch e ∷ on_time_of ms
  on_time_of (abs_barrier x ∷ ms) = abs_barrier x ∷ on_time_of ms
  on_time_of (rescale x ∷ ms) = rescale x ∷ on_time_of ms
  on_time_of (suspend_marker x ∷ ms) = suspend_marker x ∷ on_time_of ms
  on_time_of (interrogate x ∷ ms) = interrogate x ∷ on_time_of ms
  on_time_of (collect x ∷ ms) = collect x ∷ on_time_of ms
  on_time_of (acquire x ∷ ms) = acquire x ∷ on_time_of ms

  abbrev pub late_of : List (Message K (OnTimeLate V) T) → List (Message K V T)
  late_of [] = []
  late_of (data_record d ∷ ms) = elim d.value [
    | on_time v ↦ late_of ms
    | late v ↦ data_record (record { key = d.key; value = v; timestamp = d.timestamp }) ∷ late_of ms
  ]
  late_of (epoch e ∷ ms) = epoch e ∷ late_of ms
  late_of (abs_barrier x ∷ ms) = abs_barrier x ∷ late_of ms
  late_of (rescale x ∷ ms) = rescale x ∷ late_of ms
  late_of (suspend_marker x ∷ ms) = suspend_marker x ∷ late_of ms
  late_of (interrogate x ∷ ms) = interrogate x ∷ late_of ms
  late_of (collect x ∷ ms) = collect x ∷ late_of ms
  late_of (acquire x ∷ ms) = acquire x ∷ late_of ms

  -- What the two edges get.
  abbrev pub first_edge : List (Message K (OnTimeLate V) T) → List (Message K (OnTimeLate V) T)
  first_edge [] = []
  first_edge (data_record d ∷ ms) = elim d.value [
    | on_time v ↦ data_record d ∷ first_edge ms
    | late v ↦ first_edge ms
  ]
  first_edge (m ∷ ms) = m ∷ first_edge ms

  abbrev pub second_edge : List (Message K (OnTimeLate V) T) → List (Message K (OnTimeLate V) T)
  second_edge [] = []
  second_edge (data_record d ∷ ms) = elim d.value [
    | on_time v ↦ second_edge ms
    | late v ↦ data_record d ∷ second_edge ms
  ]
  second_edge (m ∷ ms) = m ∷ second_edge ms

  abbrev pub holding : List (Message K (OnTimeLate V) T) → SharedInner (Message K (OnTimeLate V) T)
  holding q = record { buffer = q; has_receiver = true }

  abbrev pub two_edges :
      List (Message K (OnTimeLate V) T)
      → List (Message K (OnTimeLate V) T)
      → Option T
      → Bool
      → Output K (OnTimeLate V) T
  two_edges q r f b = record {
    senders = holding q ∷ holding r ∷ [];
    partitioner = by_lateness;
    frontier = f;
    suspended = b;
  }

  mapped_on_time_at :
      (k : K) (w : OnTimeLate V) (ts : T) (ms : List (Message K (OnTimeLate V) T))
      → try_map_all expect_on_time (first_edge ms) ≡ ok (on_time_of ms)
      → try_map_all expect_on_time
          (first_edge (data_record (record { key = k; value = w; timestamp = ts }) ∷ ms))
        ≡ ok (on_time_of (data_record (record { key = k; value = w; timestamp = ts }) ∷ ms))
  unfolding try_map_all
  mapped_on_time_at k (on_time v) ts ms h = rw h refl
  mapped_on_time_at k (late v) ts ms h = h

  -- The mappers behind the edges do not panic, and unwrap what the edges hold.
  pub mapped_on_time :
      (ms : List (Message K (OnTimeLate V) T))
      → try_map_all expect_on_time (first_edge ms) ≡ ok (on_time_of ms)
  unfolding try_map_all
  mapped_on_time [] = refl
  mapped_on_time (data_record d ∷ ms) =
      mapped_on_time_at d.key d.value d.timestamp ms (mapped_on_time ms)
  mapped_on_time (epoch x ∷ ms) = rw (mapped_on_time ms) refl
  mapped_on_time (abs_barrier x ∷ ms) = rw (mapped_on_time ms) refl
  mapped_on_time (rescale x ∷ ms) = rw (mapped_on_time ms) refl
  mapped_on_time (interrogate x ∷ ms) = rw (mapped_on_time ms) refl
  mapped_on_time (collect x ∷ ms) = rw (mapped_on_time ms) refl
  mapped_on_time (acquire x ∷ ms) = rw (mapped_on_time ms) refl
  mapped_on_time (suspend_marker x ∷ ms) = rw (mapped_on_time ms) refl

  mapped_late_at :
      (k : K) (w : OnTimeLate V) (ts : T) (ms : List (Message K (OnTimeLate V) T))
      → try_map_all expect_late (second_edge ms) ≡ ok (late_of ms)
      → try_map_all expect_late
          (second_edge (data_record (record { key = k; value = w; timestamp = ts }) ∷ ms))
        ≡ ok (late_of (data_record (record { key = k; value = w; timestamp = ts }) ∷ ms))
  unfolding try_map_all
  mapped_late_at k (on_time v) ts ms h = h
  mapped_late_at k (late v) ts ms h = rw h refl

  pub mapped_late :
      (ms : List (Message K (OnTimeLate V) T))
      → try_map_all expect_late (second_edge ms) ≡ ok (late_of ms)
  unfolding try_map_all
  mapped_late [] = refl
  mapped_late (data_record d ∷ ms) = mapped_late_at d.key d.value d.timestamp ms (mapped_late ms)
  mapped_late (epoch x ∷ ms) = rw (mapped_late ms) refl
  mapped_late (abs_barrier x ∷ ms) = rw (mapped_late ms) refl
  mapped_late (rescale x ∷ ms) = rw (mapped_late ms) refl
  mapped_late (interrogate x ∷ ms) = rw (mapped_late ms) refl
  mapped_late (collect x ∷ ms) = rw (mapped_late ms) refl
  mapped_late (acquire x ∷ ms) = rw (mapped_late ms) refl
  mapped_late (suspend_marker x ∷ ms) = rw (mapped_late ms) refl

  module _ ⦃t : MaybeTime T⦄ where
    -- From a start with the contents `q` and `r`, the messages get to the edges.
    unfoldable pub Sent :
        List (Message K (OnTimeLate V) T)
        → List (Message K (OnTimeLate V) T)
        → List (Message K (OnTimeLate V) T)
        → Output K (OnTimeLate V) T
        → Type 0
    Sent ms q r start =
        (o : Output K (OnTimeLate V) T) × (send_all release start ms ≡ ok o)
        × (o.senders ≡ holding (q ++ first_edge ms) ∷ holding (r ++ second_edge ms) ∷ [])

    appended :
        (m : Message K (OnTimeLate V) T) (q r x y : List (Message K (OnTimeLate V) T))
        → holding ((q ++ m ∷ []) ++ x) ∷ holding ((r ++ m ∷ []) ++ y) ∷ []
          ≡ holding (q ++ m ∷ x) ∷ holding (r ++ m ∷ y) ∷ []
    appended m q r x y = simp (append_assoc)

    send_record-edges :
        (k : K) (w : OnTimeLate V) (ts : T) (ms q r : List (Message K (OnTimeLate V) T))
        (f : Option T) (b : Bool)
        → ((q r : List (Message K (OnTimeLate V) T)) → Sent ms q r (two_edges q r f b))
        → Sent
            (data_record (record { key = k; value = w; timestamp = ts }) ∷ ms)
            q
            r
            (two_edges q r f b)
    unfolding Sent send_all Output.send Output.forward deliver Spsc.send
    send_record-edges k (on_time v) ts ms q r f b h =
        let m = data_record (record { key = k; value = on_time v; timestamp = ts }) in
        let (o, sent, held) = h (q ++ m ∷ []) r in
        (
          o,
          sent,
          held
              ∙ ap (λ x. holding x ∷ holding (r ++ second_edge ms) ∷ [])
                  (append_assoc q (m ∷ []) (first_edge ms)),
        )
    send_record-edges k (late v) ts ms q r f b h =
        let m = data_record (record { key = k; value = late v; timestamp = ts }) in
        let (o, sent, held) = h q (r ++ m ∷ []) in
        (
          o,
          sent,
          held
              ∙ ap (λ x. holding (q ++ first_edge ms) ∷ holding x ∷ [])
                  (append_assoc r (m ∷ []) (second_edge ms)),
        )

    pub send_all-edges :
        (ms q r : List (Message K (OnTimeLate V) T)) (f : Option T) (b : Bool)
        → Sent ms q r (two_edges q r f b)
    unfolding Sent send_all Output.send Output.forward deliver Spsc.send
    send_all-edges [] q r f b =
        (two_edges q r f b, refl, rw (append-nil q) (rw (append-nil r) refl))
    send_all-edges (data_record d ∷ ms) q r f b =
        send_record-edges d.key d.value d.timestamp ms q r f b (λ q r. send_all-edges ms q r f b)
    send_all-edges (epoch e ∷ ms) q r f b =
        let (o, sent, held) =
          send_all-edges ms (q ++ epoch e ∷ []) (r ++ epoch e ∷ []) (raise e f) b in
        (o, sent, held ∙ appended (epoch e) q r (first_edge ms) (second_edge ms))
    send_all-edges (suspend_marker m ∷ ms) q r f b =
        let (o, sent, held) =
          send_all-edges ms (q ++ suspend_marker m ∷ []) (r ++ suspend_marker m ∷ []) f true in
        (o, sent, held ∙ appended (suspend_marker m) q r (first_edge ms) (second_edge ms))
    send_all-edges (abs_barrier x ∷ ms) q r f b =
        let (o, sent, held) =
          send_all-edges ms (q ++ abs_barrier x ∷ []) (r ++ abs_barrier x ∷ []) f b in
        (o, sent, held ∙ appended (abs_barrier x) q r (first_edge ms) (second_edge ms))
    send_all-edges (rescale x ∷ ms) q r f b =
        let (o, sent, held) = send_all-edges ms (q ++ rescale x ∷ []) (r ++ rescale x ∷ []) f b in
        (o, sent, held ∙ appended (rescale x) q r (first_edge ms) (second_edge ms))
    send_all-edges (interrogate x ∷ ms) q r f b =
        let (o, sent, held) =
          send_all-edges ms (q ++ interrogate x ∷ []) (r ++ interrogate x ∷ []) f b in
        (o, sent, held ∙ appended (interrogate x) q r (first_edge ms) (second_edge ms))
    send_all-edges (collect x ∷ ms) q r f b =
        let (o, sent, held) = send_all-edges ms (q ++ collect x ∷ []) (r ++ collect x ∷ []) f b in
        (o, sent, held ∙ appended (collect x) q r (first_edge ms) (second_edge ms))
    send_all-edges (acquire x ∷ ms) q r f b =
        let (o, sent, held) = send_all-edges ms (q ++ acquire x ∷ []) (r ++ acquire x ∷ []) f b in
        (o, sent, held ∙ appended (acquire x) q r (first_edge ms) (second_edge ms))
