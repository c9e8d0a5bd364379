-- ===== src/Keyed/Rescale/Handover/Keys.antt =====
-- Which keys are handed over: each key of the whitelist, once.
use mathlib.Core.List.{reverse, reverse-append}
use malstrom.Base.{
  Option, none, some, List, [], ◌∷◌, ◌++◌, map, ◌≡◌, refl, sym, ap, ◌∙◌, inl, inr, ok, >>=-eq-ok,
  append_assoc, append-nil, Bool-cases, is_none, ◌&&◌, arith,
}
use malstrom.Base.IndexMap.{IndexMap, keys}
use malstrom.Types.{WorkerId, OperatorId, Version, DataMessage, Collect}
use malstrom.Keyed.Types.{
  Bytes, World, Effect, transmits, Remotes, WorkerPartitioner, net_acquire, net_data, upgrade,
}
use malstrom.Keyed.Router.States.{CollectRouter, MessageRouter, collecting}
use malstrom.Keyed.Router.Lifecycle.{
  lifecycle_collect, finish_collect, conclude_collect, is_empty_set,
}
use malstrom.Keyed.Rescale.Handover.{
  Emitted, idle, next, Finishing, starts, waits, hands, finish-Finishing, handover,
}

abbrev pub collecting_key : {K : Type 0} → Option (Collect K) → List K
collecting_key none = []
collecting_key (some c) = c.key ∷ []

module _ {K V T : Type 0} where
  -- The keys whose state was sent off, in the order of sending.
  abbrev pub acquired : List (Effect K V T) → List K
  acquired [] = []
  acquired (transmits wid (net_acquire a) ∷ es) = a.key ∷ acquired es
  acquired (_ ∷ es) = acquired es

  acquired-append : (es fs : List (Effect K V T)) → acquired (es ++ fs) ≡ acquired es ++ acquired fs
  acquired-append [] fs = refl
  acquired-append (transmits wid (net_acquire a) ∷ es) fs = ap (◌∷◌ a.key) (acquired-append es fs)
  acquired-append (_ ∷ es) fs = acquired-append es fs

  acquired-data :
      (wid : WorkerId) (v : Version) (ms : List (DataMessage K V T))
      → acquired (map (λ m. transmits wid (net_data (record { content = m; version = v }))) ms) ≡ []
  acquired-data wid v [] = refl
  acquired-data wid v (m ∷ ms) = acquired-data wid v ms

  acquired-broadcast :
      (es : List (Effect K V T)) (v : Version) (wids : List WorkerId)
      → acquired (es ++ map (λ wid. transmits wid (upgrade v)) wids) ≡ acquired es
  acquired-broadcast es v [] = rw append-nil
  acquired-broadcast es v (wid ∷ wids) =
      let one : List (Effect K V T) = transmits wid (upgrade v) ∷ [] in
      ap acquired (sym (append_assoc es one _))
      ∙ acquired-broadcast (es ++ one) v wids
      ∙ acquired-append es one
      ∙ append-nil (acquired es)

  -- The keys that a router has yet to hand over, the next one last.
  abbrev pub pending : MessageRouter K V T → List K
  pending (collecting r) = r.whitelist ++ collecting_key r.current_collect
  pending _ = []

  -- All keys of the change: those to come, and those that are gone, the latest first.
  abbrev pub all_keys : MessageRouter K V T → World K V T → List K
  all_keys q w = pending q ++ reverse (acquired w.trace)

  acquired-handover :
      (w between : World K V T) (target : WorkerId) (key : K)
      (collection : IndexMap OperatorId Bytes) (v : Version) (ms : List (DataMessage K V T))
      → between.trace ≡ w.trace ++ handover target key collection v ms
      → reverse (acquired between.trace) ≡ key ∷ reverse (acquired w.trace)
  acquired-handover w between target key collection v ms t =
      rw (t, acquired-append, acquired-data target v ms)
        (reverse-append (acquired w.trace) (key ∷ []))

  Emitted-keys :
      (r r' : CollectRouter K V T) (w w' : World K V T)
      → Emitted r w r' w'
      → all_keys (collecting r') w' ≡ all_keys (collecting r) w
  Emitted-keys r r' w w' (idle e f) = rw (e, f)
  Emitted-keys r r' w w' (next rest c e f g t) =
      let queue : pending (collecting r') ≡ pending (collecting r) =
        cc (append-nil (rest ++ c.key ∷ [])) in
      let gone : acquired w'.trace ≡ acquired w.trace =
        rw (t, acquired-append) (append-nil (acquired w.trace)) in
      cc

module _ {K V T : Type 0} (partitioner : WorkerPartitioner K) where
  finish_collect-keys :
      (r r' : CollectRouter K V T) (remotes : Remotes K V T) (w w' : World K V T)
      → finish_collect partitioner r remotes w ≡ ok (r', w')
      → all_keys (collecting r') w' ≡ all_keys (collecting r) w
  finish_collect-keys r r' remotes w w' h = go (finish-Finishing partitioner r r' remotes w w' h)
    where
      go : Finishing partitioner r w r' w' → all_keys (collecting r') w' ≡ all_keys (collecting r) w
      go (starts e m) = Emitted-keys r r' w w' m
      go (waits c e f same same') = rw (same, same')
      go (hands c collection between e f t m) =
          let gone : reverse (acquired between.trace) ≡ c.key ∷ reverse (acquired w.trace) =
            acquired-handover w between _ c.key collection r.version r.buffered t in
          let queue : pending (collecting r) ≡ r.whitelist ++ c.key ∷ [] = cc in
          Emitted-keys _ r' between w' m
          ∙ cc (
            gone,
            queue,
            append-nil r.whitelist,
            append_assoc r.whitelist (c.key ∷ []) (reverse (acquired w.trace)),
          )

  conclude-keys :
      (r : CollectRouter K V T) (remotes : Remotes K V T) (w : World K V T)
      → (let (q, w') = conclude_collect r remotes w in all_keys q w' ≡ all_keys (collecting r) w)
  unfolding conclude_collect
  conclude-keys r remotes w =
      elim (Bool-cases (is_none r.current_collect && is_empty_set r.whitelist)) [
        | inl h ↦
            let none_left : pending (collecting r) ≡ [] = ground arith in
            rw (h, none_left, acquired-broadcast w.trace r.version (keys remotes)) refl
        | inr h ↦ rw h refl
      ]

  -- A call of `lifecycle` in the `Collect` state that returns loses no key and doubles none:
  -- the keys still to be handed over, followed by the keys handed over so far with the latest
  -- first, are the same list before and after.
  pub lifecycle_collect-keys :
      (r : CollectRouter K V T) (q : MessageRouter K V T) (remotes : Remotes K V T)
      (w w' : World K V T)
      → lifecycle_collect partitioner r remotes w ≡ ok (q, w')
      → all_keys q w' ≡ all_keys (collecting r) w
  unfolding lifecycle_collect
  lifecycle_collect-keys r q remotes w w' h =
      let (step, done, end) = >>=-eq-ok (finish_collect partitioner r remotes w) _ h in
      let last : (q, w') ≡ conclude_collect step.0 remotes step.1 = ground arith in
      ap (λ x. all_keys x.0 x.1) last
      ∙ conclude-keys step.0 remotes step.1
      ∙ finish_collect-keys r step.0 remotes w step.1 done
