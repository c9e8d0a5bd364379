-- ===== src/Operators/StatefulMap/Expiry.antt =====
-- malstrom-core/src/operators/ttl_map.rs: what is left of the states when epochs pass.
use malstrom.Base.{
  Bool, true, Option, none, some, List, [], ◌∷◌, ◌++◌, map, All, ◌≡◌, refl, sym, ap, ◌∙◌, if_pos,
  if_neg, Bool-cases, inl, inr, if◌then◌else◌,
}
use malstrom.Base.IndexMap
use malstrom.Base.IndexMap.{IndexMap}
use malstrom.Types.{OperatorId, Message, epoch}
use malstrom.Types.Time.{MaybeTime}
use malstrom.Keyed.Types.{Bytes}
use malstrom.Operators.StatefulOp.{OpState, handle_message}
use malstrom.Operators.StatefulMap.{ttl_logic, expire_all, retain_mut, handle_each}

-- What is documented of the map of expiring entries: `expire` removes the entries whose expiry is not
-- above the given time, and adds none.
pub record IsExpiry {T M : Type 0} ⦃t : MaybeTime T⦄ (expire : T → M → M) (is_empty : M → Bool)
    : Type 0 where
  pub absorbs : (d e : T) (v : M) → t.lt d e ≡ true → expire e (expire d v) ≡ expire e v
  pub stays_empty : (e : T) (v : M) → is_empty v ≡ true → is_empty (expire e v) ≡ true

-- What is left of the state of a key.
abbrev pub remaining : {T M : Type 0} → (T → M → M) → (M → Bool) → T → Option M → Option M
remaining expire is_empty e none = none
remaining expire is_empty e (some v) = if is_empty (expire e v) then none else some (expire e v)

module _ {K T M : Type 0} ⦃t : MaybeTime T⦄ (expire : T → M → M) (is_empty : M → Bool) where
  expire_all-absorbs :
      (d e : T) (m : IndexMap K M)
      → IsExpiry expire is_empty
      → t.lt d e ≡ true
      → expire_all expire is_empty e (expire_all expire is_empty d m)
        ≡ expire_all expire is_empty e m
  unfolding expire_all retain_mut
  expire_all-absorbs d e [] law below = refl
  expire_all-absorbs d e ((k, v) ∷ m) law below = elim (Bool-cases (is_empty (expire d v))) [
    | inl yes_ ↦ rw yes_ (
        rw (sym (law.absorbs d e v below))
          (rw (law.stays_empty e (expire d v) yes_) (expire_all-absorbs d e m law below)))
    | inr no_ ↦ rw no_ (rw (law.absorbs d e v below) (rw (expire_all-absorbs d e m law below) refl))
  ]

  get-expire_all :
      (dec : Discrete K) (k : K) (e : T) (m : IndexMap K M)
      → IndexMap.Distinct dec m
      → IndexMap.get dec k (expire_all expire is_empty e m)
        ≡ remaining expire is_empty e (IndexMap.get dec k m)
  unfolding expire_all retain_mut IndexMap.get
  get-expire_all dec k e [] d = refl
  get-expire_all dec k e ((j, v) ∷ m) d = elim (dec j k) [
    | yes same ↦
        rw (if_pos (dec j k) same (some v) (IndexMap.get dec k m))
          (elim (Bool-cases (is_empty (expire e v))) [
            | inl yes_ ↦ rw yes_ (
                get-expire_all dec k e m d.1
                ∙ ap (remaining expire is_empty e)
                    (ap (λ x. IndexMap.get dec x m) (sym same) ∙ d.0))
            | inr no_ ↦ rw no_ (if_pos (dec j k) same _ _)
          ])
    | no other ↦
        rw (if_neg (dec j k) other (some v) (IndexMap.get dec k m))
          (elim (Bool-cases (is_empty (expire e v))) [
            | inl yes_ ↦ rw yes_ (get-expire_all dec k e m d.1)
            | inr no_ ↦ rw no_ (if_neg (dec j k) other _ _ ∙ get-expire_all dec k e m d.1)
          ])
  ]

module _ {L K VI VO T M : Type 0} ⦃t : MaybeTime T⦄ (expire : T → M → M) (is_empty : M → Bool)
    (dec : Discrete K) (default : M) (encode : M → Bytes) (decode : Bytes → M)
    (operator_id : OperatorId) (function : L → K → VI → T → M → L × VO × Option M) where
  abbrev ttl_each : List (Message K VI T) → OpState L K M → List (Message K VO T) × OpState L K M
  ttl_each ms o =
      handle_each dec default encode decode (ttl_logic expire is_empty function) operator_id ms o

  -- The last of rising epochs does what all of them do.
  ttl-epochs :
      (ds : List T) (e : T) (o : OpState L K M)
      → IsExpiry expire is_empty
      → All (λ d. t.lt d e ≡ true) ds
      → ((ttl_each (map epoch (ds ++ e ∷ [])) o).0 ≡ map epoch (ds ++ e ∷ []))
        × ((ttl_each (map epoch (ds ++ e ∷ [])) o).1.state ≡ expire_all expire is_empty e o.state)
  unfolding handle_each handle_message
  ttl-epochs [] e o law below = (refl, refl)
  ttl-epochs (d ∷ ds) e o law below =
      let o' = record o { state = expire_all expire is_empty d o.state } in
      let (sent, left) = ttl-epochs ds e o' law below.1 in
      (
        ap (λ l. epoch d ∷ l) sent,
        left ∙ expire_all-absorbs expire is_empty d e o.state law below.0,
      )

  -- When epochs come to an operator of `ttl_map` one after the other, each below the last one, it sends
  -- them on, and what it then holds for a key is what the last epoch alone leaves of the state of the key:
  -- nothing, if the key had no state or all entries are expired, and the entries that are not, otherwise.
  -- Expiring at a later time makes an earlier one redundant, and an empty map stays empty when entries
  -- expire; no key stands twice in the map at the start.
  pub ttl_map-epochs :
      (k : K) (ds : List T) (e : T) (o : OpState L K M)
      → IsExpiry expire is_empty
      → All (λ d. t.lt d e ≡ true) ds
      → IndexMap.Distinct dec o.state
      → ((handle_each dec default encode decode
            (ttl_logic expire is_empty function)
            operator_id
            (map epoch (ds ++ e ∷ []))
            o).0
          ≡ map epoch (ds ++ e ∷ []))
        × (IndexMap.get dec k
              (handle_each dec default encode decode
                (ttl_logic expire is_empty function)
                operator_id
                (map epoch (ds ++ e ∷ []))
                o).1.state
            ≡ remaining expire is_empty e (IndexMap.get dec k o.state))
  ttl_map-epochs k ds e o law below d =
      let (sent, left) = ttl-epochs ds e o law below in
      (sent, ap (IndexMap.get dec k) left ∙ get-expire_all expire is_empty dec k e o.state d)
