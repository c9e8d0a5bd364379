-- ===== src/Operators/StatefulOp/Migration.antt =====
-- malstrom-core/src/operators/stateful_op.rs: the state of a key moves from one worker to another.
use malstrom.Base.{
  none, some, ◌≡◌, ◌≢◌, refl, ap, ◌∙◌, arith, get_elem?, get_elem?-append_last, get_elem?-set_self,
  if_pos, if_neg,
}
use malstrom.Base.IndexMap
use malstrom.Base.IndexMap.{IndexMap, get-insert_self, get-insert, get-swap_remove}
use malstrom.Base.Rc.{Shared}
use malstrom.Types.{OperatorId, Collect, collect, acquire}
use malstrom.Keyed.Types.{Bytes, Heap, NetworkAcquire, add_state, take_state, from_network}
use malstrom.Operators.StatefulOp.{StatefulLogic, OpState, handle_message}
use native.Mathlib.Decide.{ℕ_discrete}

module _ {L K VI VO T S : Type 0} (dec : Discrete K) (default : S) (encode : S → Bytes)
    (decode : Bytes → S) (logic : StatefulLogic L K VI VO T S) (operator_id : OperatorId) where
  -- The operator on the old worker after the collect message, and on the new worker after the acquire
  -- message that brings a collection.
  abbrev pub given : Collect K → OpState L K S → OpState L K S
  given c o = (handle_message dec default encode decode logic operator_id (collect c) o).1

  abbrev pub received : NetworkAcquire K → OpState L K S → OpState L K S
  received n o =
      let (a, heap) = from_network n o.heap in
      (handle_message dec default encode decode logic operator_id (acquire a)
        (record o { heap = heap })).1

  given-state :
      (c : Collect K) (o : OpState L K S) (s : S)
      → IndexMap.get dec c.key o.state ≡ some s
      → ((given c o).state ≡ IndexMap.swap_remove dec c.key o.state)
        × ((given c o).heap ≡ add_state encode c operator_id s o.heap)
  unfolding handle_message
  given-state c o s h = (ground (arith, h), ground (arith, h))

  added :
      (c : Collect K) (h : Heap K) (s : S) (sh : Shared (IndexMap OperatorId Bytes))
      → get_elem? h.collections c.collection ≡ some sh
      → get_elem? (add_state encode c operator_id s h).collections c.collection
        ≡ some (record sh { value = IndexMap.insert ℕ_discrete operator_id (encode s) sh.value })
  unfolding add_state
  added c h s sh e = ground (
    arith,
    e,
    get_elem?-set_self h.collections c.collection
        (record sh { value = IndexMap.insert ℕ_discrete operator_id (encode s) sh.value }) e,
  )

  received-state :
      (n : NetworkAcquire K) (o : OpState L K S) (bytes : Bytes)
      → IndexMap.get ℕ_discrete operator_id n.collection ≡ some bytes
      → (received n o).state ≡ IndexMap.insert dec n.key (decode bytes) o.state
  unfolding handle_message from_network take_state
  received-state n o bytes h = ground (
    arith,
    h,
    get_elem?-append_last o.heap.collections (record { value = n.collection; strong = 1 }),
  )

  -- What has become of the state `s` of the key of `c`, from the old worker `a` to the new worker `b`.
  pub record IsMoved (c : Collect K) (s : S) (a b : OpState L K S)
      (collected : Shared (IndexMap OperatorId Bytes)) : Type 0 where
    pub shared : get_elem? (given c a).heap.collections c.collection ≡ some collected
    pub gone : IndexMap.get dec c.key (given c a).state ≡ none
    pub arrived :
        IndexMap.get dec c.key
          (received (record { key = c.key; collection = collected.value }) b).state
        ≡ some s
    pub others_stay :
        (k : K)
        → c.key ≢ k
        → (IndexMap.get dec k (given c a).state ≡ IndexMap.get dec k a.state)
          × (IndexMap.get dec k
                (received (record { key = c.key; collection = collected.value }) b).state
              ≡ IndexMap.get dec k b.state)

  -- The state of a key moves as it is: the operator on the old worker gives it up to the collect
  -- message, and when the collection has come to the operator of the same id on the new worker, that
  -- has it; no other key of either is touched. Decoding undoes encoding, the collect message is alive
  -- on the old worker, and no key stands twice in its map.
  pub collect-IsMoved :
      (c : Collect K) (s : S) (a b : OpState L K S) (sh : Shared (IndexMap OperatorId Bytes))
      → ((x : S) → decode (encode x) ≡ x)
      → IndexMap.Distinct dec a.state
      → IndexMap.get dec c.key a.state ≡ some s
      → get_elem? a.heap.collections c.collection ≡ some sh
      → IsMoved c s a b
          (record sh { value = IndexMap.insert ℕ_discrete operator_id (encode s) sh.value })
  collect-IsMoved c s a b sh inverse d e alive =
      let (state, heap) = given-state c a s e in
      let n : NetworkAcquire K = record {
        key = c.key;
        collection = IndexMap.insert ℕ_discrete operator_id (encode s) sh.value;
      } in
      let there : (received n b).state ≡ IndexMap.insert dec c.key s b.state =
        received-state n b (encode s) (get-insert_self ℕ_discrete operator_id (encode s) sh.value)
        ∙ ap (λ x. IndexMap.insert dec c.key x b.state) (inverse s) in
      record {
        shared = ap (λ h. get_elem? h.collections c.collection) heap ∙ added c a.heap s sh alive;
        gone =
            ap (IndexMap.get dec c.key) state
            ∙ get-swap_remove dec c.key c.key a.state d
            ∙ if_pos (dec c.key c.key) refl _ _;
        arrived = ap (IndexMap.get dec c.key) there ∙ get-insert_self dec c.key s b.state;
        others_stay = λ k other. (
          ap (IndexMap.get dec k) state
              ∙ get-swap_remove dec c.key k a.state d
              ∙ if_neg (dec c.key k) other _ _,
          ap (IndexMap.get dec k) there
              ∙ get-insert dec c.key k s b.state
              ∙ if_neg (dec c.key k) other _ _,
        );
      }
