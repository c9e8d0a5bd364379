-- ===== src/Operators/StatefulOp.antt =====
-- malstrom-core/src/operators/stateful_op.rs: an operator with a state per key. The messages that it
-- sends are a list, in order. The user's logic is a parameter with its own state `L`, and so are the
-- default and the encoding of a state.
pub mod Migration
use malstrom.Base.{ℕ, Option, none, some, List, [], ◌∷◌, ◌++◌, Result, ok, panic, ◌>>=◌, ◌≡◌}
use malstrom.Base.IndexMap
use malstrom.Base.IndexMap.{IndexMap, keys}
use malstrom.Types.{
  OperatorId, DataMessage, Message, Barrier, data_record, epoch, abs_barrier, rescale,
  suspend_marker, interrogate, collect, acquire,
}
use malstrom.Types.Time.{MaybeTime}
use malstrom.Channels.Input
use malstrom.Channels.Input.{Input}
use malstrom.Keyed.Types.{Bytes, Heap, add_keys, add_state, take_state}

pub record StatefulLogic (L K VI VO T S : Type 0) : Type 0 where
  pub on_data : L → DataMessage K VI T → S → L × List (Message K VO T) × Option S
  pub on_epoch : L → T → IndexMap K S → L × List (Message K VO T) × IndexMap K S
  pub on_schedule : L → IndexMap K S → L × List (Message K VO T) × IndexMap K S

-- What the closure owns and the objects that it shares. A snapshot is what `persist` was called with.
pub record OpState (L K S : Type 0) : Type 0 where
  pub logic : L
  pub state : IndexMap K S
  pub heap : Heap K
  pub persisted : List (Barrier × OperatorId × IndexMap K S)

-- `swap_remove(..).unwrap_or_default()`.
abbrev pub or_default : {S : Type 0} → S → Option S → S
or_default default none = default
or_default default (some s) = s

module _ {L K VI VO T S : Type 0} (dec : Discrete K) (default : S) (encode : S → Bytes)
    (decode : Bytes → S) (logic : StatefulLogic L K VI VO T S) (operator_id : OperatorId) where
  -- The `match` on a message: what is sent, and the new state.
  unfoldable pub handle_message :
      Message K VI T → OpState L K S → List (Message K VO T) × OpState L K S
  handle_message (data_record msg) o =
      let (l, sent, new_state) =
        logic.on_data o.logic msg (or_default default (IndexMap.get dec msg.key o.state)) in
      let rest = IndexMap.swap_remove dec msg.key o.state in
      (
        sent,
        record o {
          logic = l;
          state = elim new_state [ none ↦ rest | some n ↦ IndexMap.insert dec msg.key n rest ];
        },
      )
  handle_message (interrogate i) o =
      (interrogate i ∷ [], record o { heap = add_keys dec i (keys o.state) o.heap })
  handle_message (collect c) o = (
    collect c ∷ [],
    elim (IndexMap.get dec c.key o.state) [
      | none ↦ o
      | some s ↦ record o {
        state = IndexMap.swap_remove dec c.key o.state;
        heap = add_state encode c operator_id s o.heap;
      }
    ],
  )
  handle_message (acquire a) o =
      let (taken, heap) = take_state decode a operator_id o.heap in
      (
        acquire a ∷ [],
        record o {
          state = elim taken [ none ↦ o.state | some (k, s) ↦ IndexMap.insert dec k s o.state ];
          heap = heap;
        },
      )
  handle_message (abs_barrier b) o =
      (abs_barrier b ∷ [], record o { persisted = o.persisted ++ (b, operator_id, o.state) ∷ [] })
  handle_message (rescale m) o = (rescale m ∷ [], o)
  handle_message (suspend_marker m) o = (suspend_marker m ∷ [], o)
  handle_message (epoch e) o =
      let (l, sent, state) = logic.on_epoch o.logic e o.state in
      (sent ++ epoch e ∷ [], record o { logic = l; state = state })

  -- One call of the closure.
  unfoldable pub step :
      ⦃t : MaybeTime T⦄
      → Input K VI T
      → OpState L K S
      → Result (List (Message K VO T) × Input K VI T × OpState L K S)
  step input o = do
    let (l, sent, state) = logic.on_schedule o.logic o.state
    let o' = record o { logic = l; state = state }
    (received, input') ← Input.recv input
    elim received [
      | none ↦ ok (sent, input', o')
      | some msg ↦ let (more, o'') = handle_message msg o' in ok (sent ++ more, input', o'')
    ]
