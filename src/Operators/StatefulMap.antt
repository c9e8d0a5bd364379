-- ===== src/Operators/StatefulMap.antt =====
-- malstrom-core/src/operators/stateful_map.rs, and the logic of malstrom-core/src/operators/ttl_map.rs:
-- operators with a state per key, on operators/stateful_op.rs. The map with expiring entries is of another
-- crate, and its operations are parameters.
pub mod Records
pub mod ByKey
pub mod Expiry
use malstrom.Base.{Bool, not, Option, none, some, List, [], ◌∷◌, ◌++◌, if◌then◌else◌}
use malstrom.Base.IndexMap.{IndexMap}
use malstrom.Types.{OperatorId, DataMessage, Message, data_record}
use malstrom.Keyed.Types.{Bytes}
use malstrom.Operators.StatefulOp.{StatefulLogic, OpState, handle_message}

module _ {L K VI VO T S : Type 0} where
  -- `MapperOp`, with the defaults of the other handlers.
  abbrev pub mapper_logic : (L → K → VI → S → L × VO × Option S) → StatefulLogic L K VI VO T S
  mapper_logic mapper = record {
    on_data = λ l msg key_state.
        let (l', new_value, new_state) = mapper l msg.key msg.value key_state in
        (
          l',
          data_record (record { key = msg.key; value = new_value; timestamp = msg.timestamp }) ∷ [],
          new_state,
        );
    on_epoch = λ l e state. (l, [], state);
    on_schedule = λ l state. (l, [], state);
  }

module _ {K V : Type 0} where
  -- `IndexMap::retain` with a closure that changes each value before it is tested.
  unfoldable pub retain_mut : (V → V × Bool) → IndexMap K V → IndexMap K V
  retain_mut f [] = []
  retain_mut f ((k, v) ∷ m) =
      let rest = retain_mut f m in if (f v).1 then (k, (f v).0) ∷ rest else rest

module _ {K T M : Type 0} (expire : T → M → M) (is_empty : M → Bool) where
  -- `TtlOp::on_epoch`.
  unfoldable pub expire_all : T → IndexMap K M → IndexMap K M
  unfolding retain_mut
  expire_all e = retain_mut (λ v. (expire e v, not (is_empty (expire e v))))

module _ {L K VI VO T M : Type 0} (expire : T → M → M) (is_empty : M → Bool) where
  -- `TtlOp`.
  abbrev pub ttl_logic : (L → K → VI → T → M → L × VO × Option M) → StatefulLogic L K VI VO T M
  ttl_logic function = record {
    on_data = λ l msg key_state.
        let (l', value, state) = function l msg.key msg.value msg.timestamp key_state in
        (
          l',
          data_record (record { key = msg.key; value = value; timestamp = msg.timestamp }) ∷ [],
          state,
        );
    on_epoch = λ l e state. (l, [], expire_all expire is_empty e state);
    on_schedule = λ l state. (l, [], state);
  }

module _ {L K VI VO T S : Type 0} (dec : Discrete K) (default : S) (encode : S → Bytes)
    (decode : Bytes → S) (logic : StatefulLogic L K VI VO T S) (operator_id : OperatorId) where
  -- The messages that the operator receives, one in each call of its closure.
  unfoldable pub handle_each :
      List (Message K VI T) → OpState L K S → List (Message K VO T) × OpState L K S
  handle_each [] o = ([], o)
  handle_each (m ∷ ms) o =
      let (sent, o') = handle_message dec default encode decode logic operator_id m o in
      let (more, o'') = handle_each ms o' in (sent ++ more, o'')
