-- ===== src/Operators/Stateless.antt =====
-- malstrom-core/src/operators: stateless_op.rs and the operators on it (map.rs, filter.rs, filter_map.rs,
-- flatten.rs), inspect.rs, time/inspect_frontier.rs, and malstrom-core/src/keyed/key_local.rs. A closure
-- of the user is a function with its own state `L`; what an operator sends is a list, in order.
pub mod Fusion
pub mod Pipeline
use malstrom.Base.{Bool, Option, none, some, List, [], ◌∷◌, ◌++◌, map, if◌then◌else◌}
use malstrom.Types.{
  DataMessage, Message, data_record, epoch, abs_barrier, rescale, suspend_marker, interrogate,
  collect, acquire,
}

pub record StatelessLogic (L K VI T VO : Type 0) : Type 0 where
  pub on_data : L → DataMessage K VI T → L × List (Message K VO T)
  pub on_epoch : L → T → L × List (Message K VO T)

-- The default of `on_epoch`.
abbrev pub no_op : {L T M : Type 0} → L → T → L × List M
no_op l e = (l, [])

-- A message with another value.
abbrev pub with_value : {K VI T VO : Type 0} → DataMessage K VI T → VO → Message K VO T
with_value d v = data_record (record { key = d.key; value = v; timestamp = d.timestamp })

module _ {L K VI T VO : Type 0} (logic : StatelessLogic L K VI T VO) where
  -- The `match` of `stateless_op` on a message: the new state of the logic, and what is sent.
  unfoldable pub handle : Message K VI T → L → L × List (Message K VO T)
  handle (data_record d) l = logic.on_data l d
  handle (interrogate x) l = (l, interrogate x ∷ [])
  handle (collect c) l = (l, collect c ∷ [])
  handle (acquire a) l = (l, acquire a ∷ [])
  handle (abs_barrier b) l = (l, abs_barrier b ∷ [])
  handle (rescale x) l = (l, rescale x ∷ [])
  handle (suspend_marker x) l = (l, suspend_marker x ∷ [])
  handle (epoch e) l = let (l', sent) = logic.on_epoch l e in (l', sent ++ epoch e ∷ [])

  -- The messages that the operator receives, one in each call of its closure.
  unfoldable pub process : List (Message K VI T) → L → L × List (Message K VO T)
  unfolding handle
  process [] l = (l, [])
  process (m ∷ ms) l =
      let (l', sent) = handle m l in let (l'', more) = process ms l' in (l'', sent ++ more)

module _ {L K VI T VO : Type 0} where
  abbrev pub map_logic : (L → VI → L × VO) → StatelessLogic L K VI T VO
  map_logic mapper = record {
    on_data = λ l item. let (l', v) = mapper l item.value in (l', with_value item v ∷ []);
    on_epoch = no_op;
  }

  abbrev pub filter_map_logic : (L → VI → L × Option VO) → StatelessLogic L K VI T VO
  filter_map_logic mapper = record {
    on_data = λ l item. (
      (mapper l item.value).0,
      elim (mapper l item.value).1 [ none ↦ [] | some x ↦ with_value item x ∷ [] ],
    );
    on_epoch = no_op;
  }

module _ {L K V T : Type 0} where
  abbrev pub filter_logic : (L → V → L × Bool) → StatelessLogic L K V T V
  filter_logic keep = record {
    on_data =
        λ l item. let (l', b) = keep l item.value in (l', if b then data_record item ∷ [] else []);
    on_epoch = no_op;
  }

  -- The closures of `inspect` and `inspect_frontier` on a message, which they pass on as it is.
  unfoldable pub inspect :
      (L → DataMessage K V T → L) → Message K V T → L → L × List (Message K V T)
  inspect inspector (data_record d) l = (inspector l d, data_record d ∷ [])
  inspect inspector x l = (l, x ∷ [])

  unfoldable pub inspect_frontier : (L → T → L) → Message K V T → L → L × List (Message K V T)
  inspect_frontier inspector (epoch e) l = (inspector l e, epoch e ∷ [])
  inspect_frontier inspector x l = (l, x ∷ [])

module _ {L K VO T : Type 0} where
  abbrev pub flatten_logic : StatelessLogic L K (List VO) T VO
  flatten_logic = record {
    on_data = λ l item. (l, map (λ x. with_value item x) item.value);
    on_epoch = no_op;
  }

module _ {X K V T : Type 0} where
  -- The closure of `key_local` on a message: messages about keys do not leave their region.
  unfoldable pub key_local : (DataMessage X V T → K) → Message X V T → List (Message K V T)
  key_local key_func (data_record d) =
      data_record (record { key = key_func d; value = d.value; timestamp = d.timestamp }) ∷ []
  key_local key_func (interrogate x) = []
  key_local key_func (collect x) = []
  key_local key_func (acquire x) = []
  key_local key_func (abs_barrier b) = abs_barrier b ∷ []
  key_local key_func (rescale x) = rescale x ∷ []
  key_local key_func (suspend_marker x) = suspend_marker x ∷ []
  key_local key_func (epoch x) = epoch x ∷ []
