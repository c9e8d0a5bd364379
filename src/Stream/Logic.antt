-- ===== src/Stream/Logic.antt =====
-- malstrom-core/src/stream/operator/logic.rs: an operator by its handlers. What a handler owns and
-- what it shares with its surroundings is one state `S`; what it sends is a list, in order.
use malstrom.Base.{Option, none, some, List, [], ◌∷◌, ◌++◌, Result, ok, panic, ◌>>=◌}
use malstrom.Types.{
  DataMessage, Message, Barrier, RescaleMessage, SuspendMarker, Interrogate, Collect, Acquire,
  data_record, epoch, abs_barrier, rescale, suspend_marker, interrogate, collect, acquire,
}
use malstrom.Types.Time.{MaybeTime}
use malstrom.Channels.Input
use malstrom.Channels.Input.{Input}

pub record LogicWrapper (S K VI TI VO TO : Type 0) : Type 0 where
  pub on_schedule : S → Result (S × List (Message K VO TO))
  pub on_data : DataMessage K VI TI → S → Result (S × List (Message K VO TO))
  pub on_epoch : TI → S → Result (S × List (Message K VO TO))
  pub on_barrier : Barrier → S → Result (S × List (Message K VO TO))
  pub on_rescale : RescaleMessage → S → Result (S × List (Message K VO TO))
  pub on_suspend : SuspendMarker → S → Result (S × List (Message K VO TO))
  pub on_interrogate : Interrogate K → S → Result (S × List (Message K VO TO))
  pub on_collect : Collect K → S → Result (S × List (Message K VO TO))
  pub on_acquire : Acquire K → S → Result (S × List (Message K VO TO))

-- A handler that does nothing.
abbrev pub ignore : {A S M : Type 0} → A → S → Result (S × List M)
ignore a s = ok (s, [])

-- What a call sends, with one message more behind it.
abbrev pub then_send : {S M : Type 0} → Result (S × List M) → M → Result (S × List M)
then_send panic m = panic
then_send (ok (s, sent)) m = ok (s, sent ++ m ∷ [])

module _ {S K VI TI VO TO : Type 0} (l : LogicWrapper S K VI TI VO TO) where
  -- The `match` of `into_logic` on a message.
  unfoldable pub dispatch : Message K VI TI → S → Result (S × List (Message K VO TO))
  dispatch (data_record d) s = l.on_data d s
  dispatch (epoch e) s = l.on_epoch e s
  dispatch (abs_barrier b) s = then_send (l.on_barrier b s) (abs_barrier b)
  dispatch (rescale m) s = then_send (l.on_rescale m s) (rescale m)
  dispatch (suspend_marker m) s = then_send (l.on_suspend m s) (suspend_marker m)
  dispatch (interrogate i) s = then_send (l.on_interrogate i s) (interrogate i)
  dispatch (collect c) s = then_send (l.on_collect c s) (collect c)
  dispatch (acquire a) s = then_send (l.on_acquire a s) (acquire a)

  -- One call, given the message that the input delivers in it.
  unfoldable pub turn : Option (Message K VI TI) → S → Result (S × List (Message K VO TO))
  unfolding dispatch
  turn received s = do
    (s', sent) ← l.on_schedule s
    elim received [
      | none ↦ ok (s', sent)
      | some m ↦ do (s'', more) ← dispatch m s'; ok (s'', sent ++ more)
    ]

  -- The function that `into_logic` gives.
  unfoldable pub into_logic :
      ⦃t : MaybeTime TI⦄ → Input K VI TI → S → Result (S × Input K VI TI × List (Message K VO TO))
  unfolding turn
  into_logic input s = do
    (received, input') ← Input.recv input
    (s', sent) ← turn received s
    ok (s', input', sent)
