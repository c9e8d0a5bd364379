-- ===== src/Keyed/Router/States.antt =====
-- malstrom-core/src/keyed/distributed/message_router.rs and its four child files: the states of a
-- router.
use malstrom.Base.{Option, none, List, []}
use malstrom.Base.IndexSet.{IndexSet}
use malstrom.Types.{WorkerId, Version, DataMessage, RescaleMessage, Interrogate, Collect}

pub record NormalRouter : Type 0 where
  pub worker_set : IndexSet WorkerId
  pub version : Version

pub record InterrogateRouter (K : Type 0) : Type 0 where
  pub version : Version
  pub old_worker_set : IndexSet WorkerId
  pub new_worker_set : IndexSet WorkerId
  pub interrogate_msg : Interrogate K
  pub trigger : RescaleMessage

pub record CollectRouter (K V T : Type 0) : Type 0 where
  pub version : Version
  pub whitelist : IndexSet K
  pub old_worker_set : IndexSet WorkerId
  pub new_worker_set : IndexSet WorkerId
  pub buffered : List (DataMessage K V T)
  pub current_collect : Option (Collect K)
  pub trigger : RescaleMessage

pub record FinishedRouter : Type 0 where
  pub version : Version
  pub old_worker_set : IndexSet WorkerId
  pub new_worker_set : IndexSet WorkerId
  pub trigger : RescaleMessage

pub data MessageRouter (K V T : Type 0) : Type 0 where
  normal : NormalRouter → MessageRouter K V T
  interrogating : InterrogateRouter K → MessageRouter K V T
  collecting : CollectRouter K V T → MessageRouter K V T
  finished : FinishedRouter → MessageRouter K V T

-- `NormalRouter::new`, `CollectRouter::new`, `FinishedRouter::new`. The last two take the version
-- from the message that triggered the rescaling.
abbrev pub new_normal : IndexSet WorkerId → Version → NormalRouter
new_normal worker_set version = record { worker_set = worker_set; version = version }

abbrev pub new_collect_router :
    {K V T : Type 0}
    → IndexSet K
    → IndexSet WorkerId
    → IndexSet WorkerId
    → RescaleMessage
    → CollectRouter K V T
new_collect_router whitelist old new trigger = record {
  version = trigger.version;
  whitelist = whitelist;
  old_worker_set = old;
  new_worker_set = new;
  buffered = [];
  current_collect = none;
  trigger = trigger;
}

abbrev pub new_finished : IndexSet WorkerId → IndexSet WorkerId → RescaleMessage → FinishedRouter
new_finished old new trigger = record {
  version = trigger.version;
  old_worker_set = old;
  new_worker_set = new;
  trigger = trigger;
}

-- `MessageRouter::get_version`.
abbrev pub get_version : {K V T : Type 0} → MessageRouter K V T → Version
get_version (normal r) = r.version
get_version (interrogating r) = r.version
get_version (collecting r) = r.version
get_version (finished r) = r.version
