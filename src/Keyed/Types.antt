-- ===== src/Keyed/Types.antt =====
-- malstrom-core/src/keyed/distributed/types.rs: the messages between distributors, and the shared
-- objects of a rescaling. The serialisation of a state is a parameter.
use malstrom.Base.{ℕ, Bool, false, Option, none, some, List, [], ◌∷◌, ◌++◌, map, if◌then◌else◌}
use malstrom.Base.IndexMap
use malstrom.Base.IndexMap.{IndexMap}
use malstrom.Base.IndexSet
use malstrom.Base.IndexSet.{IndexSet}
use malstrom.Base.Rc
use malstrom.Base.Rc.{Store, Handle, alloc}
use malstrom.Types.{
  WorkerId, OperatorId, Version, DataMessage, Message, Interrogate, Collect, Acquire,
}
use native.Mathlib.Decide.{ℕ_discrete}

-- Encoded state, `Vec<u8>`.
abbrev pub Bytes : Type 0
Bytes = List ℕ

pub record NetworkDataMessage (K V T : Type 0) : Type 0 where
  pub content : DataMessage K V T
  pub version : Version

pub record NetworkAcquire (K : Type 0) : Type 0 where
  pub key : K
  pub collection : IndexMap OperatorId Bytes

pub data NetworkMessage (K V T : Type 0) : Type 0 where
  net_data : NetworkDataMessage K V T → NetworkMessage K V T
  net_epoch : T → NetworkMessage K V T
  barrier_marker : NetworkMessage K V T
  net_suspend_marker : NetworkMessage K V T
  net_acquire : NetworkAcquire K → NetworkMessage K V T
  upgrade : Version → NetworkMessage K V T
  ack_upgrade : Version → NetworkMessage K V T

pub record RemoteState (T : Type 0) : Type 0 where
  pub is_barred : Bool
  pub frontier : Option T
  pub last_version : Option Version
  pub last_ack_version : Option Version
  pub sent_suspend : Bool

-- `Default for RemoteState`.
abbrev pub default_remote_state : {T : Type 0} → RemoteState T
default_remote_state = record {
  is_barred = false;
  frontier = none;
  last_version = none;
  last_ack_version = none;
  sent_suspend = false;
}

-- A connection to another worker, by the messages that it has delivered and that are not read yet,
-- with what is known of that worker.
pub record Remote (K V T : Type 0) : Type 0 where
  pub inbox : List (NetworkMessage K V T)
  pub state : RemoteState T

abbrev pub Remotes : Type 0 → Type 0 → Type 0 → Type 0
Remotes K V T = IndexMap WorkerId (Remote K V T)

abbrev pub WorkerPartitioner : Type 0 → Type 0
WorkerPartitioner K = K → IndexSet WorkerId → WorkerId

-- The shared objects of one worker. Rescale and suspend messages are shared for their count only.
pub record Heap (K : Type 0) : Type 0 where
  pub interrogations : Store (IndexSet K)
  pub collections : Store (IndexMap OperatorId Bytes)
  pub rescales : Store (Unit {0})
  pub suspends : Store (Unit {0})

-- What a distributor does to its surroundings: a message into its output, or to another worker.
pub data Effect (K V T : Type 0) : Type 0 where
  emits : Message K V T → Effect K V T
  transmits : WorkerId → NetworkMessage K V T → Effect K V T

-- The shared objects, and the effects so far in their order.
pub record World (K V T : Type 0) : Type 0 where
  pub heap : Heap K
  pub trace : List (Effect K V T)

module _ {K V T : Type 0} where
  abbrev pub emit : Message K V T → World K V T → World K V T
  emit msg w = record w { trace = w.trace ++ emits msg ∷ [] }

  abbrev pub transmit : WorkerId → NetworkMessage K V T → World K V T → World K V T
  transmit wid msg w = record w { trace = w.trace ++ transmits wid msg ∷ [] }

  -- `broadcast` of malstrom-core/src/runtime/communication.rs, over the workers of a list.
  abbrev pub broadcast : List WorkerId → NetworkMessage K V T → World K V T → World K V T
  broadcast wids msg w = record w { trace = w.trace ++ map (λ wid. transmits wid msg) wids }

-- `Interrogate`.
module _ {K : Type 0} (dec : Discrete K) where
  -- The loop of `add_keys`.
  unfoldable pub tested_insert : (K → Bool) → List K → IndexSet K → IndexSet K
  tested_insert tester [] s = s
  tested_insert tester (k ∷ ks) s =
      tested_insert tester ks (if tester k then IndexSet.insert dec k s else s)

  unfoldable pub add_keys : Interrogate K → List K → Heap K → Heap K
  unfolding tested_insert
  add_keys i ks h = record h {
    interrogations = Rc.with_lock i.shared (tested_insert i.tester ks) h.interrogations;
  }

module _ {K : Type 0} where
  -- `Interrogate::new` and `Interrogate::try_unwrap`; the latter uses the handle up.
  unfoldable pub new_interrogate : (K → Bool) → Heap K → Interrogate K × Heap K
  new_interrogate tester h =
      let (id, st) = alloc [] h.interrogations in
      (record { shared = id; tester = tester }, record h { interrogations = st })

  unfoldable pub clone_interrogate : Interrogate K → Heap K → Heap K
  clone_interrogate i h = record h { interrogations = Rc.clone i.shared h.interrogations }

  unfoldable pub drop_interrogate : Interrogate K → Heap K → Heap K
  drop_interrogate i h = record h { interrogations = Rc.drop i.shared h.interrogations }

  abbrev pub unwrap_interrogate : Interrogate K → Heap K → Option (IndexSet K)
  unwrap_interrogate i h = Rc.try_unwrap i.shared h.interrogations

  -- `Collect::new`, `clone`, `drop`, `add_state` and `try_unwrap`.
  unfoldable pub new_collect : K → Heap K → Collect K × Heap K
  new_collect key h =
      let (id, st) = alloc [] h.collections in
      (record { key = key; collection = id }, record h { collections = st })

  unfoldable pub clone_collect : Collect K → Heap K → Heap K
  clone_collect c h = record h { collections = Rc.clone c.collection h.collections }

  unfoldable pub drop_collect : Collect K → Heap K → Heap K
  drop_collect c h = record h { collections = Rc.drop c.collection h.collections }

  unfoldable pub add_state :
      {S : Type 0} → (S → Bytes) → Collect K → OperatorId → S → Heap K → Heap K
  add_state encode c op state h = record h {
    collections =
        Rc.with_lock c.collection (IndexMap.insert ℕ_discrete op (encode state)) h.collections;
  }

  abbrev pub unwrap_collect : Collect K → Heap K → Option (IndexMap OperatorId Bytes)
  unwrap_collect c h = Rc.try_unwrap c.collection h.collections

  -- `From<NetworkAcquire> for Acquire`, and `Acquire::take_state`.
  unfoldable pub from_network : NetworkAcquire K → Heap K → Acquire K × Heap K
  from_network n h =
      let (id, st) = alloc n.collection h.collections in
      (record { key = n.key; collection = id }, record h { collections = st })

  abbrev pub drop_acquire : Acquire K → Heap K → Heap K
  drop_acquire a h = record h { collections = Rc.drop a.collection h.collections }

  abbrev pub collection_at : Acquire K → Heap K → IndexMap OperatorId Bytes
  collection_at a h = Rc.value_or [] a.collection h.collections

  unfoldable pub take_state :
      {S : Type 0} → (Bytes → S) → Acquire K → OperatorId → Heap K → Option (K × S) × Heap K
  take_state decode a op h = (
    elim (IndexMap.get ℕ_discrete op (collection_at a h)) [
      | none ↦ none
      | some bytes ↦ some (a.key, decode bytes)
    ],
    record h {
      collections = Rc.with_lock a.collection (IndexMap.swap_remove ℕ_discrete op) h.collections;
    },
  )
