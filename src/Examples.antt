-- ===== src/Examples.antt =====
-- A small job for the examples: numbered keys, two workers before a rescaling and two after it.
mod Channels
mod Routers
mod Distributors
mod Coordinators
mod Operators
mod States
mod Sources
mod Sinks
mod Workers
mod Runtimes
use malstrom.Base.{
  ℕ, zero, suc, Bool, true, false, Option, none, some, List, [], ◌∷◌, ◌==◌, if◌then◌else◌,
}
use malstrom.Base.IndexSet.{IndexSet}
use malstrom.Types.{WorkerId, DataMessage, RescaleMessage}
use malstrom.Keyed.Types.{
  Heap, World, Remote, Remotes, RemoteState, WorkerPartitioner, default_remote_state,
}
use malstrom.Keyed.Router.States.{CollectRouter, FinishedRouter, NormalRouter}

-- The first worker gets key 0, and the second all others.
abbrev pub pick : WorkerPartitioner ℕ
pick k [] = 0
pick k (w ∷ []) = w
pick k (w ∷ u ∷ ws) = if k == 0 then w else u

abbrev pub old_set : IndexSet WorkerId
old_set = 0 ∷ 1 ∷ []

abbrev pub new_set : IndexSet WorkerId
new_set = 0 ∷ 2 ∷ []

abbrev pub message : DataMessage ℕ ℕ ℕ
message = record { key = 1; value = 7; timestamp = 3 }

abbrev pub order : RescaleMessage
order = record { workers = new_set; version = 1; rc = 0 }

abbrev pub no_heap : Heap ℕ
no_heap = record { interrogations = []; collections = []; rescales = []; suspends = [] }

abbrev pub no_world : World ℕ ℕ ℕ
no_world = record { heap = no_heap; trace = [] }

abbrev pub no_remotes : Remotes ℕ ℕ ℕ
no_remotes = []
