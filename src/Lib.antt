-- ===== src/Lib.antt =====
-- Malstrom: a distributed, stateful stream processor. Each worker runs a graph of operators, whose
-- edges are local channels; keyed streams are spread over the workers by distributors, which also
-- move the state of keys when the set of workers changes; a coordinator tells the workers to build,
-- run, snapshot and rescale. All paths are in malstrom-core/src.
--
-- Types: types/message.rs and types/time.rs. `Message` has the source's variants; `Types.Merge` is
--   `merge_timestamps`. Worker and operator ids and versions are native numbers.
-- Channels: channels/spsc.rs (`Spsc`, both ends as one state) and channels/operator_io.rs (`Output`,
--   `Input`). A call takes the state and returns it; a panic is the value `panic` of `Base.Tests`.
--   `Input.Outcome` describes a call of `recv` without indices, and the other files build on it.
-- Keyed: keyed/distributed/types.rs (`Types`), the routers of keyed/distributed/message_router.rs and
--   its four child files (`Router.States`, `Router.Routing`, `Router.Lifecycle`), and the operator of
--   keyed/distributed.rs (`Distributor`, with its handlers and `run` in `Distributor.Messages`).
--   `World` is what they share with their surroundings: the heap of reference-counted objects, and
--   the list of messages that were emitted or sent, in order. `Rescale` is about one change of the
--   worker set, `Partitioners` about keyed/partitioners.rs, `Distributor.Targets` about
--   the workers that messages are routed to.
-- Coordinator: coordinator/watchmap.rs (`WatchMap`), state.rs, types.rs, communication.rs and the
--   conditions and the guard of coordinator.rs (`State`), and `perform_reconfig_all` (`Reconfig`), cut
--   where it waits.
-- Operators: operators/stateful_op.rs (`StatefulOp`), operators/time/generate_epochs.rs
--   (`GenerateEpochs`), operators/stateless_op.rs with map.rs, filter.rs, filter_map.rs, flatten.rs,
--   inspect.rs and time/inspect_frontier.rs, and keyed/key_local.rs (`Stateless`), split.rs,
--   cloned.rs and the split of a stream in time/util.rs (`Split`), stateful_map.rs and ttl_map.rs
--   (`StatefulMap`), and time/assign_timestamps.rs (`AssignTimestamps`). The user's closures are parameters,
--   with their own state; an operator in a pipeline is a function of the messages that it receives.
-- Stream: stream/operator/logic.rs (`Logic`), an operator by its handlers.
-- Sources, Sinks: sources/stateful.rs, sources/stateless.rs and sources/single_iterator.rs, and
--   sinks/stateful.rs, each on `Stream.Logic`, with the user's source or sink as a parameter;
--   sinks/stateless.rs with `VecSink::give` of sinks/vec_sink.rs (`Sinks.Stateless`).
-- Worker: worker/mod.rs. The orders that a worker receives are a list with one entry for each time that
--   it looks; the operators with all that they own are a parameter.
-- Runtime: runtime/threaded/communication.rs (`Threads`). The channels of the crate `flume` are numbers, and
--   their queues a parameter; a thread's call is one step on the shared map and queues.
-- Coordinator.Loop: `coordinator_loop` as a step function over events: the messages of workers, requests,
--   and the loop's own steps. It is cut where it waits, and between an order and the registration of
--   its condition.
-- Base: numbers, tests, lists, and the parts of `indexmap` and `std::rc` that the code relies on:
--   `IndexMap` and `IndexSet` are lists in insertion order, with `swap_remove` and `pop` as documented;
--   `Rc` is a store with strong counts.
-- Examples: concrete runs.
--
-- Loops run over lists, but for those of a worker: its rounds end with the list of what it
-- receives, and the waits inside a round, and the work that an operator has queued, take fuel; a
-- run that is cut is marked as under way, with the order that it is at. Operators of a worker may
-- panic. Machine arithmetic is the next configuration and snapshot version and the complement of
-- a worker id, with their wrap-around. Partitioners of keys and of outputs, the encoding of
-- state, the order on timestamps and the user's sources are parameters, with their laws as
-- hypotheses (`IsPartitioner`, `KeepsLength`, `IsTimestamp`, `IsSource`, `IsExpiry`).
-- `Output::send` asserts that it is not suspended in a build with debug assertions
-- (`Channels.Output.Build`); operators and workers are modelled in a build without them.
--
-- Not modelled: the stream builder, the other transports, the runtimes that start workers,
-- the timer of automatic snapshots, snapshot backends, and the crates for Kubernetes and Kafka.
pub mod Base
pub mod Types
pub mod Channels
pub mod Keyed
pub mod Coordinator
pub mod Operators
pub mod Stream
pub mod Sources
pub mod Sinks
pub mod Worker
pub mod Runtime
pub mod Examples
