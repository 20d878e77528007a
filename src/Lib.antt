-- ===== src/Lib.antt =====
-- The Rust core bridge between the OCaml SDK and Temporal's Core.
--
-- The bridge polls Core for workflow activations and activity tasks, hands them to OCaml, and gives
-- OCaml's completions back to Core. Every task that a poll returns is a debt: Core waits for
-- exactly one completion, and a debt that is forgotten blocks the worker's shutdown for ever.
--
-- Base holds what the other modules share: tests on numbers, byte strings, results, and Base.Map,
-- association lists for Rust's HashMap and HashSet. A HashMap has no order, and no theorem depends
-- on the order of a list that comes from one.
--
-- Ledger is `TaskLedger` of rust/core-bridge/src/worker_bridge.rs: which run ids and task tokens
-- are owed to Core, which are leased to OCaml, which activations are cache evictions, and the
-- tombstones of disposal. Ledger.State, Ledger.Workflows, Ledger.Activities and Ledger.Drain hold
-- the record and the methods, under the methods' own names; a method that changes `self` returns
-- the new ledger. Ledger.Calls lists the methods as data, Ledger.Steps is the step relation of the
-- program on a ledger, and the other modules are about the methods. A run id is the list of its
-- UTF-8 bytes, and `max_run_id_bytes` and `max_task_token_bytes` are the limits of the source.
--
-- Worker is what worker_bridge.rs builds around the ledger. Worker.Readiness is `Readiness` with
-- the channel it guards (`Lane`), its count saturating at the 64-bit `usize::MAX`. Worker.Lanes is
-- one round of `run_workflow_lane` and of `run_activity_lane` on an answer of Core's poll.
-- Worker.Completion is `complete_workflow_with`, `complete_activity`,
-- `reject_workflow_delivery_with`, `reject_activity_delivery`, `record_activity_heartbeat` and
-- `finalize`. The ledger's mutex is free while Core is awaited, so each of these takes the list of
-- ledger calls that others make in that time, whatever they are. Worker.Handoff is `PollLanes` as
-- its owner uses it: `try_take_workflow`, `try_take_activity` and `initiate_shutdown`.
-- Worker.Retirement is `retire_visible_for_shutdown`, one pass of the shutdown drain, Worker.Drain
-- the loop `drain_and_join` around it, on any sequence of selects, and Worker.Dispose the passes
-- `force_complete_outstanding_for_dispose` and `abandon_replay_for_dispose`. These take the calls
-- that others make as a function of what was handed to Core so far. A pass takes what the lanes
-- publish while it runs as a `Publication`; during a handoff a published message waits in its queue.
-- The bound of `drain_and_join_for_shutdown` cuts the drain in any state, a `Bound`.
--
-- Throttle is rust/core-bridge/src/heartbeat_throttle.rs. Throttle.State has the critical sections
-- of `HeartbeatThrottle`, Throttle.System the driver loop `drive` as a transition system whose
-- events come in any order. Driver ids wrap at 2 ^ 64 as in the source. The product `mul_f64(0.8)`
-- is a parameter, and Core's payload type is a type parameter.
--
-- Protocol is rust/core-bridge/src/protocol.rs. Protocol.Json has the tree of a document and
-- `validate_tree`, Protocol.Preflight the scan `preflight` over a document's bytes, and
-- Protocol.Envelope the envelopes, `envelope_from_json` and `validate_envelope`. The limits are
-- those of the source; a refusal keeps neither its text nor its path. Protocol.Limits measures a
-- tree by its size, height and strings, and Protocol.Measured a string by the bytes that it decodes
-- to.
--
-- Protocol.Rendering is `render_json` and `render_envelope`, and Protocol.Documents the entry points
-- on whole documents, `decode`, `encode` and their kin. serde_json is a parameter of these: its
-- reader, with the visitor of `JsonValue`, and its writer of one string.
--
-- Calls is rust/core-bridge/src/client_calls.rs. Calls.State has the registry, the slots that it
-- shares with tasks and waiters, and each critical section; Calls.System lists the sections as data
-- and has the operations that hold no lock between two sections, which take the sections that others
-- run in each gap. A slot is named by the identifier that it was made for. Call identifiers wrap at
-- 2 ^ 64 as in the source, so that the theorems on runs bound their length. Calls.Limits has
-- `ClientLimits`, and `new_owner_id` on the random draws to come.
--
-- Replay is rust/core-bridge/src/replay_bridge.rs. Replay.Histories decodes and checks a history
-- document; base64, protobuf, serde and Core's `HistoryInfo` are the fields of a record that it
-- takes. Replay.Worker is `ReplayWorker` on the lanes of Worker.Handoff, with `join_replay_poll_lane`
-- of worker_bridge.rs, whose bound passes at a select.
--
-- Workflow is rust/core-bridge/src/workflow_protocol.rs. Workflow.Types and Workflow.Commands have the
-- semantic types of an activation and of a completion, Workflow.Validators the validators that both
-- share, Workflow.Activations `validate_activation` and Workflow.Completions `validate_completion`.
-- Floating-point numbers are their bits, as in the documents, and are compared by them; a `BTreeMap`
-- is the list of its entries.
--
-- Abi.Status has the statuses of rust/core-bridge/src/abi.rs that these parts answer. Abi.WorkerInput is
-- the worker document as it is read, and Abi.Config its checks, `WorkerConfigInput::into_core` and what
-- it calls, with `bridge_task_types` and `poll_lanes_for` of worker_bridge.rs. Core's builder is a
-- parameter; what depends on the document in its arguments is one record. A float is its bits, and
-- `heartbeat_intervals` gives Throttle its intervals.
--
-- Only the writing of a number in decimal runs on fuel: 20 digits, which every 64-bit number fits.
-- Every other loop of the modelled code is a recursion on a list or a tree.
--
-- Not modelled: Core, Tokio and the SDK client, which are not in the repository (their answers are
-- arguments, what is handed to them is a list); mutex poisoning; the texts of error and failure
-- messages, but for the failures of the lanes that the shutdown drain joins; the rest of the C ABI in rust/core-bridge/src/abi.rs; the protocols of the client and of
-- activities and the conversion between the types of workflows and those of Core, which translate
-- field by field to protobuf types that are not in the repository; telemetry and diagnostics; the
-- OCaml libraries under lib.
pub mod Base
pub mod Abi
pub mod Ledger
pub mod Worker
pub mod Throttle
pub mod Protocol
pub mod Calls
pub mod Replay
pub mod Workflow
