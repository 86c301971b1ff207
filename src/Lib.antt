-- ===== src/Lib.antt =====
-- The coding agent harness of src/coding_agent: one run of the agent, from the state machine of the
-- run to the tools that it calls.
--
-- The parts, and how they interact. A session keeps an append-only log of messages. A run has a
-- snapshot of its state, replaced by accepted transitions only. `AgentLoop.run` takes turns: it asks
-- the model with the log's history, commits the response to the log, executes the tool calls through
-- the tool pipeline, commits their results, and goes on until the model ends the turn or a limit is
-- met. Other tasks reach it through the control channel: a cancel token, a queue of steering
-- messages, and the session's queue of follow-ups. A history that grows too long is shortened by the
-- compactor, and a tool's long output by the truncator. The event bus tells observers of the run. Sessions
-- are kept in a database, next to checkpoints and a journal of tool calls, from which a session can be
-- recovered when the process has stopped.
--
-- The files:
--   State (src/coding_agent/domain/state.py): `RuntimeState` as a record, `transition`,
--     `request_abort`, `can_transition` under their names, the table `_TRANSITIONS` as `next_state`,
--     and the rest of `transition` behind its guards as `advance`. Diagram has the arrows as a
--     relation, Guards what `transition` accepts, Progress that a run can always end, Invariant the
--     reachable snapshots.
--   Value: what Python's json reads and writes. Message (src/coding_agent/domain/messages.py): the
--     message classes as data; Log has `MessageLog` with `append` and its validation, Dicts and Parse
--     the dicts that are stored. Admission and Refinement say when a history admits a message.
--   Control (src/coding_agent/agent/control.py): the token and the two queues, one model for both.
--   Exec: Python methods over a state, with the state kept when they raise. Keeps has the rules for
--     what holds before and after.
--   Provider (src/coding_agent/ports/provider.py and ports/tool.py): replies of the model, outcomes
--     of the tools. Validation has the checks of the replies and of the declared tools, Accepted what
--     the log makes of a checked reply.
--   Loop (src/coding_agent/agent/loop.py): Types has the variables of `run` and `Services`, everything
--     outside of it. Actions has the closures of `run` (`emit`, `publish`, `boundary`, `new_meta`,
--     `commit_result`, `inject_user_text`, `abort_run`), Batch the loop over the tool calls, Model the
--     request with its retries, Turn a pass of the outer loop and `run`. The other files are proofs:
--     Frame and Whole for properties that every action keeps, Counters, Limits and Bounded for the limits,
--     Ending and Status for the end of a run, Answers for the results of calls, Budget and Late for
--     two ways in which a limit is met in a state that cannot finish.
--   Tools (src/coding_agent/tools/pipeline.py, recovery.py and registry.py): Pipeline has the data and
--     the pure steps, Invoke `ToolPipeline.invoke`, Trace what its notices say, Guarded when a
--     tool is called, Recovery the hints and the normalized failures, Registry the register of the
--     tools, Snapshot what a reader of it finds.
--   Context (src/coding_agent/context/compaction.py and truncation.py): Groups has `group_messages`, Cut
--     `find_cut`, Summary `extract_summary`, Rendering the summary's text and stored form, Compactor
--     `Compactor`, Truncation `ToolOutputTruncator`. Proofs: Grouping and Cutting on the groups and the
--     cut, Extraction on what a summary accounts for, Compaction on `compact`, Stored on the stored
--     form, Truncating on the text shown.
--   Observability (src/coding_agent/observability/event_bus.py, stream.py, domain/events.py): Events has
--     `AgentEvent`, Bus `EventBus` and Emit its `emit`. Proofs: Delivery and Account on what subscribers get, Numbering,
--     Invariant, Steps, Draining and Reach on the bus after any operations, Replay on reading the log.
--     Stream has `ToolCallAccumulator` and `AgentStreamAggregator`, Fragments and Streamed their proofs.
--   Storage (src/coding_agent/storage/session_store.py, checkpoint_store.py): Rows has the tables
--     of the database, Sessions `load`, `append` and the run locks, Checkpoints the checkpoints and the journal of tool
--     calls. Proofs: Loading, Loaded and Appending.
--   Recovery (src/coding_agent/agent/recovery.py): Inspection has `inspect`, Results what is recorded
--     for a call, Resolution `resume` and `resolve_uncertain`, over the two stores. Verdicts says what a
--     decision may rest on. Proofs: Justified on the decisions, Plans and Settled on
--     `resume`, Collision on two recoveries.
--   Prelude: shared names, tests on numbers, dictionaries as association lists,
--     Python's methods on texts.
--   Files named Examples hold runs at concrete inputs.
--
-- Loops and their bounds. The inner loop over the model's retries is recursion on the retries left.
-- The outer loop is recursion on a bound of `max_turns + 1` passes. A pass that is followed by another
-- one takes a response, and the pass behind turn `max_turns` stops, so the bound is never met.
--
-- What stands outside. The provider, the tools, the context manager, the clock, fresh ids, timestamps,
-- jsonschema, the policies, the hooks and the output processor are arguments of the definitions. An
-- await returns the shared state (the control channel, the follow-ups, the world) as other tasks have
-- left it. Times are whole ticks; the code has floats, a remainder that may be negative, and a
-- floor of a millisecond for a tool's timeout. `datetime.fromisoformat` is an argument of the
-- parser. Exceptions of observers, sinks and `on_append` are not modelled, nor is
-- the loop's forwarding of the deltas of a streamed response. Strings of exceptions stand for the exception.
--
-- SQLite's tables are lists of rows, and a transaction is a step that returns the new tables or an
-- error. `json.loads` and `json.dumps` are arguments, and so are str.lower, str.isalnum, the token
-- counter, the file system of the artifacts and the hash of a workspace's path. A handler of the event bus
-- is a function on a state outside that may fail; it does not call the bus.
--
-- Not modelled: metrics, logging, the context builder with its skills and the token
-- budget (its ratios are floats), the runtime with its sessions, the safety policy, the file and shell
-- tools, the provider adapters, the server, the benchmark.
pub mod Prelude
pub mod Result
pub mod State
pub mod Value
pub mod Message
pub mod Control
pub mod Exec
pub mod Provider
pub mod Loop
pub mod Tools
pub mod Context
pub mod Observability
pub mod Storage
pub mod Recovery
