-- ===== src/Loop/Types.antt =====
-- The state of `AgentLoop.run`, its limits, and what it reaches through its constructor's arguments.
use py_coding_agent.Prelude.{ℕ, String, Option, List}
use py_coding_agent.State.{RuntimeState, StateTransitionError}
use py_coding_agent.Message.{ToolCall, ToolResultStatus, Message, ValidationCode}
use py_coding_agent.Message.Log.{MessageLog}
use py_coding_agent.Control.{RunControl, Queue}
use py_coding_agent.Result.{Result}
use py_coding_agent.Provider.{ProviderErrorKind, ModelResponse, ToolOutcome}

-- times are counted in ticks of the event loop's clock
pub record RunLimits : Type 0 where
  pub max_turns : ℕ
  pub max_tool_calls : ℕ
  pub deadline_seconds : Option ℕ
  pub max_provider_retries : ℕ
  pub provider_retry_base_delay_seconds : ℕ

-- LoopEventKind
pub data LoopEventKind : Type 0 where
  run_start turn_start assistant_committed tool_result_committed : LoopEventKind
  steering_injected follow_up_started run_end : LoopEventKind

-- the boundaries at which `boundary_sink` is told
pub data BoundaryKind : Type 0 where
  user_task model_response tool_result run_end : BoundaryKind

-- the events that the loop publishes, with what their payloads say of the run
pub data Published : Type 0 where
  agent_start : ℕ → Published
  steering follow_up : String → Published
  abort : String → Published
  llm_request_start : ℕ → Published
  llm_request_end : String → Published
  tool_call_start tool_call_end : String → Published
  tool_call_error : String → ToolResultStatus → Option String → Published
  error_event : String → Option ProviderErrorKind → Published
  agent_end : ℕ → ℕ → ℕ → Published

-- what the loop tells its observers, in order: `emit`, `publish`, `boundary`, and the intent that
-- `tool_start_sink` is told of; `invoked` marks the call of the tool executor itself, `requested` the
-- call of the provider
pub data Notice : Type 0 where
  emitted : LoopEventKind → ℕ → Notice
  published : Published → Notice
  at_boundary : BoundaryKind → ℕ → Notice
  tool_start invoked : String → Notice
  requested : Notice

-- the three values of `limit_hit`, and the fourth that the code also sets
pub data Limit : Type 0 where
  max_turns max_tool_calls deadline context_overflow : Limit

-- what ends `run` by an exception
pub data LoopError : Type 0 where
  bad_message : ValidationCode → LoopError
  bad_transition : StateTransitionError → LoopError
  foreign : String → LoopError
  no_rounds_left : LoopError

-- how an awaited model call ends
pub data ProviderReply : Type 0 where
  responded : ModelResponse → ProviderReply
  timed_out : ProviderReply
  failed : ProviderErrorKind → ProviderReply
  raised : String → ProviderReply

-- what other tasks may change while the loop awaits: the control channel, the follow-ups of the
-- session, and everything else, the `world`
pub record Shared (W : Type 0) : Type 0 where
  pub control : RunControl
  pub follow_ups : Option Queue
  pub world : W

-- Everything outside the loop. `complete` is the provider, by `complete` or `stream`, under
-- `asyncio.wait_for`; `build` is the context manager, none for ContextError; an await returns the
-- shared state as other tasks have left it.
pub record Services : Type 1 where
  pub World : Type 0
  pub Request : Type 0
  pub now : World → ℕ × World
  pub new_id : World → String × World
  pub utc_now : World → String × World
  pub build : List Message → World → Option Request × World
  pub complete : Request → Option ℕ → Shared World → ProviderReply × Shared World
  pub sleep : ℕ → Shared World → Shared World
  pub execute : ToolCall → Option ℕ → Shared World → Result String ToolOutcome × Shared World

-- the variables of `run`
pub record LoopState (W : Type 0) : Type 0 where
  pub log : MessageLog
  pub state : RuntimeState
  pub shared : Shared W
  pub turns : ℕ
  pub tool_calls_used : ℕ
  pub provider_calls : ℕ
  pub final_text : String
  pub limit_hit : Option Limit
  pub started_at : ℕ
  pub trace : List Notice

-- LoopOutcome
pub record LoopOutcome : Type 0 where
  pub state : RuntimeState
  pub turns : ℕ
  pub tool_calls : ℕ
  pub provider_calls : ℕ
  pub final_text : String
  pub limit_hit : Option Limit

-- how a pass through the outer loop ends: `continue`, or `break`
pub data Flow : Type 0 where
  again stop : Flow

-- how the batch of a response's tool calls ends
pub data Batch : Type 0 where
  completed budget_hit aborted : Batch
