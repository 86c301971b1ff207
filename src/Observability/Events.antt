-- ===== src/Observability/Events.antt =====
-- src/coding_agent/domain/events.py: the events of a run.
use py_coding_agent.Prelude.{ℕ, String, Bool, str_eq, [], ◌∷◌}
use py_coding_agent.Prelude.Int.{pos}
use py_coding_agent.Value.{Fields, str, int, obj, dict_of}

pub data EventType : Type 0 where
  agent_start agent_end llm_request_start llm_request_stream llm_request_end tool_call_start :
      EventType
  tool_call_end tool_call_error context_build compaction_start compaction_end steering : EventType
  follow_up abort error session_save checkpoint_save : EventType

-- `event_type.value`
unfoldable pub type_value : EventType → String
type_value EventType.agent_start = "agent_start"
type_value EventType.agent_end = "agent_end"
type_value EventType.llm_request_start = "llm_request_start"
type_value EventType.llm_request_stream = "llm_request_stream"
type_value EventType.llm_request_end = "llm_request_end"
type_value EventType.tool_call_start = "tool_call_start"
type_value EventType.tool_call_end = "tool_call_end"
type_value EventType.tool_call_error = "tool_call_error"
type_value EventType.context_build = "context_build"
type_value EventType.compaction_start = "compaction_start"
type_value EventType.compaction_end = "compaction_end"
type_value EventType.steering = "steering"
type_value EventType.follow_up = "follow_up"
type_value EventType.abort = "abort"
type_value EventType.error = "error"
type_value EventType.session_save = "session_save"
type_value EventType.checkpoint_save = "checkpoint_save"

-- members of a StrEnum are equal when their values are
unfoldable pub same_type : EventType → EventType → Bool
same_type t u = str_eq (type_value t) (type_value u)

-- `payload_version` always is PAYLOAD_VERSION
pub record AgentEvent : Type 0 where
  pub kind : EventType
  pub event_id : String
  pub session_id : String
  pub run_id : String
  pub seq : ℕ
  pub utc_time : String
  pub payload : Fields

-- `to_dict`
unfoldable pub event_dict : AgentEvent → Fields
event_dict e = dict_of (
    ("type", str (type_value e.kind))
    ∷ ("event_id", str e.event_id)
    ∷ ("session_id", str e.session_id)
    ∷ ("run_id", str e.run_id)
    ∷ ("seq", int (pos e.seq))
    ∷ ("utc_time", str e.utc_time)
    ∷ ("payload", obj e.payload)
    ∷ ("payload_version", int (pos 1))
    ∷ [])
