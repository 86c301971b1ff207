-- ===== src/Message.antt =====
-- src/coding_agent/domain/messages.py: the messages of a session and its append-only log.
pub mod Ordinals
pub mod Log
pub mod History
pub mod Admission
pub mod Refinement
pub mod WellFormed
pub mod Append
pub mod Dicts
pub mod Parse
pub mod RoundTrip
mod Examples
use py_coding_agent.Prelude.{ℕ, String, Bool, Option, List}
use py_coding_agent.Prelude.Int.{ℤ}
use py_coding_agent.State.{StopReason}
use py_coding_agent.Value.{Fields}

-- `schema_version` always is MESSAGE_SCHEMA_VERSION; a turn number is never negative
pub record MessageMeta : Type 0 where
  pub id : String
  pub session_id : String
  pub run_id : String
  pub turn_id : ℕ
  pub created_at : String

-- `arguments` is a Python dict with string keys
pub record ToolCall : Type 0 where
  pub id : String
  pub name : String
  pub arguments : Fields
  pub ordinal : ℕ

pub data ToolResultStatus : Type 0 where
  completed error denied timeout cancelled uncertain : ToolResultStatus

pub record AssistantMessage : Type 0 where
  pub meta : MessageMeta
  pub content : String
  pub stop_reason : StopReason
  pub tool_calls : List ToolCall

pub record ToolResult : Type 0 where
  pub meta : MessageMeta
  pub tool_call_id : String
  pub status : ToolResultStatus
  pub content : String
  pub artifact_ref : Option String
  pub error_kind : Option String
  pub retryable : Option Bool
  pub exit_code : Option ℤ

-- SystemMessage and UserMessage have no field of their own but `content`
pub data Message : Type 0 where
  system_message user_message : MessageMeta → String → Message
  assistant_message : AssistantMessage → Message
  tool_result : ToolResult → Message

unfoldable pub meta_of : Message → MessageMeta
meta_of (system_message meta content) = meta
meta_of (user_message meta content) = meta
meta_of (assistant_message m) = m.meta
meta_of (tool_result r) = r.meta

-- the codes of MessageValidationError; the last is SchemaVersionError
pub data ValidationCode : Type 0 where
  malformed_message invalid_timestamp unknown_message_type session_mismatch : ValidationCode
  duplicate_message_id orphan_tool_result duplicate_tool_result : ValidationCode
  invalid_tool_call_ordinal duplicate_tool_call_id arguments_not_json : ValidationCode
  schema_version_unsupported : ValidationCode
