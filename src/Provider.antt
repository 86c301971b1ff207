-- ===== src/Provider.antt =====
-- src/coding_agent/ports/provider.py and src/coding_agent/ports/tool.py: what the loop exchanges with
-- the model and with the tools.
pub mod Validation
pub mod Accepted
mod Examples
use py_coding_agent.Prelude.{ℕ, String, Bool, Option, List}
use py_coding_agent.Prelude.Int.{ℤ}
use py_coding_agent.State.{StopReason}
use py_coding_agent.Message.{ToolCall, ToolResultStatus}

pub data ProviderErrorKind : Type 0 where
  rate_limit timeout invalid_response invalid_request cancelled unavailable : ProviderErrorKind

pub record TokenUsage : Type 0 where
  pub input_tokens : Option ℕ
  pub output_tokens : Option ℕ

pub record ModelResponse : Type 0 where
  pub content : String
  pub stop_reason : StopReason
  pub tool_calls : List ToolCall
  pub usage : Option TokenUsage
  pub response_id : String

pub record ToolOutcome : Type 0 where
  pub status : ToolResultStatus
  pub content : String
  pub artifact_ref : Option String
  pub error_kind : Option String
  pub retryable : Option Bool
  pub exit_code : Option ℤ
