-- ===== src/Tools/Recovery.antt =====
-- src/coding_agent/tools/recovery.py: what a tool's failure is called, and what is said of it.
use Prim.Native.String.{String}
use py_coding_agent.Prelude.{Bool, true, false, Option, none, some, str_eq, if◌then◌else◌, [], ◌∷◌}
use py_coding_agent.Prelude.Int.{ℤ}
use py_coding_agent.Prelude.Dict.{Dict, lookup}
use py_coding_agent.Prelude.Text.{join}
use py_coding_agent.Message.{ToolResultStatus}
use py_coding_agent.Provider.{ToolOutcome}

pub record RecoveryHint : Type 0 where
  pub retryable : Bool
  pub suggestion : String

-- ToolExecutionError
pub record ToolExecutionError : Type 0 where
  pub kind : String
  pub message : String
  pub exit_code : Option ℤ
  pub output : Option String

abbrev no_retry_policy : String
no_retry_policy = "policy decision; change the request or ask for approval instead of retrying"

abbrev hint : Bool → String → RecoveryHint
hint retryable suggestion = record { retryable = retryable; suggestion = suggestion }

-- `_HINTS`, in its order
unfoldable pub hints : Dict RecoveryHint
hints =
    ("file_not_found", hint true "verify the path (list the directory) and retry")
    ∷ ("not_a_file", hint true "the target is a directory; pick a file path")
    ∷ ("binary_file", hint false "the file is binary; text tools cannot edit it")
    ∷ ("invalid_encoding", hint false "the file is not UTF-8; choose another file or tool")
    ∷ (
      "file_too_large",
      hint true "read a smaller line range (start_line/end_line) instead of the whole file",
    )
    ∷ ("path_escape", hint true "stay inside the workspace and retry")
    ∷ ("invalid_arguments", hint true "fix the arguments to match the tool schema and retry")
    ∷ ("replace_not_found", hint true "re-read the file and copy the exact text to replace")
    ∷ ("replace_not_unique", hint true "include more surrounding context or set replace_all")
    ∷ ("timeout", hint false "do not blindly rerun; narrow the command or split the work first")
    ∷ ("cancelled", hint false "the run was cancelled; do not retry automatically")
    ∷ ("spawn_failed", hint false "the process could not start; check the environment")
    ∷ (
      "workspace_missing",
      hint false "the workspace directory is missing; report it instead of retrying",
    )
    ∷ ("unknown_tool", hint true "use one of the declared tools")
    ∷ ("nonzero_exit", hint false "inspect stdout/stderr before rerunning side-effect commands")
    ∷ ("internal_error", hint false "internal failure; report it and avoid repeating the same call")
    ∷ ("hook_denied", hint false no_retry_policy)
    ∷ ("permission_denied", hint false no_retry_policy)
    ∷ ("permission_approval_required", hint false no_retry_policy)
    ∷ ("safety_denied", hint false no_retry_policy)
    ∷ ("safety_approval_required", hint false no_retry_policy)
    ∷ ("tool_budget_exhausted", hint false "the tool call budget for this run is exhausted")
    ∷ (
      "uncertain_effect",
      hint false "side-effect state is unknown; manual reconciliation is required",
    )
    ∷ []

abbrev pub unknown_hint : RecoveryHint
unknown_hint = hint false "no recovery hint for this failure; inspect the message"

abbrev or_unknown : Option RecoveryHint → RecoveryHint
or_unknown none = unknown_hint
or_unknown (some h) = h

unfoldable pub hint_for_kind : Option String → RecoveryHint
hint_for_kind none = unknown_hint
hint_for_kind (some kind) = or_unknown (lookup kind hints)

unfoldable pub status_of_kind : String → ToolResultStatus
status_of_kind kind =
    if str_eq kind "timeout"
    then ToolResultStatus.timeout
    else if str_eq kind "cancelled"
    then ToolResultStatus.cancelled
    else ToolResultStatus.error

-- `f"{err.message}\n{err.output}" if err.output else err.message`
abbrev with_output : String → Option String → String
with_output message none = message
with_output message (some output) =
    if str_eq output "" then message else join message (join "\n" output)

unfoldable pub normalize_tool_error : ToolExecutionError → ToolOutcome
normalize_tool_error e = record {
  status = status_of_kind e.kind;
  content = with_output e.message e.output;
  artifact_ref = none;
  error_kind = some e.kind;
  retryable = some (hint_for_kind (some e.kind)).retryable;
  exit_code = e.exit_code;
}

-- the argument is the exception's type name and text
unfoldable pub normalize_internal_error : String → ToolOutcome
normalize_internal_error e = record {
  status = ToolResultStatus.error;
  content = join "tool failed with an internal error: " e;
  artifact_ref = none;
  error_kind = some "internal_error";
  retryable = some (hint_for_kind (some "internal_error")).retryable;
  exit_code = none;
}
