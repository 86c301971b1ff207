-- ===== src/Tools/Pipeline.antt =====
-- src/coding_agent/tools/pipeline.py: the data of a tool call, and what is computed from it.
use py_coding_agent.Prelude.{
  ℕ, String, Bool, true, false, Option, none, some, min, not, ◌==◌, str_eq, if◌then◌else◌, List, [],
  ◌∷◌, is_some,
}
use py_coding_agent.Prelude.Int.{ℤ, pos, negsuc}
use py_coding_agent.Prelude.Text.{join}
use py_coding_agent.Result.{Result, ok, err}
use py_coding_agent.Value.{Value, obj, Fields, end, field, get_field}
use py_coding_agent.Message.{ToolCall, ToolResultStatus}
use py_coding_agent.Provider.{ToolOutcome}
use py_coding_agent.Tools.Recovery.{ToolExecutionError, hint_for_kind}

pub data PermissionDecision : Type 0 where
  allow deny require_approval : PermissionDecision

-- PermissionResult, or a policy's own result, which may carry the last two as well
pub record PermissionResult : Type 0 where
  pub decision : PermissionDecision
  pub reason : String
  pub risk : Option String
  pub policy_version : Option String

-- ToolSpec
pub record ToolSpec : Type 0 where
  pub name : String
  pub description : String
  pub json_schema : Fields

-- RegisteredTool: the normalized name, which also stands for the implementation, and the declaration
pub record RegisteredTool : Type 0 where
  pub name : String
  pub spec : ToolSpec

-- ToolInvocation, with the deadline of its context
pub record ToolInvocation : Type 0 where
  pub call : ToolCall
  pub tool : RegisteredTool
  pub args : Fields
  pub deadline : Option ℕ

-- ToolExecution
pub record ToolExecution : Type 0 where
  pub output : String
  pub exit_code : Option ℤ
  pub artifacts : List String

-- how an awaited `tool.execute` under `wait_for` ends
pub data ToolEnd : Type 0 where
  finished : ToolExecution → ToolEnd
  refused : ToolExecutionError → ToolEnd
  out_of_time cancelled : ToolEnd
  crashed : String → ToolEnd

pub data Stage : Type 0 where
  permission safety : Stage

-- PipelineEventKind
pub data PipelineEventKind : Type 0 where
  tool_call_start tool_call_end tool_call_error hook_error policy_decision : PipelineEventKind

-- what the pipeline does that others see: an event, a policy's answer, the call of the tool
pub data Notice : Type 0 where
  event : PipelineEventKind → String → Option String → Notice
  judged : Stage → PermissionDecision → Notice
  executed : String → Notice

-- the state: all that is outside, and the notices, the latest one first
pub record PipelineState (W : Type 0) : Type 0 where
  pub world : W
  pub trace : List Notice

-- ToolPipelineHooks
pub record Hooks (W : Type 0) : Type 0 where
  pub before : ToolInvocation → W → Result String (Option PermissionResult) × W
  pub after : ToolInvocation → ToolOutcome → W → Result String (Unit {0}) × W

-- The arguments of `ToolPipeline`, and the libraries that it calls. An error is an exception's type
-- name and text. `schema_errors` is jsonschema's validator, `normalize_name` the pattern of tool names.
pub record Environment : Type 1 where
  pub World : Type 0
  pub normalize_name : String → Result String String
  pub repr : String → String
  pub schema_errors : Fields → Fields → List String
  pub hooks : Option (Hooks World)
  pub authorize : Stage → ToolInvocation → World → Result String PermissionResult × World
  pub execute : RegisteredTool → ToolInvocation → Option ℕ → World → ToolEnd × World
  pub process :
      Option (ToolOutcome → ToolInvocation → World → Result String (Option ToolOutcome) × World)
  pub execute_timeout : Option ℕ
  pub seconds : Option ℕ → String

-- `RegistrySnapshot.get` on a normalized name
unfoldable pub find_tool : String → List RegisteredTool → Option RegisteredTool
find_tool name [] = none
find_tool name (t ∷ ts) = if str_eq t.name name then some t else find_tool name ts

abbrev default_of : Value → Option Value
default_of (obj prop) = get_field prop "default"
default_of _ = none

abbrev pub append_field : Fields → String → Value → Fields
append_field end k v = field k v end
append_field (field j w rest) k v = field j w (append_field rest k v)

abbrev with_default : String → Option Value → Fields → Fields
with_default key none args = args
with_default key (some v) args =
    if is_some (get_field args key) then args else append_field args key v

-- the loop over `properties.items()`
unfoldable pub fill_defaults : Fields → Fields → Fields
fill_defaults end args = args
fill_defaults (field key prop rest) args =
    fill_defaults rest (with_default key (default_of prop) args)

abbrev properties_of : Option Value → Fields
properties_of (some (obj properties)) = properties
properties_of _ = end

-- `_validate_and_preprocess`: the validator's errors, or the arguments with the defaults
unfoldable pub validate_and_preprocess :
    (Fields → Fields → List String) → RegisteredTool → Fields → Result (List String) Fields
validate_and_preprocess schema_errors tool args = elim (schema_errors tool.spec.json_schema args) [
  | [] ↦ ok (fill_defaults (properties_of (get_field tool.spec.json_schema "properties")) args)
  | e ∷ es ↦ err (e ∷ es)
]

abbrev pub plain_outcome : ToolResultStatus → String → String → ToolOutcome
plain_outcome status content kind = record {
  status = status;
  content = content;
  artifact_ref = none;
  error_kind = some kind;
  retryable = none;
  exit_code = none;
}

abbrev first_of : List String → Option String
first_of [] = none
first_of (a ∷ rest) = some a

abbrev is_failure : Option ℤ → Bool
is_failure none = false
is_failure (some (pos n)) = not (n == 0)
is_failure (some (negsuc n)) = true

-- `_normalize_success`
unfoldable pub normalize_success : ToolExecution → ToolOutcome
normalize_success e =
    if is_failure e.exit_code
    then (record {
      status = ToolResultStatus.error;
      content = e.output;
      artifact_ref = first_of e.artifacts;
      error_kind = some "nonzero_exit";
      retryable = some (hint_for_kind (some "nonzero_exit")).retryable;
      exit_code = e.exit_code;
    })
    else record {
      status = ToolResultStatus.completed;
      content = e.output;
      artifact_ref = first_of e.artifacts;
      error_kind = none;
      retryable = none;
      exit_code = e.exit_code;
    }

abbrev pub or_no_reason : String → String
or_no_reason reason = if str_eq reason "" then "no reason given" else reason

abbrev pub stage_name : Stage → String
stage_name Stage.permission = "permission"
stage_name Stage.safety = "safety"

abbrev pub joined : List String → String
joined [] = ""
joined (e ∷ []) = e
joined (e ∷ f ∷ fs) = join e (join "; " (joined (f ∷ fs)))

-- the smaller of the pipeline's timeout and the deadline
unfoldable pub smaller : Option ℕ → Option ℕ → Option ℕ
smaller none deadline = deadline
smaller (some t) none = some t
smaller (some t) (some d) = some (min t d)

-- the outcome of `_denial_outcome`
unfoldable pub denial : Stage → PermissionResult → ToolOutcome
denial stage result = elim result.decision [
  | require_approval ↦
      plain_outcome ToolResultStatus.denied
        (join "denied at " (
          join (stage_name stage) (
            join ": approval required (" (
              join (or_no_reason result.reason)
                "); no interactive approver is available, so the call was not executed"))))
        (join (stage_name stage) "_approval_required")
  | _ ↦
      plain_outcome ToolResultStatus.denied
        (join "denied at " (join (stage_name stage) (join ": " (or_no_reason result.reason))))
        (join (stage_name stage) "_denied")
]

abbrev decision_value : PermissionDecision → String
decision_value allow = "allow"
decision_value deny = "deny"
decision_value require_approval = "require_approval"

abbrev with_part : String → Option String → String
with_part label none = ""
with_part label (some part) = join label part

abbrev unless_empty : Option String → Option String
unless_empty none = none
unless_empty (some v) = if str_eq v "" then none else some v

-- the detail of a POLICY_DECISION event
unfoldable pub decision_detail : Stage → PermissionResult → String
decision_detail stage result = join "stage=" (
    join (stage_name stage) (
      join " decision=" (
        join (decision_value result.decision) (
          join " reason=" (
            join result.reason (
              join (with_part " risk=" result.risk)
                (with_part " policy=" (unless_empty result.policy_version))))))))
