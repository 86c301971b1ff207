-- ===== src/Provider/Examples.antt =====
-- Runs of the checks on requests and responses.
use py_coding_agent.Prelude.{String, none, List, [], ◌∷◌, ◌≡◌, refl}
use py_coding_agent.Prelude.Dict.{contains}
use py_coding_agent.Result.{ok, err}
use py_coding_agent.State.{StopReason}
use py_coding_agent.Value.{str, obj, end, field, fields_json}
use py_coding_agent.Message.{ToolCall}
use py_coding_agent.Message.Dicts.{parse_stop_reason}
use py_coding_agent.Message.Ordinals.{sorted, is_range_from}
use py_coding_agent.Context.Groups.{distinct}
use py_coding_agent.Provider.{ProviderErrorKind, ModelResponse}
use py_coding_agent.Provider.Validation.{
  ToolDefinition, normalize_stop_reason, check_tools, validate_model_request, check_response_calls,
  validate_model_response,
}

abbrev read_call : ToolCall
read_call = record {
  id = "c1";
  name = "read";
  arguments = field "path" (str "a.py") end;
  ordinal = 1;
}

abbrev edit_call : ToolCall
edit_call = record { id = "c2"; name = "edit"; arguments = end; ordinal = 0 }

abbrev response_of : StopReason → List ToolCall → ModelResponse
response_of reason calls = record {
  content = "";
  stop_reason = reason;
  tool_calls = calls;
  usage = none;
  response_id = "r";
}

abbrev two_calls : ModelResponse
two_calls = response_of StopReason.tool_calls (read_call ∷ edit_call ∷ [])

two_accepted : validate_model_response two_calls ≡ ok tt
unfolding validate_model_response check_response_calls distinct contains sorted is_range_from
    fields_json
two_accepted = refl

calls_without_their_reason :
    validate_model_response (response_of StopReason.end_turn (edit_call ∷ []))
    ≡ err ProviderErrorKind.invalid_response
unfolding validate_model_response
calls_without_their_reason = refl

one_id_twice :
    validate_model_response
      (response_of StopReason.tool_calls (edit_call ∷ record edit_call { ordinal = 1 } ∷ []))
    ≡ err ProviderErrorKind.invalid_response
unfolding validate_model_response check_response_calls distinct contains sorted is_range_from
    fields_json
one_id_twice = refl

abbrev tool_of : String → ToolDefinition
tool_of name = record { name = name; description = ""; json_schema = obj end }

two_tools : validate_model_request (tool_of "read" ∷ tool_of "edit" ∷ []) ≡ ok tt
unfolding validate_model_request check_tools contains
two_tools = refl

one_tool_twice :
    validate_model_request (tool_of "read" ∷ tool_of "read" ∷ [])
    ≡ err ProviderErrorKind.invalid_request
unfolding validate_model_request check_tools contains
one_tool_twice = refl

no_such_reason : normalize_stop_reason (str "stop") ≡ err ProviderErrorKind.invalid_response
unfolding normalize_stop_reason parse_stop_reason
no_such_reason = refl
