-- ===== src/Provider/Validation.antt =====
-- The checks of src/coding_agent/ports/provider.py on requests and responses.
use py_coding_agent.Prelude.{
  String, Bool, true, false, not, str_eq, ◌==◌, List, [], ◌∷◌, map, length,
}
use py_coding_agent.Prelude.Dict.{contains}
use py_coding_agent.Result.{Result, ok, err, ◌>>◌, raise_if}
use py_coding_agent.State.{StopReason}
use py_coding_agent.Value.{Value, obj, fields_json}
use py_coding_agent.Message.{ToolCall}
use py_coding_agent.Message.Dicts.{parse_stop_reason}
use py_coding_agent.Message.History.{call_ids}
use py_coding_agent.Message.Ordinals.{sorted, is_range_from}
use py_coding_agent.Context.Groups.{distinct}
use py_coding_agent.Provider.{ProviderErrorKind, ModelResponse}

pub record ToolDefinition : Type 0 where
  pub name : String
  pub description : String
  pub json_schema : Value

unfoldable pub normalize_stop_reason : Value → Result ProviderErrorKind StopReason
normalize_stop_reason value = normalized (parse_stop_reason value)
  where
    normalized : {E : Type 0} → Result E StopReason → Result ProviderErrorKind StopReason
    normalized (ok reason) = ok reason
    normalized (err e) = err ProviderErrorKind.invalid_response

abbrev is_mapping : Value → Bool
is_mapping (obj d) = true
is_mapping v = false

-- the loop of `validate_model_request`; `names` are those seen before
unfoldable pub check_tools : List String → List ToolDefinition → Result ProviderErrorKind (Unit {0})
check_tools names [] = ok tt
check_tools names (t ∷ ts) =
    raise_if (str_eq t.name "") ProviderErrorKind.invalid_request
    >> raise_if (contains t.name names) ProviderErrorKind.invalid_request
    >> raise_if (not (is_mapping t.json_schema)) ProviderErrorKind.invalid_request
    >> check_tools (t.name ∷ names) ts

-- `validate_model_request`, on the request's tools
unfoldable pub validate_model_request : List ToolDefinition → Result ProviderErrorKind (Unit {0})
validate_model_request tools = check_tools [] tools

abbrev pub is_tool_calls : StopReason → Bool
is_tool_calls StopReason.tool_calls = true
is_tool_calls reason = false

-- the loop over the calls of a response
unfoldable pub check_response_calls : List ToolCall → Result ProviderErrorKind (Unit {0})
check_response_calls [] = ok tt
check_response_calls (c ∷ cs) =
    raise_if (str_eq c.name "") ProviderErrorKind.invalid_response
    >> raise_if (not (fields_json c.arguments)) ProviderErrorKind.invalid_response
    >> check_response_calls cs

abbrev pub validate_calls : StopReason → List ToolCall → Result ProviderErrorKind (Unit {0})
validate_calls reason [] = raise_if (is_tool_calls reason) ProviderErrorKind.invalid_response
validate_calls reason (c ∷ cs) =
    raise_if (not (is_tool_calls reason)) ProviderErrorKind.invalid_response
    >> raise_if (not (is_range_from 0 (sorted (map (λ x. x.ordinal) (c ∷ cs)))))
        ProviderErrorKind.invalid_response
    >> raise_if (not (length (distinct (call_ids (c ∷ cs))) == length (call_ids (c ∷ cs))))
        ProviderErrorKind.invalid_response
    >> check_response_calls (c ∷ cs)

-- `validate_model_response`; the stop reason is a member of StopReason, which is its own normal form
unfoldable pub validate_model_response : ModelResponse → Result ProviderErrorKind (Unit {0})
validate_model_response r = validate_calls r.stop_reason r.tool_calls
