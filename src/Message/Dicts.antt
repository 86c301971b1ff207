-- ===== src/Message/Dicts.antt =====
-- The dict form of a message in src/coding_agent/domain/messages.py: `to_dict` and `from_dict`.
use py_coding_agent.Prelude.{
  ℕ, String, Bool, false, Option, none, some, str_eq, ◌==◌, not, if◌then◌else◌, List, [], ◌∷◌, map,
}
use py_coding_agent.Prelude.Int.{ℤ, pos}
use py_coding_agent.Result.{Result, ok, err, ◌>>=◌, raise_if}
use py_coding_agent.State.{StopReason}
use py_coding_agent.Value.{
  Value, null, boolean, int, float, str, arr, obj, Items, nil, cons, Fields, get_field, dict_of,
  items_of,
}
use py_coding_agent.Message.{
  MessageMeta, ToolCall, ToolResultStatus, Message, system_message, user_message, assistant_message,
  tool_result, ValidationCode, malformed_message, schema_version_unsupported,
}

-- `_require_mapping`
unfoldable pub require_mapping : Value → Result ValidationCode Fields
require_mapping (obj d) = ok d
require_mapping _ = err malformed_message

-- `_require`
unfoldable pub require : Fields → String → Result ValidationCode Value
unfolding get_field
require d key = elim (get_field d key) [ none ↦ err malformed_message | some v ↦ ok v ]

-- a string that is not empty
unfoldable pub as_nonempty : Value → Result ValidationCode String
as_nonempty (str s) = if str_eq s "" then err malformed_message else ok s
as_nonempty _ = err malformed_message

unfoldable pub as_text : Value → Result ValidationCode String
as_text (str s) = ok s
as_text _ = err malformed_message

-- `_require_str` and `_require_text`
unfoldable pub require_str : Fields → String → Result ValidationCode String
unfolding require as_nonempty
require_str d key = do v ← require d key; as_nonempty v

unfoldable pub require_text : Fields → String → Result ValidationCode String
unfolding require as_text
require_text d key = do v ← require d key; as_text v

-- `value == MESSAGE_SCHEMA_VERSION`; in Python `True == 1` and `1.0 == 1`
unfoldable pub is_schema_version : Value → Bool
is_schema_version (int (pos n)) = n == 1
is_schema_version (boolean b) = b
is_schema_version (float x) = str_eq x "1.0"
is_schema_version _ = false

-- `_require_schema_version`
unfoldable pub require_schema_version : Value → Result ValidationCode (Unit {0})
unfolding is_schema_version
require_schema_version v = raise_if (not (is_schema_version v)) schema_version_unsupported

-- an int that is no bool and not negative
unfoldable pub as_count : Value → Result ValidationCode ℕ
as_count (int (pos n)) = ok n
as_count _ = err malformed_message

-- `StopReason(value)` and `str(stop_reason)`
unfoldable pub stop_reason_value : StopReason → String
stop_reason_value StopReason.end_turn = "end_turn"
stop_reason_value StopReason.tool_calls = "tool_calls"
stop_reason_value StopReason.max_tokens = "max_tokens"
stop_reason_value StopReason.cancelled = "cancelled"
stop_reason_value StopReason.provider_error = "provider_error"

unfoldable pub parse_stop_reason : Value → Result ValidationCode StopReason
parse_stop_reason (str s) =
    if str_eq s "end_turn"
    then ok StopReason.end_turn
    else if str_eq s "tool_calls"
    then ok StopReason.tool_calls
    else if str_eq s "max_tokens"
    then ok StopReason.max_tokens
    else if str_eq s "cancelled"
    then ok StopReason.cancelled
    else if str_eq s "provider_error"
    then ok StopReason.provider_error
    else err malformed_message
parse_stop_reason _ = err malformed_message

unfoldable pub status_value : ToolResultStatus → String
status_value ToolResultStatus.completed = "completed"
status_value ToolResultStatus.error = "error"
status_value ToolResultStatus.denied = "denied"
status_value ToolResultStatus.timeout = "timeout"
status_value ToolResultStatus.cancelled = "cancelled"
status_value ToolResultStatus.uncertain = "uncertain"

unfoldable pub parse_tool_result_status : Value → Result ValidationCode ToolResultStatus
parse_tool_result_status (str s) =
    if str_eq s "completed"
    then ok ToolResultStatus.completed
    else if str_eq s "error"
    then ok ToolResultStatus.error
    else if str_eq s "denied"
    then ok ToolResultStatus.denied
    else if str_eq s "timeout"
    then ok ToolResultStatus.timeout
    else if str_eq s "cancelled"
    then ok ToolResultStatus.cancelled
    else if str_eq s "uncertain"
    then ok ToolResultStatus.uncertain
    else err malformed_message
parse_tool_result_status _ = err malformed_message

-- the four optional fields of a tool result: `data.get(key)`, null or missing is None
unfoldable pub optional_str : Option Value → Result ValidationCode (Option String)
optional_str none = ok none
optional_str (some null) = ok none
optional_str (some (str s)) = ok (some s)
optional_str (some _) = err malformed_message

unfoldable pub optional_bool : Option Value → Result ValidationCode (Option Bool)
optional_bool none = ok none
optional_bool (some null) = ok none
optional_bool (some (boolean b)) = ok (some b)
optional_bool (some _) = err malformed_message

unfoldable pub optional_int : Option Value → Result ValidationCode (Option ℤ)
optional_int none = ok none
optional_int (some null) = ok none
optional_int (some (int n)) = ok (some n)
optional_int (some _) = err malformed_message

-- `value` or None, as JSON
abbrev pub or_null {ℓ} : {A : Type ℓ} → (A → Value) → Option A → Value
or_null f none = null
or_null f (some a) = f a

-- `MessageMeta.to_dict`
unfoldable pub meta_to_dict : MessageMeta → Value
meta_to_dict m = obj (
    dict_of (
      ("id", str m.id)
      ∷ ("session_id", str m.session_id)
      ∷ ("run_id", str m.run_id)
      ∷ ("turn_id", int (pos m.turn_id))
      ∷ ("created_at", str m.created_at)
      ∷ ("schema_version", int (pos 1))
      ∷ []))

-- `ToolCall.to_dict`
unfoldable pub call_to_dict : ToolCall → Value
call_to_dict c = obj (
    dict_of (
      ("id", str c.id)
      ∷ ("name", str c.name)
      ∷ ("arguments", obj c.arguments)
      ∷ ("ordinal", int (pos c.ordinal))
      ∷ []))

-- `message_to_dict`
unfoldable pub message_to_dict : Message → Value
message_to_dict (system_message meta content) =
    obj (
      dict_of
        (("type", str "system") ∷ ("meta", meta_to_dict meta) ∷ ("content", str content) ∷ []))
message_to_dict (user_message meta content) =
    obj
      (dict_of (("type", str "user") ∷ ("meta", meta_to_dict meta) ∷ ("content", str content) ∷ []))
message_to_dict (assistant_message m) = obj (
    dict_of (
      ("type", str "assistant")
      ∷ ("meta", meta_to_dict m.meta)
      ∷ ("content", str m.content)
      ∷ ("stop_reason", str (stop_reason_value m.stop_reason))
      ∷ ("tool_calls", arr (items_of (map call_to_dict m.tool_calls)))
      ∷ []))
message_to_dict (tool_result r) = obj (
    dict_of (
      ("type", str "tool_result")
      ∷ ("meta", meta_to_dict r.meta)
      ∷ ("tool_call_id", str r.tool_call_id)
      ∷ ("status", str (status_value r.status))
      ∷ ("content", str r.content)
      ∷ ("artifact_ref", or_null str r.artifact_ref)
      ∷ ("error_kind", or_null str r.error_kind)
      ∷ ("retryable", or_null boolean r.retryable)
      ∷ ("exit_code", or_null int r.exit_code)
      ∷ []))

-- `ToolCall.from_dict`
unfoldable pub call_from_dict : Value → Result ValidationCode ToolCall
unfolding require_mapping require require_str as_count
call_from_dict v = do
  d ← require_mapping v
  o ← require d "ordinal"
  ordinal ← as_count o
  a ← require d "arguments"
  arguments ← require_mapping a
  id ← require_str d "id"
  name ← require_str d "name"
  ok (record { id = id; name = name; arguments = arguments; ordinal = ordinal })

-- `tuple(ToolCall.from_dict(call) for call in raw_calls)`
unfoldable pub calls_from_dicts : Items → Result ValidationCode (List ToolCall)
unfolding call_from_dict
calls_from_dicts nil = ok []
calls_from_dicts (cons v rest) = do
  call ← call_from_dict v
  calls ← calls_from_dicts rest
  ok (call ∷ calls)

-- a list or a tuple
unfoldable pub as_items : Value → Result ValidationCode Items
as_items (arr items) = ok items
as_items _ = err malformed_message
