-- ===== src/Message/Log.antt =====
-- MessageLog of src/coding_agent/domain/messages.py: what `append` checks and what it records.
use py_coding_agent.Prelude.{
  String, Option, ◌||◌, not, str_eq, if◌then◌else◌, List, [], ◌∷◌, ◌++◌, map,
}
use py_coding_agent.Prelude.Dict.{Dict, lookup, insert, has_key, contains}
use py_coding_agent.Result.{Result, ok, err, ◌>>◌}
use py_coding_agent.Value.{fields_json}
use py_coding_agent.Message.Ordinals.{sorted, is_range_from}
use py_coding_agent.Message.{
  Message, assistant_message, tool_result, ToolCall, ToolResult, meta_of, ValidationCode,
  malformed_message, session_mismatch, duplicate_message_id, orphan_tool_result,
  duplicate_tool_result, invalid_tool_call_ordinal, duplicate_tool_call_id, arguments_not_json,
}

pub record MessageLog : Type 0 where
  pub session_id : String
  pub messages : List Message
  pub message_ids : List String  -- a set
  pub tool_calls : Dict ToolCall
  pub results : Dict ToolResult

-- `MessageLog(session_id)`
unfoldable pub new_log : String → Result ValidationCode MessageLog
new_log session_id =
    if str_eq session_id ""
    then err malformed_message
    else ok (record {
      session_id = session_id;
      messages = [];
      message_ids = [];
      tool_calls = [];
      results = [];
    })

-- the `for` loop of `_validate_tool_calls`; `seen` holds the ids of the calls before
unfoldable pub check_calls :
    Dict ToolCall → List String → List ToolCall → Result ValidationCode (Unit {0})
check_calls known seen [] = ok tt
check_calls known seen (call ∷ calls) =
    let rest = check_calls known (call.id ∷ seen) calls in
    if contains call.id seen || has_key call.id known
    then err duplicate_tool_call_id
    else if str_eq call.name ""
    then err malformed_message
    else if not (fields_json call.arguments)
    then err arguments_not_json
    else rest

-- `_validate_tool_calls`
unfoldable pub validate_tool_calls :
    Dict ToolCall → List ToolCall → Result ValidationCode (Unit {0})
unfolding sorted is_range_from check_calls
validate_tool_calls known calls =
    if not (is_range_from 0 (sorted (map (λ c. c.ordinal) calls)))
    then err invalid_tool_call_ordinal
    else check_calls known [] calls

-- the part of `_validate` that depends on the kind of the message; the types of the fields are
-- those of the records, so the `isinstance` checks hold
unfoldable pub validate_kind : MessageLog → Message → Result ValidationCode (Unit {0})
unfolding validate_tool_calls
validate_kind log (assistant_message m) = validate_tool_calls log.tool_calls m.tool_calls
validate_kind log (tool_result r) =
    if not (has_key r.tool_call_id log.tool_calls)
    then err orphan_tool_result
    else if has_key r.tool_call_id log.results
    then err duplicate_tool_result
    else ok tt
validate_kind log _ = ok tt

-- `_validate`
unfoldable pub validate : MessageLog → Message → Result ValidationCode (Unit {0})
unfolding validate_kind meta_of contains
validate log message =
    if not (str_eq (meta_of message).session_id log.session_id)
    then err session_mismatch
    else if contains (meta_of message).id log.message_ids
    then err duplicate_message_id
    else validate_kind log message

-- `for call in message.tool_calls: self._tool_calls[str(call.id)] = call`
unfoldable pub record_calls : List ToolCall → Dict ToolCall → Dict ToolCall
record_calls [] known = known
record_calls (call ∷ calls) known = record_calls calls (insert call.id call known)

unfoldable pub record_kind : Message → MessageLog → MessageLog
unfolding record_calls
record_kind (assistant_message m) log = record log {
  tool_calls = record_calls m.tool_calls log.tool_calls;
}
record_kind (tool_result r) log = record log { results = insert r.tool_call_id r log.results }
record_kind _ log = log

-- what `append` writes once the message has passed
unfoldable pub record_message : MessageLog → Message → MessageLog
unfolding record_kind meta_of
record_message log message = record_kind message (record log {
  messages = log.messages ++ message ∷ [];
  message_ids = (meta_of message).id ∷ log.message_ids;
})

-- `append` on a log without an observer
unfoldable pub append : MessageLog → Message → Result ValidationCode MessageLog
append log message = do validate log message; ok (record_message log message)

unfoldable pub find_tool_call : MessageLog → String → Option ToolCall
find_tool_call log call_id = lookup call_id log.tool_calls

unfoldable pub find_result : MessageLog → String → Option ToolResult
find_result log call_id = lookup call_id log.results
