-- ===== src/Message/Parse.antt =====
-- `from_dict`, `message_from_dict`, `serialize` and `deserialize` of
-- src/coding_agent/domain/messages.py.
use py_coding_agent.Prelude.{String, Bool, Option, none, some, str_eq, if◌then◌else◌, [], ◌∷◌, map}
use py_coding_agent.Prelude.Int.{pos}
use py_coding_agent.Result.{Result, ok, err, ◌>>=◌, ◌>>◌}
use py_coding_agent.Value.{
  Value, int, str, arr, obj, Items, nil, cons, Fields, get_field, dict_of, items_of,
}
use py_coding_agent.Message.{
  MessageMeta, Message, system_message, user_message, assistant_message, tool_result,
  ValidationCode, invalid_timestamp, unknown_message_type,
}
use py_coding_agent.Message.Log.{MessageLog, new_log, append}
use py_coding_agent.Message.Dicts.{
  require_mapping, require, require_str, require_text, require_schema_version, as_count,
  parse_stop_reason, parse_tool_result_status, optional_str, optional_bool, optional_int, as_items,
  calls_from_dicts, message_to_dict,
}

-- `datetime.fromisoformat`: none if it raises, else whether the time has a UTC offset
module _ (fromisoformat : String → Option Bool) where
  -- `_validate_utc_timestamp`
  unfoldable pub validate_utc_timestamp : Value → Result ValidationCode String
  validate_utc_timestamp (str s) = elim (fromisoformat s) [
    | none ↦ err invalid_timestamp
    | some aware ↦ if aware then ok s else err invalid_timestamp
  ]
  validate_utc_timestamp _ = err invalid_timestamp

  -- `MessageMeta.from_dict`
  unfoldable pub meta_from_dict : Value → Result ValidationCode MessageMeta
  unfolding require_mapping require require_str require_schema_version as_count
  meta_from_dict v = do
    d ← require_mapping v
    version ← require d "schema_version"
    require_schema_version version
    t ← require d "turn_id"
    turn_id ← as_count t
    id ← require_str d "id"
    session_id ← require_str d "session_id"
    run_id ← require_str d "run_id"
    c ← require d "created_at"
    created_at ← validate_utc_timestamp c
    ok (record {
      id = id;
      session_id = session_id;
      run_id = run_id;
      turn_id = turn_id;
      created_at = created_at;
    })

  unfoldable pub assistant_from_dict : Fields → MessageMeta → Result ValidationCode Message
  unfolding require require_text as_items
  assistant_from_dict d meta = do
    raw ← require d "tool_calls"
    items ← as_items raw
    calls ← calls_from_dicts items
    content ← require_text d "content"
    s ← require d "stop_reason"
    stop_reason ← parse_stop_reason s
    ok (
        assistant_message (record {
          meta = meta;
          content = content;
          stop_reason = stop_reason;
          tool_calls = calls;
        }))

  unfoldable pub result_from_dict : Fields → MessageMeta → Result ValidationCode Message
  unfolding require require_str require_text get_field
  result_from_dict d meta = do
    artifact_ref ← optional_str (get_field d "artifact_ref")
    error_kind ← optional_str (get_field d "error_kind")
    retryable ← optional_bool (get_field d "retryable")
    exit_code ← optional_int (get_field d "exit_code")
    tool_call_id ← require_str d "tool_call_id"
    s ← require d "status"
    status ← parse_tool_result_status s
    content ← require_text d "content"
    ok (
        tool_result (record {
          meta = meta;
          tool_call_id = tool_call_id;
          status = status;
          content = content;
          artifact_ref = artifact_ref;
          error_kind = error_kind;
          retryable = retryable;
          exit_code = exit_code;
        }))

  -- the branches of `message_from_dict` on the message type
  unfoldable pub body_from_dict : String → Fields → MessageMeta → Result ValidationCode Message
  unfolding require_text assistant_from_dict result_from_dict
  body_from_dict message_type d meta =
      if str_eq message_type "system"
      then (do content ← require_text d "content"; ok (system_message meta content))
      else if str_eq message_type "user"
      then (do content ← require_text d "content"; ok (user_message meta content))
      else if str_eq message_type "assistant"
      then assistant_from_dict d meta
      else if str_eq message_type "tool_result"
      then result_from_dict d meta
      else err unknown_message_type

  -- `message_from_dict`
  unfoldable pub message_from_dict : Value → Result ValidationCode Message
  unfolding require_mapping require require_str body_from_dict
  message_from_dict v = do
    d ← require_mapping v
    message_type ← require_str d "type"
    m ← require d "meta"
    meta ← meta_from_dict m
    body_from_dict message_type d meta

  -- the loop of `deserialize`: `log.append(message_from_dict(item))`
  unfoldable pub append_dicts : MessageLog → Items → Result ValidationCode MessageLog
  append_dicts log nil = ok log
  append_dicts log (cons v rest) = do
    message ← message_from_dict v
    log' ← append log message
    append_dicts log' rest

  -- `MessageLog.deserialize`
  unfoldable pub deserialize : Value → Result ValidationCode MessageLog
  deserialize v = do
    d ← require_mapping v
    version ← require d "schema_version"
    require_schema_version version
    session_id ← require_str d "session_id"
    raw ← require d "messages"
    items ← as_items raw
    log ← new_log session_id
    append_dicts log items

-- `MessageLog.serialize`
unfoldable pub serialize : MessageLog → Value
serialize log = obj (
    dict_of (
      ("schema_version", int (pos 1))
      ∷ ("session_id", str log.session_id)
      ∷ ("messages", arr (items_of (map message_to_dict log.messages)))
      ∷ []))
