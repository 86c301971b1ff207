-- ===== src/Message/Examples.antt =====
-- A short session: a task, an answer with one call, and its result.
use py_coding_agent.Prelude.{String, true, none, some, [], ◌∷◌, ◌++◌, ◌≡◌, ◌↔◌, refl, arith}
use py_coding_agent.Prelude.Dict.{contains, lookup, insert}
use py_coding_agent.Result.{ok}
use py_coding_agent.State.{StopReason}
use py_coding_agent.Value.{end, fields_json}
use py_coding_agent.Message.{
  MessageMeta, ToolCall, ToolResult, ToolResultStatus, Message, user_message, assistant_message,
  tool_result,
}
use py_coding_agent.Message.Log.{
  MessageLog, new_log, append, validate, record_message, find_result, find_tool_call,
}
use py_coding_agent.Message.Admission.{IsAdmissible}
use py_coding_agent.Message.WellFormed.{IsValid}
use py_coding_agent.Message.Append.{
  append_admits, results_final, built-IsValid, IsBuilt, created, appended,
}
use py_coding_agent.Message.Parse.{serialize, deserialize}
use py_coding_agent.Message.RoundTrip.{deserialize-serialize}

abbrev meta : String → MessageMeta
meta id = record { id = id; session_id = "s"; run_id = "r"; turn_id = 1; created_at = "t" }

abbrev task : Message
task = user_message (meta "m1") "fix it"

abbrev read_call : ToolCall
read_call = record { id = "c1"; name = "read"; arguments = end; ordinal = 0 }

abbrev answer : Message
answer = assistant_message (record {
  meta = meta "m2";
  content = "";
  stop_reason = StopReason.tool_calls;
  tool_calls = read_call ∷ [];
})

abbrev outcome : ToolResult
outcome = record {
  meta = meta "m3";
  tool_call_id = "c1";
  status = ToolResultStatus.completed;
  content = "text";
  artifact_ref = none;
  error_kind = none;
  retryable = none;
  exit_code = none;
}

abbrev empty : MessageLog
empty = record { session_id = "s"; messages = []; message_ids = []; tool_calls = []; results = [] }

abbrev asked : MessageLog
asked = record_message (record_message empty task) answer

built : IsBuilt "s" asked
unfolding new_log append validate record_message contains lookup fields_json
built = appended answer (appended task (created refl) refl) refl

append_admits_example :
    ((log' : MessageLog) × (append asked (tool_result outcome) ≡ ok log')
      × IsValid log'
      × (log'.messages ≡ asked.messages ++ tool_result outcome ∷ [])
      × (log'.session_id ≡ asked.session_id))
    ↔ IsAdmissible asked.session_id asked.messages (tool_result outcome)
append_admits_example = append_admits asked (tool_result outcome) (built-IsValid built).0

results_final_example :
    ((k : String) (r : ToolResult)
      → find_result asked k ≡ some r
      → find_result (record_message asked (tool_result outcome)) k ≡ some r)
    × ((k : String) (c : ToolCall)
        → find_tool_call asked k ≡ some c
        → find_tool_call (record_message asked (tool_result outcome)) k ≡ some c)
    × ((r : ToolResult)
        → tool_result outcome ≡ tool_result r
        → find_result (record_message asked (tool_result outcome)) r.tool_call_id ≡ some r)
unfolding append validate record_message contains insert lookup fields_json
results_final_example =
    results_final asked (record_message asked (tool_result outcome)) (tool_result outcome)
      (built-IsValid built).0 refl

built-IsValid_example : IsValid asked × (asked.session_id ≡ "s")
built-IsValid_example = built-IsValid built

deserialize-serialize_example : deserialize (λ s. some true) (serialize asked) ≡ ok asked
unfolding record_message
deserialize-serialize_example = deserialize-serialize (λ s. some true) asked built (ground arith)
