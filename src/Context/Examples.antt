-- ===== src/Context/Examples.antt =====
-- A history of a task, a command with its result, a file that was not found, and a second task.
use Prim.Native.Char.{Char}
use py_coding_agent.Prelude.Text.{join}
use py_coding_agent.Prelude.{
  ◌==◌, if◌then◌else◌, ◌/◌, ℕ, ◌≡◌, refl, ◌⊎◌, String, Bool, true, false, Option, none, some, List,
  [], ◌∷◌, length, arith,
}
use py_coding_agent.Prelude.Int.{ℤ, pos}
use py_coding_agent.Prelude.Dict.{contains, lookup, insert}
use py_coding_agent.Prelude.Text.{
  text_length, text_take, strip, lstrip, rstrip, is_space, newlines_to_spaces, has_part,
  starts_with, join, join_with,
}
use py_coding_agent.Result.{ok}
use py_coding_agent.Value.{Value, str, Fields, field, end, get_field}
use py_coding_agent.State.{StopReason}
use py_coding_agent.Message.{
  MessageMeta, ToolResultStatus, Message, user_message, assistant_message, tool_result, meta_of,
}
use py_coding_agent.Message.Dicts.{status_value}
use py_coding_agent.Message.History.{ids_of, results_of, AreDistinct}
use py_coding_agent.Context.Groups.{
  distinct, answers, collect, first_group, group_from, group_messages, ungroup,
}
use py_coding_agent.Context.Grouping.{ungroup-group_messages}
use py_coding_agent.Context.Cut.{CutPlan, blocker, last_end, cut_groups, find_cut}
use py_coding_agent.Context.Cutting.{IsCut}
use py_coding_agent.Context.Summary.{
  StructuredSummary, append_unique, shorten, extract_call, extract_calls, looks_like_test_command,
  extract_result, extract_kind, extract_message, extract_messages, summary_of, extract_summary,
}
use py_coding_agent.Context.Rendering.{render_summary}
use py_coding_agent.Context.Compactor.{
  CompactionRecord, summary_record_of, compaction_record_from_store, index_from, last_id,
  covered_one, any_incomplete, validate_covered, validate_record, message_payload, count_messages,
  compact,
}
use py_coding_agent.Context.Extraction.{completed_in, failed_in, AreNoted, extract_summary-HasSeen}
use py_coding_agent.Context.Compaction.{IsCompaction, compact-IsCompaction}
use py_coding_agent.Context.Truncation.{DisplayedOutput, choose_strategy, truncate}
use py_coding_agent.Context.Stored.{compaction_record_from_store-summary_record_of}

abbrev meta : String → MessageMeta
meta id = record { id = id; session_id = "s"; run_id = "r"; turn_id = 1; created_at = "t" }

abbrev call : String → String → String → String → Message
call id call_id name key = assistant_message (record {
  meta = meta id;
  content = "";
  stop_reason = StopReason.tool_calls;
  tool_calls =
      record { id = call_id; name = name; arguments = field key (str "pytest") end; ordinal = 0 }
      ∷ [];
})

abbrev answer : String → String → ToolResultStatus → Message
answer id call_id status = tool_result (record {
  meta = meta id;
  tool_call_id = call_id;
  status = status;
  content = "text";
  artifact_ref = none;
  error_kind = none;
  retryable = none;
  exit_code = none;
})

abbrev history : List Message
history =
    user_message (meta "m1") "fix it"
    ∷ call "m2" "c1" "bash" "command"
    ∷ answer "m3" "c1" ToolResultStatus.completed
    ∷ call "m4" "c2" "read" "path"
    ∷ answer "m5" "c2" ToolResultStatus.error
    ∷ user_message (meta "m6") "and test it"
    ∷ []

-- arguments: texts in lower case already, no exit code, numbers shown as a digit, a token for each character
abbrev same : String → String
same s = s

abbrev no_code : Option ℤ → String
no_code _ = "None"

abbrev digit : ℕ → String
digit _ = "1"

abbrev dict_text : Fields → String
dict_text _ = "{}"

abbrev value_text : Value → String
value_text _ = "?"

abbrev characters : String → ℤ
characters s = pos (text_length s)

-- what the compactor makes of the history with two groups to preserve
abbrev summary : StructuredSummary
summary = record {
  task_goal = "fix it";
  current_progress = "unknown";
  completed_work = "1 tool calls completed";
  pending_work = "unknown";
  files_read = [];
  files_modified = [];
  commands_executed = "pytest" ∷ [];
  test_results = "`pytest` completed (exit_code=None)";
  errors = [];
  important_decisions = "unknown";
  next_step = "unknown";
  source_ids = "m1" ∷ "m2" ∷ "m3" ∷ [];
  unknown_fields = "current_progress" ∷ "pending_work" ∷ "important_decisions" ∷ "next_step" ∷ [];
}

abbrev compacted : CompactionRecord
compacted = record {
  summary = summary;
  covered_through_id = "m3";
  preserved_ids = "m4" ∷ "m5" ∷ "m6" ∷ [];
  token_before = pos 17;
  token_after = characters (render_summary summary);
  summary_version = pos 1;
}

history_compacted :
    compact dict_text same no_code digit characters 2 history none ≡ ok (some compacted)
unfolding compact find_cut cut_groups blocker last_end group_messages group_from first_group collect
    answers contains ungroup distinct ids_of meta_of last_id extract_summary summary_of
    extract_messages extract_message extract_kind extract_calls extract_call extract_result
    append_unique shorten looks_like_test_command text_length text_take strip lstrip rstrip is_space
    newlines_to_spaces has_part starts_with join status_value lookup insert get_field count_messages
    message_payload render_summary join_with validate_record validate_covered covered_one
    any_incomplete index_from
history_compacted = refl

ungroup-group_messages_example : ungroup (group_messages history) ≡ history
ungroup-group_messages_example = ungroup-group_messages history

history-AreDistinct : AreDistinct (ids_of history)
unfolding ids_of meta_of contains
history-AreDistinct = (refl, (refl, (refl, (refl, (refl, (refl, tt))))))

compact-IsCompaction_example :
    ((plan : CutPlan) × (r : CompactionRecord) × (compact dict_text same no_code digit characters 2
          history none
        ≡ ok (some r))
      × IsCut history 2 plan
      × IsCompaction history none plan r)
    ⊎ ((compact dict_text same no_code digit characters 2 history none ≡ ok none)
        × ((plan : CutPlan) → ¬ IsCut history 2 plan))
compact-IsCompaction_example =
    compact-IsCompaction dict_text same no_code digit characters (λ text. refl) 2 history none
      (omega arith) history-AreDistinct tt

extract_summary-HasSeen_example :
    let summary = extract_summary same no_code digit history in
    let completed = length (completed_in (results_of history)) in
    (summary.source_ids ≡ ids_of history)
    × (summary.completed_work
        ≡ (if completed == 0 then "none" else join (digit completed) " tool calls completed"))
    × AreNoted summary.errors (failed_in (results_of history))
    × AreDistinct summary.files_read
    × AreDistinct summary.files_modified
    × AreDistinct summary.commands_executed
extract_summary-HasSeen_example = extract_summary-HasSeen same no_code digit history

compaction_record_from_store-summary_record_of_example :
    compaction_record_from_store value_text (summary_record_of compacted)
    ≡ record compacted { preserved_ids = []; token_before = pos 0; token_after = pos 0 }
compaction_record_from_store-summary_record_of_example =
    compaction_record_from_store-summary_record_of value_text compacted

-- half of the characters for the head, rounded down
abbrev half : ℕ → ℕ
half n = n / 2

abbrev nowhere : String → String → Unit {0} → Bool × Unit {0}
nowhere name text w = (false, w)

abbrev no_alnum : Char → Bool
no_alnum c = false

abbrev fifty : String
fifty = "01234567890123456789012345678901234567890123456789"

-- an output of 400 characters
abbrev long_output : String
long_output =
    let hundred = join fifty fifty in
    let two_hundred = join hundred hundred in join two_hundred two_hundred

is_long : text_length long_output ≡ 400
unfolding text_length join
is_long = refl

abbrev of_long : DisplayedOutput × Unit {0}
of_long = truncate digit no_alnum nowhere half 300 2000000 true "id" "bash" long_output none tt

-- an output that just fits
shows_all : truncate digit no_alnum nowhere half 50 2000000 true "id" "bash" fifty none tt ≡ (
  record {
    text = fifty;
    omitted_count = 0;
    artifact_ref = none;
    strategy = choose_strategy "bash" none;
  },
  tt,
)
unfolding truncate text_length
shows_all = refl
