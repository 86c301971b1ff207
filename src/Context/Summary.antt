-- ===== src/Context/Summary.antt =====
-- The summaries of src/coding_agent/context/compaction.py: what is extracted from the covered messages,
-- how it is shown, and its stored form. Python's `str` on numbers and `lower` are arguments.
use py_coding_agent.Prelude.{
  ℕ, ◌+◌, String, Bool, Option, none, some, ◌||◌, str_eq, leb, ◌==◌, if◌then◌else◌, List, [], ◌∷◌,
  ◌++◌,
}
use py_coding_agent.Prelude.Int.{ℤ}
use py_coding_agent.Prelude.Dict.{Dict, lookup, insert, contains}
use py_coding_agent.Prelude.Text.{
  join, text_length, text_take, strip, newlines_to_spaces, starts_with, has_part,
}
use py_coding_agent.Value.{Value, str, get_field}
use py_coding_agent.Message.{
  Message, user_message, assistant_message, tool_result, system_message, ToolCall, ToolResult,
  ToolResultStatus, meta_of,
}
use py_coding_agent.Message.Dicts.{status_value}

pub record StructuredSummary : Type 0 where
  pub task_goal : String
  pub current_progress : String
  pub completed_work : String
  pub pending_work : String
  pub files_read : List String
  pub files_modified : List String
  pub commands_executed : List String
  pub test_results : String
  pub errors : List String
  pub important_decisions : String
  pub next_step : String
  pub source_ids : List String
  pub unknown_fields : List String

-- the variables of the loop of `extract_summary`; `call_info` has a call's tool and its command
pub record Extract : Type 0 where
  pub ids : List String
  pub goal : String
  pub read : List String
  pub modified : List String
  pub commands : List String
  pub failures : List String
  pub completed_calls : ℕ
  pub test_result : String
  pub call_info : Dict (String × Option String)

abbrev pub unknown : String
unknown = "unknown"

abbrev pub nothing_extracted : Extract
nothing_extracted = record {
  ids = [];
  goal = unknown;
  read = [];
  modified = [];
  commands = [];
  failures = [];
  completed_calls = 0;
  test_result = unknown;
  call_info = [];
}

-- `_append_unique`
unfoldable pub append_unique : List String → String → List String
append_unique target value = if contains value target then target else target ++ value ∷ []

-- `_shorten`
unfoldable pub shorten : String → String
shorten value = if leb (text_length value) 120 then value else join (text_take 117 value) "..."

abbrev text_of : Option Value → Option String
text_of (some (str s)) = some s
text_of _ = none

abbrev pub add_text : List String → Option String → List String
add_text target none = target
add_text target (some value) = append_unique target value

-- the command of a `bash` call
abbrev pub command_of : ToolCall → Option String
command_of c = if str_eq c.name "bash" then text_of (get_field c.arguments "command") else none

abbrev pub path_if : Bool → ToolCall → Option String
path_if test c = if test then text_of (get_field c.arguments "path") else none

abbrev pub shortened : Option String → Option String
shortened none = none
shortened (some command) = some (shorten command)

-- the body of the loop over the calls of a message
unfoldable pub extract_call : Extract → ToolCall → Extract
extract_call e c = record e {
  read = add_text e.read (path_if (str_eq c.name "read") c);
  modified = add_text e.modified (path_if (str_eq c.name "write" || str_eq c.name "edit") c);
  commands = add_text e.commands (shortened (command_of c));
  call_info = insert c.id (c.name, command_of c) e.call_info;
}

unfoldable pub extract_calls : Extract → List ToolCall → Extract
extract_calls e [] = e
extract_calls e (c ∷ cs) = extract_calls (extract_call e c) cs

abbrev pub info_of : Option (String × Option String) → String × Option String
info_of none = ("tool", none)
info_of (some info) = info

abbrev pub or_text : Option String → String → String
or_text none default = default
or_text (some s) default = if str_eq s "" then default else s

module _ (lower : String → String) (show_int : Option ℤ → String) where
  -- `_looks_like_test_command`
  unfoldable pub looks_like_test_command : String → Bool
  looks_like_test_command command =
      has_part "pytest" (lower command)
      || has_part " test" (lower command)
      || starts_with "test" (lower command)

  abbrev test_result_after : Option String → ToolResult → String → String
  test_result_after none r old = old
  test_result_after (some command) r old =
      if looks_like_test_command command
      then join "`" (
          join (text_take 80 command)
            (join "` completed (exit_code=" (join (show_int r.exit_code) ")")))
      else old

  -- what a result adds, given the tool and the command of its call
  unfoldable pub extract_result :
      Extract → ToolResult → String × Option String → ToolResultStatus → Extract
  extract_result e r (tool, command) ToolResultStatus.completed = record e {
    completed_calls = e.completed_calls + 1;
    test_result = test_result_after command r e.test_result;
  }
  extract_result e r (tool, command) status = record e {
    failures =
        e.failures
        ++ join tool (
            join ": "
              (join (status_value status) (join " (" (join (or_text r.error_kind "no kind") ")"))))
          ∷ [];
  }

  abbrev goal_after : String → String → String
  goal_after old content =
      if str_eq old unknown then text_take 200 (newlines_to_spaces (strip content)) else old

  unfoldable pub extract_kind : Extract → Message → Extract
  extract_kind e (system_message meta content) = e
  extract_kind e (user_message meta content) = record e { goal = goal_after e.goal content }
  extract_kind e (assistant_message m) = extract_calls e m.tool_calls
  extract_kind e (tool_result r) =
      extract_result e r (info_of (lookup r.tool_call_id e.call_info)) r.status

  -- the body of the loop over the messages
  unfoldable pub extract_message : Extract → Message → Extract
  extract_message e m = extract_kind (record e { ids = e.ids ++ (meta_of m).id ∷ [] }) m

  unfoldable pub extract_messages : Extract → List Message → Extract
  extract_messages e [] = e
  extract_messages e (m ∷ ms) = extract_messages (extract_message e m) ms

  -- a field's name, where the field's value is unknown
  abbrev if_unknown : String → String → List String → List String
  if_unknown value name rest = if str_eq value unknown then name ∷ rest else rest

  abbrev work_done : ℕ → String → String
  work_done n shown = if n == 0 then "none" else join shown " tool calls completed"

  unfoldable pub summary_of : (ℕ → String) → Extract → StructuredSummary
  summary_of show e = record {
    task_goal = e.goal;
    current_progress = unknown;
    completed_work = work_done e.completed_calls (show e.completed_calls);
    pending_work = unknown;
    files_read = e.read;
    files_modified = e.modified;
    commands_executed = e.commands;
    test_results = e.test_result;
    errors = e.failures;
    important_decisions = unknown;
    next_step = unknown;
    source_ids = e.ids;
    unknown_fields =
        "current_progress"
        ∷ "pending_work"
        ∷ "important_decisions"
        ∷ "next_step"
        ∷ if_unknown e.goal "task_goal" (if_unknown e.test_result "test_results" []);
  }

  unfoldable pub extract_summary : (ℕ → String) → List Message → StructuredSummary
  extract_summary show ms = summary_of show (extract_messages nothing_extracted ms)
