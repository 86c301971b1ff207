-- ===== src/Context/Rendering.antt =====
-- A summary as text and in its stored form, in src/coding_agent/context/compaction.py.
use py_coding_agent.Prelude.{
  String, Option, none, some, str_eq, if◌then◌else◌, List, [], ◌∷◌, ◌++◌, map,
}
use py_coding_agent.Prelude.Text.{join, join_with}
use py_coding_agent.Value.{Value, str, arr, Fields, dict_of, get_field, list_of, items_of}
use py_coding_agent.Context.Summary.{StructuredSummary, unknown}

abbrev or_none : String → String
or_none s = if str_eq s "" then "none" else s

abbrev unknown_line : List String → List String
unknown_line [] = []
unknown_line (f ∷ fs) = join "unknown_fields: " (join_with ", " (f ∷ fs)) ∷ []

-- `render_summary`
unfoldable pub render_summary : StructuredSummary → String
render_summary s = join_with "\n" (
    "[summary of earlier history]"
    ∷ join "task_goal: " s.task_goal
    ∷ join "current_progress: " s.current_progress
    ∷ join "completed_work: " s.completed_work
    ∷ join "pending_work: " s.pending_work
    ∷ join "files_read: " (or_none (join_with ", " s.files_read))
    ∷ join "files_modified: " (or_none (join_with ", " s.files_modified))
    ∷ join "commands_executed: " (or_none (join_with ", " s.commands_executed))
    ∷ join "test_results: " s.test_results
    ∷ join "errors: " (or_none (join_with "; " s.errors))
    ∷ join "important_decisions: " s.important_decisions
    ∷ join "next_step: " s.next_step
    ∷ (unknown_line s.unknown_fields ++ join "source_ids: " (join_with ", " s.source_ids) ∷ []))

abbrev pub texts : List String → Value
texts l = arr (items_of (map str l))

-- `summary_payload`
unfoldable pub summary_payload : StructuredSummary → Fields
summary_payload s = dict_of (
    ("task_goal", str s.task_goal)
    ∷ ("current_progress", str s.current_progress)
    ∷ ("completed_work", str s.completed_work)
    ∷ ("pending_work", str s.pending_work)
    ∷ ("files_read", texts s.files_read)
    ∷ ("files_modified", texts s.files_modified)
    ∷ ("commands_executed", texts s.commands_executed)
    ∷ ("test_results", str s.test_results)
    ∷ ("errors", texts s.errors)
    ∷ ("important_decisions", str s.important_decisions)
    ∷ ("next_step", str s.next_step)
    ∷ ("source_ids", texts s.source_ids)
    ∷ ("unknown_fields", texts s.unknown_fields)
    ∷ [])

module _ (show : Value → String) where
  -- `str(value)`: a text is itself
  abbrev pub shown : Value → String
  shown (str s) = s
  shown v = show v

  abbrev pub field_text : Option Value → String
  field_text none = unknown
  field_text (some v) = shown v

  abbrev pub field_texts : Option Value → List String
  field_texts (some (arr items)) = map shown (list_of items)
  field_texts _ = []

  -- `summary_from_payload`
  unfoldable pub summary_from_payload : Fields → StructuredSummary
  summary_from_payload fields = record {
    task_goal = field_text (get_field fields "task_goal");
    current_progress = field_text (get_field fields "current_progress");
    completed_work = field_text (get_field fields "completed_work");
    pending_work = field_text (get_field fields "pending_work");
    files_read = field_texts (get_field fields "files_read");
    files_modified = field_texts (get_field fields "files_modified");
    commands_executed = field_texts (get_field fields "commands_executed");
    test_results = field_text (get_field fields "test_results");
    errors = field_texts (get_field fields "errors");
    important_decisions = field_text (get_field fields "important_decisions");
    next_step = field_text (get_field fields "next_step");
    source_ids = field_texts (get_field fields "source_ids");
    unknown_fields = field_texts (get_field fields "unknown_fields");
  }
