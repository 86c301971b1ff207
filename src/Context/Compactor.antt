-- ===== src/Context/Compactor.antt =====
-- The compactor of src/coding_agent/context/compaction.py: the record of a summary that covers the start
-- of a history, its checks, and its stored form.
use py_coding_agent.Prelude.{
  ℕ, suc, String, Bool, true, false, Option, none, some, ◌||◌, ◌==◌, if◌then◌else◌, List, [], ◌∷◌,
  take,
}
use py_coding_agent.Prelude.Int.{ℤ, pos, negsuc, ◌+ℤ◌, is_negative}
use py_coding_agent.Prelude.Dict.{Dict, lookup, insert, contains}
use py_coding_agent.Prelude.Text.{join, join_with}
use py_coding_agent.Result.{Result, ok, err, ◌>>=◌, ◌>>◌, raise_if}
use py_coding_agent.Value.{Value, Fields}
use py_coding_agent.Message.{
  Message, system_message, user_message, assistant_message, tool_result, ToolCall, meta_of,
}
use py_coding_agent.Message.History.{ids_of}
use py_coding_agent.Context.Groups.{MessageGroup, group_messages, ungroup}
use py_coding_agent.Context.Cut.{
  CompactionError, no_covered_id, boundary_unknown, preserved_covered, incomplete_covered,
  negative_tokens, bad_version, CutPlan, find_cut,
}
use py_coding_agent.Context.Summary.{StructuredSummary, extract_summary}
use py_coding_agent.Context.Rendering.{render_summary, summary_payload, summary_from_payload}

pub record CompactionRecord : Type 0 where
  pub summary : StructuredSummary
  pub covered_through_id : String
  pub preserved_ids : List String
  pub token_before : ℤ
  pub token_after : ℤ
  pub summary_version : ℤ

-- the SummaryRecord of ports/store.py
pub record SummaryRecord : Type 0 where
  pub summary_version : ℤ
  pub covered_through_id : String
  pub structured_fields : Fields
  pub source_ids : List String

unfoldable pub summary_record_of : CompactionRecord → SummaryRecord
summary_record_of r = record {
  summary_version = r.summary_version;
  covered_through_id = r.covered_through_id;
  structured_fields = summary_payload r.summary;
  source_ids = r.summary.source_ids;
}

unfoldable pub compaction_record_from_store : (Value → String) → SummaryRecord → CompactionRecord
compaction_record_from_store show r = record {
  summary = summary_from_payload show r.structured_fields;
  covered_through_id = r.covered_through_id;
  preserved_ids = [];
  token_before = pos 0;
  token_after = pos 0;
  summary_version = r.summary_version;
}

-- `_index_by_id`, from a place on; a later message takes the key
unfoldable pub index_from : ℕ → Dict ℕ → List Message → Dict ℕ
index_from i d [] = d
index_from i d (m ∷ ms) = index_from (suc i) (insert (meta_of m).id i d) ms

-- `ids[-1]`
unfoldable pub last_id : List String → Option String
last_id [] = none
last_id (x ∷ []) = some x
last_id (x ∷ y ∷ xs) = last_id (y ∷ xs)

-- the first preserved id among the covered ids
unfoldable pub covered_one : List String → List String → Option String
covered_one covered [] = none
covered_one covered (p ∷ ps) = if contains p covered then some p else covered_one covered ps

unfoldable pub any_incomplete : List MessageGroup → Bool
any_incomplete [] = false
any_incomplete (g ∷ gs) = g.incomplete || any_incomplete gs

abbrev check_preserved : Option String → Result CompactionError (Unit {0})
check_preserved none = ok tt
check_preserved (some p) = err (preserved_covered p)

-- `z < 1`
abbrev pub below_one : ℤ → Bool
below_one (pos n) = n == 0
below_one (negsuc n) = true

-- the checks of `validate` on the covered messages
unfoldable pub validate_covered :
    CompactionRecord → List Message → Result CompactionError (Unit {0})
validate_covered r covered =
    check_preserved (covered_one (ids_of covered) r.preserved_ids)
    >> raise_if (any_incomplete (group_messages covered)) incomplete_covered
    >> raise_if (is_negative r.token_before || is_negative r.token_after) negative_tokens
    >> raise_if (below_one r.summary_version) bad_version

abbrev boundary_in : CompactionRecord → List Message → Option ℕ → Result CompactionError (Unit {0})
boundary_in r ms none = err (boundary_unknown r.covered_through_id)
boundary_in r ms (some boundary) = validate_covered r (take (suc boundary) ms)

-- `Compactor.validate`
unfoldable pub validate_record : CompactionRecord → List Message → Result CompactionError (Unit {0})
validate_record r ms = boundary_in r ms (lookup r.covered_through_id (index_from 0 [] ms))

-- `old_record.summary_version + 1 if old_record is not None else 1`
abbrev pub next_version : Option CompactionRecord → ℤ
next_version none = pos 1
next_version (some old) = old.summary_version +ℤ pos 1

-- Python's `f"{dict(...)}"` on a call's arguments, `lower` and `str` are arguments; so is the counter
module _ (show_fields : Fields → String) (lower : String → String) (show_int : Option ℤ → String)
    (show : ℕ → String) (count_text : String → ℤ) where
  abbrev call_texts : List ToolCall → List String
  call_texts [] = []
  call_texts (c ∷ cs) = join c.name (join ":" (show_fields c.arguments)) ∷ call_texts cs

  -- `_message_payload`
  unfoldable pub message_payload : Message → String
  message_payload (system_message meta content) = content
  message_payload (user_message meta content) = content
  message_payload (assistant_message a) = join a.content (join_with "," (call_texts a.tool_calls))
  message_payload (tool_result r) = r.content

  -- `sum(counter.count_text(...))`
  unfoldable pub count_messages : List Message → ℤ
  count_messages [] = pos 0
  count_messages (m ∷ ms) = count_text (message_payload m) +ℤ count_messages ms

  abbrev pub record_of : CutPlan → Option CompactionRecord → String → CompactionRecord
  record_of plan old boundary =
      let covered : List Message = ungroup plan.covered in
      let summary : StructuredSummary = extract_summary lower show_int show covered in
      record {
        summary = summary;
        covered_through_id = boundary;
        preserved_ids = plan.preserved_ids;
        token_before = count_messages covered;
        token_after = count_text (render_summary summary);
        summary_version = next_version old;
      }

  abbrev checked :
      List Message → CompactionRecord → Result CompactionError (Option CompactionRecord)
  checked ms r = validate_record r ms >> ok (some r)

  abbrev compact_plan :
      List Message
      → Option CompactionRecord
      → CutPlan
      → Option String
      → Result CompactionError (Option CompactionRecord)
  compact_plan ms old plan none = err no_covered_id
  compact_plan ms old plan (some boundary) = checked ms (record_of plan old boundary)

  abbrev compact_cut :
      List Message
      → Option CompactionRecord
      → Option CutPlan
      → Result CompactionError (Option CompactionRecord)
  compact_cut ms old none = ok none
  compact_cut ms old (some plan) = compact_plan ms old plan (last_id plan.covered_ids)

  -- `Compactor.compact`
  unfoldable pub compact :
      ℕ → List Message → Option CompactionRecord → Result CompactionError (Option CompactionRecord)
  compact preserve_recent ms old = find_cut ms preserve_recent >>= compact_cut ms old
