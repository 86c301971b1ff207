-- ===== src/Storage/Rows.antt =====
-- What the session store keeps and returns: src/coding_agent/ports/store.py and the tables of
-- src/coding_agent/storage/session_store.py.
use py_coding_agent.Prelude.{ℕ, String, List}
use py_coding_agent.Prelude.Int.{ℤ}
use py_coding_agent.Prelude.Dict.{Dict}
use py_coding_agent.Value.{Value, Fields}
use py_coding_agent.Context.Compactor.{SummaryRecord}

abbrev pub schema_version : ℕ
schema_version = 1

-- SessionStoreError and its kinds; `not_json` is what `json.dumps` raises, `not_iterable` what `tuple` does
pub data StoreError : Type 0 where
  unknown_session : StoreError
  version_conflict : ℕ → ℕ → StoreError
  summary_conflict : ℤ → StoreError
  wrong_schema : ℕ → StoreError
  corrupted_message : ℕ → StoreError
  invalid_tail : ℕ → StoreError
  corrupted_summary : ℤ → StoreError
  not_json not_iterable : StoreError

-- a row of `summaries`: two of the columns are JSON texts
pub record SummaryRow : Type 0 where
  pub summary_version : ℤ
  pub covered_through_id : String
  pub structured_fields : String
  pub source_ids : String

-- a session's row in `sessions`, and its rows of `messages`, by ordinal, and of `summaries`
pub record SessionRow : Type 0 where
  pub schema : ℕ
  pub workspace : String
  pub version : ℕ
  pub messages : List (ℕ × String)
  pub summaries : List SummaryRow

pub record Database : Type 0 where
  pub sessions : Dict SessionRow
  pub run_locks : Dict String

-- a summary as `load` returns it: with the values that the JSON texts have
pub record LoadedSummary : Type 0 where
  pub summary_version : ℤ
  pub covered_through_id : String
  pub structured_fields : Value
  pub source_ids : List Value

pub record SessionRecord : Type 0 where
  pub session_id : String
  pub workspace : String
  pub schema : ℕ
  pub version : ℕ
  pub messages : List Value
  pub summaries : List LoadedSummary
  pub filtered_tail : ℕ

pub record SessionAppend : Type 0 where
  pub messages : List Fields
  pub summaries : List SummaryRecord
