-- ===== src/Storage/Sessions.antt =====
-- src/coding_agent/storage/session_store.py: sessions in a database, with versions and run locks.
use py_coding_agent.Prelude.{
  ℕ, suc, ◌+◌, String, Bool, true, false, ◌&&◌, ◌||◌, not, Option, none, some, str_eq, ltb, leb,
  ◌==◌, if◌then◌else◌, List, [], ◌∷◌, ◌++◌, map,
}
use py_coding_agent.Prelude.Int.{ℤ, pos, negsuc}
use py_coding_agent.Prelude.Dict.{lookup, insert, erase, has_key}
use py_coding_agent.Result.{Result, ok, err, ◌>>=◌, ◌>>◌, raise_if}
use py_coding_agent.Value.{Value, Fields, obj, arr, str, items_of}
use py_coding_agent.Context.Compactor.{SummaryRecord}
use py_coding_agent.Storage.Rows.{
  Database, LoadedSummary, SessionAppend, SessionRecord, SessionRow, StoreError, SummaryRow,
  corrupted_message, corrupted_summary, invalid_tail, not_iterable, not_json, schema_version,
  summary_conflict, unknown_session, version_conflict, wrong_schema,
}

unfoldable pub create : String → String → Database → SessionRecord × Database
create session_id workspace d = (
  record {
    session_id = session_id;
    workspace = workspace;
    schema = schema_version;
    version = 0;
    messages = [];
    summaries = [];
    filtered_tail = 0;
  },
  record d {
    sessions =
        insert session_id
          (record {
            schema = schema_version;
            workspace = workspace;
            version = 0;
            messages = [];
            summaries = [];
          })
          d.sessions;
  },
)

abbrev pub fetch : String → Database → Result StoreError SessionRow
fetch session_id d = or_unknown (lookup session_id d.sessions)
  where
    or_unknown : Option SessionRow → Result StoreError SessionRow
    or_unknown none = err unknown_session
    or_unknown (some row) = ok row

-- `SELECT COALESCE(MAX(ordinal), -1) + 1`
unfoldable pub next_ordinal : List (ℕ × String) → ℕ
next_ordinal [] = 0
next_ordinal ((n, text) ∷ rows) =
    let rest = next_ordinal rows in if ltb rest (suc n) then suc n else rest

-- `SELECT COUNT(*) ... AND ordinal >= ?`
unfoldable pub count_from : ℕ → List (ℕ × String) → ℕ
count_from n [] = 0
count_from n ((m, text) ∷ rows) = let rest = count_from n rows in if leb n m then suc rest else rest

abbrev pub leb_ℤ : ℤ → ℤ → Bool
leb_ℤ (pos a) (pos b) = leb a b
leb_ℤ (pos a) (negsuc b) = false
leb_ℤ (negsuc a) (pos b) = true
leb_ℤ (negsuc a) (negsuc b) = leb b a

-- `ORDER BY summary_version`
unfoldable pub by_version : List SummaryRow → List SummaryRow
by_version [] = []
by_version (r ∷ rs) = put r (by_version rs)
  where
    put : SummaryRow → List SummaryRow → List SummaryRow
    put r [] = r ∷ []
    put r (s ∷ ss) =
        let rest = put r ss in
        if leb_ℤ r.summary_version s.summary_version then r ∷ s ∷ ss else s ∷ rest

-- a row that is not JSON: the last one may be, if that is asked for
abbrev pub broken_row : Bool → ℕ → List (ℕ × String) → Result StoreError (List Value × Option ℕ)
broken_row lenient n [] = if lenient then ok ([], some n) else err (corrupted_message n)
broken_row lenient n rows = err (corrupted_message n)

abbrev pub add_row : Value → List Value × Option ℕ → Result StoreError (List Value × Option ℕ)
add_row v p = ok (v ∷ p.0, p.1)

abbrev pub row_by :
    Bool
    → ℕ
    → List (ℕ × String)
    → Result StoreError (List Value × Option ℕ)
    → Option Value
    → Result StoreError (List Value × Option ℕ)
row_by lenient n rows rest none = broken_row lenient n rows
row_by lenient n rows rest (some v) = rest >>= add_row v

abbrev pub tail_of : List (ℕ × String) → Option ℕ → Result StoreError ℕ
tail_of rows none = ok 0
tail_of rows (some n) =
    if count_from n rows == 1 then ok 1 else err (invalid_tail (count_from n rows))

abbrev pub text_or_error : Option String → Result StoreError String
text_or_error none = err not_json
text_or_error (some text) = ok text

unfoldable pub has_version : ℤ → List SummaryRow → Bool
has_version v [] = false
has_version v (r ∷ rs) =
    (leb_ℤ r.summary_version v && leb_ℤ v r.summary_version) || has_version v rs

-- `parse` is `json.loads`, which may raise a JSONDecodeError; `dumps` is `json.dumps`, which may raise a
-- TypeError; `iterate` is `tuple(...)` on what `json.loads` returned
module _ (parse : String → Option Value) (dumps : Value → Option String)
    (iterate : Value → Option (List Value)) where
  -- the loop over the rows: the messages, and the ordinal of a broken last row
  unfoldable pub load_rows : Bool → List (ℕ × String) → Result StoreError (List Value × Option ℕ)
  load_rows lenient [] = ok ([], none)
  load_rows lenient ((n, text) ∷ rows) =
      let rest = load_rows lenient rows in row_by lenient n rows rest (parse text)

  abbrev pub loaded_summary :
      SummaryRow → Option Value → Option Value → Result StoreError LoadedSummary
  loaded_summary r (some fields) (some ids) = elim (iterate ids) [
    | none ↦ err not_iterable
    | some items ↦ ok (record {
      summary_version = r.summary_version;
      covered_through_id = r.covered_through_id;
      structured_fields = fields;
      source_ids = items;
    })
  ]
  loaded_summary r _ _ = err (corrupted_summary r.summary_version)

  -- `_load_summaries`, on the rows in the order of their versions
  unfoldable pub load_summaries : List SummaryRow → Result StoreError (List LoadedSummary)
  load_summaries [] = ok []
  load_summaries (r ∷ rs) =
      loaded_summary r (parse r.structured_fields) (parse r.source_ids) >>= λ s.
      load_summaries rs >>= λ ss. ok (s ∷ ss)

  abbrev pub load_row : String → Bool → SessionRow → Result StoreError SessionRecord
  load_row session_id lenient row =
      raise_if (not (row.schema == schema_version)) (wrong_schema row.schema)
      >> (load_rows lenient row.messages >>= λ p. tail_of row.messages p.1 >>= λ filtered.
          load_summaries (by_version row.summaries) >>= λ summaries. ok (record {
            session_id = session_id;
            workspace = row.workspace;
            schema = row.schema;
            version = row.version;
            messages = p.0;
            summaries = summaries;
            filtered_tail = filtered;
          }))

  unfoldable pub load : String → Bool → Database → Result StoreError SessionRecord
  load session_id lenient d = fetch session_id d >>= load_row session_id lenient

  -- the rows of new messages, from an ordinal on
  unfoldable pub message_rows : ℕ → List Fields → Result StoreError (List (ℕ × String))
  message_rows n [] = ok []
  message_rows n (m ∷ ms) = text_or_error (dumps (obj m)) >>= λ text.
      message_rows (suc n) ms >>= λ rows. ok ((n, text) ∷ rows)

  -- the loop over the new summaries
  unfoldable pub add_summaries :
      List SummaryRow → List SummaryRecord → Result StoreError (List SummaryRow)
  add_summaries rows [] = ok rows
  add_summaries rows (s ∷ ss) =
      raise_if (has_version s.summary_version rows) (summary_conflict s.summary_version)
      >> (text_or_error (dumps (obj s.structured_fields)) >>= λ fields.
          text_or_error (dumps (arr (items_of (map str s.source_ids)))) >>= λ ids.
          add_summaries
            (rows
              ++ record {
                summary_version = s.summary_version;
                covered_through_id = s.covered_through_id;
                structured_fields = fields;
                source_ids = ids;
              }
                ∷ [])
            ss)

  abbrev pub append_row :
      String → ℕ → SessionAppend → Database → SessionRow → Result StoreError (ℕ × Database)
  append_row session_id expected records d row =
      raise_if (not (row.version == expected)) (version_conflict expected row.version)
      >> (message_rows (next_ordinal row.messages) records.messages >>= λ rows.
          add_summaries row.summaries records.summaries >>= λ summaries. ok (
            row.version + 1,
            record d {
              sessions =
                  insert session_id
                    (record row {
                      version = row.version + 1;
                      messages = row.messages ++ rows;
                      summaries = summaries;
                    })
                    d.sessions;
            },
          ))

  -- `append`: one transaction, so that an error leaves the database as it was
  unfoldable pub append : String → ℕ → SessionAppend → Database → Result StoreError (ℕ × Database)
  append session_id expected records d =
      fetch session_id d >>= append_row session_id expected records d

-- `INSERT` with the session as the key: it fails if there is a lock
unfoldable pub acquire_run_lock : String → String → Database → Bool × Database
acquire_run_lock session_id run_id d =
    if has_key session_id d.run_locks
    then (false, d)
    else (true, record d { run_locks = insert session_id run_id d.run_locks })

abbrev is_held_by : Option String → String → Bool
is_held_by none run_id = false
is_held_by (some holder) run_id = str_eq holder run_id

unfoldable pub release_run_lock : String → String → Database → Database
release_run_lock session_id run_id d =
    if is_held_by (lookup session_id d.run_locks) run_id
    then record d { run_locks = erase session_id d.run_locks }
    else d
