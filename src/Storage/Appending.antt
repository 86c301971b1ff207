-- ===== src/Storage/Appending.antt =====
-- Sessions that are appended to and loaded again.
use py_coding_agent.Prelude.{
  ℕ, suc, ◌≡◌, refl, sym, ap, subst, ◌∙◌, String, Bool, true, false, Option, some, ◌==◌, List, [],
  ◌∷◌, ◌++◌, map, arith,
}
use mathlib.Core.List.{append_assoc}
use py_coding_agent.Result.{ok, err}
use py_coding_agent.Value.{Value, Fields, obj}
use py_coding_agent.Storage.Sessions.{
  by_version, load_rows, load_summaries, load, append, next_ordinal,
}
use py_coding_agent.Storage.Rows.{
  Database, SessionRow, SessionRecord, SessionAppend, corrupted_message, version_conflict,
  schema_version,
}
use py_coding_agent.Storage.Loading.{
  AreRead, AreLoaded, AreRead-append, load_rows-AreLoaded, load_rows-broken, message_rows-AreRead,
  append-IsAppended,
}
use py_coding_agent.Storage.Loaded.{
  some_inj, tail_of-whole, tail_of-broken, load-IsLoaded, load-found, load_row-AreRead,
  message_rows-cons,
}

module _ (parse : String → Option Value) (dumps : Value → Option String)
    (iterate : Value → Option (List Value)) where
  -- The last row of a session is not JSON, and `load` has left it out. Messages, at least one, and no
  -- summary are appended to this session with its version, and this succeeds. From then on the session
  -- cannot be read: `load` finds the same row in the middle and raises a SessionCorruptionError.
  pub load-append_broken :
      (session_id : String) (m : Fields) (ms : List Fields) (d d' : Database) (v : ℕ)
      (r : SessionRecord)
      → load parse dumps iterate session_id true d ≡ ok r
      → r.filtered_tail ≡ 1
      → append parse dumps iterate session_id r.version
          (record { messages = m ∷ ms; summaries = [] })
          d
        ≡ ok (v, d')
      → (n : ℕ) × (load parse dumps iterate session_id true d' ≡ err (corrupted_message n))
  load-append_broken session_id m ms d d' v r loaded broken appended =
      let a = append-IsAppended parse dumps iterate session_id r.version (m ∷ ms) d d' v appended in
      let l = load-IsLoaded parse dumps iterate session_id true d r loaded in
      let same_row : l.row ≡ a.row = some_inj (sym l.found ∙ a.found) in
      let (n, cut) =
        tail_of-broken l.row.messages l.read.1
          (l.tail ∙ ap ok (ap (λ (x : SessionRecord). x.filtered_tail) (sym l.same) ∙ broken)) in
      let (good, text, same_rows, read, bad) =
        subst (AreLoaded parse dumps iterate l.row.messages l.read.0) cut
          (load_rows-AreLoaded parse dumps iterate true l.row.messages l.read l.rows) in
      let (r', more, some_more) =
        message_rows-cons parse dumps iterate (next_ordinal a.row.messages) m ms a.rows a.dumped in
      let rows : a.row.messages ++ a.rows ≡ good ++ (n, text) ∷ r' ∷ more =
        ap (λ (x : SessionRow). x.messages ++ a.rows) (sym same_row)
        ∙ ap (λ l. l ++ a.rows) same_rows
        ∙ append_assoc good ((n, text) ∷ []) a.rows
        ∙ ap (λ l. good ++ (n, text) ∷ l) some_more in
      let fails : load_rows parse dumps iterate true (a.row.messages ++ a.rows)
          ≡ err (corrupted_message n) =
        ap (load_rows parse dumps iterate true) rows
        ∙ load_rows-broken parse dumps iterate true good l.read.0 n text r' more read bad in
      let right : (a.row.schema == schema_version) ≡ true =
        ground (arith, ap (λ (x : SessionRow). x.schema) (sym same_row) ∙ l.schema) in
      (n, load-found parse dumps iterate session_id true d' _ a.stored ∙ rw right (rw fails refl))

  -- A writer that has been overtaken is refused: after an `append` of messages without a summary that
  -- succeeded, another one with the same expected version raises a VersionConflictError, whatever it would
  -- append.
  pub append-once :
      (session_id : String) (expected : ℕ) (ms : List Fields) (records : SessionAppend)
      (d d' : Database) (v : ℕ)
      → append parse dumps iterate session_id expected (record { messages = ms; summaries = [] }) d
        ≡ ok (v, d')
      → append parse dumps iterate session_id expected records d'
        ≡ err (version_conflict expected v)
  unfolding append
  append-once session_id expected ms records d d' v h =
      let a = append-IsAppended parse dumps iterate session_id expected ms d d' v h in
      let stale : (suc expected == expected) ≡ false = ground arith in
      rw a.stored (rw stale (ap (λ n. err (version_conflict expected n)) (sym a.next)))

  module _ (written : (v : Value) (text : String) → dumps v ≡ some text → parse text ≡ some v) where
    -- A session that can be read in full, and is appended messages and no summary with its version, can be
    -- read again: its messages are the old ones with the new ones behind them, its version is the next
    -- one, and nothing else of it has changed. It is assumed that `json.loads` reads what `json.dumps`
    -- writes.
    pub load-append :
        (session_id : String) (lenient : Bool) (ms : List Fields) (d d' : Database) (v : ℕ)
        (r : SessionRecord)
        → load parse dumps iterate session_id lenient d ≡ ok r
        → r.filtered_tail ≡ 0
        → append parse dumps iterate session_id r.version
            (record { messages = ms; summaries = [] })
            d
          ≡ ok (v, d')
        → (v ≡ suc r.version)
          × (load parse dumps iterate session_id lenient d'
              ≡ ok (record r { version = v; messages = r.messages ++ map obj ms }))
    load-append session_id lenient ms d d' v r loaded whole appended =
        let a = append-IsAppended parse dumps iterate session_id r.version ms d d' v appended in
        let l = load-IsLoaded parse dumps iterate session_id lenient d r loaded in
        let same_row : l.row ≡ a.row = some_inj (sym l.found ∙ a.found) in
        let all_read : AreRead parse dumps iterate l.row.messages l.read.0 =
          subst (AreLoaded parse dumps iterate l.row.messages l.read.0)
            (tail_of-whole l.row.messages l.read.1
              (l.tail ∙ ap ok (ap (λ (x : SessionRecord). x.filtered_tail) (sym l.same) ∙ whole)))
            (load_rows-AreLoaded parse dumps iterate lenient l.row.messages l.read l.rows) in
        let more_read =
          message_rows-AreRead parse dumps iterate written (next_ordinal a.row.messages) ms a.rows
            a.dumped in
        let both_read =
          AreRead-append parse dumps iterate a.row.messages a.rows l.read.0 (map obj ms)
            (subst (λ (x : SessionRow). AreRead parse dumps iterate x.messages l.read.0) same_row
              all_read)
            more_read in
        let none_filtered : l.filtered ≡ 0 =
          ap (λ (x : SessionRecord). x.filtered_tail) (sym l.same) ∙ whole in
        let read_again =
          load_row-AreRead parse dumps iterate session_id lenient
            (record a.row { version = suc r.version; messages = a.row.messages ++ a.rows })
            (l.read.0 ++ map obj ms) l.summaries
            (ap (λ (x : SessionRow). x.schema) (sym same_row) ∙ l.schema) both_read
            (ap (λ (x : SessionRow). load_summaries parse dumps iterate (by_version x.summaries))
                (sym same_row)
              ∙ l.summaries_loaded) in
        (
          a.next,
          load-found parse dumps iterate session_id lenient d' _ a.stored
              ∙ read_again
              ∙ ap
                  (λ (x : SessionRow). ok (record {
                    session_id = session_id;
                    workspace = x.workspace;
                    schema = x.schema;
                    version = suc r.version;
                    messages = l.read.0 ++ map obj ms;
                    summaries = l.summaries;
                    filtered_tail = 0;
                  }))
                  (sym same_row)
              ∙ ap
                  (λ n. ok (record {
                    session_id = session_id;
                    workspace = l.row.workspace;
                    schema = l.row.schema;
                    version = suc r.version;
                    messages = l.read.0 ++ map obj ms;
                    summaries = l.summaries;
                    filtered_tail = n;
                  }))
                  (sym none_filtered)
              ∙ ap
                  (λ n. ok (record {
                    session_id = session_id;
                    workspace = l.row.workspace;
                    schema = l.row.schema;
                    version = n;
                    messages = l.read.0 ++ map obj ms;
                    summaries = l.summaries;
                    filtered_tail = l.filtered;
                  }))
                  (sym a.next)
              ∙ ap
                  (λ (x : SessionRecord).
                    ok (record x { version = v; messages = x.messages ++ map obj ms }))
                  (sym l.same),
        )
