-- ===== src/Storage/Loaded.antt =====
-- What a `load` that succeeds has found.
use py_coding_agent.Prelude.{
  ℕ, suc, ◌≡◌, refl, ap, inl, inr, String, Bool, true, Option, none, some, ◌==◌, List, ◌∷◌,
  Bool-cases, Option-cases, arith,
}
use py_coding_agent.Prelude.Dict.{lookup}
use py_coding_agent.Result.{ok, bind-ok}
use py_coding_agent.Value.{Value, Fields, obj}
use py_coding_agent.Storage.Sessions.{
  by_version, load_rows, tail_of, load_summaries, load_row, load, message_rows, text_or_error,
}
use py_coding_agent.Storage.Rows.{
  Database, SessionRow, SessionRecord, LoadedSummary, schema_version,
}
use py_coding_agent.Storage.Loading.{AreRead, load_rows-AreRead}

pub some_inj : {A : Type 0} {a b : A} → some a ≡ some b → a ≡ b
some_inj {A} {a} {b} h = ground arith

pub tail_of-whole : (rows : List (ℕ × String)) (f : Option ℕ) → tail_of rows f ≡ ok 0 → f ≡ none
tail_of-whole rows none h = refl
tail_of-whole rows (some n) h = ground arith

pub tail_of-broken :
    (rows : List (ℕ × String)) (f : Option ℕ) → tail_of rows f ≡ ok 1 → (n : ℕ) × (f ≡ some n)
tail_of-broken rows none h = absurd (ground arith)
tail_of-broken rows (some n) h = (n, refl)

module _ (parse : String → Option Value) (dumps : Value → Option String)
    (iterate : Value → Option (List Value)) where
  -- what a load that succeeds has found
  pub record IsLoaded (session_id : String) (lenient : Bool) (d : Database) (r : SessionRecord)
      : Type 0 where
    pub row : SessionRow
    pub read : List Value × Option ℕ
    pub found : lookup session_id d.sessions ≡ some row
    pub schema : row.schema ≡ schema_version
    pub rows : load_rows parse dumps iterate lenient row.messages ≡ ok read
    pub filtered : ℕ
    pub tail : tail_of row.messages read.1 ≡ ok filtered
    pub summaries : List LoadedSummary
    pub summaries_loaded :
        load_summaries parse dumps iterate (by_version row.summaries) ≡ ok summaries
    pub same : r ≡ record {
      session_id = session_id;
      workspace = row.workspace;
      schema = row.schema;
      version = row.version;
      messages = read.0;
      summaries = summaries;
      filtered_tail = filtered;
    }

  pub load-IsLoaded :
      (session_id : String) (lenient : Bool) (d : Database) (r : SessionRecord)
      → load parse dumps iterate session_id lenient d ≡ ok r
      → IsLoaded session_id lenient d r
  unfolding load
  load-IsLoaded session_id lenient d r h = elim (Option-cases (lookup session_id d.sessions)) [
    | inl missing ↦ absurd (ground arith)
    | inr (row, found) ↦ of_row row found (rw found at h)
  ]
    where
      of_row :
          (row : SessionRow)
          → lookup session_id d.sessions ≡ some row
          → load_row parse dumps iterate session_id lenient row ≡ ok r
          → IsLoaded session_id lenient d r
      of_row row found h = elim (Bool-cases (row.schema == schema_version)) [
        | inr wrong ↦ absurd (ground arith)
        | inl right ↦
            let (read, rows, h1) =
              bind-ok (load_rows parse dumps iterate lenient row.messages) _ r (rw right at h) in
            let (filtered, tail, h2) = bind-ok (tail_of row.messages read.1) _ r h1 in
            let (summaries, loaded, h3) =
              bind-ok (load_summaries parse dumps iterate (by_version row.summaries)) _ r h2 in
            record {
              row = row;
              read = read;
              found = found;
              schema = ground arith;
              rows = rows;
              filtered = filtered;
              tail = tail;
              summaries = summaries;
              summaries_loaded = loaded;
              same = ground arith;
            }
      ]

  pub load-session_id :
      (session_id : String) (lenient : Bool) (d : Database) (r : SessionRecord)
      → load parse dumps iterate session_id lenient d ≡ ok r
      → r.session_id ≡ session_id
  load-session_id session_id lenient d r h =
      ap (λ (x : SessionRecord). x.session_id) (load-IsLoaded session_id lenient d r h).same

  -- a session that is in the database, and its rows
  pub load-found :
      (session_id : String) (lenient : Bool) (d : Database) (row : SessionRow)
      → lookup session_id d.sessions ≡ some row
      → load parse dumps iterate session_id lenient d
        ≡ load_row parse dumps iterate session_id lenient row
  unfolding load
  load-found session_id lenient d row h = rw h refl

  pub load_row-AreRead :
      (session_id : String) (lenient : Bool) (row : SessionRow) (vs : List Value)
      (summaries : List LoadedSummary)
      → row.schema ≡ schema_version
      → AreRead parse dumps iterate row.messages vs
      → load_summaries parse dumps iterate (by_version row.summaries) ≡ ok summaries
      → load_row parse dumps iterate session_id lenient row
        ≡ ok (record {
          session_id = session_id;
          workspace = row.workspace;
          schema = row.schema;
          version = row.version;
          messages = vs;
          summaries = summaries;
          filtered_tail = 0;
        })
  load_row-AreRead session_id lenient row vs summaries schema read loaded =
      let right : (row.schema == schema_version) ≡ true = ground arith in
      rw right
        (rw (load_rows-AreRead parse dumps iterate lenient row.messages vs read) (rw loaded refl))

  pub message_rows-cons :
      (n : ℕ) (m : Fields) (ms : List Fields) (rows : List (ℕ × String))
      → message_rows parse dumps iterate n (m ∷ ms) ≡ ok rows
      → (r : ℕ × String) × (more : List (ℕ × String)) × (rows ≡ r ∷ more)
  unfolding message_rows
  message_rows-cons n m ms rows e =
      let (text, dumped, rest) = bind-ok (text_or_error (dumps (obj m))) _ rows e in
      let (more, written_more, same) =
        bind-ok (message_rows parse dumps iterate (suc n) ms) _ rows rest in
      ((n, text), more, ground arith)
