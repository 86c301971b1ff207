-- ===== src/Storage/Loading.antt =====
-- What `load` returns after `append`.
use py_coding_agent.Prelude.{
  ℕ, suc, ◌+◌, ◌≡◌, refl, ap, subst, ◌∙◌, inl, inr, String, Bool, true, false, Option, none, some,
  str_eq, eq_iff, ◌==◌, List, [], ◌∷◌, ◌++◌, map, Bool-cases, Option-cases, arith,
}
use py_coding_agent.Prelude.Dict.{lookup, insert, lookup-insert}
use py_coding_agent.Result.{ok, err, bind-ok}
use py_coding_agent.Value.{Value, Fields, obj}
use py_coding_agent.Storage.Sessions.{
  next_ordinal, broken_row, add_row, load_rows, text_or_error, message_rows, add_summaries,
  append_row, append,
}
use py_coding_agent.Storage.Rows.{Database, SessionRow, corrupted_message}

pub eq_self : (s : String) → str_eq s s ≡ true
eq_self s = (eq_iff s s).1 refl

text_or_error-ok : (o : Option String) (text : String) → text_or_error o ≡ ok text → o ≡ some text
text_or_error-ok none text h = absurd (ground arith)
text_or_error-ok (some t) text h = ground arith

module _ (parse : String → Option Value) (dumps : Value → Option String)
    (iterate : Value → Option (List Value)) where
  -- each row has the JSON text of a value
  abbrev pub AreRead : List (ℕ × String) → List Value → Type 0
  AreRead [] [] = Unit
  AreRead ((n, text) ∷ rows) (v ∷ vs) = (parse text ≡ some v) × AreRead rows vs
  AreRead _ _ = ⊥

  pub AreRead-append :
      (rows more : List (ℕ × String)) (vs ws : List Value)
      → AreRead rows vs
      → AreRead more ws
      → AreRead (rows ++ more) (vs ++ ws)
  AreRead-append [] more [] ws h k = k
  AreRead-append [] more (v ∷ vs) ws h k = absurd h
  AreRead-append (r ∷ rows) more [] ws h k = absurd h
  AreRead-append ((n, text) ∷ rows) more (v ∷ vs) ws h k =
      (h.0, AreRead-append rows more vs ws h.1 k)

  pub load_rows-AreRead :
      (lenient : Bool) (rows : List (ℕ × String)) (vs : List Value)
      → AreRead rows vs
      → load_rows parse dumps iterate lenient rows ≡ ok (vs, none)
  unfolding load_rows
  load_rows-AreRead lenient [] [] h = refl
  load_rows-AreRead lenient [] (v ∷ vs) h = absurd h
  load_rows-AreRead lenient (r ∷ rows) [] h = absurd h
  load_rows-AreRead lenient ((n, text) ∷ rows) (v ∷ vs) h =
      rw h.0 (rw (load_rows-AreRead lenient rows vs h.1) refl)

  -- all rows can be read, or all but the last
  abbrev pub IsBrokenAt : List (ℕ × String) → List Value → ℕ → Type 0
  IsBrokenAt rows vs n =
      (good : List (ℕ × String)) × (text : String) × (rows ≡ good ++ (n, text) ∷ [])
      × AreRead good vs
      × (parse text ≡ none)

  abbrev pub AreLoaded : List (ℕ × String) → List Value → Option ℕ → Type 0
  AreLoaded rows vs none = AreRead rows vs
  AreLoaded rows vs (some n) = IsBrokenAt rows vs n

  AreLoaded-cons :
      (n : ℕ) (text : String) (v : Value) (rows : List (ℕ × String)) (vs : List Value)
      (f : Option ℕ)
      → parse text ≡ some v
      → AreLoaded rows vs f
      → AreLoaded ((n, text) ∷ rows) (v ∷ vs) f
  AreLoaded-cons n text v rows vs none h a = (h, a)
  AreLoaded-cons n text v rows vs (some m) h (good, last, same, read, broken) =
      ((n, text) ∷ good, last, ap (λ l. (n, text) ∷ l) same, (h, read), broken)

  broken-AreLoaded :
      (lenient : Bool) (n : ℕ) (text : String) (rows : List (ℕ × String))
      (p : List Value × Option ℕ)
      → parse text ≡ none
      → broken_row lenient n rows ≡ ok p
      → AreLoaded ((n, text) ∷ rows) p.0 p.1
  broken-AreLoaded true n text [] p h e =
      let same : ([], some n) ≡ p = ground arith in
      subst (λ (q : List Value × Option ℕ). AreLoaded ((n, text) ∷ []) q.0 q.1) same
        ([], text, refl, tt, h)
  broken-AreLoaded false n text [] p h e = absurd (ground arith)
  broken-AreLoaded lenient n text (r ∷ rows) p h e = absurd (ground arith)

  pub load_rows-AreLoaded :
      (lenient : Bool) (rows : List (ℕ × String)) (p : List Value × Option ℕ)
      → load_rows parse dumps iterate lenient rows ≡ ok p
      → AreLoaded rows p.0 p.1
  unfolding load_rows
  load_rows-AreLoaded lenient [] p e =
      let same : ([], none) ≡ p = ground arith in
      subst (λ (q : List Value × Option ℕ). AreLoaded [] q.0 q.1) same tt
  load_rows-AreLoaded lenient ((n, text) ∷ rows) p e = elim (Option-cases (parse text)) [
    | inl broken ↦ broken-AreLoaded lenient n text rows p broken (rw broken at e)
    | inr (v, read) ↦
        let (q, loaded, done) =
          bind-ok (load_rows parse dumps iterate lenient rows) (add_row v) p (rw read at e) in
        let same : (v ∷ q.0, q.1) ≡ p = ground arith in
        subst (λ (q : List Value × Option ℕ). AreLoaded ((n, text) ∷ rows) q.0 q.1) same
          (AreLoaded-cons n text v rows q.0 q.1 read (load_rows-AreLoaded lenient rows q loaded))
  ]

  -- a broken row with others behind it
  pub load_rows-broken :
      (lenient : Bool) (good : List (ℕ × String)) (vs : List Value) (n : ℕ) (text : String)
      (r : ℕ × String) (more : List (ℕ × String))
      → AreRead good vs
      → parse text ≡ none
      → load_rows parse dumps iterate lenient (good ++ (n, text) ∷ r ∷ more)
        ≡ err (corrupted_message n)
  unfolding load_rows
  load_rows-broken lenient [] vs n text r more h b = rw b refl
  load_rows-broken lenient (g ∷ good) [] n text r more h b = absurd h
  load_rows-broken lenient ((m, t) ∷ good) (v ∷ vs) n text r more h b =
      rw h.0 (rw (load_rows-broken lenient good vs n text r more h.1 b) refl)

  module _ (written : (v : Value) (text : String) → dumps v ≡ some text → parse text ≡ some v) where
    pub message_rows-AreRead :
        (n : ℕ) (ms : List Fields) (rows : List (ℕ × String))
        → message_rows parse dumps iterate n ms ≡ ok rows
        → AreRead rows (map obj ms)
    unfolding message_rows
    message_rows-AreRead n [] rows e =
        let none_left : [] ≡ rows = ground arith in subst (λ l. AreRead l []) none_left tt
    message_rows-AreRead n (m ∷ ms) rows e =
        let (text, dumped, rest) = bind-ok (text_or_error (dumps (obj m))) _ rows e in
        let (more, written_more, same) =
          bind-ok (message_rows parse dumps iterate (suc n) ms) _ rows rest in
        let all : (n, text) ∷ more ≡ rows = ground arith in
        subst (λ l. AreRead l (map obj (m ∷ ms))) all
          (
            written (obj m) text (text_or_error-ok (dumps (obj m)) text dumped),
            message_rows-AreRead (suc n) ms more written_more,
          )

  -- what `append` without summaries has done to the session's rows
  pub record IsAppended (session_id : String) (expected : ℕ) (ms : List Fields) (d d' : Database)
      (v : ℕ) : Type 0 where
    pub row : SessionRow
    pub rows : List (ℕ × String)
    pub found : lookup session_id d.sessions ≡ some row
    pub current : row.version ≡ expected
    pub dumped : message_rows parse dumps iterate (next_ordinal row.messages) ms ≡ ok rows
    pub next : v ≡ suc expected
    pub stored :
        lookup session_id d'.sessions
        ≡ some (record row { version = suc expected; messages = row.messages ++ rows })

  pub append-IsAppended :
      (session_id : String) (expected : ℕ) (ms : List Fields) (d d' : Database) (v : ℕ)
      → append parse dumps iterate session_id expected (record { messages = ms; summaries = [] }) d
        ≡ ok (v, d')
      → IsAppended session_id expected ms d d' v
  unfolding append add_summaries
  append-IsAppended session_id expected ms d d' v h =
      elim (Option-cases (lookup session_id d.sessions)) [
        | inl missing ↦ absurd (ground arith)
        | inr (row, found) ↦ of_row row found (rw found at h)
      ]
    where
      stored_row :
          (row : SessionRow) (rows : List (ℕ × String))
          → row.version ≡ expected
          → d' ≡ record d {
            sessions =
                insert session_id
                  (record row { version = row.version + 1; messages = row.messages ++ rows })
                  d.sessions;
          }
          → lookup session_id d'.sessions
            ≡ some (record row { version = suc expected; messages = row.messages ++ rows })
      stored_row row rows current same =
          ap (λ (x : Database). lookup session_id x.sessions) same
          ∙ lookup-insert session_id session_id _ d.sessions
          ∙ rw (eq_self session_id) (
              ap (λ n. some (record row { version = n; messages = row.messages ++ rows }))
                (omega (arith, current)))

      of_row :
          (row : SessionRow)
          → lookup session_id d.sessions ≡ some row
          → append_row parse dumps iterate session_id expected
              (record { messages = ms; summaries = [] })
              d
              row
            ≡ ok (v, d')
          → IsAppended session_id expected ms d d' v
      of_row row found h = elim (Bool-cases (row.version == expected)) [
        | inr stale ↦ absurd (ground arith)
        | inl current ↦
            let (rows, dumped, done) =
              bind-ok (message_rows parse dumps iterate (next_ordinal row.messages) ms) _ (v, d')
                (rw current at h) in
            let same_version : row.version ≡ expected = ground arith in
            record {
              row = row;
              rows = rows;
              found = found;
              current = same_version;
              dumped = dumped;
              next = ground arith;
              stored = stored_row row rows same_version (ground arith);
            }
      ]
