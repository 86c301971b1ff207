-- ===== src/Context/Extraction.antt =====
-- What the summary of some messages accounts for.
use mathlib.Core.List.{append_assoc, append-nil}
use py_coding_agent.Prelude.{
  ℕ, ◌+◌, Bool, true, false, if◌then◌else◌, ◌==◌, ◌≡◌, refl, sym, ap, ◌∙◌, subst, inl, inr, String,
  Option, none, some, ◌||◌, str_eq, Bool-cases, List, [], ◌∷◌, ◌++◌, length, arith,
}
use py_coding_agent.Prelude.Int.{ℤ}
use py_coding_agent.Prelude.Dict.{contains, lookup}
use py_coding_agent.Prelude.Text.{join}
use py_coding_agent.Message.Dicts.{status_value}
use py_coding_agent.Message.{
  Message, system_message, user_message, assistant_message, tool_result, ToolCall, ToolResult,
  ToolResultStatus, meta_of,
}
use py_coding_agent.Message.History.{
  ids_of, results_of, results_in, AreDistinct, AreDistinct-append,
}
use py_coding_agent.Context.Summary.{
  Extract, or_text, nothing_extracted, append_unique, add_text, command_of, path_if, shortened,
  info_of, extract_call, extract_calls, extract_result, extract_kind, extract_message,
  extract_messages, summary_of, extract_summary,
}

abbrev pub is_completed : ToolResultStatus → Bool
is_completed ToolResultStatus.completed = true
is_completed status = false

-- the results whose status is COMPLETED, and the others
unfoldable pub completed_in : List ToolResult → List ToolResult
completed_in [] = []
completed_in (r ∷ rs) =
    let rest = completed_in rs in if is_completed r.status then r ∷ rest else rest

unfoldable pub failed_in : List ToolResult → List ToolResult
failed_in [] = []
failed_in (r ∷ rs) = let rest = failed_in rs in if is_completed r.status then rest else r ∷ rest

-- the note of a failure: the tool, the status and the kind of the error
abbrev pub note_text : String → ToolResultStatus → Option String → String
note_text tool status kind =
    join tool
      (join ": " (join (status_value status) (join " (" (join (or_text kind "no kind") ")"))))

-- one note for each of the results, in their order
abbrev pub AreNoted : List String → List ToolResult → Type 0
AreNoted [] [] = Unit
AreNoted (f ∷ fs) (r ∷ rs) =
    ((tool : String) × (f ≡ note_text tool r.status r.error_kind)) × AreNoted fs rs
AreNoted fs rs = ⊥

-- what the loop has seen so far: messages with these ids, these results, each counted or noted as a
-- failure, and each file and each command once
pub record HasSeen (ids : List String) (rs : List ToolResult) (e : Extract) : Type 0 where
  pub seen : e.ids ≡ ids
  pub counted : e.completed_calls ≡ length (completed_in rs)
  pub noted : AreNoted e.failures (failed_in rs)
  pub files_read : AreDistinct e.read
  pub files_modified : AreDistinct e.modified
  pub run_commands : AreDistinct e.commands

AreNoted-snoc :
    (fs : List String) (rs : List ToolResult) (f : String) (r : ToolResult)
    → AreNoted fs rs
    → AreNoted (f ∷ []) (r ∷ [])
    → AreNoted (fs ++ f ∷ []) (rs ++ r ∷ [])
AreNoted-snoc [] [] f r h k = k
AreNoted-snoc [] (q ∷ rs) f r h k = absurd h
AreNoted-snoc (g ∷ fs) [] f r h k = absurd h
AreNoted-snoc (g ∷ fs) (q ∷ rs) f r h k = (h.0, AreNoted-snoc fs rs f r h.1 k)

completed_in-snoc :
    (rs : List ToolResult) (r : ToolResult)
    → length (completed_in (rs ++ r ∷ []))
      ≡ (if is_completed r.status then length (completed_in rs) + 1 else length (completed_in rs))
unfolding completed_in
completed_in-snoc [] r = ground arith
completed_in-snoc (q ∷ rs) r = ground (arith, completed_in-snoc rs r)

failed_in-snoc :
    (rs : List ToolResult) (r : ToolResult)
    → failed_in (rs ++ r ∷ [])
      ≡ (if is_completed r.status then failed_in rs else failed_in rs ++ r ∷ [])
unfolding failed_in
failed_in-snoc [] r = refl
failed_in-snoc (q ∷ rs) r = ground (arith, failed_in-snoc rs r)

append_unique-AreDistinct :
    (xs : List String) (x : String) → AreDistinct xs → AreDistinct (append_unique xs x)
unfolding append_unique contains
append_unique-AreDistinct xs x d = elim (Bool-cases (contains x xs)) [
  | inl e ↦ rw e d
  | inr e ↦ rw e (AreDistinct-append xs (x ∷ []) d (refl, tt) (e, tt))
]

add_text-AreDistinct :
    (xs : List String) (value : Option String) → AreDistinct xs → AreDistinct (add_text xs value)
add_text-AreDistinct xs none d = d
add_text-AreDistinct xs (some value) d = append_unique-AreDistinct xs value d

extract_call-HasSeen :
    (ids : List String) (rs : List ToolResult) (e : Extract) (c : ToolCall)
    → HasSeen ids rs e
    → HasSeen ids rs (extract_call e c)
unfolding extract_call
extract_call-HasSeen ids rs e c h = record {
  seen = h.seen;
  counted = h.counted;
  noted = h.noted;
  files_read = add_text-AreDistinct e.read (path_if (str_eq c.name "read") c) h.files_read;
  files_modified =
      add_text-AreDistinct e.modified (path_if (str_eq c.name "write" || str_eq c.name "edit") c)
        h.files_modified;
  run_commands = add_text-AreDistinct e.commands (shortened (command_of c)) h.run_commands;
}

extract_calls-HasSeen :
    (ids : List String) (rs : List ToolResult) (e : Extract) (cs : List ToolCall)
    → HasSeen ids rs e
    → HasSeen ids rs (extract_calls e cs)
unfolding extract_calls
extract_calls-HasSeen ids rs e [] h = h
extract_calls-HasSeen ids rs e (c ∷ cs) h =
    extract_calls-HasSeen ids rs (extract_call e c) cs (extract_call-HasSeen ids rs e c h)

module _ (lower : String → String) (show_int : Option ℤ → String) where
  -- a result that was not completed
  one_failure :
      (ids : List String) (rs : List ToolResult) (e : Extract) (f : String) (r : ToolResult)
      → is_completed r.status ≡ false
      → AreNoted (f ∷ []) (r ∷ [])
      → HasSeen ids rs e
      → HasSeen ids (rs ++ r ∷ []) (record e { failures = e.failures ++ f ∷ [] })
  one_failure ids rs e f r other note h = record {
    seen = h.seen;
    counted = ground (arith, h.counted, completed_in-snoc rs r);
    noted =
        subst (AreNoted (e.failures ++ f ∷ []))
          (sym (
            failed_in-snoc rs r
            ∙ ap (λ b. if b then failed_in rs else failed_in rs ++ r ∷ []) other))
          (AreNoted-snoc e.failures (failed_in rs) f r h.noted note);
    files_read = h.files_read;
    files_modified = h.files_modified;
    run_commands = h.run_commands;
  }

  one_completed :
      (ids : List String) (rs : List ToolResult) (e : Extract) (test : String) (r : ToolResult)
      → is_completed r.status ≡ true
      → HasSeen ids rs e
      → HasSeen ids
          (rs ++ r ∷ [])
          (record e { completed_calls = e.completed_calls + 1; test_result = test })
  one_completed ids rs e test r done h = record {
    seen = h.seen;
    counted = ground (arith, h.counted, completed_in-snoc rs r);
    noted =
        subst (AreNoted e.failures)
          (sym (
            failed_in-snoc rs r
            ∙ ap (λ b. if b then failed_in rs else failed_in rs ++ r ∷ []) done))
          h.noted;
    files_read = h.files_read;
    files_modified = h.files_modified;
    run_commands = h.run_commands;
  }

  extract_result-HasSeen :
      (ids : List String) (rs : List ToolResult) (e : Extract) (r : ToolResult)
      (info : String × Option String) (status : ToolResultStatus)
      → r.status ≡ status
      → HasSeen ids rs e
      → HasSeen ids (rs ++ r ∷ []) (extract_result lower show_int e r info status)
  unfolding extract_result
  extract_result-HasSeen ids rs e r (tool, command) ToolResultStatus.completed k h =
      one_completed ids rs e _ r (ap is_completed k) h
  extract_result-HasSeen ids rs e r (tool, command) ToolResultStatus.error k h =
      one_failure ids rs e _ r (ap is_completed k)
        ((tool, ap (λ s. note_text tool s r.error_kind) (sym k)), tt) h
  extract_result-HasSeen ids rs e r (tool, command) ToolResultStatus.denied k h =
      one_failure ids rs e _ r (ap is_completed k)
        ((tool, ap (λ s. note_text tool s r.error_kind) (sym k)), tt) h
  extract_result-HasSeen ids rs e r (tool, command) ToolResultStatus.timeout k h =
      one_failure ids rs e _ r (ap is_completed k)
        ((tool, ap (λ s. note_text tool s r.error_kind) (sym k)), tt) h
  extract_result-HasSeen ids rs e r (tool, command) ToolResultStatus.cancelled k h =
      one_failure ids rs e _ r (ap is_completed k)
        ((tool, ap (λ s. note_text tool s r.error_kind) (sym k)), tt) h
  extract_result-HasSeen ids rs e r (tool, command) ToolResultStatus.uncertain k h =
      one_failure ids rs e _ r (ap is_completed k)
        ((tool, ap (λ s. note_text tool s r.error_kind) (sym k)), tt) h

  extract_kind-HasSeen :
      (ids : List String) (rs : List ToolResult) (e : Extract) (m : Message)
      → HasSeen ids rs e
      → HasSeen ids (rs ++ results_in m) (extract_kind lower show_int e m)
  unfolding extract_kind results_in
  extract_kind-HasSeen ids rs e (system_message meta content) h =
      subst (λ k. HasSeen ids k e) (sym (append-nil rs)) h
  extract_kind-HasSeen ids rs e (user_message meta content) h =
      subst (λ k. HasSeen ids k (extract_kind lower show_int e (user_message meta content)))
        (sym (append-nil rs))
        (record {
          seen = h.seen;
          counted = h.counted;
          noted = h.noted;
          files_read = h.files_read;
          files_modified = h.files_modified;
          run_commands = h.run_commands;
        })
  extract_kind-HasSeen ids rs e (assistant_message m) h =
      subst (λ k. HasSeen ids k (extract_calls e m.tool_calls)) (sym (append-nil rs))
        (extract_calls-HasSeen ids rs e m.tool_calls h)
  extract_kind-HasSeen ids rs e (tool_result r) h =
      extract_result-HasSeen ids rs e r (info_of (lookup r.tool_call_id e.call_info)) r.status refl
        h

  extract_messages-HasSeen :
      (ids : List String) (rs : List ToolResult) (e : Extract) (ms : List Message)
      → HasSeen ids rs e
      → HasSeen (ids ++ ids_of ms) (rs ++ results_of ms) (extract_messages lower show_int e ms)
  unfolding extract_messages extract_message ids_of results_of
  extract_messages-HasSeen ids rs e [] h = rw (append-nil ids, append-nil rs) h
  extract_messages-HasSeen ids rs e (m ∷ ms) h =
      let id : String = (meta_of m).id in
      let seen_one : HasSeen (ids ++ id ∷ []) rs (record e { ids = e.ids ++ id ∷ [] }) = record {
        seen = ap (λ l. l ++ id ∷ []) h.seen;
        counted = h.counted;
        noted = h.noted;
        files_read = h.files_read;
        files_modified = h.files_modified;
        run_commands = h.run_commands;
      } in
      let seen_all =
        extract_messages-HasSeen (ids ++ id ∷ []) (rs ++ results_in m) _ ms
          (extract_kind-HasSeen (ids ++ id ∷ []) rs _ m seen_one) in
      record {
        seen = seen_all.seen ∙ append_assoc ids (id ∷ []) (ids_of ms);
        counted =
            seen_all.counted
            ∙ ap (λ l. length (completed_in l)) (append_assoc rs (results_in m) (results_of ms));
        noted =
            subst
              (λ l.
                AreNoted
                  (extract_messages lower show_int
                    (extract_kind lower show_int (record e { ids = e.ids ++ id ∷ [] }) m)
                    ms).failures
                  (failed_in l))
              (append_assoc rs (results_in m) (results_of ms)) seen_all.noted;
        files_read = seen_all.files_read;
        files_modified = seen_all.files_modified;
        run_commands = seen_all.run_commands;
      }

  -- The summary of some messages names them all, in order, as its sources. It tells how many of their
  -- tool results are COMPLETED, and its errors are one note, with the status and the kind, for each of the other
  -- results, in their order. No file and no command is listed twice.
  pub extract_summary-HasSeen :
      (show : ℕ → String) (ms : List Message)
      → let summary = extract_summary lower show_int show ms in
        let completed = length (completed_in (results_of ms)) in
        (summary.source_ids ≡ ids_of ms)
        × (summary.completed_work
            ≡ (if completed == 0 then "none" else join (show completed) " tool calls completed"))
        × AreNoted summary.errors (failed_in (results_of ms))
        × AreDistinct summary.files_read
        × AreDistinct summary.files_modified
        × AreDistinct summary.commands_executed
  unfolding extract_summary summary_of completed_in failed_in
  extract_summary-HasSeen show ms =
      let nothing : HasSeen [] [] nothing_extracted = record {
        seen = refl;
        counted = refl;
        noted = tt;
        files_read = tt;
        files_modified = tt;
        run_commands = tt;
      } in
      let h = extract_messages-HasSeen [] [] nothing_extracted ms nothing in
      (
        h.seen,
        ap (λ n. if n == 0 then "none" else join (show n) " tool calls completed") h.counted,
        h.noted,
        h.files_read,
        h.files_modified,
        h.run_commands,
      )
