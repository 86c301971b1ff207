-- ===== src/Message/Append.antt =====
-- What `MessageLog.append` promises: which messages it takes, that the history stays well formed,
-- and that results are final.
use py_coding_agent.Prelude.{
  String, false, some, str_eq, eq_iff, [], ◌∷◌, ◌++◌, ◌≡◌, ◌↔◌, refl, sym, ◌∙◌, ap, subst, arith,
}
use py_coding_agent.Prelude.Dict.{contains, lookup, lookup-insert}
use py_coding_agent.Result.{ok}
use py_coding_agent.Message.{Message, tool_result, ToolCall, ToolResult}
use py_coding_agent.Message.Log.{
  MessageLog, new_log, validate, record_message, append, find_tool_call, find_result,
}
use py_coding_agent.Message.History.{
  ids_of, calls_of, results_of, find_call, find_answer, calls_of-append, results_of-append,
  find_call-append, find_answer-append,
}
use py_coding_agent.Message.Admission.{IsAdmissible, validate-IsAdmissible}
use py_coding_agent.Message.Refinement.{record_message_fields, Agrees-record_message}
use py_coding_agent.Message.WellFormed.{IsValid, IsHistory-append}

pub append-validate :
    (log log' : MessageLog) (m : Message)
    → append log m ≡ ok log'
    → (validate log m ≡ ok tt) × (log' ≡ record_message log m)
unfolding append
append-validate log log' m h = ground arith

append-record_message :
    (log : MessageLog) (m : Message)
    → validate log m ≡ ok tt
    → append log m ≡ ok (record_message log m)
unfolding append
append-record_message log m h = rw h

IsValid-record_message :
    (log : MessageLog) (m : Message)
    → IsValid log
    → IsAdmissible log.session_id log.messages m
    → IsValid (record_message log m)
IsValid-record_message log m v a =
    let (e, f, _) = record_message_fields log m in
    record {
      agrees = Agrees-record_message log v.agrees m a.fits;
      history = rw (e, f) (IsHistory-append log.session_id log.messages m a v.history);
    }

-- On a valid log, `append` takes a message exactly when the history admits it, and then the history
-- is longer by this message, at its end, in the same session, and the log is valid again: no message
-- id and no call id twice, every result for an earlier call, no second result for a call, and the
-- log's indexes in step with its messages.
pub append_admits :
    (log : MessageLog) (m : Message)
    → IsValid log
    → ((log' : MessageLog) × (append log m ≡ ok log')
        × IsValid log'
        × (log'.messages ≡ log.messages ++ m ∷ [])
        × (log'.session_id ≡ log.session_id))
      ↔ IsAdmissible log.session_id log.messages m
append_admits log m v = (
  λ h. (validate-IsAdmissible log v.agrees m).0 (append-validate log h.0 m h.1).0,
  λ a.
      let (e, f, _) = record_message_fields log m in
      (
        record_message log m,
        append-record_message log m ((validate-IsAdmissible log v.agrees m).1 a),
        IsValid-record_message log m v a,
        f,
        e,
      ),
)

module _ (log : MessageLog) (m : Message) (v : IsValid log)
    (a : IsAdmissible log.session_id log.messages m) where
  result_kept :
      (k : String) (r : ToolResult)
      → find_result log k ≡ some r
      → find_result (record_message log m) k ≡ some r
  unfolding find_result
  result_kept k r e =
      rw
        (
          (Agrees-record_message log v.agrees m a.fits).results k,
          (record_message_fields log m).1,
          results_of-append log.messages,
          find_answer-append,
        )
        (ground (arith, v.agrees.results k))

  call_kept :
      (k : String) (c : ToolCall)
      → find_tool_call log k ≡ some c
      → find_tool_call (record_message log m) k ≡ some c
  unfolding find_tool_call
  call_kept k c e =
      rw
        (
          (Agrees-record_message log v.agrees m a.fits).calls k,
          (record_message_fields log m).1,
          calls_of-append log.messages,
          find_call-append,
        )
        (ground (arith, v.agrees.calls k))

result_found :
    (log : MessageLog) (r : ToolResult)
    → find_result (record_message log (tool_result r)) r.tool_call_id ≡ some r
unfolding find_result record_message
result_found log r = rw lookup-insert (ground (arith, eq_iff r.tool_call_id r.tool_call_id))

-- what `append` returns on a valid log is a valid log of the same session
pub append-IsValid :
    (log log' : MessageLog) (m : Message)
    → IsValid log
    → append log m ≡ ok log'
    → IsValid log' × (log'.session_id ≡ log.session_id)
append-IsValid log log' m v e =
    let (valid, is) = append-validate log log' m e in
    let a = (validate-IsAdmissible log v.agrees m).0 valid in
    (
      subst IsValid (sym is) (IsValid-record_message log m v a),
      ap (λ l. l.session_id) is ∙ (record_message_fields log m).0,
    )

-- Results and calls are final: what `find_result` and `find_tool_call` return for an id, they return
-- after any further `append` too. After a result has been appended, `find_result` returns it.
pub results_final :
    (log log' : MessageLog) (m : Message)
    → IsValid log
    → append log m ≡ ok log'
    → ((k : String) (r : ToolResult) → find_result log k ≡ some r → find_result log' k ≡ some r)
      × ((k : String) (c : ToolCall)
          → find_tool_call log k ≡ some c
          → find_tool_call log' k ≡ some c)
      × ((r : ToolResult) → m ≡ tool_result r → find_result log' r.tool_call_id ≡ some r)
results_final log log' m v h =
    let (valid, e) = append-validate log log' m h in
    let a = (validate-IsAdmissible log v.agrees m).0 valid in
    (
      λ k r p. rw e (result_kept log m v a k r p),
      λ k c p. rw e (call_kept log m v a k c p),
      λ r p. rw (e, p) (result_found log r),
    )

-- the logs that a program can hold: `append` after `append` on a new one
pub data IsBuilt (session_id : String) : MessageLog → Type 0 where
  created : {log : MessageLog} → new_log session_id ≡ ok log → IsBuilt session_id log
  appended :
      {log log' : MessageLog} (m : Message)
      → IsBuilt session_id log
      → append log m ≡ ok log'
      → IsBuilt session_id log'

pub new_log-fields :
    (sid : String) (log : MessageLog)
    → new_log sid ≡ ok log
    → (log.messages ≡ []) × (log.session_id ≡ sid) × (str_eq sid "" ≡ false)
unfolding new_log
new_log-fields sid log h = ground arith

empty-IsValid :
    (sid : String)
    → IsValid (record {
      session_id = sid;
      messages = [];
      message_ids = [];
      tool_calls = [];
      results = [];
    })
unfolding contains lookup ids_of calls_of results_of find_call find_answer
empty-IsValid sid = record {
  agrees = record { ids = λ k. refl; calls = λ k. refl; results = λ k. refl };
  history = record { sessions = tt; ids = tt; calls = tt; answers = tt; answered = tt };
}

new_log-IsValid : (sid : String) (log : MessageLog) → new_log sid ≡ ok log → IsValid log
unfolding new_log
new_log-IsValid sid log e = subst IsValid (ground arith) (empty-IsValid sid)

-- Every log that `append` builds from a new one, however long, is valid and stays in its session: no
-- message id and no call id occurs twice, every result belongs to a call, at most one to each, and
-- the indexes of the log answer as a search of its messages would.
pub built-IsValid :
    {sid : String} {log : MessageLog} → IsBuilt sid log → IsValid log × (log.session_id ≡ sid)
built-IsValid {sid} {log} (created e) = (new_log-IsValid sid log e, (new_log-fields sid log e).1)
built-IsValid {sid} {log = log'} (appended {log = log} m b e) =
    let (v, same) = built-IsValid b in
    let (v', e') = append-IsValid log log' m v e in (v', e' ∙ same)
