-- ===== src/Message/Refinement.antt =====
-- The indexes of a `MessageLog` agree with its messages, whatever is appended: the log refines the
-- list of its messages.
use mathlib.Core.List.{append-nil}
use py_coding_agent.Prelude.{String, eq_iff, or_else, List, [], ◌∷◌, ◌++◌, ◌≡◌, refl, arith}
use py_coding_agent.Prelude.Dict.{Dict, contains, lookup, insert, lookup-insert}
use py_coding_agent.Message.{
  Message, system_message, user_message, assistant_message, tool_result, ToolCall, meta_of,
}
use py_coding_agent.Message.Log.{MessageLog, record_calls, record_message}
use py_coding_agent.Message.History.{
  ids_of, calls_of, results_of, call_ids, find_call, find_answer, AreDistinct, AreFresh,
  ids_of-append, calls_of-append, results_of-append, find_call-append, find_answer-append,
  is_some-find_call, is_some-find_answer, contains-append,
}
use py_coding_agent.Message.Admission.{Agrees, FitsKind}

-- Where the ids are distinct, the loop that records the calls leaves the first call of each id.
lookup-record_calls :
    (k : String) (calls : List ToolCall) (known : Dict ToolCall)
    → AreDistinct (call_ids calls)
    → lookup k (record_calls calls known) ≡ or_else (find_call k calls) (lookup k known)
unfolding record_calls find_call
lookup-record_calls k [] known d = refl
lookup-record_calls k (c ∷ cs) known d =
    rw (lookup-record_calls k cs (insert c.id c known) d.1, lookup-insert c.id k c known)
      (ground (arith, is_some-find_call c.id cs, eq_iff c.id k))

-- of two lists of calls with no id in common, either may be searched first
find_call_comm :
    (k : String) (old new : List ToolCall)
    → AreFresh (call_ids old) (call_ids new)
    → or_else (find_call k new) (find_call k old) ≡ or_else (find_call k old) (find_call k new)
unfolding find_call
find_call_comm k old [] f = ground arith
find_call_comm k old (c ∷ cs) f =
    ground (arith, find_call_comm k old cs f.1, eq_iff c.id k, is_some-find_call c.id old)

pub record_message_fields :
    (log : MessageLog) (m : Message)
    → ((record_message log m).session_id ≡ log.session_id)
      × ((record_message log m).messages ≡ log.messages ++ m ∷ [])
      × ((record_message log m).message_ids ≡ (meta_of m).id ∷ log.message_ids)
unfolding record_message
record_message_fields log (system_message meta content) = (refl, refl, refl)
record_message_fields log (user_message meta content) = (refl, refl, refl)
record_message_fields log (assistant_message m) = (refl, refl, refl)
record_message_fields log (tool_result r) = (refl, refl, refl)

module _ (log : MessageLog) (g : Agrees log) where
  Agrees-ids :
      (m : Message) (k : String)
      → contains k ((meta_of m).id ∷ log.message_ids) ≡ contains k (ids_of (log.messages ++ m ∷ []))
  unfolding contains ids_of
  Agrees-ids m k = rw (ids_of-append log.messages, contains-append) (ground (arith, g.ids k))

  Agrees-calls :
      (m : Message) (k : String)
      → FitsKind log.messages m
      → lookup k (record_message log m).tool_calls ≡ find_call k (calls_of (log.messages ++ m ∷ []))
  unfolding record_message find_call calls_of
  Agrees-calls (assistant_message m) k f =
      rw
        (
          calls_of-append log.messages,
          append-nil,
          find_call-append,
          lookup-record_calls k m.tool_calls log.tool_calls f.1,
          g.calls k,
        )
        (find_call_comm k (calls_of log.messages) m.tool_calls f.2)
  Agrees-calls (system_message meta content) k f =
      rw (calls_of-append log.messages, append-nil (calls_of log.messages)) (g.calls k)
  Agrees-calls (user_message meta content) k f =
      rw (calls_of-append log.messages, append-nil (calls_of log.messages)) (g.calls k)
  Agrees-calls (tool_result r) k f =
      rw (calls_of-append log.messages, append-nil (calls_of log.messages)) (g.calls k)

  Agrees-results :
      (m : Message) (k : String)
      → FitsKind log.messages m
      → lookup k (record_message log m).results
        ≡ find_answer k (results_of (log.messages ++ m ∷ []))
  unfolding record_message find_answer results_of
  Agrees-results (tool_result r) k f =
      rw
        (
          results_of-append log.messages,
          find_answer-append,
          lookup-insert r.tool_call_id k r log.results,
        )
        (ground (
          arith,
          g.results k,
          is_some-find_answer r.tool_call_id (results_of log.messages),
          eq_iff r.tool_call_id k,
        ))
  Agrees-results (system_message meta content) k f =
      rw (results_of-append log.messages, append-nil (results_of log.messages)) (g.results k)
  Agrees-results (user_message meta content) k f =
      rw (results_of-append log.messages, append-nil (results_of log.messages)) (g.results k)
  Agrees-results (assistant_message m) k f =
      rw (results_of-append log.messages, append-nil (results_of log.messages)) (g.results k)

  pub Agrees-record_message :
      (m : Message) → FitsKind log.messages m → Agrees (record_message log m)
  Agrees-record_message m f =
      let (_, e, d) = record_message_fields log m in
      record {
        ids = λ k. rw (e, d) (Agrees-ids m k);
        calls = λ k. rw e (Agrees-calls m k f);
        results = λ k. rw e (Agrees-results m k f);
      }
