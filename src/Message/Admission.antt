-- ===== src/Message/Admission.antt =====
-- When a message may follow a history, and that `_validate` decides it from the log's indexes.
use py_coding_agent.Prelude.{
  String, true, false, str_eq, eq_iff, List, [], ◌∷◌, map, ◌≡◌, ◌↔◌, refl, arith,
}
use py_coding_agent.Prelude.Dict.{Dict, contains, lookup, has_key}
use py_coding_agent.Result.{ok}
use py_coding_agent.Value.{fields_json}
use py_coding_agent.Message.{
  Message, system_message, user_message, assistant_message, tool_result, ToolCall, meta_of,
}
use py_coding_agent.Message.Ordinals.{AreConsecutive, sorted_range-AreConsecutive}
use py_coding_agent.Message.Log.{MessageLog, check_calls, validate_kind, validate}
use py_coding_agent.Message.History.{
  ids_of, calls_of, results_of, call_ids, result_ids, find_call, find_answer, AreDistinct, AreFresh,
  AreFresh-nil, AreFresh-cons, AreFresh-cons_of, is_some-find_call, is_some-find_answer,
}

-- The dictionaries and the set answer as a search of the messages would.
pub record Agrees (log : MessageLog) : Type 0 where
  pub ids : (k : String) → contains k log.message_ids ≡ contains k (ids_of log.messages)
  pub calls : (k : String) → lookup k log.tool_calls ≡ find_call k (calls_of log.messages)
  pub results : (k : String) → lookup k log.results ≡ find_answer k (results_of log.messages)

abbrev pub IsCallable : ToolCall → Type 0
IsCallable c = (str_eq c.name "" ≡ false) × (fields_json c.arguments ≡ true)

abbrev pub AreCallable : List ToolCall → Type 0
AreCallable [] = Unit
AreCallable (c ∷ cs) = IsCallable c × AreCallable cs

module _ (known : Dict ToolCall) (ids : List String)
    (agree : (k : String) → has_key k known ≡ contains k ids) where
  pub check_calls-ok :
      (seen : List String) (calls : List ToolCall)
      → check_calls known seen calls ≡ ok tt
      → AreDistinct (call_ids calls)
        × AreFresh seen (call_ids calls)
        × AreFresh ids (call_ids calls)
        × AreCallable calls
  unfolding check_calls
  check_calls-ok seen [] h = (tt, tt, tt, tt)
  check_calls-ok seen (c ∷ cs) h =
      let (d, f, g, w) = check_calls-ok (c.id ∷ seen) cs (ground arith) in
      let (x, y) = AreFresh-cons c.id seen (call_ids cs) f in
      ((x, d), (ground arith, y), (ground (arith, agree c.id), g), (ground arith, w))

  pub check_calls_accepts :
      (seen : List String) (calls : List ToolCall)
      → AreDistinct (call_ids calls)
      → AreFresh seen (call_ids calls)
      → AreFresh ids (call_ids calls)
      → AreCallable calls
      → check_calls known seen calls ≡ ok tt
  unfolding check_calls
  check_calls_accepts seen [] d f g w = refl
  check_calls_accepts seen (c ∷ cs) d f g w = ground (
    arith,
    agree c.id,
    check_calls_accepts (c.id ∷ seen) cs d.1 (AreFresh-cons_of c.id seen (call_ids cs) d.0 f.1) g.1
        w.1,
  )

-- Whether a message may follow a history, in the words of the contract: its session is the log's and
-- its id is new; an assistant message has the ordinals 0, ..., n - 1, call ids that are distinct and
-- new, call names that are not empty and arguments that are JSON; a tool result is for a call of the
-- history that has no result yet.
abbrev pub FitsKind : List Message → Message → Type 0
FitsKind h (assistant_message m) =
    AreConsecutive (map (λ c. c.ordinal) m.tool_calls)
    × AreDistinct (call_ids m.tool_calls)
    × AreFresh (call_ids (calls_of h)) (call_ids m.tool_calls)
    × AreCallable m.tool_calls
FitsKind h (tool_result r) =
    (contains r.tool_call_id (call_ids (calls_of h)) ≡ true)
    × (contains r.tool_call_id (result_ids (results_of h)) ≡ false)
FitsKind h _ = Unit

pub record IsAdmissible (session_id : String) (h : List Message) (m : Message) : Type 0 where
  pub same_session : (meta_of m).session_id ≡ session_id
  pub new_id : contains (meta_of m).id (ids_of h) ≡ false
  pub fits : FitsKind h m

module _ (log : MessageLog) (g : Agrees log) where
  agree_calls :
      (k : String) → has_key k log.tool_calls ≡ contains k (call_ids (calls_of log.messages))
  agree_calls k = rw (g.calls k) (is_some-find_call k (calls_of log.messages))

  agree_results :
      (k : String) → has_key k log.results ≡ contains k (result_ids (results_of log.messages))
  agree_results k = rw (g.results k) (is_some-find_answer k (results_of log.messages))

  validate_kind-FitsKind : (m : Message) → validate_kind log m ≡ ok tt → FitsKind log.messages m
  unfolding validate_kind
  validate_kind-FitsKind (system_message meta content) h = tt
  validate_kind-FitsKind (user_message meta content) h = tt
  validate_kind-FitsKind (assistant_message m) h =
      let (d, _, f, w) =
        check_calls-ok log.tool_calls (call_ids (calls_of log.messages)) agree_calls [] m.tool_calls
          (ground arith) in
      ((sorted_range-AreConsecutive (map (λ c. c.ordinal) m.tool_calls)).0 (ground arith), d, f, w)
  validate_kind-FitsKind (tool_result r) h =
      ground (arith, agree_calls r.tool_call_id, agree_results r.tool_call_id)

  FitsKind-validate_kind : (m : Message) → FitsKind log.messages m → validate_kind log m ≡ ok tt
  unfolding validate_kind
  FitsKind-validate_kind (system_message meta content) h = refl
  FitsKind-validate_kind (user_message meta content) h = refl
  FitsKind-validate_kind (assistant_message m) h = ground (
    arith,
    (sorted_range-AreConsecutive (map (λ (c : ToolCall). c.ordinal) m.tool_calls)).1 h.0,
    check_calls_accepts log.tool_calls (call_ids (calls_of log.messages)) agree_calls []
        m.tool_calls h.1 (AreFresh-nil (call_ids m.tool_calls)) h.2 h.3,
  )
  FitsKind-validate_kind (tool_result r) h =
      ground (arith, agree_calls r.tool_call_id, agree_results r.tool_call_id)

  -- `_validate` passes exactly the messages that the history admits
  pub validate-IsAdmissible :
      (m : Message) → (validate log m ≡ ok tt) ↔ IsAdmissible log.session_id log.messages m
  unfolding validate
  validate-IsAdmissible m = (
    λ h. record {
      same_session = ground (arith, eq_iff (meta_of m).session_id log.session_id);
      new_id = ground (arith, g.ids (meta_of m).id);
      fits = validate_kind-FitsKind m (ground arith);
    },
    λ a. ground (
      arith,
      eq_iff (meta_of m).session_id log.session_id,
      g.ids (meta_of m).id,
      a.same_session,
      a.new_id,
      FitsKind-validate_kind m a.fits,
    ),
  )
