-- ===== src/Message/RoundTrip.antt =====
-- What is written as a dict is read back as it was.
use py_coding_agent.Prelude.{
  String, Bool, true, false, Option, none, some, str_eq, List, [], ◌∷◌, ◌++◌, map, ◌≡◌, refl, ◌∙◌,
  ap, arith, inl, inr,
}
use py_coding_agent.Prelude.Int.{ℤ}
use py_coding_agent.Result.{Result, ok, ◌>>=◌, Result-cases}
use py_coding_agent.State.{StopReason}
use py_coding_agent.Value.{int, str, items_of, boolean}
use py_coding_agent.Message.{
  MessageMeta, ToolCall, ToolResultStatus, Message, system_message, user_message, assistant_message,
  tool_result, ValidationCode,
}
use py_coding_agent.Message.Log.{MessageLog, new_log, append}
use py_coding_agent.Message.Refinement.{record_message_fields}
use py_coding_agent.Message.Append.{append-validate, new_log-fields, IsBuilt, created, appended}
use py_coding_agent.Message.Dicts.{
  require_mapping, require, require_str, require_schema_version, as_nonempty, parse_stop_reason,
  parse_tool_result_status, stop_reason_value, status_value, optional_str, optional_bool,
  optional_int, or_null, as_items, call_from_dict, calls_from_dicts, call_to_dict, meta_to_dict,
  message_to_dict,
}
use py_coding_agent.Message.Parse.{
  validate_utc_timestamp, meta_from_dict, message_from_dict, append_dicts, deserialize, serialize,
}

-- The ids and names that the reader wants to be there.
pub record IsStorableCall (c : ToolCall) : Type 0 where
  pub has_id : str_eq c.id "" ≡ false
  pub has_name : str_eq c.name "" ≡ false

abbrev pub AreStorableCalls : List ToolCall → Type 0
AreStorableCalls [] = Unit
AreStorableCalls (c ∷ cs) = IsStorableCall c × AreStorableCalls cs

call_round_trip : (c : ToolCall) → IsStorableCall c → call_from_dict (call_to_dict c) ≡ ok c
unfolding call_from_dict call_to_dict
call_round_trip c h = rw (h.has_id, h.has_name) refl

calls_round_trip :
    (cs : List ToolCall)
    → AreStorableCalls cs
    → calls_from_dicts (items_of (map call_to_dict cs)) ≡ ok cs
unfolding calls_from_dicts
calls_round_trip [] h = refl
calls_round_trip (c ∷ cs) h = rw (call_round_trip c h.0, calls_round_trip cs h.1) refl

stop_reason_round_trip : (s : StopReason) → parse_stop_reason (str (stop_reason_value s)) ≡ ok s
unfolding parse_stop_reason stop_reason_value
stop_reason_round_trip StopReason.end_turn = refl
stop_reason_round_trip _ = refl

status_round_trip : (s : ToolResultStatus) → parse_tool_result_status (str (status_value s)) ≡ ok s
unfolding parse_tool_result_status status_value
status_round_trip ToolResultStatus.completed = refl
status_round_trip _ = refl

optional_str_round_trip : (o : Option String) → optional_str (some (or_null str o)) ≡ ok o
unfolding optional_str
optional_str_round_trip none = refl
optional_str_round_trip (some s) = refl

optional_bool_round_trip : (o : Option Bool) → optional_bool (some (or_null boolean o)) ≡ ok o
unfolding optional_bool
optional_bool_round_trip none = refl
optional_bool_round_trip (some s) = refl

optional_int_round_trip : (o : Option ℤ) → optional_int (some (or_null int o)) ≡ ok o
unfolding optional_int
optional_int_round_trip none = refl
optional_int_round_trip (some s) = refl

module _ (fromisoformat : String → Option Bool) where
  pub record IsStorableMeta (m : MessageMeta) : Type 0 where
    pub has_id : str_eq m.id "" ≡ false
    pub has_session : str_eq m.session_id "" ≡ false
    pub has_run : str_eq m.run_id "" ≡ false
    pub has_time : fromisoformat m.created_at ≡ some true

  abbrev pub IsStorable : Message → Type 0
  IsStorable (system_message meta content) = IsStorableMeta meta
  IsStorable (user_message meta content) = IsStorableMeta meta
  IsStorable (assistant_message m) = IsStorableMeta m.meta × AreStorableCalls m.tool_calls
  IsStorable (tool_result r) = IsStorableMeta r.meta × (str_eq r.tool_call_id "" ≡ false)

  abbrev pub AreStorable : List Message → Type 0
  AreStorable [] = Unit
  AreStorable (m ∷ ms) = IsStorable m × AreStorable ms

  time_round_trip :
      (s : String)
      → fromisoformat s ≡ some true
      → validate_utc_timestamp fromisoformat (str s) ≡ ok s
  unfolding validate_utc_timestamp
  time_round_trip s h = ground arith

  meta_round_trip :
      (m : MessageMeta) → IsStorableMeta m → meta_from_dict fromisoformat (meta_to_dict m) ≡ ok m
  unfolding meta_from_dict meta_to_dict
  meta_round_trip m h =
      rw (h.has_id, h.has_session, h.has_run, time_round_trip m.created_at h.has_time) refl

  message_round_trip :
      (m : Message) → IsStorable m → message_from_dict fromisoformat (message_to_dict m) ≡ ok m
  unfolding message_from_dict message_to_dict
  message_round_trip (system_message meta content) h = rw (meta_round_trip meta h) refl
  message_round_trip (user_message meta content) h = rw (meta_round_trip meta h) refl
  message_round_trip (assistant_message m) h =
      rw
        (
          meta_round_trip m.meta h.0,
          calls_round_trip m.tool_calls h.1,
          stop_reason_round_trip m.stop_reason,
        )
        refl
  message_round_trip (tool_result r) h =
      rw
        (
          meta_round_trip r.meta h.0,
          optional_str_round_trip r.artifact_ref,
          optional_str_round_trip r.error_kind,
          optional_bool_round_trip r.retryable,
          optional_int_round_trip r.exit_code,
          h.1,
          status_round_trip r.status,
        )
        refl

appends : MessageLog → List Message → Result ValidationCode MessageLog
appends log [] = ok log
appends log (m ∷ ms) = do log' ← append log m; appends log' ms

appends-snoc :
    (log : MessageLog) (ms : List Message) (m : Message)
    → appends log (ms ++ m ∷ []) ≡ (appends log ms >>= λ log'. append log' m)
unfolding appends
appends-snoc log [] m = ground arith
appends-snoc log (x ∷ ms) m = elim (Result-cases (append log x)) [
  | inl (l, e) ↦ rw e (appends-snoc l ms m)
  | inr (c, e) ↦ rw e refl
]

-- a built log is its messages, appended one after the other
built-appends :
    {sid : String} {log : MessageLog}
    → IsBuilt sid log
    → (first : MessageLog) × (new_log sid ≡ ok first)
      × (appends first log.messages ≡ ok log)
      × (log.session_id ≡ sid)
      × (str_eq sid "" ≡ false)
unfolding appends
built-appends {sid} {log} (created e) =
    let (f, g, h) = new_log-fields sid log e in (log, e, rw f refl, g, h)
built-appends {sid} {log = log'} (appended {log = log} m b e) =
    let (first, new, all, same, full) = built-appends b in
    let (_, is) = append-validate log log' m e in
    let (session, messages, _) = record_message_fields log m in
    (
      first,
      new,
      ap (appends first) (ap (λ l. l.messages) is ∙ messages)
          ∙ appends-snoc first log.messages m
          ∙ rw all e,
      rw is (session ∙ same),
      full,
    )

module _ (fromisoformat : String → Option Bool) where
  append_dicts-appends :
      (log : MessageLog) (ms : List Message)
      → AreStorable fromisoformat ms
      → append_dicts fromisoformat log (items_of (map message_to_dict ms)) ≡ appends log ms
  unfolding append_dicts appends
  append_dicts-appends log [] h = refl
  append_dicts-appends log (m ∷ ms) h =
      rw (message_round_trip fromisoformat m h.0) (elim (Result-cases (append log m)) [
        | inl (l, e) ↦ rw e (append_dicts-appends l ms h.1)
        | inr (c, e) ↦ rw e refl
      ])

  -- Serializing a log and loading it again gives the log back, indexes included: for any log that
  -- was built by `append` from a new one, if its ids are not empty and its timestamps are times with
  -- a UTC offset, as `fromisoformat` reads them.
  pub deserialize-serialize :
      {session_id : String} (log : MessageLog)
      → IsBuilt session_id log
      → AreStorable fromisoformat log.messages
      → deserialize fromisoformat (serialize log) ≡ ok log
  unfolding deserialize serialize require_mapping require_schema_version require require_str
      as_items as_nonempty
  deserialize-serialize log b h =
      let (first, new, all, same, full) = built-appends b in
      let full' : str_eq log.session_id "" ≡ false = rw same full in
      let new' : new_log log.session_id ≡ ok first = rw same new in
      rw (full', new', append_dicts-appends first log.messages h) all
