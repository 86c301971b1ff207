-- ===== src/Recovery/Examples.antt =====
-- Two sessions of one call each; the process stopped before the calls were started.
use py_coding_agent.Prelude.{
  ℕ, ◌==◌, ◌&&◌, ◌≡◌, refl, sym, ap, subst, ◌∙◌, ◌⊎◌, String, Bool, true, false, Option, none, some,
  str_eq, eq_iff, if◌then◌else◌, Bool-cases, inl, inr, List, [], ◌∷◌, arith,
}
use py_coding_agent.Prelude.Int.{pos}
use py_coding_agent.Prelude.Dict.{lookup, insert, contains}
use py_coding_agent.Result.{Result, ok, err}
use py_coding_agent.State.{StopReason}
use py_coding_agent.Value.{Value, Fields, obj, end, null, field, str, boolean, int, get_field}
use py_coding_agent.Message.{Message, assistant_message, tool_result}
use py_coding_agent.Message.Dicts.{
  message_to_dict, meta_to_dict, call_to_dict, stop_reason_value, status_value, require_mapping,
  require, require_str, require_schema_version, as_count, is_schema_version, as_nonempty,
}
use py_coding_agent.Message.Parse.{validate_utc_timestamp, meta_from_dict}
use py_coding_agent.Storage.Sessions.{
  next_ordinal, by_version, load_rows, load_summaries, load, message_rows, add_summaries, append,
}
use py_coding_agent.Storage.Rows.{Database, SessionRow, SessionRecord}
use py_coding_agent.Storage.Checkpoints.{
  ToolIntent, IntentStatus, Journal, has_checkpoint, save, latest_of, latest, update_intents,
  set_intent_status, intents_of, open_intents, all_intents,
}
use py_coding_agent.Recovery.Inspection.{
  RecoveryPlan, RecoveryError, resume_run, stop, safe_to_resume, checkpoint_exists, mismatch,
  item_ids, call_ids_in, resolved_in, gather, without, by_call, dangling, sort_calls, plan, decide,
  inspect,
}
use py_coding_agent.Recovery.Justified.{inspect-Verdict}
use py_coding_agent.Recovery.Verdicts.{Verdict}
use py_coding_agent.Recovery.Resolution.{
  has_call, turn_of_call, payloads, append_results, record_results, resume,
}
use py_coding_agent.Recovery.Results.{RecoveryOutcome, Stores, not_executed, set_all, result_for}
use py_coding_agent.Recovery.Settled.{IsSettled, resume-IsSettled}
use py_coding_agent.Recovery.Collision.{record_results-collides}

-- equality of the values that occur here
unfoldable mutual
  same : Value → Value → Bool
  same (str s) (str t) = str_eq s t
  same (obj d) (obj e) = same_fields d e
  same (boolean true) (boolean true) = true
  same (int (pos m)) (int (pos n)) = m == n
  same null null = true
  same _ _ = false

  same_fields : Fields → Fields → Bool
  same_fields end end = true
  same_fields (field k v d) (field l w e) = str_eq k l && same v w && same_fields d e
  same_fields _ _ = false

all_true : (a b c : Bool) → (a && b && c) ≡ true → (a ≡ true) × (b ≡ true) × (c ≡ true)
all_true a b c h = ground arith

mutual
  unfolding same

  same-eq : (v w : Value) → same v w ≡ true → v ≡ w
  same-eq (str s) (str t) h = ap str ((eq_iff s t).0 h)
  same-eq (obj d) (obj e) h = ap obj (same_fields-eq d e h)
  same-eq (boolean true) (boolean true) h = refl
  same-eq (int (pos m)) (int (pos n)) h = ap (λ k. int (pos k)) (ground arith)
  same-eq null null h = refl
  same-eq _ _ h = absurd (ground arith)

  same_fields-eq : (d e : Fields) → same_fields d e ≡ true → d ≡ e
  same_fields-eq end end h = refl
  same_fields-eq (field k v d) (field l w e) h =
      let (same_key, same_value, same_rest) =
        all_true (str_eq k l) (same v w) (same_fields d e) h in
      let values : v ≡ w = same-eq v w same_value in
      let rest : d ≡ e = same_fields-eq d e same_rest in
      let keys : k ≡ l = (eq_iff k l).0 same_key in
      ap (λ x. field x v d) keys ∙ ap (λ x. field l x d) values ∙ ap (λ x. field l w x) rest
  same_fields-eq _ _ h = absurd (ground arith)

abbrev asking : Message
asking = assistant_message (record {
  meta = record { id = "m1"; session_id = "s"; run_id = "r"; turn_id = 1; created_at = "t" };
  content = "";
  stop_reason = StopReason.tool_calls;
  tool_calls = record { id = "c1"; name = "bash"; arguments = end; ordinal = 0 } ∷ [];
})

abbrev intent : String → ToolIntent
intent session = record {
  intent_id = "i1";
  session_id = session;
  run_id = "r";
  call_id = "c1";
  tool_name = "bash";
  arguments_digest = "d";
  status = IntentStatus.planned;
  created_at = "t";
  updated_at = "t";
}

-- the JSON texts: of the message, and of the results that are recorded for the sessions
abbrev answer : String → Value
answer session =
    message_to_dict (tool_result (result_for "t" session not_executed (intent session) 1 "m2"))

abbrev parse : String → Option Value
parse text =
    if str_eq text "call"
    then some (message_to_dict asking)
    else if str_eq text "one"
    then some (answer "s")
    else if str_eq text "two"
    then some (answer "s2")
    else none

abbrev dumps : Value → Option String
dumps v =
    if same v (answer "s") then some "one" else if same v (answer "s2") then some "two" else none

abbrev iterate : Value → Option (List Value)
iterate _ = some []

written : (v : Value) (text : String) → dumps v ≡ some text → parse text ≡ some v
unfolding message_to_dict
written v text h = elim (Bool-cases (same v (answer "s"))) [
  | inl q ↦
      let one : some "one" ≡ some text = rw q at h in
      let text_one : "one" ≡ text = ground arith in
      subst (λ t. parse t ≡ some v) text_one (ap some (sym (same-eq v (answer "s") q)))
  | inr q ↦ elim (Bool-cases (same v (answer "s2"))) [
    | inl q2 ↦
        let two : some "two" ≡ some text = rw q2 at (rw q at h) in
        let text_two : "two" ≡ text = ground arith in
        subst (λ t. parse t ≡ some v) text_two (ap some (sym (same-eq v (answer "s2") q2)))
    | inr q2 ↦ let nothing : none ≡ some text = rw q2 at (rw q at h) in absurd (ground arith)
  ]
]

abbrev row : List (ℕ × String) → ℕ → SessionRow
row messages version = record {
  schema = 1;
  workspace = "w";
  version = version;
  messages = messages;
  summaries = [];
}

abbrev before : Stores
before = record {
  database = record {
    sessions = ("s", row ((0, "call") ∷ []) 1) ∷ ("s2", row ((0, "call") ∷ []) 1) ∷ [];
    run_locks = [];
  };
  journal = record { checkpoints = []; intents = intent "s" ∷ intent "s2" ∷ [] };
}

abbrev session : SessionRecord
session = record {
  session_id = "s";
  workspace = "w";
  schema = 1;
  version = 1;
  messages = message_to_dict asking ∷ [];
  summaries = [];
  filtered_tail = 0;
}

abbrev to_resume : RecoveryPlan
to_resume = record {
  session_id = "s";
  decision = resume_run;
  reason = safe_to_resume;
  session_version = 1;
  safe_boundary = none;
  pending_intents = intent "s" ∷ [];
  uncertain_intents = [];
  workspace_fingerprint = none;
}

abbrev no_show : Value → String
no_show _ = "?"

abbrev utc : String → Option Bool
utc _ = some true

abbrev m2 : ℕ → String
m2 _ = "m2"

abbrev two : ℕ → String
two _ = "2"

abbrev resumed : Result RecoveryError RecoveryOutcome × Stores
resumed = resume no_show utc m2 "t" parse dumps iterate two to_resume before

abbrev outcome : RecoveryOutcome
outcome = record {
  session_id = "s";
  decision = resume_run;
  appended_message_ids = "m2" ∷ [];
  resolved_intent_ids = "i1" ∷ [];
  session_version = 2;
}

session_loaded : load parse dumps iterate "s" true before.database ≡ ok session
unfolding load load_rows load_summaries by_version lookup message_to_dict
session_loaded = refl

session_calls : gather (call_ids_in no_show) session.messages ≡ ok ("c1" ∷ [])
unfolding gather call_ids_in item_ids message_to_dict call_to_dict get_field
session_calls = refl

session_inspected :
    inspect no_show session none (all_intents "s" before.journal) none ≡ ok to_resume
unfolding inspect gather call_ids_in resolved_in item_ids message_to_dict call_to_dict get_field
    all_intents intents_of decide dangling by_call lookup insert sort_calls without contains plan
session_inspected = refl

session_resumed : resumed ≡ (ok outcome, resumed.1)
unfolding resume record_results append_results load load_rows load_summaries by_version lookup
    insert message_to_dict call_to_dict meta_to_dict payloads turn_of_call has_call get_field
    meta_from_dict require_mapping require require_str require_schema_version as_count
    is_schema_version as_nonempty validate_utc_timestamp append message_rows add_summaries
    next_ordinal same save has_checkpoint set_all set_intent_status update_intents latest latest_of
    open_intents intents_of status_value stop_reason_value
session_resumed = refl

resume-IsSettled_example :
    IsSettled no_show (load parse dumps iterate "s" true resumed.1.database) ("c1" ∷ []) 2
resume-IsSettled_example =
    resume-IsSettled no_show utc m2 "t" parse dumps iterate two written "s" none none before
      resumed.1 session to_resume outcome ("c1" ∷ []) session_loaded refl session_calls
      session_inspected refl session_resumed

inspect-Verdict_example :
    ((mismatch none none ≡ true) × (to_resume.decision ≡ stop))
    ⊎ ((calls : List String) × (resolved : List String) × (mismatch none none ≡ false)
        × (gather (call_ids_in no_show) session.messages ≡ ok calls)
        × (gather (resolved_in no_show) session.messages ≡ ok resolved)
        × Verdict
            (all_intents "s" before.journal)
            calls
            (without resolved calls)
            to_resume.decision
            to_resume.pending_intents
            to_resume.uncertain_intents)
inspect-Verdict_example =
    inspect-Verdict no_show session none (all_intents "s" before.journal) none to_resume
      session_inspected

-- the first session's results, and then the other's
abbrev recorded : Result RecoveryError RecoveryOutcome × Stores
recorded =
    record_results no_show utc m2 "t" parse dumps iterate two "s" (intent "s" ∷ []) not_executed
      before

abbrev after_other : Database
after_other = record {
  sessions =
      ("s", row ((0, "call") ∷ (1, "one") ∷ []) 2)
      ∷ ("s2", row ((0, "call") ∷ (1, "two") ∷ []) 2)
      ∷ [];
  run_locks = [];
}

session_recorded : recorded ≡ (ok outcome, recorded.1)
unfolding record_results append_results load load_rows load_summaries by_version lookup insert
    message_to_dict call_to_dict meta_to_dict payloads turn_of_call has_call get_field
    meta_from_dict require_mapping require require_str require_schema_version as_count
    is_schema_version as_nonempty validate_utc_timestamp append message_rows add_summaries
    next_ordinal same save has_checkpoint set_all set_intent_status update_intents latest latest_of
    open_intents intents_of status_value stop_reason_value
session_recorded = refl

other_appended :
    append_results no_show utc m2 "t" parse dumps iterate two "s2"
      (intent "s2" ∷ [])
      not_executed
      recorded.1.database
    ≡ ok (2, after_other)
unfolding record_results append_results load load_rows load_summaries by_version lookup insert
    message_to_dict call_to_dict meta_to_dict payloads turn_of_call has_call get_field
    meta_from_dict require_mapping require require_str require_schema_version as_count
    is_schema_version as_nonempty validate_utc_timestamp append message_rows add_summaries
    next_ordinal same save has_checkpoint set_all set_intent_status update_intents latest latest_of
    open_intents intents_of status_value stop_reason_value
other_appended = refl

record_results-collides_example :
    (j : Journal) × (record_results no_show utc m2 "t" parse dumps iterate two "s2"
        (intent "s2" ∷ [])
        not_executed
        recorded.1
      ≡ (err checkpoint_exists, record { database = after_other; journal = j }))
record_results-collides_example =
    record_results-collides no_show utc m2 "t" parse dumps iterate two "s" "s2" (intent "s" ∷ [])
      (intent "s2" ∷ []) not_executed not_executed before recorded.1 outcome after_other
      session_recorded other_appended
