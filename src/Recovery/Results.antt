-- ===== src/Recovery/Results.antt =====
-- What src/coding_agent/agent/recovery.py records for a call without a result.
use py_coding_agent.Prelude.{
  ℕ, suc, String, Bool, true, Option, none, some, str_eq, if◌then◌else◌, List, [], ◌∷◌,
}
use py_coding_agent.Result.{Result, ok, err}
use py_coding_agent.Value.{Value, Fields, end, obj}
use py_coding_agent.Message.{ToolResult, ToolResultStatus, ValidationCode}
use py_coding_agent.Storage.Rows.{Database, StoreError}
use py_coding_agent.Storage.Checkpoints.{
  Checkpoint, ToolIntent, IntentStatus, Journal, set_intent_status,
}
use py_coding_agent.Recovery.Inspection.{RecoveryDecision, RecoveryError, store_error, malformed}

pub record RecoveryOutcome : Type 0 where
  pub session_id : String
  pub decision : RecoveryDecision
  pub appended_message_ids : List String
  pub resolved_intent_ids : List String
  pub session_version : ℕ

-- the two stores
pub record Stores : Type 0 where
  pub database : Database
  pub journal : Journal

-- what is recorded for a call
pub record Resolution : Type 0 where
  pub status : ToolResultStatus
  pub content : String
  pub error_kind : String
  pub retryable : Option Bool
  pub new_status : IntentStatus

abbrev pub not_executed : Resolution
not_executed = record {
  status = ToolResultStatus.cancelled;
  content = "recovery: tool call was not executed before the process stopped";
  error_kind = "recovery_not_executed";
  retryable = some true;
  new_status = IntentStatus.abandoned;
}

abbrev pub executed_unknown : Resolution
executed_unknown = record {
  status = ToolResultStatus.uncertain;
  content = "recovery: tool executed, outcome unknown; resolved by operator";
  error_kind = "recovery_executed_unknown";
  retryable = none;
  new_status = IntentStatus.resolved;
}

abbrev pub lift_store : {A : Type 0} → Result StoreError A → Result RecoveryError A
lift_store (ok a) = ok a
lift_store (err e) = err (store_error e)

abbrev pub lift_message : {A : Type 0} → Result ValidationCode A → Result RecoveryError A
lift_message (ok a) = ok a
lift_message (err e) = err malformed

abbrev pub seq_of : Option Checkpoint → ℕ
seq_of none = 0
seq_of (some c) = c.state_seq

abbrev pub fingerprint_or : Option Checkpoint → String
fingerprint_or none = ""
fingerprint_or (some c) = c.workspace_fingerprint

-- the intent with the id
unfoldable pub find_intent : String → List ToolIntent → Option ToolIntent
find_intent id [] = none
find_intent id (i ∷ is) = if str_eq i.intent_id id then some i else find_intent id is

-- `set_intent_status`, for one intent after the other
unfoldable pub set_all : String → IntentStatus → String → List ToolIntent → Journal → Journal
set_all session status now [] j = j
set_all session status now (i ∷ is) j =
    set_all session status now is (set_intent_status session i.call_id status now j)

abbrev pub fields_or_end : Value → Fields
fields_or_end (obj d) = d
fields_or_end v = end

abbrev pub result_for : String → String → Resolution → ToolIntent → ℕ → String → ToolResult
result_for now session how i turn id = record {
  meta = record {
    id = id;
    session_id = session;
    run_id = i.run_id;
    turn_id = turn;
    created_at = now;
  };
  tool_call_id = i.call_id;
  status = how.status;
  content = how.content;
  artifact_ref = none;
  error_kind = some how.error_kind;
  retryable = how.retryable;
  exit_code = none;
}

abbrev pub new_ids : (ℕ → String) → ℕ → List ToolIntent → List String
new_ids new_id n [] = []
new_ids new_id n (i ∷ is) = new_id n ∷ new_ids new_id (suc n) is
