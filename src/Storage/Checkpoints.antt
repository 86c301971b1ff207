-- ===== src/Storage/Checkpoints.antt =====
-- src/coding_agent/storage/checkpoint_store.py and the records of src/coding_agent/ports/checkpoint.py:
-- the boundaries from which a run can go on, and the journal of the tool calls.
use py_coding_agent.Prelude.{
  ℕ, String, Bool, true, false, ◌&&◌, ◌||◌, Option, none, some, str_eq, if◌then◌else◌, List, [],
  ◌∷◌, ◌++◌,
}

pub data BoundaryKind : Type 0 where
  user_task model_response tool_result compaction run_end recovery : BoundaryKind

pub data IntentStatus : Type 0 where
  planned started completed uncertain resolved abandoned : IntentStatus

pub record Checkpoint : Type 0 where
  pub checkpoint_id : String
  pub session_id : String
  pub session_version : ℕ
  pub state_seq : ℕ
  pub boundary : BoundaryKind
  pub pending_intent_ids : List String
  pub workspace_fingerprint : String
  pub created_at : String

pub record ToolIntent : Type 0 where
  pub intent_id : String
  pub session_id : String
  pub run_id : String
  pub call_id : String
  pub tool_name : String
  pub arguments_digest : String
  pub status : IntentStatus
  pub created_at : String
  pub updated_at : String

-- the two tables, each in the order of its row ids
pub record Journal : Type 0 where
  pub checkpoints : List Checkpoint
  pub intents : List ToolIntent

unfoldable pub has_checkpoint : String → List Checkpoint → Bool
has_checkpoint id [] = false
has_checkpoint id (c ∷ cs) = str_eq c.checkpoint_id id || has_checkpoint id cs

-- `save`: an INSERT, which the primary key may refuse
unfoldable pub save : Checkpoint → Journal → Option Journal
save c j =
    if has_checkpoint c.checkpoint_id j.checkpoints
    then none
    else some (record j { checkpoints = j.checkpoints ++ c ∷ [] })

-- the last one of the session
unfoldable pub latest_of : String → List Checkpoint → Option Checkpoint
latest_of session [] = none
latest_of session (c ∷ cs) =
    later (latest_of session cs) (if str_eq c.session_id session then some c else none)
  where
    later : Option Checkpoint → Option Checkpoint → Option Checkpoint
    later none first = first
    later (some c) first = some c

unfoldable pub latest : String → Journal → Option Checkpoint
latest session j = latest_of session j.checkpoints

-- a row's key
abbrev pub is_intent : String → String → ToolIntent → Bool
is_intent session call i = str_eq i.session_id session && str_eq i.call_id call

unfoldable pub without_intent : String → String → List ToolIntent → List ToolIntent
without_intent session call [] = []
without_intent session call (i ∷ is) =
    let rest = without_intent session call is in if is_intent session call i then rest else i ∷ rest

-- `INSERT OR REPLACE`: a row that was replaced comes last
unfoldable pub record_intent : ToolIntent → Journal → Journal
record_intent i j = record j { intents = without_intent i.session_id i.call_id j.intents ++ i ∷ [] }

-- an UPDATE of the rows with the key, where the test on the status holds
unfoldable pub update_intents :
    String
    → String
    → (IntentStatus → Bool)
    → IntentStatus
    → String
    → List ToolIntent
    → List ToolIntent
update_intents session call test status now [] = []
update_intents session call test status now (i ∷ is) =
    (if is_intent session call i && test i.status
      then record i { status = status; updated_at = now }
      else i)
    ∷ update_intents session call test status now is

abbrev pub is_planned : IntentStatus → Bool
is_planned IntentStatus.planned = true
is_planned _ = false

abbrev pub is_started : IntentStatus → Bool
is_started IntentStatus.started = true
is_started _ = false

abbrev any_status : IntentStatus → Bool
any_status s = true

unfoldable pub mark_started : String → String → String → Journal → Journal
mark_started session call now j = record j {
  intents = update_intents session call is_planned IntentStatus.started now j.intents;
}

unfoldable pub set_intent_status : String → String → IntentStatus → String → Journal → Journal
set_intent_status session call status now j = record j {
  intents = update_intents session call any_status status now j.intents;
}

unfoldable pub complete_intent : String → String → String → Journal → Journal
complete_intent session call now j = set_intent_status session call IntentStatus.completed now j

unfoldable pub intents_of : String → (IntentStatus → Bool) → List ToolIntent → List ToolIntent
intents_of session test [] = []
intents_of session test (i ∷ is) =
    let rest = intents_of session test is in
    if str_eq i.session_id session && test i.status then i ∷ rest else rest

unfoldable pub open_intents : String → Journal → List ToolIntent
open_intents session j = intents_of session (λ s. is_planned s || is_started s) j.intents

unfoldable pub all_intents : String → Journal → List ToolIntent
all_intents session j = intents_of session any_status j.intents
