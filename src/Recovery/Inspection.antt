-- ===== src/Recovery/Inspection.antt =====
-- `inspect` of src/coding_agent/agent/recovery.py: resume, reconcile or stop.
use py_coding_agent.Prelude.{
  ℕ, String, Bool, false, ◌&&◌, not, Option, none, some, str_eq, if◌then◌else◌, List, [], ◌∷◌, ◌++◌,
  length,
}
use py_coding_agent.Prelude.Dict.{Dict, lookup, insert, contains}
use py_coding_agent.Result.{Result, ok, err, ◌>>=◌}
use py_coding_agent.Value.{Value, Fields, Items, nil, cons, obj, arr, str, get_field}
use py_coding_agent.Storage.Rows.{SessionRecord, StoreError}
use py_coding_agent.Storage.Checkpoints.{Checkpoint, ToolIntent, IntentStatus}

pub data RecoveryDecision : Type 0 where
  resume_run reconcile stop : RecoveryDecision

-- the text of a plan's reason, as the case that it is about
pub data Reason : Type 0 where
  fingerprint_mismatch : Reason
  dangling_intent no_intent : String → Reason
  disagreement : String → IntentStatus → Reason
  outcome_unknown : ℕ → Reason
  safe_to_resume : Reason

pub record RecoveryPlan : Type 0 where
  pub session_id : String
  pub decision : RecoveryDecision
  pub reason : Reason
  pub session_version : ℕ
  pub safe_boundary : Option Checkpoint
  pub pending_intents : List ToolIntent
  pub uncertain_intents : List ToolIntent
  pub workspace_fingerprint : Option String

-- RecoveryError and its kinds, errors of the stores, and what Python raises for a message without the
-- keys that are read
pub data RecoveryError : Type 0 where
  cannot_resume unknown_decision : RecoveryError
  unknown_intent : String → RecoveryError
  not_awaiting : String → IntentStatus → RecoveryError
  store_error : StoreError → RecoveryError
  checkpoint_exists malformed : RecoveryError

-- `message.get("type") == kind`
abbrev pub is_kind : String → Fields → Bool
is_kind kind d = is_text (get_field d "type")
  where
    is_text : Option Value → Bool
    is_text (some (str s)) = str_eq s kind
    is_text _ = false

abbrev pub present : Option Value → Result RecoveryError Value
present none = err malformed
present (some v) = ok v

module _ (show : Value → String) where
  -- `str(value)`: a text is itself
  abbrev shown : Value → String
  shown (str s) = s
  shown v = show v

  abbrev pub key_of : Fields → String → Result RecoveryError String
  key_of d key = present (get_field d key) >>= λ v. ok (shown v)

  unfoldable pub item_ids : Items → Result RecoveryError (List String)
  item_ids nil = ok []
  item_ids (cons (obj call) rest) =
      key_of call "id" >>= λ id. item_ids rest >>= λ ids. ok (id ∷ ids)
  item_ids (cons v rest) = err malformed

  abbrev calls_in : Option Value → Result RecoveryError (List String)
  calls_in none = ok []
  calls_in (some (arr items)) = item_ids items
  calls_in (some v) = err malformed

  -- the calls that a message makes, and the call that it answers
  unfoldable pub call_ids_in : Value → Result RecoveryError (List String)
  call_ids_in (obj d) = if is_kind "assistant" d then calls_in (get_field d "tool_calls") else ok []
  call_ids_in v = err malformed

  unfoldable pub resolved_in : Value → Result RecoveryError (List String)
  resolved_in (obj d) =
      if is_kind "tool_result" d then (key_of d "tool_call_id" >>= λ id. ok (id ∷ [])) else ok []
  resolved_in v = err malformed

-- what the messages give, one after the other
unfoldable pub gather :
    (Value → Result RecoveryError (List String)) → List Value → Result RecoveryError (List String)
gather read [] = ok []
gather read (m ∷ ms) = read m >>= λ here. gather read ms >>= λ rest. ok (here ++ rest)

unfoldable pub without : List String → List String → List String
without resolved [] = []
without resolved (c ∷ cs) =
    let rest = without resolved cs in if contains c resolved then rest else c ∷ rest

-- `{intent.call_id: intent for intent in intents}`
unfoldable pub by_call : Dict ToolIntent → List ToolIntent → Dict ToolIntent
by_call d [] = d
by_call d (i ∷ is) = by_call (insert i.call_id i d) is

-- the first intent whose call is not in the history
unfoldable pub dangling : List String → List ToolIntent → Option ToolIntent
dangling calls [] = none
dangling calls (i ∷ is) = if contains i.call_id calls then dangling calls is else some i

-- where the loop over the open calls ends: early, or with the pending and the uncertain intents
pub data Sorted : Type 0 where
  stopped : Reason → Sorted
  sorted : List ToolIntent → List ToolIntent → Sorted

abbrev pub add_pending : ToolIntent → Sorted → Sorted
add_pending i (stopped reason) = stopped reason
add_pending i (sorted pending uncertain) = sorted (i ∷ pending) uncertain

abbrev pub add_uncertain : ToolIntent → Sorted → Sorted
add_uncertain i (stopped reason) = stopped reason
add_uncertain i (sorted pending uncertain) = sorted pending (i ∷ uncertain)

abbrev pub by_status : String → ToolIntent → Sorted → IntentStatus → Sorted
by_status c i rest IntentStatus.started = add_uncertain i rest
by_status c i rest IntentStatus.planned = add_pending i rest
by_status c i rest status = stopped (disagreement c status)

abbrev pub sort_one : String → Sorted → Option ToolIntent → Sorted
sort_one c rest none = stopped (no_intent c)
sort_one c rest (some i) = by_status c i rest i.status

unfoldable pub sort_calls : Dict ToolIntent → List String → Sorted
sort_calls d [] = sorted [] []
sort_calls d (c ∷ cs) = let rest = sort_calls d cs in sort_one c rest (lookup c d)

-- `checkpoint.workspace_fingerprint and checkpoint.workspace_fingerprint != current`
abbrev pub mismatch : Option String → Option Checkpoint → Bool
mismatch (some current) (some c) =
    not (str_eq c.workspace_fingerprint "") && not (str_eq c.workspace_fingerprint current)
mismatch _ _ = false

abbrev fingerprint_of : Option Checkpoint → Option String
fingerprint_of none = none
fingerprint_of (some c) = some c.workspace_fingerprint

-- `_plan`
unfoldable pub plan :
    SessionRecord
    → Option Checkpoint
    → RecoveryDecision
    → Reason
    → List ToolIntent
    → List ToolIntent
    → RecoveryPlan
plan r checkpoint decision reason pending uncertain = record {
  session_id = r.session_id;
  decision = decision;
  reason = reason;
  session_version = r.version;
  safe_boundary = checkpoint;
  pending_intents = pending;
  uncertain_intents = uncertain;
  workspace_fingerprint = fingerprint_of checkpoint;
}

abbrev pub sorted_plan : SessionRecord → Option Checkpoint → Sorted → RecoveryPlan
sorted_plan r checkpoint (stopped reason) = plan r checkpoint stop reason [] []
sorted_plan r checkpoint (sorted pending []) =
    plan r checkpoint resume_run safe_to_resume pending []
sorted_plan r checkpoint (sorted pending (u ∷ us)) =
    plan r checkpoint reconcile (outcome_unknown (length (u ∷ us))) pending (u ∷ us)

-- the decision on the calls of the history, the answered ones, and the journal
unfoldable pub decide :
    SessionRecord → Option Checkpoint → List ToolIntent → List String → List String → RecoveryPlan
decide r checkpoint intents calls resolved = by_dangling (dangling calls intents)
  where
    by_dangling : Option ToolIntent → RecoveryPlan
    by_dangling (some i) = plan r checkpoint stop (dangling_intent i.intent_id) [] []
    by_dangling none =
        sorted_plan r checkpoint (sort_calls (by_call [] intents) (without resolved calls))

-- `inspect`, on what the stores have; `current` is the fingerprint of the workspace, if there is one
unfoldable pub inspect :
    (Value → String)
    → SessionRecord
    → Option Checkpoint
    → List ToolIntent
    → Option String
    → Result RecoveryError RecoveryPlan
inspect show r checkpoint intents current =
    if mismatch current checkpoint
    then ok (plan r checkpoint stop fingerprint_mismatch [] [])
    else (gather (resolved_in show) r.messages >>= λ resolved.
        gather (call_ids_in show) r.messages >>= λ calls.
        ok (decide r checkpoint intents calls resolved))
