-- ===== src/Recovery/Resolution.antt =====
-- `resume` and `resolve_uncertain` of src/coding_agent/agent/recovery.py: results for calls that have none.
use py_coding_agent.Prelude.{
  ℕ, suc, String, Bool, true, false, ◌||◌, not, Option, none, some, str_eq, if◌then◌else◌, List, [],
  ◌∷◌, map,
}
use py_coding_agent.Prelude.Text.{join}
use py_coding_agent.Result.{Result, ok, err, ◌>>=◌}
use py_coding_agent.Value.{Value, Fields, Items, nil, cons, obj, arr, get_field}
use py_coding_agent.Message.{tool_result}
use py_coding_agent.Message.Dicts.{message_to_dict}
use py_coding_agent.Message.Parse.{meta_from_dict}
use py_coding_agent.Storage.Sessions.{load, append}
use py_coding_agent.Storage.Rows.{Database}
use py_coding_agent.Storage.Checkpoints.{
  Checkpoint, BoundaryKind, ToolIntent, Journal, is_started, save, latest, open_intents,
  all_intents,
}
use py_coding_agent.Recovery.Inspection.{
  RecoveryDecision, resume_run, RecoveryPlan, RecoveryError, cannot_resume, unknown_decision,
  unknown_intent, not_awaiting, checkpoint_exists, malformed, key_of, is_kind, present,
}
use py_coding_agent.Recovery.Results.{
  RecoveryOutcome, Resolution, Stores, executed_unknown, fields_or_end, find_intent, fingerprint_or,
  lift_message, lift_store, new_ids, not_executed, result_for, seq_of, set_all,
}

module _ (show : Value → String) (fromisoformat : String → Option Bool) where
  -- the search for a call among a message's calls
  unfoldable pub has_call : String → Items → Result RecoveryError Bool
  has_call id nil = ok false
  has_call id (cons (obj call) rest) = key_of show call "id" >>= λ key.
      let later = has_call id rest in if str_eq key id then ok true else later
  has_call id (cons v rest) = err malformed

  abbrev makes_call : String → Option Value → Result RecoveryError Bool
  makes_call id none = ok false
  makes_call id (some (arr items)) = has_call id items
  makes_call id (some v) = err malformed

  abbrev turn_in : Fields → Result RecoveryError ℕ
  turn_in d = present (get_field d "meta") >>= λ v.
      lift_message (meta_from_dict fromisoformat v) >>= λ meta. ok meta.turn_id

  -- the turn of the message that makes the call: `_assistant_meta_for`, and 0 without one
  unfoldable pub turn_of_call : String → List Value → Result RecoveryError ℕ
  turn_of_call id [] = ok 0
  turn_of_call id (obj d ∷ ms) =
      let later = turn_of_call id ms in
      if is_kind "assistant" d
      then (makes_call id (get_field d "tool_calls") >>= λ found.
          if found then turn_in d else later)
      else later
  turn_of_call id (m ∷ ms) = err malformed

  -- `new_id` gives the ids of new messages, in order
  module _ (new_id : ℕ → String) (now : String) where
    -- the loop over the intents, from a number of new ids on
    unfoldable pub payloads :
        String → Resolution → List Value → ℕ → List ToolIntent → Result RecoveryError (List Fields)
    payloads session how ms n [] = ok []
    payloads session how ms n (i ∷ is) = turn_of_call i.call_id ms >>= λ turn.
        payloads session how ms (suc n) is >>= λ rest. ok (
          fields_or_end
            (message_to_dict (tool_result (result_for now session how i turn (new_id n))))
          ∷ rest)

    -- `parse` and the others as in the session store; `show_number` writes a number
    module _ (parse : String → Option Value) (dumps : Value → Option String)
        (iterate : Value → Option (List Value)) (show_number : ℕ → String) where
      abbrev pub recovery_checkpoint : String → ℕ → Journal → Checkpoint
      recovery_checkpoint session version j = record {
        checkpoint_id = join "ckpt_recovery_" (show_number version);
        session_id = session;
        session_version = version;
        state_seq = seq_of (latest session j);
        boundary = BoundaryKind.recovery;
        pending_intent_ids = map (λ i. i.intent_id) (open_intents session j);
        workspace_fingerprint = fingerprint_or (latest session j);
        created_at = now;
      }

      abbrev pub saved :
          String
          → List ToolIntent
          → ℕ
          → Database
          → Journal
          → Option Journal
          → Result RecoveryError RecoveryOutcome × Stores
      saved session is version d j none =
          (err checkpoint_exists, record { database = d; journal = j })
      saved session is version d j (some j') = (
        ok (record {
          session_id = session;
          decision = resume_run;
          appended_message_ids = new_ids new_id 0 is;
          resolved_intent_ids = map (λ i. i.intent_id) is;
          session_version = version;
        }),
        record { database = d; journal = j' },
      )

      -- what follows the `append`: the statuses and the checkpoint
      abbrev pub appended :
          String
          → List ToolIntent
          → Resolution
          → Stores
          → Result RecoveryError (ℕ × Database)
          → Result RecoveryError RecoveryOutcome × Stores
      appended session is how stores (err e) = (err e, stores)
      appended session is how stores (ok (version, d)) =
          let j = set_all session how.new_status now is stores.journal in
          saved session is version d j (save (recovery_checkpoint session version j) j)

      -- the results, written behind the session's messages
      unfoldable pub append_results :
          String → List ToolIntent → Resolution → Database → Result RecoveryError (ℕ × Database)
      append_results session is how d =
          lift_store (load parse dumps iterate session true d) >>= λ r.
          payloads session how r.messages 0 is >>= λ ms. lift_store (
            append parse dumps iterate session r.version (record { messages = ms; summaries = [] })
              d)

      -- `_record_results`: the stores keep what was done before an error
      unfoldable pub record_results :
          String
          → List ToolIntent
          → Resolution
          → Stores
          → Result RecoveryError RecoveryOutcome × Stores
      record_results session is how stores =
          appended session is how stores (append_results session is how stores.database)

      abbrev pub resume_pending :
          RecoveryPlan → Stores → List ToolIntent → Result RecoveryError RecoveryOutcome × Stores
      resume_pending p stores [] = (
        ok (record {
          session_id = p.session_id;
          decision = resume_run;
          appended_message_ids = [];
          resolved_intent_ids = [];
          session_version = p.session_version;
        }),
        stores,
      )
      resume_pending p stores (i ∷ is) = record_results p.session_id (i ∷ is) not_executed stores

      abbrev pub resume_by :
          RecoveryPlan → Stores → RecoveryDecision → Result RecoveryError RecoveryOutcome × Stores
      resume_by p stores resume_run = resume_pending p stores p.pending_intents
      resume_by p stores decision = (err cannot_resume, stores)

      unfoldable pub resume : RecoveryPlan → Stores → Result RecoveryError RecoveryOutcome × Stores
      resume p stores = resume_by p stores p.decision

      abbrev resolve_found :
          String
          → String
          → Bool
          → Stores
          → Option ToolIntent
          → Result RecoveryError RecoveryOutcome × Stores
      resolve_found session id executed stores none = (err (unknown_intent id), stores)
      resolve_found session id executed stores (some i) =
          if not (is_started i.status)
          then (err (not_awaiting id i.status), stores)
          else record_results session (i ∷ []) (if executed then executed_unknown else not_executed)
              stores

      unfoldable pub resolve_uncertain :
          String → String → String → Stores → Result RecoveryError RecoveryOutcome × Stores
      resolve_uncertain session id decision stores =
          if not (str_eq decision "not_executed" || str_eq decision "executed_unknown")
          then (err unknown_decision, stores)
          else resolve_found session id (str_eq decision "executed_unknown") stores
              (find_intent id (all_intents session stores.journal))
