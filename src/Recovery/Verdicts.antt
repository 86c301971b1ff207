-- ===== src/Recovery/Verdicts.antt =====
-- What a decision of `inspect` may rest on.
use py_coding_agent.Prelude.{◌≡◌, String, true, false, none, some, List, [], ◌∷◌, ◌++◌, map}
use py_coding_agent.Prelude.Dict.{Dict, lookup, contains}
use py_coding_agent.Message.History.{AreAmong}
use py_coding_agent.Storage.Checkpoints.{ToolIntent, IntentStatus, is_planned, is_started}
use py_coding_agent.Recovery.Inspection.{RecoveryDecision, resume_run, reconcile, stop, by_call}

abbrev pub intent_calls : List ToolIntent → List String
intent_calls = map (λ i. i.call_id)

-- the open calls, taken apart by what the journal says: each was planned, or it was started
pub data Partition (d : Dict ToolIntent)
    : List String → List ToolIntent → List ToolIntent → Type 0 where
  done : Partition d [] [] []
  was_planned :
      {cs : List String} {pending uncertain : List ToolIntent} (c : String) (i : ToolIntent)
      → lookup c d ≡ some i
      → i.status ≡ IntentStatus.planned
      → Partition d cs pending uncertain
      → Partition d (c ∷ cs) (i ∷ pending) uncertain
  was_started :
      {cs : List String} {pending uncertain : List ToolIntent} (c : String) (i : ToolIntent)
      → lookup c d ≡ some i
      → i.status ≡ IntentStatus.started
      → Partition d cs pending uncertain
      → Partition d (c ∷ cs) pending (i ∷ uncertain)

-- what a decision may rest on: the journal, the calls of the history, and those without a result
pub data Verdict (intents : List ToolIntent) (calls unanswered : List String)
    : RecoveryDecision → List ToolIntent → List ToolIntent → Type 0 where
  dangles :
      (i : ToolIntent) (before after : List ToolIntent)
      → intents ≡ before ++ i ∷ after
      → contains i.call_id calls ≡ false
      → Verdict intents calls unanswered stop [] []
  unjournaled :
      (c : String)
      → contains c unanswered ≡ true
      → lookup c (by_call [] intents) ≡ none
      → Verdict intents calls unanswered stop [] []
  disagrees :
      (c : String) (i : ToolIntent)
      → contains c unanswered ≡ true
      → lookup c (by_call [] intents) ≡ some i
      → is_planned i.status ≡ false
      → is_started i.status ≡ false
      → Verdict intents calls unanswered stop [] []
  unknown :
      (pending : List ToolIntent) (u : ToolIntent) (us : List ToolIntent)
      → AreAmong calls (intent_calls intents)
      → Partition (by_call [] intents) unanswered pending (u ∷ us)
      → Verdict intents calls unanswered reconcile pending (u ∷ us)
  safe :
      (pending : List ToolIntent)
      → AreAmong calls (intent_calls intents)
      → Partition (by_call [] intents) unanswered pending []
      → Verdict intents calls unanswered resume_run pending []
