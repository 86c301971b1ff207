-- ===== src/Loop/Batch.antt =====
-- The tool calls of one response, in the order of their ordinals.
use py_coding_agent.Prelude.{
  ℕ, ◌+◌, String, Bool, true, false, Option, none, some, leb, if◌then◌else◌, List, [], ◌∷◌,
}
use py_coding_agent.Result.{Result, ok, err}
use py_coding_agent.State.{AgentState, StateTrigger}
use py_coding_agent.Message.{ToolCall, ToolResultStatus}
use py_coding_agent.Control.{has_pending}
use py_coding_agent.Provider.{ToolOutcome}
use py_coding_agent.Exec.{pure, gets, modify, ◌>>=◌, ◌>>◌}
use py_coding_agent.Loop.Types.{
  RunLimits, Services, Shared, LoopState, LoopError, foreign, Published, tool_start, invoked, Limit,
  Batch, completed, budget_hit, aborted,
}
use py_coding_agent.Loop.Actions.{
  M, tell, publish, move, cancelled, remaining_seconds, commit_result,
}

-- `sorted(tool_calls, key=lambda call: call.ordinal)`, which is stable
unfoldable pub insert_call : ToolCall → List ToolCall → List ToolCall
insert_call c [] = c ∷ []
insert_call c (d ∷ ds) = if leb c.ordinal d.ordinal then c ∷ d ∷ ds else d ∷ insert_call c ds

unfoldable pub sort_calls : List ToolCall → List ToolCall
unfolding insert_call
sort_calls [] = []
sort_calls (c ∷ cs) = insert_call c (sort_calls cs)

-- the outcome of a call that was not executed
abbrev pub not_executed : String → String → ToolOutcome
not_executed content kind = record {
  status = ToolResultStatus.cancelled;
  content = content;
  artifact_ref = none;
  error_kind = some kind;
  retryable = some false;
  exit_code = none;
}

abbrev is_waiting : AgentState → Bool
is_waiting AgentState.waiting_tool = true
is_waiting _ = false

abbrev is_last : List ToolCall → Bool
is_last [] = true
is_last (c ∷ cs) = false

-- the event after a result
abbrev ended : ToolCall → ToolOutcome → ToolResultStatus → Published
ended c outcome ToolResultStatus.completed = Published.tool_call_end c.id
ended c outcome status = Published.tool_call_error c.id status outcome.error_kind

module _ (env : Services) (limits : RunLimits) where
  open env use {World, execute}

  -- the loop over `ordered[index:]` that gives the remaining calls a CANCELLED result
  unfoldable pub cancel_pending : ToolOutcome → List ToolCall → M World (Unit {0})
  cancel_pending outcome [] = pure tt
  cancel_pending outcome (c ∷ cs) = do
    commit_result env c outcome
    publish (Published.tool_call_error c.id ToolResultStatus.cancelled outcome.error_kind)
    cancel_pending outcome cs

  abbrev pub executed :
      LoopState World
      → Result String ToolOutcome
      → Shared World
      → Result LoopError ToolOutcome × LoopState World
  executed s (ok outcome) shared = (ok outcome, record s { shared = shared })
  executed s (err e) shared = (err (foreign e), record s { shared = shared })

  -- `await self._executor.execute(call, ...)`
  unfoldable pub run_executor : ToolCall → Option ℕ → M World ToolOutcome
  run_executor c deadline s = let (r, shared) = execute c deadline s.shared in executed s r shared

  -- one call, up to the executor's answer
  unfoldable pub start_call : ToolCall → M World ToolOutcome
  start_call c = do
    s ← gets (λ s. s.state.state)
    if is_waiting s then pure tt else move StateTrigger.tool_call_complete none none (some c.id)
    publish (Published.tool_call_start c.id)
    tell (tool_start c.id)
    deadline ← remaining_seconds env limits.deadline_seconds
    tell (invoked c.id)
    run_executor c deadline

  -- its result into the log
  unfoldable pub finish_call : ToolCall → ToolOutcome → M World (Unit {0})
  finish_call c outcome = do
    move StateTrigger.tool_result_resolved none none none
    commit_result env c outcome
    publish (ended c outcome outcome.status)

  -- one call that is executed
  unfoldable pub perform_call : ToolCall → M World (Unit {0})
  perform_call c = do
    outcome ← start_call c
    modify (λ s. record s { tool_calls_used = s.tool_calls_used + 1 })
    finish_call c outcome

  -- the transition after a result: to STEERING if this was the last call and steering waits
  unfoldable pub after_call : List ToolCall → M World (Unit {0})
  after_call rest = do
    pending ← gets (λ s. has_pending s.shared.control.steering)
    if is_last rest
        then (if pending
            then move StateTrigger.steering_arrived none none none
            else move StateTrigger.continue none none none)
        else move StateTrigger.continue none none none

  -- `for index, call in enumerate(ordered)`
  unfoldable pub run_batch : List ToolCall → M World Batch
  run_batch [] = pure completed
  run_batch (c ∷ rest) = do
    stop ← gets cancelled
    used ← gets (λ s. s.tool_calls_used)
    let next = run_batch rest
    if stop
        then (do
          cancel_pending (not_executed "run aborted; call was not executed" "cancelled") (c ∷ rest)
          pure aborted)
        else if leb limits.max_tool_calls used
        then (do
          cancel_pending
              (not_executed "tool call budget exhausted; call was not executed"
                "tool_budget_exhausted")
              (c ∷ rest)
          modify (λ s. record s { limit_hit = some Limit.max_tool_calls })
          pure budget_hit)
        else (do perform_call c; after_call rest; next)
