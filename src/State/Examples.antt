-- ===== src/State/Examples.antt =====
-- Runs of the state machine at concrete snapshots.
use py_coding_agent.Prelude.{List, ◌+◌, ◌≤◌, String, true, false, none, some, ◌≡◌, refl, ◌↔◌}
use py_coding_agent.Result.{ok, err}
use py_coding_agent.State.{
  trigger_only, AgentState, StateTrigger, RunStatus, StopReason, RuntimeState, CancellationState,
  initial, advance, transition, request_abort, in_terminal_states, in_active_states, stale_seq,
}
use py_coding_agent.State.Diagram.{Edge}
use py_coding_agent.State.Progress.{drive, no_dead_end}
use py_coding_agent.State.Guards.{transition_accepts, second_writer_stale}
use py_coding_agent.State.Abort.{request_abort_idempotent, abort_ends}
use py_coding_agent.State.Invariant.{IsValid, Run-IsValid, created, next, moved}

abbrev fresh : RuntimeState
fresh = initial "run_1"

abbrev running : RuntimeState
running = advance fresh AgentState.running StateTrigger.start none none none

transition_accepts_example :
    ((s' : RuntimeState) × (transition running 1 StateTrigger.finish
          (some RunStatus.budget_exhausted)
          none
          none
        ≡ ok s')
      × (s'.state ≡ AgentState.finished)
      × (s'.state_seq ≡ running.state_seq + 1)
      × (s'.run_id ≡ running.run_id))
    ↔ (◌≡◌ 1 running.state_seq × Edge running.state StateTrigger.finish AgentState.finished)
transition_accepts_example =
    transition_accepts running 1 StateTrigger.finish AgentState.finished
      (some RunStatus.budget_exhausted) none none

second_writer_stale_example :
    transition running 0 StateTrigger.fail none none none
    ≡ err (record {
      rejection = stale_seq 0 (0 + 1);
      current_state = running.state;
      trigger = StateTrigger.fail;
    })
unfolding transition
second_writer_stale_example =
    second_writer_stale fresh running 0 StateTrigger.start StateTrigger.fail none none none none
      none none refl

request_abort_idempotent_example :
    (s' : RuntimeState) × (request_abort running "user" ≡ ok s')
    × ((second : String) → request_abort s' second ≡ ok s')
    × (s'.run_id ≡ running.run_id)
    × (s'.current_turn ≡ running.current_turn)
    × (s'.status ≡ running.status)
request_abort_idempotent_example = request_abort_idempotent running "user"

abort_ends_example :
    (s' s'' : RuntimeState) × (request_abort running "user" ≡ ok s')
    × (s'.state ≡ AgentState.aborting)
    × (transition s' s'.state_seq StateTrigger.cleanup_done none (some StopReason.cancelled) none
        ≡ ok s'')
    × (s''.state ≡ AgentState.aborted)
    × (s''.status ≡ some RunStatus.aborted)
    × (s''.cancellation ≡ CancellationState.completed)
    × (s''.abort_reason ≡ some "user")
    × (s''.current_tool_call_id ≡ none)
    × (s''.state_seq ≡ running.state_seq + 2)
unfolding in_active_states advance
abort_ends_example = abort_ends running "user" (some StopReason.cancelled) refl

Run-IsValid_example : IsValid running × (running.run_id ≡ "run_1") × (running.state_seq ≤ 1)
unfolding transition
Run-IsValid_example = Run-IsValid (next created (moved 0 StateTrigger.start none none none refl))

-- a run that waits for a tool
abbrev waiting : RuntimeState
waiting = advance running AgentState.waiting_tool StateTrigger.tool_call_complete none none none

no_dead_end_example :
    ((ts : List StateTrigger) × (s' : RuntimeState) × (drive ts waiting ≡ ok s')
      × (in_terminal_states s'.state ≡ true))
    × ((in_terminal_states waiting.state ≡ false)
        ↔ ((t : StateTrigger) × (s' : RuntimeState) × (trigger_only waiting t ≡ ok s')))
no_dead_end_example = no_dead_end waiting
