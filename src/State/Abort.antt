-- ===== src/State/Abort.antt =====
-- `request_abort` of src/coding_agent/domain/state.py, and the cleanup behind it.
use py_coding_agent.Prelude.{◌+◌, String, true, Option, none, some, ◌≡◌, arith, if◌then◌else◌}
use py_coding_agent.Result.{ok}
use py_coding_agent.State.{
  AgentState, StateTrigger, RunStatus, StopReason, RuntimeState, CancellationState,
  in_active_states, ignores_abort, advance, request_abort, transition,
}

-- the snapshot that a request to abort leaves
abbrev pub asked_to_abort : RuntimeState → String → RuntimeState
asked_to_abort s reason =
    if ignores_abort s.state
    then s
    else record (advance s AgentState.aborting StateTrigger.abort_requested none none none) {
      abort_reason = some reason;
    }

pub request_abort-ok :
    (s : RuntimeState) (reason : String) → request_abort s reason ≡ ok (asked_to_abort s reason)
unfolding request_abort
request_abort-ok s reason = ground arith

-- Asking a run to abort never raises. A second request, whatever its reason, changes nothing, so
-- the first reason stays; and the call leaves the run's id, its turn and its status alone.
pub request_abort_idempotent :
    (s : RuntimeState) (first : String)
    → (s' : RuntimeState) × (request_abort s first ≡ ok s')
      × ((second : String) → request_abort s' second ≡ ok s')
      × (s'.run_id ≡ s.run_id)
      × (s'.current_turn ≡ s.current_turn)
      × (s'.status ≡ s.status)
unfolding advance ignores_abort
request_abort_idempotent s first = (
  asked_to_abort s first,
  request_abort-ok s first,
  λ second. ground (arith, request_abort-ok (asked_to_abort s first) second),
  ground arith,
  ground arith,
  ground arith,
)

-- From every active state a request to abort leads to ABORTING with its reason
-- recorded, and CLEANUP_DONE then ends the run as ABORTED, the cancellation completed, no call in
-- flight, two transitions after the request.
pub abort_ends :
    (s : RuntimeState) (reason : String) (stop : Option StopReason)
    → in_active_states s.state ≡ true
    → (s' s'' : RuntimeState) × (request_abort s reason ≡ ok s')
      × (s'.state ≡ AgentState.aborting)
      × (transition s' s'.state_seq StateTrigger.cleanup_done none stop none ≡ ok s'')
      × (s''.state ≡ AgentState.aborted)
      × (s''.status ≡ some RunStatus.aborted)
      × (s''.cancellation ≡ CancellationState.completed)
      × (s''.abort_reason ≡ some reason)
      × (s''.current_tool_call_id ≡ none)
      × (s''.state_seq ≡ s.state_seq + 2)
unfolding advance ignores_abort transition in_active_states
abort_ends s reason stop active =
    let s' = asked_to_abort s reason in
    (
      s',
      advance s' AgentState.aborted StateTrigger.cleanup_done none stop none,
      request_abort-ok s reason,
      ground arith,
      ground arith,
      ground arith,
      ground arith,
      ground arith,
      ground arith,
      ground arith,
      ground arith,
    )
