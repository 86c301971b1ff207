-- ===== src/State.antt =====
-- src/coding_agent/domain/state.py: the transition table and the immutable snapshot of a run.
pub mod Types
pub mod Diagram
pub mod Guards
pub mod Progress
pub mod Invariant
pub mod Abort
mod Examples
pub use Types.{StopReason, RunStatus, AgentState, CancellationState, StateTrigger}
use py_coding_agent.Prelude.{
  ℕ, ◌+◌, String, Bool, true, false, Option, none, some, ◌==◌, not, is_some, or_else, if◌then◌else◌,
}
use py_coding_agent.Result.{Result, ok, err}

-- ACTIVE_STATES
unfoldable pub in_active_states : AgentState → Bool
in_active_states AgentState.running = true
in_active_states AgentState.waiting_tool = true
in_active_states AgentState.processing_tool_result = true
in_active_states AgentState.steering = true
in_active_states AgentState.compacting = true
in_active_states AgentState.follow_up = true
in_active_states _ = false

-- TERMINAL_STATES
unfoldable pub in_terminal_states : AgentState → Bool
in_terminal_states AgentState.aborted = true
in_terminal_states AgentState.finished = true
in_terminal_states AgentState.error = true
in_terminal_states _ = false

-- `_TRANSITIONS.get(state, {}).get(trigger)`, with the abort rows that the loop below the table adds
unfoldable pub next_state : AgentState → StateTrigger → Option AgentState
next_state AgentState.idle StateTrigger.start = some AgentState.running
next_state AgentState.running StateTrigger.tool_call_complete = some AgentState.waiting_tool
next_state AgentState.running StateTrigger.compaction_required = some AgentState.compacting
next_state AgentState.running StateTrigger.follow_up_ready = some AgentState.follow_up
next_state AgentState.running StateTrigger.finish = some AgentState.finished
next_state AgentState.running StateTrigger.fail = some AgentState.error
next_state AgentState.running StateTrigger.abort_requested = some AgentState.aborting
next_state AgentState.waiting_tool StateTrigger.tool_result_resolved =
    some AgentState.processing_tool_result
next_state AgentState.waiting_tool StateTrigger.abort_requested = some AgentState.aborting
next_state AgentState.processing_tool_result StateTrigger.steering_arrived =
    some AgentState.steering
next_state AgentState.processing_tool_result StateTrigger.continue = some AgentState.running
next_state AgentState.processing_tool_result StateTrigger.abort_requested = some AgentState.aborting
next_state AgentState.steering StateTrigger.steering_injected = some AgentState.running
next_state AgentState.steering StateTrigger.abort_requested = some AgentState.aborting
next_state AgentState.compacting StateTrigger.compaction_succeeded = some AgentState.running
next_state AgentState.compacting StateTrigger.compaction_failed = some AgentState.error
next_state AgentState.compacting StateTrigger.abort_requested = some AgentState.aborting
next_state AgentState.follow_up StateTrigger.turn_start = some AgentState.running
next_state AgentState.follow_up StateTrigger.abort_requested = some AgentState.aborting
next_state AgentState.aborting StateTrigger.cleanup_done = some AgentState.aborted
next_state _ _ = none

-- `_DEFAULT_STATUS.get(trigger)`
unfoldable pub default_status : StateTrigger → Option RunStatus
default_status StateTrigger.finish = some RunStatus.finished
default_status StateTrigger.fail = some RunStatus.error
default_status StateTrigger.cleanup_done = some RunStatus.aborted
default_status StateTrigger.compaction_failed = some RunStatus.error
default_status _ = none

pub record RuntimeState : Type 0 where
  pub run_id : String
  pub state : AgentState
  pub state_seq : ℕ
  pub current_turn : ℕ
  pub current_tool_call_id : Option String
  pub status : Option RunStatus
  pub last_stop_reason : Option StopReason
  pub cancellation : CancellationState
  pub abort_reason : Option String

-- `RuntimeState(run_id)`: the defaults of the dataclass
abbrev pub initial : String → RuntimeState
initial run_id = record {
  run_id = run_id;
  state = AgentState.idle;
  state_seq = 0;
  current_turn = 0;
  current_tool_call_id = none;
  status = none;
  last_stop_reason = none;
  cancellation = CancellationState.none;
  abort_reason = none;
}

-- the three messages of StateTransitionError
pub data Rejection : Type 0 where
  stale_seq : ℕ → ℕ → Rejection
  terminal_state illegal_transition : Rejection

pub record StateTransitionError : Type 0 where
  pub rejection : Rejection
  pub current_state : AgentState
  pub trigger : StateTrigger

abbrev pub is_terminal : RuntimeState → Bool
is_terminal s = in_terminal_states s.state

abbrev pub is_active : RuntimeState → Bool
is_active s = in_active_states s.state

unfoldable pub can_start_tool : RuntimeState → Bool
can_start_tool s = elim s.state [ AgentState.waiting_tool ↦ true | _ ↦ false ]

unfoldable pub can_transition : RuntimeState → StateTrigger → Bool
unfolding in_terminal_states next_state
can_transition s trigger =
    if in_terminal_states s.state then false else is_some (next_state s.state trigger)

-- the turn counter: START begins turn 1, TURN_START adds one
unfoldable pub turn_after : StateTrigger → ℕ → ℕ
turn_after StateTrigger.start turn = 1
turn_after StateTrigger.turn_start turn = turn + 1
turn_after _ turn = turn

-- the call in flight: set by TOOL_CALL_COMPLETE, kept by TOOL_RESULT_RESOLVED out of WAITING_TOOL,
-- dropped by every other transition
unfoldable pub tool_call_after :
    AgentState → StateTrigger → Option String → Option String → Option String
tool_call_after _ StateTrigger.tool_call_complete given current = given
tool_call_after AgentState.waiting_tool StateTrigger.tool_result_resolved given current = current
tool_call_after _ _ given current = none

unfoldable pub cancellation_after : StateTrigger → CancellationState → CancellationState
cancellation_after StateTrigger.abort_requested c = CancellationState.requested
cancellation_after StateTrigger.cleanup_done c = CancellationState.completed
cancellation_after _ c = c

-- the snapshot that `replace` builds, once the guards have passed
unfoldable pub advance :
    RuntimeState
    → AgentState
    → StateTrigger
    → Option RunStatus
    → Option StopReason
    → Option String
    → RuntimeState
unfolding default_status turn_after tool_call_after cancellation_after
advance s next trigger status stop_reason tool_call_id = record s {
  state = next;
  state_seq = s.state_seq + 1;
  last_stop_reason = or_else stop_reason s.last_stop_reason;
  current_turn = turn_after trigger s.current_turn;
  current_tool_call_id = tool_call_after s.state trigger tool_call_id s.current_tool_call_id;
  cancellation = cancellation_after trigger s.cancellation;
  status = or_else (or_else status (default_status trigger)) s.status;
}

abbrev rejected : RuntimeState → StateTrigger → Rejection → StateTransitionError
rejected s trigger why = record { rejection = why; current_state = s.state; trigger = trigger }

-- `RuntimeState.transition`
unfoldable pub transition :
    RuntimeState
    → ℕ
    → StateTrigger
    → Option RunStatus
    → Option StopReason
    → Option String
    → Result StateTransitionError RuntimeState
unfolding in_terminal_states next_state advance
transition s expected_seq trigger status stop_reason tool_call_id =
    if not (expected_seq == s.state_seq)
    then err (rejected s trigger (stale_seq expected_seq s.state_seq))
    else if in_terminal_states s.state
    then err (rejected s trigger terminal_state)
    else elim (next_state s.state trigger) [
      | none ↦ err (rejected s trigger illegal_transition)
      | some next ↦ ok (advance s next trigger status stop_reason tool_call_id)
    ]

-- `transition` with the snapshot's own sequence number and no keyword argument
abbrev pub trigger_only : RuntimeState → StateTrigger → Result StateTransitionError RuntimeState
trigger_only s trigger = transition s s.state_seq trigger none none none

abbrev with_reason :
    String → Result StateTransitionError RuntimeState → Result StateTransitionError RuntimeState
with_reason reason (ok s) = ok (record s { abort_reason = some reason })
with_reason reason (err e) = err e

-- IDLE, ABORTING and the terminal states ignore a request to abort
unfoldable pub ignores_abort : AgentState → Bool
unfolding in_terminal_states
ignores_abort AgentState.idle = true
ignores_abort AgentState.aborting = true
ignores_abort s = in_terminal_states s

-- `RuntimeState.request_abort`
unfoldable pub request_abort : RuntimeState → String → Result StateTransitionError RuntimeState
unfolding ignores_abort transition
request_abort s reason =
    if ignores_abort s.state
    then ok s
    else with_reason reason (trigger_only s StateTrigger.abort_requested)
