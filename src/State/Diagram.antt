-- ===== src/State/Diagram.antt =====
-- The state diagram of a run, as a relation, and what `transition` has to do with it.
use py_coding_agent.Prelude.{true, false, some, ◌≡◌, refl, arith}
use py_coding_agent.State.{
  AgentState, StateTrigger, in_active_states, in_terminal_states, next_state,
}

-- The arrows of the diagram: one for each way that a run moves on, and an abort out of every
-- active state.
pub data Edge : AgentState → StateTrigger → AgentState → Type 0 where
  begin : Edge AgentState.idle StateTrigger.start AgentState.running
  call : Edge AgentState.running StateTrigger.tool_call_complete AgentState.waiting_tool
  compact : Edge AgentState.running StateTrigger.compaction_required AgentState.compacting
  next_task : Edge AgentState.running StateTrigger.follow_up_ready AgentState.follow_up
  stop : Edge AgentState.running StateTrigger.finish AgentState.finished
  break_down : Edge AgentState.running StateTrigger.fail AgentState.error
  resolve :
      Edge AgentState.waiting_tool StateTrigger.tool_result_resolved
        AgentState.processing_tool_result
  steer : Edge AgentState.processing_tool_result StateTrigger.steering_arrived AgentState.steering
  go_on : Edge AgentState.processing_tool_result StateTrigger.continue AgentState.running
  inject : Edge AgentState.steering StateTrigger.steering_injected AgentState.running
  compacted : Edge AgentState.compacting StateTrigger.compaction_succeeded AgentState.running
  not_compacted : Edge AgentState.compacting StateTrigger.compaction_failed AgentState.error
  next_turn : Edge AgentState.follow_up StateTrigger.turn_start AgentState.running
  cleaned : Edge AgentState.aborting StateTrigger.cleanup_done AgentState.aborted
  abort :
      {a : AgentState}
      → in_active_states a ≡ true
      → Edge a StateTrigger.abort_requested AgentState.aborting

ruleset edges = (
  begin, call, compact, next_task, stop, break_down, resolve, steer, go_on, inject, compacted,
  not_compacted, next_turn, cleaned, abort,
)

-- the table has an entry exactly where the diagram has an arrow
pub next_state-Edge :
    (a : AgentState) (t : StateTrigger) (b : AgentState) → next_state a t ≡ some b → Edge a t b
unfolding next_state in_active_states
next_state-Edge a t b h = grind (arith, edges)

pub Edge-next_state :
    {a : AgentState} {t : StateTrigger} {b : AgentState} → Edge a t b → next_state a t ≡ some b
unfolding next_state in_active_states
Edge-next_state begin = refl
Edge-next_state (abort {a = a} h) = ground arith
Edge-next_state _ = refl

pub Edge-not_terminal :
    {a : AgentState} {t : StateTrigger} {b : AgentState} → Edge a t b → in_terminal_states a ≡ false
unfolding in_terminal_states in_active_states
Edge-not_terminal begin = refl
Edge-not_terminal (abort {a = a} h) = ground arith
Edge-not_terminal _ = refl
