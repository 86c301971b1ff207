-- ===== src/State/Types.antt =====
-- The enumerations of src/coding_agent/domain/state.py.
pub data StopReason : Type 0 where
  end_turn tool_calls max_tokens cancelled provider_error : StopReason

pub data RunStatus : Type 0 where
  finished aborted error budget_exhausted : RunStatus

pub data AgentState : Type 0 where
  idle running waiting_tool processing_tool_result steering compacting : AgentState
  follow_up aborting aborted finished error : AgentState

pub data CancellationState : Type 0 where
  none requested completed : CancellationState

pub data StateTrigger : Type 0 where
  start tool_call_complete tool_result_resolved steering_arrived steering_injected : StateTrigger
  continue compaction_required compaction_succeeded compaction_failed : StateTrigger
  follow_up_ready turn_start abort_requested cleanup_done finish fail : StateTrigger
