-- ===== src/Loop/Turn.antt =====
-- One pass of the outer loop of `AgentLoop.run`: the limits, the request, and what is done with the
-- response.
use py_coding_agent.Prelude.{
  ℕ, zero, suc, ◌+◌, String, Bool, true, false, Option, none, some, leb, ◌||◌, ◌==◌, if◌then◌else◌,
  List, [], ◌∷◌,
}
use py_coding_agent.State.{AgentState, StateTrigger, StopReason, RunStatus}
use py_coding_agent.Message.{ToolCall, assistant_message}
use py_coding_agent.Control.{Item}
use py_coding_agent.Provider.{ModelResponse}
use py_coding_agent.Exec.{pure, raise, gets, call, modify, ◌>>=◌, ◌>>◌}
use py_coding_agent.Loop.Types.{
  RunLimits, Services, LoopState, foreign, no_rounds_left, LoopEventKind, BoundaryKind, Published,
  Limit, Batch, Flow, again, stop, ProviderReply, responded, timed_out, failed, raised, LoopOutcome,
}
use py_coding_agent.Loop.Actions.{
  M, emit, publish, boundary, move, ask_abort, abort_run, exhaust, commit, cancelled, cancel_reason,
  drain_steering, next_follow_up, new_meta, remaining_seconds, inject_user_text, with_world,
}
use py_coding_agent.Loop.Batch.{sort_calls, run_batch}
use py_coding_agent.Loop.Model.{is_cancelled_kind, ask_model}

abbrev is_steering : AgentState → Bool
is_steering AgentState.steering = true
is_steering _ = false

-- `ordered[0].id`
abbrev pub first_id : ToolCall → List ToolCall → String
first_id c [] = c.id
first_id c (d ∷ ds) = d.id

abbrev pub has_run_out : Option ℕ → Bool
has_run_out none = false
has_run_out (some t) = t == 0

module _ (env : Services) (limits : RunLimits) where
  open env use {World, Request, build}

  -- a steering message, as a user message before the next request
  unfoldable pub inject_steering : Item → M World (Unit {0})
  inject_steering m =
      inject_user_text env m.text LoopEventKind.steering_injected BoundaryKind.user_task
        (Published.steering m.id)

  unfoldable pub inject_all : List Item → M World (Unit {0})
  inject_all [] = pure tt
  inject_all (m ∷ ms) = do inject_steering m; inject_all ms

  -- `if state.state is AgentState.STEERING`: back to RUNNING
  unfoldable pub leave_steering : M World (Unit {0})
  leave_steering = do
    s ← gets (λ s. s.state.state)
    if is_steering s then move StateTrigger.steering_injected none none none else pure tt

  -- `_build_request`
  unfoldable pub build_request : M World (Option Request)
  build_request =
      call
        λ s. let (request, w) = build s.log.messages s.shared.world in (request, with_world env s w)

  unfoldable pub start_follow_up : StopReason → Option Item → M World Flow
  start_follow_up stop_reason none = do
    move StateTrigger.finish none (some stop_reason) none
    pure stop
  start_follow_up stop_reason (some task) = do
    move StateTrigger.follow_up_ready none none none
    move StateTrigger.turn_start none none none
    inject_user_text env task.text LoopEventKind.follow_up_started BoundaryKind.user_task
        (Published.follow_up task.id)
    pure again

  unfoldable pub conclude_with : StopReason → List Item → M World Flow
  conclude_with stop_reason [] = do task ← next_follow_up; start_follow_up stop_reason task
  conclude_with stop_reason (m ∷ ms) = do inject_all (m ∷ ms); pure again

  -- a response without tool calls ends the turn: steering first, then a follow-up, else FINISH
  unfoldable pub conclude : StopReason → M World Flow
  conclude stop_reason = do
    leave_steering
    steering ← drain_steering
    conclude_with stop_reason steering

  -- what follows the batch
  unfoldable pub after_batch : StopReason → Batch → M World Flow
  after_batch stop_reason Batch.budget_hit = do
    move StateTrigger.finish (some RunStatus.budget_exhausted) (some stop_reason) none
    pure stop
  after_batch stop_reason Batch.aborted = do
    reason ← gets (cancel_reason "abort requested")
    abort_run reason
    pure stop
  after_batch stop_reason Batch.completed = do
    c ← gets cancelled
    reason ← gets (cancel_reason "abort requested")
    if c then (do abort_run reason; pure stop) else pure again

  -- `if response.tool_calls`
  unfoldable pub act : StopReason → ToolCall → List ToolCall → M World Flow
  act stop_reason c cs = do
    move StateTrigger.tool_call_complete none (some stop_reason)
        (some (first_id c (sort_calls (c ∷ cs))))
    ended ← run_batch env limits (sort_calls (c ∷ cs))
    after_batch stop_reason ended

  unfoldable pub by_calls : StopReason → List ToolCall → M World Flow
  by_calls stop_reason [] = conclude stop_reason
  by_calls stop_reason (c ∷ cs) = act stop_reason c cs

  -- the two stop reasons that end the run, and the rest of the turn
  unfoldable pub by_stop_reason : StopReason → List ToolCall → M World Flow
  by_stop_reason StopReason.provider_error calls = do
    move StateTrigger.fail none (some StopReason.provider_error) none
    pure stop
  by_stop_reason StopReason.cancelled calls = do
    ask_abort "provider reported cancelled response"
    move StateTrigger.cleanup_done none (some StopReason.cancelled) none
    pure stop
  by_stop_reason stop_reason calls = by_calls stop_reason calls

  -- what follows a complete response
  unfoldable pub respond : ModelResponse → M World Flow
  respond r = do
    modify (λ s. record s { turns = s.turns + 1 })
    meta ← new_meta env
    commit (
        assistant_message (record {
          meta = meta;
          content = r.content;
          stop_reason = r.stop_reason;
          tool_calls = r.tool_calls;
        }))
    emit LoopEventKind.assistant_committed
    boundary BoundaryKind.model_response
    publish (Published.llm_request_end r.response_id)
    modify (λ s. record s { final_text = r.content })
    by_stop_reason r.stop_reason r.tool_calls

  -- what follows the model call
  unfoldable pub after_reply : ProviderReply → M World Flow
  after_reply (responded r) = respond r
  after_reply timed_out = do
    publish (Published.error_event "llm_request" none)
    exhaust Limit.deadline none
    pure stop
  after_reply (failed kind) = do
    c ← gets cancelled
    reason ← gets (cancel_reason "provider request cancelled")
    if is_cancelled_kind kind || c then (do abort_run reason; pure stop) else (do
      publish (Published.error_event "provider" (some kind))
      move StateTrigger.fail none (some StopReason.provider_error) none
      pure stop)
  after_reply (raised e) = raise (foreign e)

  unfoldable pub with_request : Option ℕ → Option Request → M World Flow
  with_request remaining none = do exhaust Limit.context_overflow none; pure stop
  with_request remaining (some request) = do
    turn ← gets (λ s. s.state.current_turn)
    publish (Published.llm_request_start turn)
    reply ← ask_model env limits limits.max_provider_retries request remaining
    after_reply reply

  -- the pass after its three checks
  unfoldable pub think : Option ℕ → M World Flow
  think remaining = do
    leave_steering
    steering ← drain_steering
    inject_all steering
    emit LoopEventKind.turn_start
    request ← build_request
    with_request remaining request

  -- one pass of `while True`
  unfoldable pub turn_once : M World Flow
  turn_once = do
    c ← gets cancelled
    reason ← gets (cancel_reason "abort requested")
    if c then (do abort_run reason; pure stop) else (do
      remaining ← remaining_seconds env limits.deadline_seconds
      turns ← gets (λ s. s.turns)
      if has_run_out remaining
          then (do exhaust Limit.deadline none; pure stop)
          else if leb limits.max_turns turns
          then (do exhaust Limit.max_turns none; pure stop)
          else think remaining)

  abbrev pub outcome : LoopState World → LoopOutcome
  outcome s = record {
    state = s.state;
    turns = s.turns;
    tool_calls = s.tool_calls_used;
    provider_calls = s.provider_calls;
    final_text = s.final_text;
    limit_hit = s.limit_hit;
  }

  -- the outer loop, and what is told behind it; `rounds` bounds the passes
  unfoldable pub rounds : ℕ → M World (Unit {0})
  rounds zero = raise no_rounds_left
  rounds (suc n) = do
    flow ← turn_once
    let rest = rounds n
    elim flow [ again ↦ rest | stop ↦ pure tt ]

  -- `AgentLoop.run`
  unfoldable pub run : M World LoopOutcome
  run = do
    emit LoopEventKind.run_start
    turn ← gets (λ s. s.state.current_turn)
    publish (Published.agent_start turn)
    rounds (limits.max_turns + 1)
    emit LoopEventKind.run_end
    boundary BoundaryKind.run_end
    s ← gets (λ s. s)
    publish (Published.agent_end s.turns s.tool_calls_used s.provider_calls)
    pure (outcome s)
