-- ===== src/Loop/Examples.antt =====
-- A run against a scripted model: a response with two calls, then an answer.
use py_coding_agent.Prelude.{
  ◌==◌, ◌&&◌, false, Bool, ℕ, String, true, none, some, ◌≡◌, refl, List, [], ◌∷◌, is_some, arith,
}
use py_coding_agent.Exec.{pure, raise, gets, call, modify, ◌>>=◌}
use py_coding_agent.Prelude.Dict.{lookup, insert, contains}
use py_coding_agent.Value.{is_json, fields_json, end}
use py_coding_agent.State.{
  RunStatus, next_state, in_active_states, default_status, turn_after, tool_call_after,
  cancellation_after, AgentState, RuntimeState, StateTrigger, StopReason, initial, advance,
  transition, in_terminal_states,
}
use py_coding_agent.Message.{
  meta_of, Message, MessageMeta, assistant_message, ToolCall, ToolResultStatus,
}
use py_coding_agent.Message.Ordinals.{insert_sorted, sorted, is_range_from}
use py_coding_agent.Message.Log.{
  append, validate, validate_kind, validate_tool_calls, check_calls, record_message, record_kind,
  record_calls, MessageLog, new_log,
}
use py_coding_agent.Control.{drain_before_next_request, has_pending, new_control}
use py_coding_agent.Loop.Types.{
  LoopError, RunLimits, Services, Shared, LoopOutcome, ProviderReply, responded, failed, Batch,
  Flow,
}
use py_coding_agent.Loop.Actions.{
  emit, tell, boundary, publish, new_meta, commit, commit_result, remaining_seconds, move,
  drain_steering, next_follow_up,
}
use py_coding_agent.Loop.Batch.{
  sort_calls, insert_call, cancel_pending, perform_call, start_call, finish_call, after_call,
  run_executor, run_batch,
}
use py_coding_agent.Loop.Model.{ask_model, ask_once, call_model, back_off, is_transient}
use py_coding_agent.Loop.Turn.{
  rounds, think, leave_steering, inject_all, build_request, with_request, after_reply, respond,
  by_stop_reason, by_calls, after_batch, conclude, conclude_with, start_follow_up, run, act,
  turn_once,
}
use py_coding_agent.Result.{Result, ok, err}
use py_coding_agent.Message.Append.{IsBuilt, created, appended, built-IsValid}
use py_coding_agent.Provider.{ToolOutcome, ModelResponse, ProviderErrorKind}
use py_coding_agent.Exec.Keeps.{Outcome}
use py_coding_agent.Loop.Answers.{IsSettled}
use py_coding_agent.Loop.Run.{
  begin, Continues, Holding, IsBounded, IsBoundedError, run-IsBounded, run-Continues,
}
use py_coding_agent.Loop.Status.{run_ends}
use py_coding_agent.Loop.Answers.{AreAnswered, batch_answered, calls_answered}
use py_coding_agent.Loop.Budget.{spent_budget_raises}
use py_coding_agent.Loop.Late.{steering_at_limit_raises}
use py_coding_agent.State.Invariant as StateInvariant
use py_coding_agent.Message.WellFormed as WellFormed

-- what is left of the script: ids to give out, and replies of the model
record Script : Type 0 where
  ids : List String
  replies : List ProviderReply

abbrev next_id : List String → String × List String
next_id [] = ("none", [])
next_id (i ∷ is) = (i, is)

abbrev next_reply : List ProviderReply → ProviderReply × List ProviderReply
next_reply [] = (failed ProviderErrorKind.unavailable, [])
next_reply (r ∷ rs) = (r, rs)

abbrev done : ToolOutcome
done = record {
  status = ToolResultStatus.completed;
  content = "ok";
  artifact_ref = none;
  error_kind = none;
  retryable = none;
  exit_code = none;
}

abbrev scripted : Services
scripted = record {
  World = Script;
  Request = ℕ;
  now = λ w. (0, w);
  new_id = λ w. let (i, is) = next_id w.ids in (i, record (w) { ids = is });
  utc_now = λ w. ("t", w);
  build = λ ms w. (some 0, w);
  complete = λ request remaining s.
      let (r, rs) = next_reply s.world.replies in
      (r, record s { world = record (s.world) { replies = rs } });
  sleep = λ delay s. s;
  execute = λ c deadline s. (ok done, s);
}

abbrev limits : RunLimits
limits = record {
  max_turns = 3;
  max_tool_calls = 5;
  deadline_seconds = some 10;
  max_provider_retries = 1;
  provider_retry_base_delay_seconds = 1;
}

abbrev a_call : String → ℕ → ToolCall
a_call id ordinal = record { id = id; name = "read"; arguments = end; ordinal = ordinal }

abbrev response : StopReason → List ToolCall → ProviderReply
response reason calls = responded (record {
  content = "text";
  stop_reason = reason;
  tool_calls = calls;
  usage = none;
  response_id = "r";
})

abbrev script : Script
script = record {
  ids = "m1" ∷ "m2" ∷ "m3" ∷ "m4" ∷ [];
  replies =
      failed ProviderErrorKind.rate_limit
      ∷ response StopReason.tool_calls (a_call "c2" 1 ∷ a_call "c1" 0 ∷ [])
      ∷ response StopReason.end_turn []
      ∷ [];
}

abbrev shared : Shared Script
shared = record { control = new_control "run_1" "s"; follow_ups = none; world = script }

abbrev log : MessageLog
log = record { session_id = "s"; messages = []; message_ids = []; tool_calls = []; results = [] }

abbrev running : RuntimeState
running = advance (initial "run_1") AgentState.running StateTrigger.start none none none

log-IsBuilt : IsBuilt "s" log
unfolding new_log
log-IsBuilt = created refl

log-IsValid : WellFormed.IsValid log
log-IsValid = (built-IsValid log-IsBuilt).0

running-Run : StateInvariant.Run "run_1" 1 running
unfolding transition
running-Run =
    StateInvariant.next StateInvariant.created
      (StateInvariant.moved 0 StateTrigger.start none none none refl)

running-IsValid : StateInvariant.IsValid running
running-IsValid = (StateInvariant.Run-IsValid running-Run).0

run-IsBounded_example :
    Outcome
      (IsBounded scripted limits)
      (IsBoundedError scripted limits)
      (run scripted limits (begin log running shared 0))
run-IsBounded_example = run-IsBounded scripted limits log running shared 0

run-Continues_example :
    let s = (run scripted limits (begin log running shared 0)).1 in
    Continues log running s.log s.state
run-Continues_example =
    run-Continues scripted limits log running shared 0 log-IsValid running-IsValid

run_ends_example :
    Outcome
      (λ (out : LoopOutcome) s.
        (in_terminal_states out.state.state ≡ true)
        × (is_some out.state.status ≡ true)
        × (out.state.run_id ≡ running.run_id)
        × StateInvariant.IsValid out.state)
      (λ e s. Holding log running s)
      (run scripted limits (begin log running shared 0))
run_ends_example = run_ends scripted limits log running shared 0 log-IsValid running-IsValid

abbrev meta : String → MessageMeta
meta id = record { id = id; session_id = "s"; run_id = "run_1"; turn_id = 1; created_at = "t" }

abbrev ask : Message
ask = assistant_message (record {
  meta = meta "m0";
  content = "";
  stop_reason = StopReason.tool_calls;
  tool_calls = a_call "c1" 0 ∷ [];
})

-- the log behind a response that calls one tool
abbrev asked_log : MessageLog
asked_log = record {
  session_id = "s";
  messages = ask ∷ [];
  message_ids = "m0" ∷ [];
  tool_calls = ("c1", a_call "c1" 0) ∷ [];
  results = [];
}

asked_log-IsValid : WellFormed.IsValid asked_log
unfolding append validate validate_kind validate_tool_calls check_calls record_message record_kind
    record_calls meta_of contains lookup insert sorted insert_sorted is_range_from fields_json
asked_log-IsValid = (built-IsValid (appended ask log-IsBuilt refl)).0

batch_answered_example :
    Outcome
      (λ _ s'. AreAnswered (a_call "c1" 0 ∷ []) s')
      (λ e s'. Unit)
      (run_batch scripted limits (a_call "c1" 0 ∷ []) (begin asked_log running shared 0))
batch_answered_example =
    batch_answered scripted limits (a_call "c1" 0 ∷ []) (begin asked_log running shared 0)
      asked_log-IsValid

-- the loop over this batch returns
batch_returns :
    (run_batch scripted limits (a_call "c1" 0 ∷ []) (begin asked_log running shared 0)).0
    ≡ ok Batch.completed
unfolding run rounds turn_once think leave_steering drain_steering inject_all emit tell boundary
    publish build_request with_request ask_model ask_once call_model back_off is_transient
    after_reply respond new_meta commit commit_result append validate validate_kind
    validate_tool_calls check_calls record_message record_kind record_calls meta_of contains lookup
    insert by_stop_reason by_calls act sort_calls insert_call run_batch cancel_pending perform_call
    start_call finish_call after_call run_executor remaining_seconds move transition advance
    next_state in_terminal_states in_active_states default_status turn_after tool_call_after
    cancellation_after after_batch conclude conclude_with next_follow_up start_follow_up
    drain_before_next_request has_pending pure raise gets call modify ◌>>=◌ insert_sorted sorted
    is_range_from is_json fields_json
batch_returns = refl

-- two calls, not in the order of their ordinals
abbrev two_calls : ModelResponse
two_calls = record {
  content = "text";
  stop_reason = StopReason.tool_calls;
  tool_calls = a_call "c2" 1 ∷ a_call "c1" 0 ∷ [];
  usage = none;
  response_id = "r";
}

calls_answered_example :
    Outcome
      (λ flow s'. IsSettled scripted limits two_calls.stop_reason two_calls.tool_calls s')
      (λ e s'. Unit)
      (respond scripted limits two_calls (begin log running shared 0))
calls_answered_example =
    calls_answered scripted limits two_calls (begin log running shared 0) log-IsValid

-- the answer to this response returns, and the loop goes on
response_returns :
    (respond scripted limits two_calls (begin log running shared 0)).0 ≡ ok Flow.again
unfolding run rounds turn_once think leave_steering drain_steering inject_all emit tell boundary
    publish build_request with_request ask_model ask_once call_model back_off is_transient
    after_reply respond new_meta commit commit_result append validate validate_kind
    validate_tool_calls check_calls record_message record_kind record_calls meta_of contains lookup
    insert by_stop_reason by_calls act sort_calls insert_call run_batch cancel_pending perform_call
    start_call finish_call after_call run_executor remaining_seconds move transition advance
    next_state in_terminal_states in_active_states default_status turn_after tool_call_after
    cancellation_after after_batch conclude conclude_with next_follow_up start_follow_up
    drain_before_next_request has_pending pure raise gets call modify ◌>>=◌ insert_sorted sorted
    is_range_from is_json fields_json
response_returns = refl

abbrev no_tools : RunLimits
no_tools = record {
  max_turns = 0;
  max_tool_calls = 0;
  deadline_seconds = none;
  max_provider_retries = 0;
  provider_retry_base_delay_seconds = 1;
}

spent_budget_raises_example :
    Outcome
      (λ _ s'. ⊥)
      (λ e s'. s'.state.state ≡ AgentState.waiting_tool)
      (act scripted no_tools StopReason.tool_calls
        (a_call "c1" 0)
        []
        (begin asked_log running shared 0))
unfolding advance
spent_budget_raises_example =
    spent_budget_raises scripted no_tools StopReason.tool_calls (a_call "c1" 0) []
      (begin asked_log running shared 0) refl (omega arith) refl

abbrev steering : RuntimeState
steering = record (running) { state = AgentState.steering }

steering_at_limit_raises_example :
    Outcome
      (λ _ s'. ⊥)
      (λ e s'. s'.state.state ≡ AgentState.steering)
      (turn_once scripted no_tools (begin log steering shared 0))
steering_at_limit_raises_example =
    steering_at_limit_raises scripted no_tools (begin log steering shared 0) refl (omega arith) refl

abbrev is_finished : Result LoopError LoopOutcome → Bool
is_finished (ok out) = elim out.state.status [
  | some RunStatus.finished ↦ out.turns == 2 && out.tool_calls == 2 && out.provider_calls == 3
  | _ ↦ false
]
is_finished (err e) = false

-- the scripted run: a retry, two calls in the order of their ordinals, and an answer
finishes : is_finished (run scripted limits (begin log running shared 0)).0 ≡ true
unfolding run rounds turn_once think leave_steering drain_steering inject_all emit tell boundary
    publish build_request with_request ask_model ask_once call_model back_off is_transient
    after_reply respond new_meta commit commit_result append validate validate_kind
    validate_tool_calls check_calls record_message record_kind record_calls meta_of contains lookup
    insert by_stop_reason by_calls act sort_calls insert_call run_batch cancel_pending perform_call
    start_call finish_call after_call run_executor remaining_seconds move transition advance
    next_state in_terminal_states in_active_states default_status turn_after tool_call_after
    cancellation_after after_batch conclude conclude_with next_follow_up start_follow_up
    drain_before_next_request has_pending pure raise gets call modify ◌>>=◌ insert_sorted sorted
    is_range_from is_json fields_json
finishes = refl
