-- ===== src/Loop/Actions.antt =====
-- The closures of `AgentLoop.run`: what it tells its observers, commits to the log, and does to the
-- run's state.
use py_coding_agent.Prelude.{
  ℕ, ◌-◌, String, Bool, Option, none, some, str_eq, if◌then◌else◌, List, [], ◌∷◌, ◌++◌,
}
use py_coding_agent.Result.{Result, ok, err}
use py_coding_agent.State.{
  RuntimeState, StateTrigger, RunStatus, StopReason, StateTransitionError, transition,
  request_abort,
}
use py_coding_agent.Message.{
  MessageMeta, Message, user_message, tool_result, ToolCall, ValidationCode,
}
use py_coding_agent.Message.Log.{MessageLog, append}
use py_coding_agent.Control.{Item, Queue, drain_before_next_request, dequeue_after_turn_end}
use py_coding_agent.Provider.{ToolOutcome}
use py_coding_agent.Exec.{Exec, pure, call, modify, ◌>>=◌, ◌>>◌}
use py_coding_agent.Loop.Types.{
  Services, Shared, LoopState, LoopError, bad_message, bad_transition, Notice, emitted, published,
  at_boundary, LoopEventKind, BoundaryKind, Published, Limit,
}

abbrev pub M : Type 0 → Type 0 → Type 0
M W A = Exec LoopError (LoopState W) A

-- `reason or default`: None and the empty string give the default
abbrev or_default : Option String → String → String
or_default none default = default
or_default (some reason) default = if str_eq reason "" then default else reason

abbrev take_follow_up : Option Queue → Option Item × Option Queue
take_follow_up none = (none, none)
take_follow_up (some q) = let (item, q') = dequeue_after_turn_end q in (item, some q')

module _ {W : Type 0} where
  -- one more notice to the observers
  abbrev pub say : Notice → LoopState W → LoopState W
  say n s = record s { trace = s.trace ++ n ∷ [] }

  unfoldable pub tell : Notice → M W (Unit {0})
  tell n = modify (say n)

  -- `emit`, with the current turn
  unfoldable pub emit : LoopEventKind → M W (Unit {0})
  emit kind s = tell (emitted kind s.state.current_turn) s

  unfoldable pub publish : Published → M W (Unit {0})
  publish event = tell (published event)

  -- `boundary`, with the current sequence number
  unfoldable pub boundary : BoundaryKind → M W (Unit {0})
  boundary kind s = tell (at_boundary kind s.state.state_seq) s

  abbrev transition_result :
      Result StateTransitionError RuntimeState
      → LoopState W
      → Result LoopError (Unit {0}) × LoopState W
  transition_result (ok next) s = (ok tt, record s { state = next })
  transition_result (err e) s = (err (bad_transition e), s)

  -- `state = state.transition(state.state_seq, trigger, ...)`
  unfoldable pub move :
      StateTrigger → Option RunStatus → Option StopReason → Option String → M W (Unit {0})
  move trigger status stop_reason id s =
      transition_result (transition s.state s.state.state_seq trigger status stop_reason id) s

  -- `state = state.request_abort(reason)`
  unfoldable pub ask_abort : String → M W (Unit {0})
  ask_abort reason s = transition_result (request_abort s.state reason) s

  -- `abort_run`
  unfoldable pub abort_run : String → M W (Unit {0})
  abort_run reason = do
    publish (Published.abort reason)
    ask_abort reason
    move StateTrigger.cleanup_done none (some StopReason.cancelled) none

  -- `limit_hit = limit`, and the FINISH transition as BUDGET_EXHAUSTED
  unfoldable pub exhaust : Limit → Option StopReason → M W (Unit {0})
  exhaust limit stop_reason = do
    modify (λ s. record s { limit_hit = some limit })
    move StateTrigger.finish (some RunStatus.budget_exhausted) stop_reason none

  abbrev append_result :
      Result ValidationCode MessageLog → LoopState W → Result LoopError (Unit {0}) × LoopState W
  append_result (ok log) s = (ok tt, record s { log = log })
  append_result (err e) s = (err (bad_message e), s)

  -- `log.append(message)`
  unfoldable pub commit : Message → M W (Unit {0})
  commit message s = append_result (append s.log message) s

  -- `control.cancel.is_cancelled`
  abbrev pub cancelled : LoopState W → Bool
  cancelled s = s.shared.control.cancel.is_cancelled

  -- `control.cancel.reason or default`
  abbrev pub cancel_reason : String → LoopState W → String
  cancel_reason default s = or_default s.shared.control.cancel.reason default

  abbrev with_steering : Shared W → Queue → Shared W
  with_steering shared q = record shared { control = record (shared.control) { steering = q } }

  -- `control.steering.drain_before_next_request()`
  unfoldable pub drain_steering : M W (List Item)
  drain_steering = call λ s.
      let (items, q) = drain_before_next_request s.shared.control.steering in
      (items, record s { shared = with_steering s.shared q })

  -- `follow_ups.dequeue_after_turn_end() if follow_ups is not None else None`
  unfoldable pub next_follow_up : M W (Option Item)
  next_follow_up = call λ s.
      let (item, qs) = take_follow_up s.shared.follow_ups in
      (item, record s { shared = record (s.shared) { follow_ups = qs } })

module _ (env : Services) where
  open env use {World, now, new_id, utc_now}

  abbrev pub with_world : LoopState World → World → LoopState World
  with_world s w = record s { shared = record (s.shared) { world = w } }

  -- `new_meta`
  unfoldable pub new_meta : M World MessageMeta
  new_meta = call λ s.
      let (id, w) = new_id s.shared.world in
      let (at, w') = utc_now w in
      (
        record {
          id = id;
          session_id = s.log.session_id;
          run_id = s.state.run_id;
          turn_id = s.state.current_turn;
          created_at = at;
        },
        with_world s w',
      )

  -- `remaining_seconds`; a deadline that has passed leaves 0
  unfoldable pub remaining_seconds : Option ℕ → M World (Option ℕ)
  remaining_seconds none = pure none
  remaining_seconds (some deadline) =
      call λ s.
        let (t, w) = now s.shared.world in (some (deadline - (t - s.started_at)), with_world s w)

  -- `inject_user_text`
  unfoldable pub inject_user_text :
      String → LoopEventKind → BoundaryKind → Published → M World (Unit {0})
  inject_user_text text kind at event = do
    meta ← new_meta
    commit (user_message meta text)
    emit kind
    boundary at
    publish event

  -- `commit_result`
  unfoldable pub commit_result : ToolCall → ToolOutcome → M World (Unit {0})
  commit_result c outcome = do
    meta ← new_meta
    commit (
        tool_result (record {
          meta = meta;
          tool_call_id = c.id;
          status = outcome.status;
          content = outcome.content;
          artifact_ref = outcome.artifact_ref;
          error_kind = outcome.error_kind;
          retryable = outcome.retryable;
          exit_code = outcome.exit_code;
        }))
    emit LoopEventKind.tool_result_committed
    boundary BoundaryKind.tool_result
