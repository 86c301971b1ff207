-- ===== src/Loop/Ending.antt =====
-- The states in which the loop stops.
use py_coding_agent.Prelude.{
  ℕ, zero, suc, String, Bool, true, false, Option, none, some, ◌≡◌, refl, inl, inr, List, [], ◌∷◌,
  arith, leb, ◌||◌,
}
use py_coding_agent.Result.{Result, ok, err, Result-cases}
use py_coding_agent.State.{
  StateTrigger, RunStatus, StopReason, AgentState, transition, in_terminal_states, ignores_abort,
}
use py_coding_agent.State.Diagram.{Edge, Edge-not_terminal}
use py_coding_agent.State.Guards.{transition-ok}
use py_coding_agent.State.Abort.{request_abort-ok}
use py_coding_agent.Message.{ToolCall}
use py_coding_agent.Control.{Item}
use py_coding_agent.Exec.{pure, ◌>>=◌}
use py_coding_agent.Exec.Keeps.{Outcome, Triple, Triple-bind, Triple-pure, Triple-raise, Triple-if}
use py_coding_agent.Loop.Types.{
  RunLimits, Services, LoopState, LoopError, Flow, again, stop, Batch, ProviderReply, responded,
  timed_out, failed, raised, Limit,
}
use py_coding_agent.Loop.Actions.{M, move, abort_run, exhaust}
use py_coding_agent.Loop.Frame.{Frame}
use py_coding_agent.Loop.Model.{is_cancelled_kind}
use py_coding_agent.Loop.Turn.{
  start_follow_up, conclude_with, conclude, after_batch, act, by_calls, by_stop_reason, respond,
  after_reply, with_request, think, turn_once, rounds, has_run_out,
}

-- the triggers that lead into a terminal state
abbrev ends_run : StateTrigger → Bool
ends_run StateTrigger.finish = true
ends_run StateTrigger.fail = true
ends_run StateTrigger.cleanup_done = true
ends_run _ = false

Edge-ends :
    {a b : AgentState} {t : StateTrigger}
    → Edge a t b
    → ends_run t ≡ true
    → in_terminal_states b ≡ true
unfolding in_terminal_states
Edge-ends Edge.stop e = refl
Edge-ends Edge.break_down e = refl
Edge-ends Edge.cleaned e = refl
Edge-ends (Edge.abort h) e = ground arith
Edge-ends _ e = ground arith

module _ {W : Type 0} where
  abbrev pub Anything : LoopState W → Type 0
  Anything s = Unit

  -- a terminal state
  abbrev pub HasEnded : LoopState W → Type 0
  HasEnded s = in_terminal_states s.state.state ≡ true

  -- a pass that stops the loop leaves a terminal state
  abbrev Settled : Flow → LoopState W → Type 0
  Settled again s = Unit
  Settled stop s = HasEnded s

  -- `m`, if it returns, does so with `Q`
  abbrev pub Gives : {A : Type 0} → M W A → (A → LoopState W → Type 0) → Type 0
  Gives m Q = Triple Anything m Q (λ e. Anything)

  nothing :
      {A : Type 0} (o : Result LoopError A × LoopState W)
      → Outcome (λ _. Anything) (λ _. Anything) o
  nothing (ok a, s) = tt
  nothing (err e, s) = tt

  behind :
      {A B : Type 0} (m : M W A) {f : A → M W B} {Q : B → LoopState W → Type 0}
      → ((a : A) → Gives (f a) Q)
      → Gives (m >>= f) Q
  behind m h = Triple-bind (record { at = λ s p. nothing (m s) }) h

  move-HasEnded :
      (t : StateTrigger) (status : Option RunStatus) (reason : Option StopReason)
      (id : Option String)
      → ends_run t ≡ true
      → Gives (move t status reason id) (λ _. HasEnded)
  unfolding move
  move-HasEnded t status reason id e = record {
    at = λ s p. elim (Result-cases (transition s.state s.state.state_seq t status reason id)) [
      | inl (next, h) ↦
          rw h (Edge-ends (transition-ok s.state s.state.state_seq t status reason id h).1 e)
      | inr (why, h) ↦ rw h tt
    ];
  }

  stopping : {m : M W (Unit {0})} → Gives m (λ _. HasEnded) → Gives (m >>= λ _. pure stop) Settled
  stopping h = Triple-bind h λ _. Triple-pure stop (λ s p. p)

  going_on : Gives (pure again) Settled
  going_on = Triple-pure again (λ s p. tt)

  abort_run-HasEnded : (reason : String) → Gives (abort_run reason) (λ _. HasEnded)
  unfolding abort_run
  abort_run-HasEnded reason = behind _ λ _. behind _ λ _. move-HasEnded _ _ _ _ refl

  exhaust-HasEnded :
      (limit : Limit) (reason : Option StopReason) → Gives (exhaust limit reason) (λ _. HasEnded)
  unfolding exhaust
  exhaust-HasEnded limit reason = behind _ λ _. move-HasEnded _ _ _ _ refl

  -- no transition leaves a terminal state, and a request to abort changes nothing there
  pub HasEnded-Frame : Frame HasEnded
  unfolding ignores_abort
  HasEnded-Frame = record {
    said = λ s n q p. p;
    moved = λ s next t status reason id e p. absurd (
        ground (
          arith,
          Edge-not_terminal (transition-ok s.state s.state.state_seq t status reason id e).1,
        ));
    asked = λ s next reason e p. ground (arith, request_abort-ok s.state reason);
    logged = λ s log m e p. p;
    shared = λ s sh p. p;
    limited = λ s limit p. p;
    texted = λ s text p. p;
  }

module _ (env : Services) (limits : RunLimits) where
  open env use {World, Request}

  start_follow_up-Settled :
      (r : StopReason) (task : Option Item) → Gives (start_follow_up env limits r task) Settled
  unfolding start_follow_up
  start_follow_up-Settled r none = stopping (move-HasEnded _ _ _ _ refl)
  start_follow_up-Settled r (some task) = behind _ λ _. behind _ λ _. behind _ λ _. going_on

  conclude_with-Settled :
      (r : StopReason) (items : List Item) → Gives (conclude_with env limits r items) Settled
  unfolding conclude_with
  conclude_with-Settled r [] = behind _ λ task. start_follow_up-Settled r task
  conclude_with-Settled r (m ∷ ms) = behind _ λ _. going_on

  after_batch-Settled : (r : StopReason) (b : Batch) → Gives (after_batch env limits r b) Settled
  unfolding after_batch
  after_batch-Settled r Batch.budget_hit = stopping (move-HasEnded _ _ _ _ refl)
  after_batch-Settled r Batch.aborted = behind _ λ reason. stopping (abort_run-HasEnded reason)
  after_batch-Settled r Batch.completed = behind _ λ c.
      behind _ λ reason. Triple-if c (λ _. stopping (abort_run-HasEnded reason)) (λ _. going_on)

  by_calls-Settled :
      (r : StopReason) (cs : List ToolCall) → Gives (by_calls env limits r cs) Settled
  unfolding by_calls conclude act
  by_calls-Settled r [] = behind _ λ _. behind _ λ items. conclude_with-Settled r items
  by_calls-Settled r (c ∷ cs) = behind _ λ _. behind _ λ b. after_batch-Settled r b

  by_stop_reason-Settled :
      (r : StopReason) (cs : List ToolCall) → Gives (by_stop_reason env limits r cs) Settled
  unfolding by_stop_reason
  by_stop_reason-Settled StopReason.provider_error cs = stopping (move-HasEnded _ _ _ _ refl)
  by_stop_reason-Settled StopReason.cancelled cs =
      behind _ λ _. stopping (move-HasEnded _ _ _ _ refl)
  by_stop_reason-Settled StopReason.end_turn cs = by_calls-Settled StopReason.end_turn cs
  by_stop_reason-Settled StopReason.tool_calls cs = by_calls-Settled StopReason.tool_calls cs
  by_stop_reason-Settled StopReason.max_tokens cs = by_calls-Settled StopReason.max_tokens cs

  after_reply-Settled : (reply : ProviderReply) → Gives (after_reply env limits reply) Settled
  unfolding after_reply respond
  after_reply-Settled (responded r) = behind _ λ _. behind _ λ _. behind _ λ _. behind _ λ _.
      behind _ λ _. behind _ λ _. behind _ λ _. by_stop_reason-Settled r.stop_reason r.tool_calls
  after_reply-Settled timed_out = behind _ λ _. stopping (exhaust-HasEnded _ _)
  after_reply-Settled (failed kind) = behind _ λ c. behind _ λ reason.
      Triple-if (is_cancelled_kind kind || c) (λ _. stopping (abort_run-HasEnded reason))
        (λ _. behind _ λ _. stopping (move-HasEnded _ _ _ _ refl))
  after_reply-Settled (raised e) = Triple-raise _ (λ s p. tt)

  with_request-Settled :
      (remaining : Option ℕ) (request : Option Request)
      → Gives (with_request env limits remaining request) Settled
  unfolding with_request
  with_request-Settled remaining none = stopping (exhaust-HasEnded _ _)
  with_request-Settled remaining (some request) =
      behind _ λ _. behind _ λ _. behind _ λ reply. after_reply-Settled reply

  think-Settled : (remaining : Option ℕ) → Gives (think env limits remaining) Settled
  unfolding think
  think-Settled remaining = behind _ λ _.
      behind _
        λ _. behind _ λ _. behind _ λ _. behind _ λ request. with_request-Settled remaining request

  turn_once-Settled : Gives (turn_once env limits) Settled
  unfolding turn_once
  turn_once-Settled = behind _ λ c. behind _ λ reason.
      Triple-if c (λ _. stopping (abort_run-HasEnded reason))
        (λ _. behind _ λ remaining. behind _ λ turns.
          Triple-if (has_run_out remaining) (λ _. stopping (exhaust-HasEnded _ _))
            (λ _.
              Triple-if (leb limits.max_turns turns) (λ _. stopping (exhaust-HasEnded _ _))
                (λ _. think-Settled remaining)))

  pub rounds-HasEnded : (n : ℕ) → Gives (rounds env limits n) (λ _. HasEnded)
  unfolding rounds
  rounds-HasEnded zero = Triple-raise _ (λ s p. tt)
  rounds-HasEnded (suc n) =
      Triple-bind turn_once-Settled (on_flow (rounds env limits n) (rounds-HasEnded n))
    where
      on_flow :
          (rest : M World (Unit {0}))
          → Gives rest (λ _. HasEnded)
          → (flow : Flow)
          → Triple
              (Settled flow)
              (elim flow [ again ↦ rest | stop ↦ pure tt ])
              (λ _. HasEnded)
              (λ e. Anything)
      on_flow rest h again = h
      on_flow rest h stop = Triple-pure tt (λ s p. p)
