-- ===== src/Loop/Bounded.antt =====
-- The passes of the outer loop, counted, and the limits of the run.
use py_coding_agent.Prelude.{
  ℕ, zero, suc, ◌+◌, ◌*◌, ◌≤◌, ◌<◌, Option, none, some, ◌≡◌, arith, List, [], ◌∷◌, leb, ◌||◌,
}
use py_coding_agent.State.{StopReason}
use py_coding_agent.Message.{ToolCall}
use py_coding_agent.Provider.{ModelResponse}
use py_coding_agent.Exec.{pure, ◌>>=◌}
use py_coding_agent.Exec.Keeps.{
  Triple, Triple-modify, Triple-bind, Triple-if, Triple-gets, Triple-map, Triple-pure, Triple-raise,
  Keeps-pure, Keeps-bind, Keeps-gets, Keeps-modify,
}
use py_coding_agent.Loop.Types.{
  RunLimits, Services, LoopState, Flow, again, stop, ProviderReply, responded, timed_out, failed,
  raised,
}
use py_coding_agent.Loop.Actions.{M, tell, cancelled}
use py_coding_agent.Loop.Frame.{
  Frame, Holds, publish-Holds, emit-Holds, boundary-Holds, move-Holds, ask_abort-Holds,
  commit-Holds, abort_run-Holds, exhaust-Holds, drain_steering-Holds, new_meta-Holds,
  remaining_seconds-Holds,
}
use py_coding_agent.Loop.Steps.{
  inject_all-Holds, leave_steering-Holds, build_request-Holds, answer-Holds, back_off-Holds,
  conclude-Holds, after_batch-Holds,
}
use py_coding_agent.Loop.Counters.{
  Counts, keeps_to, InLimits, InLimits-Frame, within_limits, run_batch-InLimits, executions_kept,
  requests-said,
}
use py_coding_agent.Loop.Model.{call_model, ask_once, ask_model, is_retried, is_cancelled_kind}
use py_coding_agent.Loop.Turn.{
  has_run_out, act, by_calls, by_stop_reason, respond, after_reply, with_request, think, turn_once,
  rounds,
}
use py_coding_agent.Loop.Limits.{
  Within, Raised, Tallied, Asking, Asking-Frame, After, Asking-Tallied, Asking-Within,
  InLimits-Tallied, InLimits-Within, Broken-Within, Limits,
}

module _ (env : Services) (limits : RunLimits) where
  open env use {World, Request}

  -- the part of a pass that answers a response moves no counter but that of the tool calls
  act-InLimits :
      (t : ℕ) (r : StopReason) (c : ToolCall) (cs : List ToolCall)
      → Limits env limits t (act env limits r c cs)
  unfolding act
  act-InLimits t r c cs =
      Triple-bind (within_limits env limits t (move-Holds (InLimits-Frame env limits t) _ _ _ _))
        λ _. Triple-bind (run_batch-InLimits env limits t _) λ b.
          within_limits env limits t
            (after_batch-Holds env limits (InLimits-Frame env limits t) r b)

  by_calls-InLimits :
      (t : ℕ) (r : StopReason) (cs : List ToolCall) → Limits env limits t (by_calls env limits r cs)
  unfolding by_calls
  by_calls-InLimits t r [] =
      within_limits env limits t (conclude-Holds env limits (InLimits-Frame env limits t) r)
  by_calls-InLimits t r (c ∷ cs) = act-InLimits t r c cs

  by_stop_reason-InLimits :
      (t : ℕ) (r : StopReason) (cs : List ToolCall)
      → Limits env limits t (by_stop_reason env limits r cs)
  unfolding by_stop_reason
  by_stop_reason-InLimits t StopReason.provider_error cs =
      within_limits env limits t
        (Keeps-bind (move-Holds (InLimits-Frame env limits t) _ _ _ _) λ _. Keeps-pure stop)
  by_stop_reason-InLimits t StopReason.cancelled cs = within_limits env limits t (
      Keeps-bind (ask_abort-Holds (InLimits-Frame env limits t) _)
        λ _. Keeps-bind (move-Holds (InLimits-Frame env limits t) _ _ _ _) λ _. Keeps-pure stop)
  by_stop_reason-InLimits t StopReason.end_turn cs = by_calls-InLimits t StopReason.end_turn cs
  by_stop_reason-InLimits t StopReason.tool_calls cs = by_calls-InLimits t StopReason.tool_calls cs
  by_stop_reason-InLimits t StopReason.max_tokens cs = by_calls-InLimits t StopReason.max_tokens cs

  module _ (t : ℕ) (open_turn : t < limits.max_turns) where
    asking :
        {A : Type 0} (left : ℕ) {m : M World A}
        → Holds (Asking env limits t left) m
        → Triple (Asking env limits t left) m (λ _. Asking env limits t left) (Raised env limits)
    asking left =
        keeps_to (Asking env limits t left) (Within env limits)
          (Asking-Within env limits t left open_turn)

    ending :
        (left : ℕ) {m : M World (Unit {0})}
        → Holds (Asking env limits t left) m
        → Triple
            (Asking env limits t left)
            (m >>= λ _. pure stop)
            (After env limits t)
            (Raised env limits)
    ending left h =
        Triple-bind (asking left h)
          λ _. Triple-pure stop (Asking-Tallied env limits t left open_turn)

    closing :
        {m : M World Flow}
        → Limits env limits (t + 1) m
        → Triple (InLimits env limits (t + 1)) m (After env limits t) (Raised env limits)
    closing h =
        Triple-map (λ s p. p) after
          (λ e s p. (p.0, Broken-Within env limits (t + 1) (omega arith) s p.1)) h
      where
        after :
            (flow : Flow) (s : LoopState World)
            → InLimits env limits (t + 1) s
            → After env limits t flow s
        after again s p = (open_turn, p)
        after stop s p = InLimits-Tallied env limits (t + 1) (omega arith) s p

    -- a request that is counted, and not sent yet
    abbrev Due : ℕ → LoopState World → Type 0
    Due left = Counts λ turns used calls runs asks.
        (turns ≡ t)
        × (used ≤ limits.max_tool_calls)
        × (calls + left ≤ (limits.max_provider_retries + 1) * (t + 1))
        × (runs ≡ used)
        × (asks + 1 ≡ calls)

    ask_once-Asking :
        (left : ℕ) (request : Request) (r : Option ℕ)
        → Triple
            (Asking env limits t (suc left))
            (ask_once env limits request r)
            (λ _. Asking env limits t left)
            (Raised env limits)
    unfolding ask_once call_model tell
    ask_once-Asking left request r =
        Triple-bind {Q = λ _. Due left}
          (Triple-modify _ (λ s p. (p.0, p.1, omega arith, p.3, omega arith)))
          λ _.
            Triple-bind {Q = λ _. Asking env limits t left}
              (Triple-modify _ (λ s p. (
                p.0,
                p.1,
                p.2,
                omega (arith, executions_kept s.trace, p.3),
                omega (arith, requests-said s.trace, p.4),
              )))
              λ _. asking left (answer-Holds env limits (Asking-Frame env limits t left) request r)

    ask_model-Asking :
        (left : ℕ) (request : Request) (r : Option ℕ)
        → Triple
            (Asking env limits t (suc left))
            (ask_model env limits left request r)
            (λ _. Asking env limits t 0)
            (Raised env limits)
    unfolding ask_model
    ask_model-Asking zero request r = ask_once-Asking 0 request r
    ask_model-Asking (suc left) request r =
        Triple-bind (ask_once-Asking (suc left) request r) λ reply.
          Triple-bind (asking (suc left) (Keeps-gets cancelled)) λ c.
            Triple-if (is_retried reply c)
              (λ _.
                Triple-bind
                  (asking (suc left)
                    (back_off-Holds env limits (Asking-Frame env limits t (suc left)) _))
                  λ _. ask_model-Asking left request r)
              (λ _. Triple-pure reply (λ s p. (p.0, p.1, omega arith, p.3, p.4)))

    respond-After :
        (r : ModelResponse)
        → Triple
            (Asking env limits t 0)
            (respond env limits r)
            (After env limits t)
            (Raised env limits)
    unfolding respond
    respond-After r =
        Triple-bind {Q = λ _. InLimits env limits (t + 1)}
          (Triple-modify _ (λ s p. (omega arith, p.1, omega arith, p.3, p.4)))
          λ _. closing (
            Triple-bind (turn (new_meta-Holds env f)) λ _.
              Triple-bind (turn (commit-Holds f _)) λ _. Triple-bind (turn (emit-Holds f _)) λ _.
                Triple-bind (turn (boundary-Holds f _)) λ _.
                  Triple-bind (turn (publish-Holds f _)) λ _.
                    Triple-bind (turn (Keeps-modify {P = InLimits env limits (t + 1)} _ (λ s p. p)))
                      λ _. by_stop_reason-InLimits (t + 1) r.stop_reason r.tool_calls)
      where
        f : Frame (InLimits env limits (t + 1))
        f = InLimits-Frame env limits (t + 1)

        turn :
            {A : Type 0} {m : M World A}
            → Holds (InLimits env limits (t + 1)) m
            → Limits env limits (t + 1) m
        turn = within_limits env limits (t + 1)

    after_reply-After :
        (reply : ProviderReply)
        → Triple
            (Asking env limits t 0)
            (after_reply env limits reply)
            (After env limits t)
            (Raised env limits)
    unfolding after_reply
    after_reply-After (responded r) = respond-After r
    after_reply-After timed_out =
        Triple-bind (asking 0 (publish-Holds (Asking-Frame env limits t 0) _))
          λ _. ending 0 (exhaust-Holds (Asking-Frame env limits t 0) _ _)
    after_reply-After (failed kind) = Triple-bind (asking 0 (Keeps-gets cancelled)) λ c.
        Triple-bind (asking 0 (Keeps-gets _)) λ reason.
          Triple-if (is_cancelled_kind kind || c)
            (λ _. ending 0 (abort_run-Holds (Asking-Frame env limits t 0) reason))
            (λ _.
              Triple-bind (asking 0 (publish-Holds (Asking-Frame env limits t 0) _))
                λ _. ending 0 (move-Holds (Asking-Frame env limits t 0) _ _ _ _))
    after_reply-After (raised e) =
        Triple-raise _ (λ s p. (tt, Asking-Within env limits t 0 open_turn s p))

    with_request-After :
        (remaining : Option ℕ) (request : Option Request)
        → Triple
            (Asking env limits t (suc limits.max_provider_retries))
            (with_request env limits remaining request)
            (After env limits t)
            (Raised env limits)
    unfolding with_request
    with_request-After remaining none =
        ending _ (exhaust-Holds (Asking-Frame env limits t (suc limits.max_provider_retries)) _ _)
    with_request-After remaining (some request) = Triple-bind (asking _ (Keeps-gets _)) λ turn.
        Triple-bind
          (asking _ (publish-Holds (Asking-Frame env limits t (suc limits.max_provider_retries)) _))
          λ _.
            Triple-bind (ask_model-Asking limits.max_provider_retries request remaining)
              after_reply-After

    think-After :
        (remaining : Option ℕ)
        → Triple
            (InLimits env limits t)
            (think env limits remaining)
            (After env limits t)
            (Raised env limits)
    unfolding think
    think-After remaining =
        Triple-map {P = Asking env limits t (suc limits.max_provider_retries)}
          (λ s p. (p.0, p.1, omega arith, p.3, p.4)) (λ flow s p. p) (λ e s p. p)
          (Triple-bind
            (asking _ (
              leave_steering-Holds env limits
                (Asking-Frame env limits t (suc limits.max_provider_retries))))
            λ _.
              Triple-bind
                (asking _ (
                  drain_steering-Holds
                    (Asking-Frame env limits t (suc limits.max_provider_retries))))
                λ steering.
                  Triple-bind
                    (asking _ (
                      inject_all-Holds env limits
                        (Asking-Frame env limits t (suc limits.max_provider_retries)) steering))
                    λ _.
                      Triple-bind
                        (asking _ (
                          emit-Holds (Asking-Frame env limits t (suc limits.max_provider_retries))
                            _))
                        λ _.
                          Triple-bind
                            (asking _ (
                              build_request-Holds env limits
                                (Asking-Frame env limits t (suc limits.max_provider_retries))))
                            (with_request-After remaining))

  -- a pass of the outer loop from a state behind `t` turns
  turn_once-After :
      (t : ℕ)
      → t ≤ limits.max_turns
      → Triple
          (InLimits env limits t)
          (turn_once env limits)
          (After env limits t)
          (Raised env limits)
  unfolding turn_once
  turn_once-After t h = Triple-bind (kept (Keeps-gets cancelled)) λ c.
      Triple-bind (kept (Keeps-gets _)) λ reason.
        Triple-if c (λ _. stopping (abort_run-Holds (InLimits-Frame env limits t) reason))
          (λ _.
            Triple-bind (kept (remaining_seconds-Holds env (InLimits-Frame env limits t) _))
              λ remaining. Triple-bind (Triple-gets _) λ turns.
                Triple-if (has_run_out remaining)
                  (λ _. forget (stopping (exhaust-Holds (InLimits-Frame env limits t) _ _)))
                  (λ _.
                    Triple-if (leb limits.max_turns turns)
                      (λ _. forget (stopping (exhaust-Holds (InLimits-Frame env limits t) _ _)))
                      (λ room. record {
                        at = λ s p. (think-After t (ground arith) remaining).at s p.0;
                      })))
    where
      kept :
          {A : Type 0} {m : M World A}
          → Holds (InLimits env limits t) m
          → Triple (InLimits env limits t) m (λ _. InLimits env limits t) (Raised env limits)
      kept = keeps_to (InLimits env limits t) (Within env limits) (InLimits-Within env limits t h)

      stopping :
          {m : M World (Unit {0})}
          → Holds (InLimits env limits t) m
          → Triple
              (InLimits env limits t)
              (m >>= λ _. pure stop)
              (After env limits t)
              (Raised env limits)
      stopping m = Triple-bind (kept m) λ _. Triple-pure stop (InLimits-Tallied env limits t h)

      forget :
          {A : Type 0} {m : M World A} {Q : A → LoopState World → Type 0}
          {K : LoopState World → Type 0}
          → Triple (InLimits env limits t) m Q (Raised env limits)
          → Triple (λ s. InLimits env limits t s × K s) m Q (Raised env limits)
      forget = Triple-map (λ s p. p.0) (λ a s p. p) (λ e s p. p)

  on_flow :
      (t : ℕ) (rest : M World (Unit {0}))
      → (t < limits.max_turns
          → Triple (InLimits env limits (t + 1)) rest (λ _. Tallied env limits) (Raised env limits))
      → (flow : Flow)
      → Triple
          (After env limits t flow)
          (elim flow [ again ↦ rest | stop ↦ pure tt ])
          (λ _. Tallied env limits)
          (Raised env limits)
  on_flow t rest h again = record { at = λ s p. (h p.0).at s p.1 }
  on_flow t rest h stop = Triple-pure tt (λ s p. p)

  -- with one pass more than the turns that are left, the bound on the passes is never met
  pub rounds-Within :
      (n t : ℕ)
      → t ≤ limits.max_turns
      → t + n ≡ limits.max_turns + 1
      → Triple
          (InLimits env limits t)
          (rounds env limits n)
          (λ _. Tallied env limits)
          (Raised env limits)
  unfolding rounds
  rounds-Within zero t h e = absurd (omega arith)
  rounds-Within (suc n) t h e =
      Triple-bind (turn_once-After t h) (
        on_flow t (rounds env limits n) λ more. rounds-Within n (t + 1) (omega arith) (omega arith))
