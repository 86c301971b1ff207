-- ===== src/Loop/Late.antt =====
-- The turn limit when steering has just arrived: STEERING is no state that FINISH leaves.
use py_coding_agent.Prelude.{ℕ, ◌≤◌, false, Option, none, some, ◌≡◌, leb, arith}
use py_coding_agent.State.{AgentState, StopReason}
use py_coding_agent.Exec.{◌>>=◌}
use py_coding_agent.Exec.Keeps.{
  Outcome, Triple, Triple-bind, Triple-gets, Triple-if, Triple-map, Triple-pure, Triple-modify,
  Triple-call,
}
use py_coding_agent.Loop.Types.{RunLimits, Services, LoopState, Limit}
use py_coding_agent.Loop.Actions.{M, cancelled, cancel_reason, exhaust, remaining_seconds}
use py_coding_agent.Loop.Turn.{turn_once, has_run_out}
use py_coding_agent.Loop.Budget.{finish_refused}

module _ (env : Services) (limits : RunLimits) where
  open env use {World}

  -- steering has arrived, and the run has had all its turns
  abbrev Late : LoopState World → Type 0
  Late s =
      (s.state.state ≡ AgentState.steering) × (limits.max_turns ≤ s.turns) × (cancelled s ≡ false)

  abbrev Steers : LoopState World → Type 0
  Steers s = s.state.state ≡ AgentState.steering

  exhaust-refused :
      {A : Type 0} (limit : Limit) (reason : Option StopReason) (k : Unit {0} → M World A)
      → Triple Late (exhaust limit reason >>= k) (λ _ s. ⊥) (λ e. Steers)
  unfolding exhaust
  exhaust-refused limit reason k =
      Triple-bind
        (Triple-bind (Triple-modify {Q = Steers} _ (λ s p. p.0))
          λ _. finish_refused AgentState.steering _ _ (λ e. ground arith))
        λ _. record { at = λ s p. absurd p }

  remaining_seconds-Late :
      (deadline : Option ℕ) → Triple Late (remaining_seconds env deadline) (λ _. Late) (λ e. Steers)
  unfolding remaining_seconds
  remaining_seconds-Late none = Triple-pure none (λ s p. p)
  remaining_seconds-Late (some d) = Triple-call {P = Late} _ (λ s p. p)

  turn_once-refused : Triple Late (turn_once env limits) (λ _ s. ⊥) (λ e. Steers)
  unfolding turn_once
  turn_once-refused = Triple-bind (Triple-gets {P = Late} cancelled) λ c.
      Triple-bind
        (Triple-gets {P = λ s. Late s × (c ≡ cancelled s)} (cancel_reason "abort requested"))
        λ reason.
          Triple-if c (λ on. record { at = λ s p. absurd (ground arith) })
            (λ _.
              Triple-map {P = Late} (λ s p. p.0.0) (λ a s p. p) (λ e s p. p)
                (Triple-bind (remaining_seconds-Late limits.deadline_seconds) λ remaining.
                  Triple-bind (Triple-gets {P = Late} (λ s. s.turns)) λ turns.
                    Triple-if (has_run_out remaining)
                      (λ _.
                        Triple-map {P = Late} (λ s p. p.0) (λ a s p. p) (λ e s p. p)
                          (exhaust-refused _ _ _))
                      (λ _.
                        Triple-if (leb limits.max_turns turns)
                          (λ _.
                            Triple-map {P = Late} (λ s p. p.0) (λ a s p. p) (λ e s p. p)
                              (exhaust-refused _ _ _))
                          (λ off. record { at = λ s p. absurd (ground arith) }))))

  -- A pass that starts in STEERING, which the last call of a batch leaves when steering has arrived,
  -- does not end the run as BUDGET_EXHAUSTED when `max_turns` turns have been taken: not cancelled,
  -- the pass raises, whatever the deadline, and the run is left in STEERING, an active state.
  pub steering_at_limit_raises :
      (s : LoopState World)
      → s.state.state ≡ AgentState.steering
      → limits.max_turns ≤ s.turns
      → cancelled s ≡ false
      → Outcome (λ _ s'. ⊥) (λ e s'. s'.state.state ≡ AgentState.steering) (turn_once env limits s)
  steering_at_limit_raises s steers late going = turn_once-refused.at s (steers, late, going)
