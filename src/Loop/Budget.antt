-- ===== src/Loop/Budget.antt =====
-- A response with tool calls when the tool budget is used up: WAITING_TOOL is no state that FINISH
-- leaves.
use py_coding_agent.Prelude.{
  ◌≤◌, String, Bool, true, false, Option, none, ◌≡◌, ◌≢◌, ◌∙◌, refl, sym, subst, inl, inr, List, [],
  ◌∷◌, leb, if◌then◌else◌, arith,
}
use py_coding_agent.Result.{Result-cases}
use py_coding_agent.State.{AgentState, StateTrigger, RunStatus, StopReason, transition, advance}
use py_coding_agent.State.Diagram.{Edge}
use py_coding_agent.State.Guards.{transition-ok, transition-Edge}
use py_coding_agent.Message.{Message, ToolCall}
use py_coding_agent.Message.Log.{append}
use py_coding_agent.Provider.{ToolOutcome}
use py_coding_agent.Exec.Keeps.{
  Outcome, Triple, Triple-bind, Triple-gets, Triple-if, Triple-map, Triple-pure, Triple-modify,
  Triple-call,
}
use py_coding_agent.Loop.Types.{
  RunLimits, Services, LoopState, Batch, Notice, budget_hit, LoopEventKind, BoundaryKind,
}
use py_coding_agent.Loop.Actions.{
  M, say, tell, emit, boundary, publish, new_meta, commit, commit_result, move, cancelled,
}
use py_coding_agent.Loop.Batch.{sort_calls, insert_call, cancel_pending, run_batch}
use py_coding_agent.Loop.Turn.{act, after_batch}

finish-running : {a b : AgentState} → Edge a StateTrigger.finish b → a ≡ AgentState.running
finish-running Edge.stop = refl

insert_call-cons :
    (c : ToolCall) (ds : List ToolCall)
    → (d : ToolCall) × (es : List ToolCall) × (insert_call c ds ≡ d ∷ es)
unfolding insert_call
insert_call-cons c [] = (c, [], refl)
insert_call-cons c (d ∷ ds) = placed (leb c.ordinal d.ordinal)
  where
    placed :
        (b : Bool)
        → (e : ToolCall) × (es : List ToolCall) × ((if b then c ∷ d ∷ ds else d ∷ insert_call c ds)
            ≡ e ∷ es)
    placed true = (c, d ∷ ds, refl)
    placed false = (d, insert_call c ds, refl)

sort_calls-cons :
    (c : ToolCall) (cs : List ToolCall)
    → (d : ToolCall) × (es : List ToolCall) × (sort_calls (c ∷ cs) ≡ d ∷ es)
unfolding sort_calls
sort_calls-cons c cs = insert_call-cons c (sort_calls cs)

-- FINISH is refused in every state but RUNNING
pub finish_refused :
    {W : Type 0} (a : AgentState) (status : Option RunStatus) (reason : Option StopReason)
    → a ≢ AgentState.running
    → Triple
        (λ (s : LoopState W). s.state.state ≡ a)
        (move StateTrigger.finish status reason none)
        (λ _ s. ⊥)
        (λ e s. s.state.state ≡ a)
unfolding move
finish_refused a status reason other = record {
  at = λ s p.
      elim (Result-cases
        (transition s.state s.state.state_seq StateTrigger.finish status reason none)) [
          | inl (next, h) ↦ absurd (
              other (
                sym p
                ∙ finish-running
                    (transition-ok s.state s.state.state_seq StateTrigger.finish status reason none
                      h).1))
          | inr (why, h) ↦ rw h p
        ];
}

module _ (env : Services) (limits : RunLimits) where
  open env use {World}

  -- in WAITING_TOOL with the tool budget used up
  abbrev Spent : LoopState World → Type 0
  Spent s =
      (s.state.state ≡ AgentState.waiting_tool)
      × (limits.max_tool_calls ≤ s.tool_calls_used)
      × (cancelled s ≡ false)

  abbrev Waits : LoopState World → Type 0
  Waits s = s.state.state ≡ AgentState.waiting_tool

  -- `m` keeps that, and does not leave WAITING_TOOL when it raises
  abbrev Stays : {A : Type 0} → M World A → Type 0
  Stays m = Triple Spent m (λ _. Spent) (λ e. Waits)

  tell-Stays : (n : Notice) → Stays (tell n)
  unfolding tell
  tell-Stays n = Triple-modify (say n) (λ s p. p)

  commit-Stays : (m : Message) → Stays (commit m)
  unfolding commit
  commit-Stays m = record {
    at = λ s p. elim (Result-cases (append s.log m)) [
      | inl (log, e) ↦ rw e p
      | inr (why, e) ↦ rw e p.0
    ];
  }

  commit_result-Stays : (c : ToolCall) (o : ToolOutcome) → Stays (commit_result env c o)
  unfolding commit_result new_meta emit boundary
  commit_result-Stays c o = Triple-bind (Triple-call {P = Spent} _ (λ s p. p)) λ meta.
      Triple-bind (commit-Stays _) λ _.
        Triple-bind
          (record {
            at = λ s p.
                (tell-Stays
                    (Notice.emitted LoopEventKind.tool_result_committed s.state.current_turn)).at
                  s p;
          })
          λ _. record {
            at = λ s p.
                (tell-Stays (Notice.at_boundary BoundaryKind.tool_result s.state.state_seq)).at s p;
          }

  cancel_pending-Stays :
      (o : ToolOutcome) (cs : List ToolCall) → Stays (cancel_pending env limits o cs)
  unfolding cancel_pending publish
  cancel_pending-Stays o [] = Triple-pure tt (λ s p. p)
  cancel_pending-Stays o (c ∷ cs) =
      Triple-bind (commit_result-Stays c o)
        λ _. Triple-bind (tell-Stays _) λ _. cancel_pending-Stays o cs

  -- nothing of the batch is executed
  run_batch-Stays :
      (c : ToolCall) (cs : List ToolCall)
      → Triple Spent
          (run_batch env limits (c ∷ cs))
          (λ b s. (b ≡ budget_hit) × Spent s)
          (λ e. Waits)
  unfolding run_batch
  run_batch-Stays c cs = Triple-bind (Triple-gets {P = Spent} cancelled) λ stopped.
      Triple-bind
        (Triple-gets {P = λ s. Spent s × (stopped ≡ cancelled s)} (λ s. s.tool_calls_used))
        λ used.
          Triple-if stopped (λ on. record { at = λ s p. absurd (ground arith) })
            (λ _.
              Triple-if (leb limits.max_tool_calls used)
                (λ _.
                  Triple-map {P = Spent} (λ s p. p.0.0) (λ b s p. p) (λ e s p. p)
                    (Triple-bind (cancel_pending-Stays _ (c ∷ cs)) λ _.
                      Triple-bind (Triple-modify {Q = Spent} _ (λ s p. p))
                        λ _. Triple-pure budget_hit (λ s p. (refl, p))))
                (λ off. record { at = λ s p. absurd (ground arith) }))

  after_batch-refused :
      (r : StopReason) (b : Batch)
      → Triple
          (λ s. (b ≡ budget_hit) × Spent s)
          (after_batch env limits r b)
          (λ _ s. ⊥)
          (λ e. Waits)
  unfolding after_batch
  after_batch-refused r Batch.budget_hit =
      Triple-bind
        (Triple-map (λ s p. p.1.0) (λ a s p. p) (λ e s p. p)
          (finish_refused AgentState.waiting_tool _ _ (λ e. ground arith)))
        λ _. record { at = λ s p. absurd p }
  after_batch-refused r Batch.aborted = record { at = λ s p. absurd (ground arith) }
  after_batch-refused r Batch.completed = record { at = λ s p. absurd (ground arith) }

  abbrev Full : LoopState World → Type 0
  Full s =
      (s.state.state ≡ AgentState.running)
      × (limits.max_tool_calls ≤ s.tool_calls_used)
      × (cancelled s ≡ false)

  to_waiting :
      (reason : Option StopReason) (id : Option String)
      → Triple Full (move StateTrigger.tool_call_complete none reason id) (λ _. Spent) (λ e. Waits)
  unfolding move advance
  to_waiting reason id = record {
    at = λ s p.
        rw
          (transition-Edge s.state s.state.state_seq StateTrigger.tool_call_complete none reason id
            refl
            (subst (λ a. Edge a StateTrigger.tool_call_complete AgentState.waiting_tool) (sym p.0)
              Edge.call))
          (refl, p.1, p.2);
  }

  -- A response with tool calls that meets a used-up tool budget never ends as BUDGET_EXHAUSTED: from
  -- RUNNING, not cancelled, with `max_tool_calls` calls already executed, the answer to the response
  -- does not return at all; it raises, and the run is left in WAITING_TOOL, an active state.
  pub spent_budget_raises :
      (r : StopReason) (c : ToolCall) (cs : List ToolCall) (s : LoopState World)
      → s.state.state ≡ AgentState.running
      → limits.max_tool_calls ≤ s.tool_calls_used
      → cancelled s ≡ false
      → Outcome
          (λ _ s'. ⊥)
          (λ e s'. s'.state.state ≡ AgentState.waiting_tool)
          (act env limits r c cs s)
  unfolding act
  spent_budget_raises r c cs s run full going =
      (Triple-bind (to_waiting _ _) λ _.
          Triple-bind (batch (sort_calls (c ∷ cs)) (sort_calls-cons c cs))
            (after_batch-refused r)).at
        s (run, full, going)
    where
      batch :
          (ds : List ToolCall)
          → (d : ToolCall) × (es : List ToolCall) × (ds ≡ d ∷ es)
          → Triple Spent (run_batch env limits ds) (λ b s. (b ≡ budget_hit) × Spent s) (λ e. Waits)
      batch ds (d, es, e) =
          subst
            (λ ds.
              Triple Spent (run_batch env limits ds) (λ b s. (b ≡ budget_hit) × Spent s)
                (λ e. Waits))
            (sym e) (run_batch-Stays d es)
