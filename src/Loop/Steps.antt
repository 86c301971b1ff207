-- ===== src/Loop/Steps.antt =====
-- The parts of a batch and of a turn that move no counter keep what `Frame` describes.
use py_coding_agent.Prelude.{ℕ, String, Option, none, some, List, [], ◌∷◌}
use py_coding_agent.Result.{Result, ok, err}
use py_coding_agent.State.{StopReason}
use py_coding_agent.Message.{ToolCall}
use py_coding_agent.Control.{Item}
use py_coding_agent.Provider.{ToolOutcome}
use py_coding_agent.Exec.Keeps.{
  Outcome, keeps_rules, Triple-modify, Triple-call, Keeps-pure, Keeps-bind, Keeps-if, Keeps-gets,
  Keeps-modify,
}
use py_coding_agent.Loop.Types.{
  RunLimits, Services, Shared, LoopState, Batch, invoked, tool_start, requested,
}
use py_coding_agent.Loop.Actions.{say, tell}
use py_coding_agent.Exec.{call}
use py_coding_agent.Loop.Frame.{
  Frame, Holds, IsOrdinary, tell-Holds, publish-Holds, move-Holds, abort_run-Holds,
  drain_steering-Holds, next_follow_up-Holds, remaining_seconds-Holds, inject_user_text-Holds,
  commit_result-Holds,
}
use py_coding_agent.Loop.Batch.{
  cancel_pending, run_executor, executed, start_call, finish_call, after_call,
}
use py_coding_agent.Loop.Model.{answered, call_model, back_off}
use py_coding_agent.Loop.Turn.{
  inject_steering, inject_all, leave_steering, build_request, start_follow_up, conclude_with,
  conclude, after_batch,
}

module _ (env : Services) (limits : RunLimits) {P : LoopState env.World → Type 0}
    (f : Frame P) where
  pub cancel_pending-Holds :
      (o : ToolOutcome) (cs : List ToolCall) → Holds P (cancel_pending env limits o cs)
  unfolding cancel_pending
  cancel_pending-Holds o [] = Keeps-pure tt
  cancel_pending-Holds o (c ∷ cs) =
      Keeps-bind (commit_result-Holds env f c o)
        λ _. Keeps-bind (publish-Holds f _) λ _. cancel_pending-Holds o cs

  pub run_executor-Holds :
      (c : ToolCall) (deadline : Option ℕ) → Holds P (run_executor env limits c deadline)
  unfolding run_executor
  run_executor-Holds c deadline = record { at = λ s p. ended s (env.execute c deadline s.shared) p }
    where
      ended :
          (s : LoopState env.World) (o : Result String ToolOutcome × Shared env.World)
          → P s
          → Outcome (λ _. P) (λ e s. IsOrdinary e × P s) (executed env limits s o.0 o.1)
      ended s (ok outcome, shared) p = f.shared s shared p
      ended s (err e, shared) p = (tt, f.shared s shared p)

  -- `loud`: the property does not read the mark of the executor's call
  pub start_call-Holds :
      (loud : (s : LoopState env.World) (id : String) → P s → P (say (invoked id) s)) (c : ToolCall)
      → Holds P (start_call env limits c)
  unfolding start_call tell
  start_call-Holds loud c = Keeps-bind (Keeps-gets _) λ s.
      Keeps-bind (Keeps-if _ (Keeps-pure tt) (move-Holds f _ _ _ _)) λ _.
        Keeps-bind (publish-Holds f _) λ _. Keeps-bind (tell-Holds f (tool_start c.id) tt) λ _.
          Keeps-bind (remaining_seconds-Holds env f _) λ deadline.
            Keeps-bind (Keeps-modify _ (λ s p. loud s c.id p)) λ _. run_executor-Holds c deadline

  pub finish_call-Holds : (c : ToolCall) (o : ToolOutcome) → Holds P (finish_call env limits c o)
  unfolding finish_call
  finish_call-Holds c o =
      search (keeps_rules, move-Holds f, commit_result-Holds env f, publish-Holds f)

  pub after_call-Holds : (rest : List ToolCall) → Holds P (after_call env limits rest)
  unfolding after_call
  after_call-Holds rest = search (keeps_rules, move-Holds f)

  pub inject_all-Holds : (items : List Item) → Holds P (inject_all env limits items)
  unfolding inject_all inject_steering
  inject_all-Holds [] = Keeps-pure tt
  inject_all-Holds (m ∷ ms) =
      Keeps-bind (inject_user_text-Holds env f _ _ _ _) λ _. inject_all-Holds ms

  pub leave_steering-Holds : Holds P (leave_steering env limits)
  unfolding leave_steering
  leave_steering-Holds = search (keeps_rules, move-Holds f)

  pub build_request-Holds : Holds P (build_request env limits)
  unfolding build_request
  build_request-Holds = Triple-call _ (λ s p. f.shared s _ p)

  pub answer-Holds :
      (request : env.Request) (remaining : Option ℕ)
      → Holds P (call (answered env limits request remaining))
  answer-Holds request remaining = Triple-call _ (λ s p. f.shared s _ p)

  pub call_model-Holds :
      (loud : (s : LoopState env.World) → P s → P (say requested s)) (request : env.Request)
      (remaining : Option ℕ)
      → Holds P (call_model env limits request remaining)
  unfolding call_model tell
  call_model-Holds loud request remaining =
      Keeps-bind (Keeps-modify _ (λ s p. loud s p)) λ _. answer-Holds request remaining

  pub back_off-Holds : (delay : ℕ) → Holds P (back_off env limits delay)
  unfolding back_off
  back_off-Holds delay = Keeps-if _ (Keeps-pure tt) (Triple-modify _ (λ s p. f.shared s _ p))

  start_follow_up-Holds :
      (r : StopReason) (task : Option Item) → Holds P (start_follow_up env limits r task)
  unfolding start_follow_up
  start_follow_up-Holds r none = search (keeps_rules, move-Holds f)
  start_follow_up-Holds r (some task) =
      search (keeps_rules, move-Holds f, inject_user_text-Holds env f)

  conclude_with-Holds :
      (r : StopReason) (items : List Item) → Holds P (conclude_with env limits r items)
  unfolding conclude_with
  conclude_with-Holds r [] = search (keeps_rules, next_follow_up-Holds f, start_follow_up-Holds)
  conclude_with-Holds r (m ∷ ms) = search (keeps_rules, inject_all-Holds)

  pub conclude-Holds : (r : StopReason) → Holds P (conclude env limits r)
  unfolding conclude
  conclude-Holds r =
      Keeps-bind leave_steering-Holds
        λ _. Keeps-bind (drain_steering-Holds f) λ items. conclude_with-Holds r items

  pub after_batch-Holds : (r : StopReason) (b : Batch) → Holds P (after_batch env limits r b)
  unfolding after_batch
  after_batch-Holds r Batch.budget_hit = search (keeps_rules, move-Holds f)
  after_batch-Holds r Batch.aborted = search (keeps_rules, abort_run-Holds f)
  after_batch-Holds r Batch.completed = search (keeps_rules, abort_run-Holds f)
