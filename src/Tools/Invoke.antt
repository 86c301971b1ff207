-- ===== src/Tools/Invoke.antt =====
-- src/coding_agent/tools/pipeline.py: `ToolPipeline.invoke`, from the name of a tool to its outcome.
use py_coding_agent.Prelude.{
  ℕ, String, Bool, true, false, Option, none, some, if◌then◌else◌, List, ◌∷◌,
}
use py_coding_agent.Prelude.Text.{join}
use py_coding_agent.Result.{Result, ok, err}
use py_coding_agent.Value.{Fields}
use py_coding_agent.Message.{ToolCall, ToolResultStatus}
use py_coding_agent.Provider.{ToolOutcome}
use py_coding_agent.Exec.{Exec, pure, raise, call, modify, ◌>>=◌, ◌>>◌}
use py_coding_agent.Tools.Recovery.{normalize_tool_error, normalize_internal_error}
use py_coding_agent.Tools.Pipeline.{
  PermissionDecision, allow, deny, PermissionResult, RegisteredTool, ToolInvocation, ToolEnd,
  finished, refused, out_of_time, cancelled, crashed, Stage, PipelineEventKind, tool_call_start,
  tool_call_end, tool_call_error, hook_error, policy_decision, Notice, event, judged, executed,
  PipelineState, Hooks, Environment, find_tool, validate_and_preprocess, plain_outcome,
  normalize_success, or_no_reason, stage_name, joined, smaller, denial, decision_detail,
}

module _ {W : Type 0} where
  abbrev pub note : Notice → PipelineState W → PipelineState W
  note n s = record s { trace = n ∷ s.trace }

  -- a call of something outside
  abbrev pub outside : {A : Type 0} → (W → A × W) → PipelineState W → A × PipelineState W
  outside f s = let (a, w) = f s.world in (a, record s { world = w })

module _ (env : Environment) where
  open env use {World}

  abbrev pub M : Type 0 → Type 0
  M A = Exec String (PipelineState World) A

  -- `_emit`
  unfoldable pub emit : PipelineEventKind → ToolCall → Option String → M (Unit {0})
  emit kind c detail = modify (note (event kind c.id detail))

  -- `_reject`
  unfoldable pub reject : ToolCall → String → String → M ToolOutcome
  reject c kind message = do
    emit tool_call_error c (some kind)
    pure (plain_outcome ToolResultStatus.error message kind)

  unfoldable pub after_before :
      ToolInvocation → Result String (Option PermissionResult) → M (Option PermissionResult)
  after_before i (ok result) = pure result
  after_before i (err e) = do
    emit hook_error i.call (some (join "before hook failed: " e))
    pure (
        some (record {
          decision = deny;
          reason = join "before hook raised " e;
          risk = none;
          policy_version = none;
        }))

  -- `_call_before`
  unfoldable pub call_before : ToolInvocation → Option (Hooks World) → M (Option PermissionResult)
  call_before i none = pure none
  call_before i (some hooks) = do result ← call (outside (hooks.before i)); after_before i result

  unfoldable pub after_after : ToolInvocation → Result String (Unit {0}) → M (Unit {0})
  after_after i (ok _) = pure tt
  after_after i (err e) = emit hook_error i.call (some (join "after hook failed: " e))

  -- `_call_after`
  unfoldable pub call_after : ToolInvocation → ToolOutcome → Option (Hooks World) → M (Unit {0})
  call_after i outcome none = pure tt
  call_after i outcome (some hooks) = do
    result ← call (outside (hooks.after i outcome))
    after_after i result

  unfoldable pub after_authorize :
      Stage → ToolInvocation → Result String PermissionResult → M PermissionResult
  after_authorize stage i (ok result) = do
    modify (note (judged stage result.decision))
    emit policy_decision i.call (some (decision_detail stage result))
    pure result
  after_authorize stage i (err e) = do
    emit hook_error i.call (some (join (stage_name stage) (join " policy failed: " e)))
    pure (record {
      decision = deny;
      reason = join (stage_name stage) (join " policy raised " e);
      risk = none;
      policy_version = none;
    })

  -- `_authorize`
  unfoldable pub ask_policy : Stage → ToolInvocation → M PermissionResult
  ask_policy stage i = do
    result ← call (outside (env.authorize stage i))
    after_authorize stage i result

  -- `_denial_outcome`
  unfoldable pub denial_outcome : Stage → ToolInvocation → PermissionResult → M ToolOutcome
  denial_outcome stage i result = do
    emit tool_call_error i.call (denial stage result).error_kind
    pure (denial stage result)

  -- the `try` around `_run_tool`; a cancellation of the task goes on
  unfoldable pub outcome_of : ToolInvocation → Option ℕ → ToolEnd → M ToolOutcome
  outcome_of i timeout (finished e) = pure (normalize_success e)
  outcome_of i timeout (refused e) = pure (normalize_tool_error e)
  outcome_of i timeout out_of_time = pure (
      normalize_tool_error (record {
        kind = "timeout";
        message = join "tool " (
            join (env.repr i.tool.name)
              (join " exceeded its " (join (env.seconds timeout) "s execution budget")));
        exit_code = none;
        output = none;
      }))
  outcome_of i timeout cancelled = raise "CancelledError"
  outcome_of i timeout (crashed e) = pure (normalize_internal_error e)

  -- `_run_tool`
  unfoldable pub run_tool : ToolInvocation → M ToolOutcome
  run_tool i = do
    modify (note (executed i.call.id))
    ended ← call (outside (env.execute i.tool i (smaller env.execute_timeout i.deadline)))
    outcome_of i (smaller env.execute_timeout i.deadline) ended

  unfoldable pub after_process : ToolOutcome → Result String (Option ToolOutcome) → M ToolOutcome
  after_process outcome (ok none) = pure outcome
  after_process outcome (ok (some processed)) = pure processed
  after_process outcome (err e) = raise e

  -- the output processor
  unfoldable pub process_output :
      ToolInvocation
      → ToolOutcome
      → Option (ToolOutcome → ToolInvocation → World → Result String (Option ToolOutcome) × World)
      → M ToolOutcome
  process_output i outcome none = pure outcome
  process_output i outcome (some process) = do
    result ← call (outside (process outcome i))
    after_process outcome result

  unfoldable pub emit_end : ToolCall → ToolOutcome → ToolResultStatus → M (Unit {0})
  emit_end c outcome ToolResultStatus.completed = emit tool_call_end c none
  emit_end c outcome status = emit tool_call_error c outcome.error_kind

  -- the stages from the execution on
  unfoldable pub perform : ToolInvocation → M ToolOutcome
  perform i = do
    emit tool_call_start i.call none
    raw ← run_tool i
    outcome ← process_output i raw env.process
    call_after i outcome env.hooks
    emit_end i.call outcome outcome.status
    pure outcome

  -- a denial at a policy's stage
  unfoldable pub deny_at : Stage → ToolInvocation → PermissionResult → M ToolOutcome
  deny_at stage i result = do
    outcome ← denial_outcome stage i result
    call_after i outcome env.hooks
    pure outcome

  unfoldable pub by_safety : ToolInvocation → PermissionResult → PermissionDecision → M ToolOutcome
  by_safety i result allow = perform i
  by_safety i result _ = deny_at Stage.safety i result

  unfoldable pub by_permission :
      ToolInvocation → PermissionResult → PermissionDecision → M ToolOutcome
  by_permission i result allow = do
    result' ← ask_policy Stage.safety i
    by_safety i result' result'.decision
  by_permission i result _ = deny_at Stage.permission i result

  unfoldable pub deny_by_hook : ToolInvocation → PermissionResult → M ToolOutcome
  deny_by_hook i result = do
    let outcome =
        plain_outcome ToolResultStatus.denied
          (join "rejected by before hook: " (or_no_reason result.reason)) "hook_denied"
    emit tool_call_error i.call (some "hook_denied")
    call_after i outcome env.hooks
    pure outcome

  -- the stages behind the before hook
  unfoldable pub authorized : ToolInvocation → M ToolOutcome
  authorized i = do result ← ask_policy Stage.permission i; by_permission i result result.decision

  abbrev pub is_deny : Option PermissionResult → Bool
  is_deny none = false
  is_deny (some r) = elim r.decision [ deny ↦ true | _ ↦ false ]

  unfoldable pub by_hook : ToolInvocation → Option PermissionResult → M ToolOutcome
  by_hook i none = authorized i
  by_hook i (some r) = if is_deny (some r) then deny_by_hook i r else authorized i

  unfoldable pub with_args :
      ToolCall → Option ℕ → RegisteredTool → String → Result (List String) Fields → M ToolOutcome
  with_args c deadline tool name (err errors) =
      reject c "invalid_arguments"
        (join "invalid arguments for " (join (env.repr name) (join ": " (joined errors))))
  with_args c deadline tool name (ok args) = do
    let i : ToolInvocation = record { call = c; tool = tool; args = args; deadline = deadline }
    hook ← call_before i env.hooks
    by_hook i hook

  unfoldable pub with_tool : ToolCall → Option ℕ → String → Option RegisteredTool → M ToolOutcome
  with_tool c deadline name none = reject c "unknown_tool" (join "unknown tool " (env.repr c.name))
  with_tool c deadline name (some tool) =
      with_args c deadline tool name (validate_and_preprocess env.schema_errors tool c.arguments)

  unfoldable pub with_name :
      List RegisteredTool → ToolCall → Option ℕ → Result String String → M ToolOutcome
  with_name tools c deadline (err e) = reject c "unknown_tool" (join "invalid tool name: " e)
  with_name tools c deadline (ok name) = with_tool c deadline name (find_tool name tools)

  -- `invoke`, on a snapshot of the registry
  unfoldable pub invoke : List RegisteredTool → ToolCall → Option ℕ → M ToolOutcome
  invoke tools c deadline = with_name tools c deadline (env.normalize_name c.name)
