-- ===== src/Tools/Guarded.antt =====
-- When `ToolPipeline.invoke` calls a tool.
use py_coding_agent.Prelude.{
  ℕ, ◌≤◌, String, true, Option, none, some, ◌≡◌, refl, ap, ◌∙◌, List, [], arith,
}
use py_coding_agent.Result.{Result, ok, err}
use py_coding_agent.Value.{Fields}
use py_coding_agent.Message.{ToolCall, ToolResultStatus}
use py_coding_agent.Provider.{ToolOutcome}
use py_coding_agent.Exec.Keeps.{
  Outcome-state, Triple, Triple-bind, Triple-call, Triple-if, Triple-map, Triple-modify,
  Triple-pure, Triple-raise,
}
use py_coding_agent.Tools.Pipeline.{
  PermissionDecision, allow, deny, require_approval, PermissionResult, RegisteredTool,
  ToolInvocation, ToolEnd, finished, refused, out_of_time, cancelled, crashed, Stage,
  PipelineEventKind, PipelineState, Hooks, Environment, find_tool,
}
use py_coding_agent.Tools.Invoke.{
  M, emit, reject, after_before, call_before, after_after, call_after, after_authorize, ask_policy,
  denial_outcome, outcome_of, run_tool, after_process, process_output, emit_end, perform, deny_at,
  by_safety, by_permission, deny_by_hook, authorized, is_deny, by_hook, with_args, with_tool,
  with_name, invoke,
}
use py_coding_agent.Tools.Trace.{executions, is_allow, allowed, IsGuarded, IsGuarded-executions}

module _ (env : Environment) where
  open env use {World}

  abbrev Done : PipelineState World → Type 0
  Done s = IsGuarded s.trace

  -- no tool was called yet
  abbrev Calm : PipelineState World → Type 0
  Calm s = (executions s.trace ≡ 0) × IsGuarded s.trace

  abbrev Permitted : PipelineState World → Type 0
  Permitted s = Calm s × (allowed Stage.permission s.trace ≡ true)

  abbrev Cleared : PipelineState World → Type 0
  Cleared s = Permitted s × (allowed Stage.safety s.trace ≡ true)

  abbrev Guards :
      {A : Type 0}
      → (PipelineState World → Type 0)
      → M env A
      → (A → PipelineState World → Type 0)
      → Type 0
  Guards P m Q = Triple P m Q (λ e. Done)

  -- an event changes nothing of this
  emit-Done :
      (k : PipelineEventKind) (c : ToolCall) (detail : Option String)
      → Guards Done (emit env k c detail) (λ _. Done)
  unfolding emit
  emit-Done k c detail = Triple-modify _ (λ s p. p)

  after_before-Calm :
      (i : ToolInvocation) (r : Result String (Option PermissionResult))
      → Guards Calm (after_before env i r) (λ _. Calm)
  unfolding after_before emit
  after_before-Calm i (ok result) = Triple-pure result (λ s p. p)
  after_before-Calm i (err e) =
      Triple-bind (Triple-modify {Q = Calm} _ (λ s p. p)) λ _. Triple-pure _ (λ s p. p)

  call_before-Calm :
      (i : ToolInvocation) (h : Option (Hooks World))
      → Guards Calm (call_before env i h) (λ _. Calm)
  unfolding call_before
  call_before-Calm i none = Triple-pure none (λ s p. p)
  call_before-Calm i (some hooks) =
      Triple-bind (Triple-call {Q = Calm} _ (λ s p. p)) (after_before-Calm i)

  after_after-Done :
      (i : ToolInvocation) (r : Result String (Unit {0}))
      → Guards Done (after_after env i r) (λ _. Done)
  unfolding after_after
  after_after-Done i (ok u) = Triple-pure tt (λ s p. p)
  after_after-Done i (err e) = emit-Done _ _ _

  call_after-Done :
      (i : ToolInvocation) (o : ToolOutcome) (h : Option (Hooks World))
      → Guards Done (call_after env i o h) (λ _. Done)
  unfolding call_after
  call_after-Done i o none = Triple-pure tt (λ s p. p)
  call_after-Done i o (some hooks) =
      Triple-bind (Triple-call {Q = Done} _ (λ s p. p)) (after_after-Done i)

  after_permission :
      (i : ToolInvocation) (r : Result String PermissionResult)
      → Guards Calm
          (after_authorize env Stage.permission i r)
          (λ r' s. Calm s × (r'.decision ≡ allow → Permitted s))
  unfolding after_authorize emit
  after_permission i (ok result) =
      Triple-bind
        (Triple-modify
          {Q = λ s. Calm s × (allowed Stage.permission s.trace ≡ is_allow result.decision)} _
          (λ s p. (p, refl)))
        λ _.
          Triple-bind
            (Triple-modify
              {Q = λ s. Calm s × (allowed Stage.permission s.trace ≡ is_allow result.decision)} _
              (λ s p. p))
            λ _. Triple-pure result (λ s p. (p.0, λ e. (p.0, p.1 ∙ ap is_allow e)))
  after_permission i (err e) =
      Triple-bind (Triple-modify {Q = Calm} _ (λ s p. p))
        λ _. Triple-pure _ (λ s p. (p, λ e. absurd (ground arith)))

  after_safety :
      (i : ToolInvocation) (r : Result String PermissionResult)
      → Guards Permitted
          (after_authorize env Stage.safety i r)
          (λ r' s. Calm s × (r'.decision ≡ allow → Cleared s))
  unfolding after_authorize emit
  after_safety i (ok result) =
      Triple-bind
        (Triple-modify
          {Q = λ s. Permitted s × (allowed Stage.safety s.trace ≡ is_allow result.decision)} _
          (λ s p. (p, refl)))
        λ _.
          Triple-bind
            (Triple-modify
              {Q = λ s. Permitted s × (allowed Stage.safety s.trace ≡ is_allow result.decision)} _
              (λ s p. p))
            λ _. Triple-pure result (λ s p. (p.0.0, λ e. (p.0, p.1 ∙ ap is_allow e)))
  after_safety i (err e) =
      Triple-bind (Triple-modify {Q = Calm} _ (λ s p. p.0))
        λ _. Triple-pure _ (λ s p. (p, λ e. absurd (ground arith)))

  deny_at-Done :
      (stage : Stage) (i : ToolInvocation) (r : PermissionResult)
      → Guards Done (deny_at env stage i r) (λ _. Done)
  unfolding deny_at denial_outcome
  deny_at-Done stage i r =
      Triple-bind (Triple-bind (emit-Done _ _ _) λ _. Triple-pure _ (λ s p. p))
        λ o. Triple-bind (call_after-Done i o env.hooks) λ _. Triple-pure o (λ s p. p)

  deny_by_hook-Done :
      (i : ToolInvocation) (r : PermissionResult) → Guards Done (deny_by_hook env i r) (λ _. Done)
  unfolding deny_by_hook
  deny_by_hook-Done i r =
      Triple-bind (emit-Done _ _ _)
        λ _. Triple-bind (call_after-Done i _ env.hooks) λ _. Triple-pure _ (λ s p. p)

  outcome_of-Done :
      (i : ToolInvocation) (timeout : Option ℕ) (e : ToolEnd)
      → Guards Done (outcome_of env i timeout e) (λ _. Done)
  unfolding outcome_of
  outcome_of-Done i timeout (finished e) = Triple-pure _ (λ s p. p)
  outcome_of-Done i timeout (refused e) = Triple-pure _ (λ s p. p)
  outcome_of-Done i timeout out_of_time = Triple-pure _ (λ s p. p)
  outcome_of-Done i timeout cancelled = Triple-raise _ (λ s p. p)
  outcome_of-Done i timeout (crashed e) = Triple-pure _ (λ s p. p)

  run_tool-Done : (i : ToolInvocation) → Guards Cleared (run_tool env i) (λ _. Done)
  unfolding run_tool
  run_tool-Done i =
      Triple-bind (Triple-modify {Q = Done} _ (λ s p. (p.0.0.0, p.0.1, p.1, p.0.0.1)))
        λ _. Triple-bind (Triple-call {Q = Done} _ (λ s p. p)) (outcome_of-Done i _)

  after_process-Done :
      (o : ToolOutcome) (r : Result String (Option ToolOutcome))
      → Guards Done (after_process env o r) (λ _. Done)
  unfolding after_process
  after_process-Done o (ok none) = Triple-pure o (λ s p. p)
  after_process-Done o (ok (some o')) = Triple-pure o' (λ s p. p)
  after_process-Done o (err e) = Triple-raise e (λ s p. p)

  emit_end-Done :
      (c : ToolCall) (o : ToolOutcome) (status : ToolResultStatus)
      → Guards Done (emit_end env c o status) (λ _. Done)
  unfolding emit_end
  emit_end-Done c o ToolResultStatus.completed = emit-Done _ _ _
  emit_end-Done c o ToolResultStatus.error = emit-Done _ _ _
  emit_end-Done c o ToolResultStatus.denied = emit-Done _ _ _
  emit_end-Done c o ToolResultStatus.timeout = emit-Done _ _ _
  emit_end-Done c o ToolResultStatus.cancelled = emit-Done _ _ _
  emit_end-Done c o ToolResultStatus.uncertain = emit-Done _ _ _

  process_output-Done :
      (i : ToolInvocation) (o : ToolOutcome)
      (f : Option
        (ToolOutcome → ToolInvocation → World → Result String (Option ToolOutcome) × World))
      → Guards Done (process_output env i o f) (λ _. Done)
  unfolding process_output
  process_output-Done i o none = Triple-pure o (λ s p. p)
  process_output-Done i o (some f) =
      Triple-bind (Triple-call {Q = Done} _ (λ s p. p)) (after_process-Done o)

  perform-Done : (i : ToolInvocation) → Guards Cleared (perform env i) (λ _. Done)
  unfolding perform emit
  perform-Done i = Triple-bind (Triple-modify {Q = Cleared} _ (λ s p. p)) λ _.
      Triple-bind (run_tool-Done i) λ raw. Triple-bind (process_output-Done i raw env.process) λ o.
        Triple-bind (call_after-Done i o env.hooks)
          λ _. Triple-bind (emit_end-Done i.call o o.status) λ _. Triple-pure o (λ s p. p)

  by_safety-Done :
      (i : ToolInvocation) (r : PermissionResult) (d : PermissionDecision)
      → Guards (λ s. Calm s × (d ≡ allow → Cleared s)) (by_safety env i r d) (λ _. Done)
  unfolding by_safety
  by_safety-Done i r allow = Triple-map (λ s p. p.1 refl) (λ o s p. p) (λ e s p. p) (perform-Done i)
  by_safety-Done i r deny =
      Triple-map (λ s p. p.0.1) (λ o s p. p) (λ e s p. p) (deny_at-Done Stage.safety i r)
  by_safety-Done i r require_approval =
      Triple-map (λ s p. p.0.1) (λ o s p. p) (λ e s p. p) (deny_at-Done Stage.safety i r)

  by_permission-Done :
      (i : ToolInvocation) (r : PermissionResult) (d : PermissionDecision)
      → Guards (λ s. Calm s × (d ≡ allow → Permitted s)) (by_permission env i r d) (λ _. Done)
  unfolding by_permission ask_policy
  by_permission-Done i r allow =
      Triple-map {P = Permitted} (λ s p. p.1 refl) (λ o s p. p) (λ e s p. p)
        (Triple-bind (Triple-bind (Triple-call {Q = Permitted} _ (λ s p. p)) (after_safety i))
          λ r'. by_safety-Done i r' r'.decision)
  by_permission-Done i r deny =
      Triple-map (λ s p. p.0.1) (λ o s p. p) (λ e s p. p) (deny_at-Done Stage.permission i r)
  by_permission-Done i r require_approval =
      Triple-map (λ s p. p.0.1) (λ o s p. p) (λ e s p. p) (deny_at-Done Stage.permission i r)

  authorized-Done : (i : ToolInvocation) → Guards Calm (authorized env i) (λ _. Done)
  unfolding authorized ask_policy
  authorized-Done i =
      Triple-bind (Triple-bind (Triple-call {Q = Calm} _ (λ s p. p)) (after_permission i))
        λ r. by_permission-Done i r r.decision

  by_hook-Done :
      (i : ToolInvocation) (r : Option PermissionResult) → Guards Calm (by_hook env i r) (λ _. Done)
  unfolding by_hook
  by_hook-Done i none = authorized-Done i
  by_hook-Done i (some r) =
      Triple-if (is_deny env (some r))
        (λ _. Triple-map (λ s p. p.1) (λ o s p. p) (λ e s p. p) (deny_by_hook-Done i r))
        (λ _. authorized-Done i)

  reject-Done :
      (c : ToolCall) (kind message : String) → Guards Calm (reject env c kind message) (λ _. Done)
  unfolding reject
  reject-Done c kind message =
      Triple-map {P = Done} (λ s p. p.1) (λ o s p. p) (λ e s p. p)
        (Triple-bind (emit-Done _ _ _) λ _. Triple-pure _ (λ s p. p))

  with_args-Done :
      (c : ToolCall) (d : Option ℕ) (t : RegisteredTool) (name : String)
      (r : Result (List String) Fields)
      → Guards Calm (with_args env c d t name r) (λ _. Done)
  unfolding with_args
  with_args-Done c d t name (err errors) = reject-Done _ _ _
  with_args-Done c d t name (ok args) =
      Triple-bind (call_before-Calm _ env.hooks) λ r. by_hook-Done _ r

  with_tool-Done :
      (c : ToolCall) (d : Option ℕ) (name : String) (t : Option RegisteredTool)
      → Guards Calm (with_tool env c d name t) (λ _. Done)
  unfolding with_tool
  with_tool-Done c d name none = reject-Done _ _ _
  with_tool-Done c d name (some t) = with_args-Done c d t name _

  with_name-Done :
      (tools : List RegisteredTool) (c : ToolCall) (d : Option ℕ) (r : Result String String)
      → Guards Calm (with_name env tools c d r) (λ _. Done)
  unfolding with_name
  with_name-Done tools c d (err e) = reject-Done _ _ _
  with_name-Done tools c d (ok name) = with_tool-Done c d name (find_tool name tools)

  -- Whatever the policies, the hooks, the output processor and the tool do, and whether `invoke`
  -- returns or raises: it calls a tool at most once, and when it does, the permission policy and the
  -- safety policy have both answered this call with ALLOW before.
  pub invoke-IsGuarded :
      (tools : List RegisteredTool) (c : ToolCall) (deadline : Option ℕ) (w : World)
      → let s = (invoke env tools c deadline (record { world = w; trace = [] })).1 in
        IsGuarded s.trace × (executions s.trace ≤ 1)
  unfolding invoke
  invoke-IsGuarded tools c deadline w =
      let g = Outcome-state Done (invoke env tools c deadline (record { world = w; trace = [] })) (
        (with_name-Done tools c deadline (env.normalize_name c.name)).at
          (record { world = w; trace = [] }) (refl, tt)) in
      (
        g,
        IsGuarded-executions
            (invoke env tools c deadline (record { world = w; trace = [] })).1.trace g,
      )
