-- ===== src/Loop/Counters.antt =====
-- The counters of the loop and the limits of the run, through a batch of tool calls.
use py_coding_agent.Prelude.{
  Bool, true, false, if◌then◌else◌, sym, ap, ◌∙◌, String, refl, subst, ◌++◌, ℕ, ◌+◌, ◌*◌, ◌≤◌, ◌<◌,
  ◌≡◌, arith, List, [], ◌∷◌, leb,
}
use py_coding_agent.Message.{ToolCall}
use py_coding_agent.Exec.Keeps.{
  Triple, Triple-modify, Triple-bind, Triple-if, Triple-gets, Triple-map, Keeps-pure, Keeps-bind,
  Keeps-gets, Keeps-modify, Keeps-if,
}
use py_coding_agent.Loop.Types.{
  RunLimits, Services, LoopState, LoopError, Notice, completed, aborted, budget_hit,
}
use py_coding_agent.Loop.Actions.{M, tell, cancelled}
use py_coding_agent.Loop.Frame.{
  Frame, Holds, IsOrdinary, IsQuiet, tell-Holds, publish-Holds, move-Holds, remaining_seconds-Holds,
}
use py_coding_agent.Loop.Steps.{
  cancel_pending-Holds, run_executor-Holds, finish_call-Holds, after_call-Holds,
}
use py_coding_agent.Loop.Batch.{run_batch, perform_call, start_call}

abbrev is_invoked : Notice → Bool
is_invoked (Notice.invoked id) = true
is_invoked n = false

abbrev is_requested : Notice → Bool
is_requested Notice.requested = true
is_requested n = false

unfoldable pub count_if : (Notice → Bool) → List Notice → ℕ
count_if test [] = 0
count_if test (n ∷ ns) = let rest = count_if test ns in if test n then rest + 1 else rest

count_if-snoc :
    (test : Notice → Bool) (ns : List Notice) (n : Notice)
    → count_if test (ns ++ n ∷ []) ≡ (if test n then count_if test ns + 1 else count_if test ns)
unfolding count_if
count_if-snoc test [] n = refl
count_if-snoc test (m ∷ ns) n = ground (arith, count_if-snoc test ns n)

-- how often the tool executor, and the provider, were called
abbrev pub executions : List Notice → ℕ
executions ns = count_if is_invoked ns

abbrev pub requests : List Notice → ℕ
requests ns = count_if is_requested ns

quiet_tests : (n : Notice) → IsQuiet n → (is_invoked n ≡ false) × (is_requested n ≡ false)
quiet_tests (Notice.invoked id) q = absurd q
quiet_tests Notice.requested q = absurd q
quiet_tests (Notice.emitted k n) q = (refl, refl)
quiet_tests (Notice.published e) q = (refl, refl)
quiet_tests (Notice.at_boundary k n) q = (refl, refl)
quiet_tests (Notice.tool_start id) q = (refl, refl)

count_if-quiet :
    (test : Notice → Bool) (ns : List Notice) (n : Notice)
    → test n ≡ false
    → count_if test ns ≡ count_if test (ns ++ n ∷ [])
count_if-quiet test ns n q =
    sym (count_if-snoc test ns n ∙ ap (λ b. if b then count_if test ns + 1 else count_if test ns) q)

-- the three counters, and the calls of the executor and of the provider, under any condition
abbrev pub Counts : {W : Type 0} → (ℕ → ℕ → ℕ → ℕ → ℕ → Type 0) → LoopState W → Type 0
Counts C s = C s.turns s.tool_calls_used s.provider_calls (executions s.trace) (requests s.trace)

pub Counts-Frame : {W : Type 0} (C : ℕ → ℕ → ℕ → ℕ → ℕ → Type 0) → Frame {W = W} (Counts C)
Counts-Frame C = record {
  said = λ s n q p.
      let (run, ask) = quiet_tests n q in
      let runs = count_if-quiet is_invoked s.trace n run in
      let asks = count_if-quiet is_requested s.trace n ask in
      subst (λ r. C s.turns s.tool_calls_used s.provider_calls r (requests (s.trace ++ n ∷ [])))
        runs (subst (C s.turns s.tool_calls_used s.provider_calls (executions s.trace)) asks p);
  moved = λ s next t status reason id e p. p;
  asked = λ s next reason e p. p;
  logged = λ s log m e p. p;
  shared = λ s sh p. p;
  limited = λ s limit p. p;
  texted = λ s text p. p;
}

pub executions-said :
    (ns : List Notice) (id : String) → executions (ns ++ Notice.invoked id ∷ []) ≡ executions ns + 1
executions-said ns id = count_if-snoc is_invoked ns (Notice.invoked id)

pub requests-said : (ns : List Notice) → requests (ns ++ Notice.requested ∷ []) ≡ requests ns + 1
requests-said ns = count_if-snoc is_requested ns Notice.requested

pub requests_kept :
    (ns : List Notice) (id : String) → requests (ns ++ Notice.invoked id ∷ []) ≡ requests ns
requests_kept ns id = count_if-snoc is_requested ns (Notice.invoked id)

pub executions_kept : (ns : List Notice) → executions (ns ++ Notice.requested ∷ []) ≡ executions ns
executions_kept ns = count_if-snoc is_invoked ns Notice.requested

-- an action that keeps `P`, read with a weaker property where it raises
pub keeps_to :
    {W A : Type 0} (P Q : LoopState W → Type 0) {m : M W A}
    → ((s : LoopState W) → P s → Q s)
    → Holds P m
    → Triple P m (λ _. P) (λ e s. IsOrdinary e × Q s)
keeps_to P Q w h = Triple-map (λ s p. p) (λ _ s p. p) (λ e s p. (p.0, w s p.1)) h

module _ (env : Services) (limits : RunLimits) where
  open env use {World, Request}

  -- within the limits of the run, behind `t` turns; each turn asks the model once and retries; the
  -- counters say how often the executor and the provider were called
  abbrev pub Limited : ℕ → ℕ → ℕ → ℕ → ℕ → ℕ → Type 0
  Limited t turns used calls runs asks =
      (turns ≡ t)
      × (used ≤ limits.max_tool_calls)
      × (calls ≤ (limits.max_provider_retries + 1) * t)
      × (runs ≡ used)
      × (asks ≡ calls)

  abbrev pub InLimits : ℕ → LoopState World → Type 0
  InLimits t = Counts (Limited t)

  pub InLimits-Frame : (t : ℕ) → Frame (InLimits t)
  InLimits-Frame t = Counts-Frame (Limited t)

  -- the same behind an error, which the executor may have raised: its call is not counted yet
  abbrev pub Broken : ℕ → LoopState World → Type 0
  Broken t = Counts λ turns used calls runs asks.
      (turns ≡ t)
      × (used ≤ limits.max_tool_calls)
      × (calls ≤ (limits.max_provider_retries + 1) * t)
      × (runs ≤ limits.max_tool_calls)
      × (asks ≡ calls)

  abbrev pub Fails : ℕ → LoopError → LoopState World → Type 0
  Fails t e s = IsOrdinary e × Broken t s

  -- `runs` calls of the executor more than are counted, and room for another call
  abbrev Roomy : ℕ → ℕ → ℕ → ℕ → ℕ → ℕ → ℕ → Type 0
  Roomy more t turns used calls runs asks =
      (turns ≡ t)
      × (used < limits.max_tool_calls)
      × (calls ≤ (limits.max_provider_retries + 1) * t)
      × (runs ≡ used + more)
      × (asks ≡ calls)

  abbrev Room : ℕ → ℕ → LoopState World → Type 0
  Room more t = Counts (Roomy more t)

  Room-Frame : (more t : ℕ) → Frame (Room more t)
  Room-Frame more t = Counts-Frame (Roomy more t)

  pub within_limits :
      {A : Type 0} (t : ℕ) {m : M World A}
      → Holds (InLimits t) m
      → Triple (InLimits t) m (λ _. InLimits t) (Fails t)
  within_limits t = keeps_to (InLimits t) (Broken t) (λ s p. (p.0, p.1, p.2, omega arith, p.4))

  free :
      {A : Type 0} (t : ℕ) {m : M World A}
      → Holds (Room 0 t) m
      → Triple (Room 0 t) m (λ _. Room 0 t) (Fails t)
  free t = keeps_to (Room 0 t) (Broken t) (λ s p. (p.0, omega arith, p.2, omega arith, p.4))

  start_call-Room :
      (t : ℕ) (c : ToolCall) → Triple (Room 0 t) (start_call env limits c) (λ _. Room 1 t) (Fails t)
  unfolding start_call tell
  start_call-Room t c = Triple-bind (free t (Keeps-gets _)) λ state.
      Triple-bind (free t (Keeps-if _ (Keeps-pure tt) (move-Holds (Room-Frame 0 t) _ _ _ _))) λ _.
        Triple-bind (free t (publish-Holds (Room-Frame 0 t) _)) λ _.
          Triple-bind (free t (tell-Holds (Room-Frame 0 t) (Notice.tool_start c.id) tt)) λ _.
            Triple-bind (free t (remaining_seconds-Holds env (Room-Frame 0 t) _)) λ deadline.
              Triple-bind {Q = λ _. Room 1 t}
                (Triple-modify _ (λ s p. (
                  p.0,
                  p.1,
                  p.2,
                  omega (arith, executions-said s.trace c.id, p.3),
                  omega (arith, requests_kept s.trace c.id, p.4),
                )))
                λ _.
                  keeps_to (Room 1 t) (Broken t) (λ s p. (p.0, omega arith, p.2, omega arith, p.4))
                    (run_executor-Holds env limits (Room-Frame 1 t) c deadline)

  perform_call-InLimits :
      (t : ℕ) (c : ToolCall)
      → Triple (Room 0 t) (perform_call env limits c) (λ _. InLimits t) (Fails t)
  unfolding perform_call
  perform_call-InLimits t c = Triple-bind (start_call-Room t c) λ outcome.
      Triple-bind {Q = λ _. InLimits t}
        (Triple-modify _ (λ s p. (p.0, omega arith, p.2, omega arith, p.4)))
        λ _. within_limits t (finish_call-Holds env limits (InLimits-Frame t) c outcome)

  pub run_batch-InLimits :
      (t : ℕ) (cs : List ToolCall)
      → Triple (InLimits t) (run_batch env limits cs) (λ _. InLimits t) (Fails t)
  unfolding run_batch
  run_batch-InLimits t [] = within_limits t (Keeps-pure completed)
  run_batch-InLimits t (c ∷ cs) = Triple-bind (within_limits t (Keeps-gets cancelled)) λ stopped.
      Triple-bind (Triple-gets _) λ used.
        Triple-if stopped
          (λ _.
            Triple-map {P = InLimits t} (λ s p. p.0) (λ _ s p. p) (λ e s p. p)
              (within_limits t (
                Keeps-bind (cancel_pending-Holds env limits (InLimits-Frame t) _ _)
                  λ _. Keeps-pure aborted)))
          (λ _.
            Triple-if (leb limits.max_tool_calls used)
              (λ _.
                Triple-map {P = InLimits t} (λ s p. p.0) (λ _ s p. p) (λ e s p. p)
                  (within_limits t (
                    Keeps-bind (cancel_pending-Holds env limits (InLimits-Frame t) _ _) λ _.
                      Keeps-bind (Keeps-modify {P = InLimits t} _ (λ s p. p))
                        λ _. Keeps-pure budget_hit)))
              (λ unspent.
                Triple-map {P = Room 0 t} (λ s p. (p.0.0, ground arith, p.0.2, omega arith, p.0.4))
                  (λ _ s p. p) (λ e s p. p)
                  (Triple-bind (perform_call-InLimits t c) λ _.
                    Triple-bind
                      (within_limits t (after_call-Holds env limits (InLimits-Frame t) cs))
                      λ _. run_batch-InLimits t cs)))
