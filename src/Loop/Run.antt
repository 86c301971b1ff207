-- ===== src/Loop/Run.antt =====
-- `AgentLoop.run` as a whole: what it leaves behind, however it ends.
use py_coding_agent.Prelude.{
  ℕ, ◌+◌, ◌*◌, ◌≤◌, String, none, some, ◌≡◌, refl, sym, subst, ◌∙◌, arith, [],
}
use py_coding_agent.Result.{ok}
use py_coding_agent.State.{RuntimeState}
use py_coding_agent.State.Invariant.{Step, moved, asked, Step-IsValid, Step-seq}
use py_coding_agent.Message.{ToolResult, Message}
use py_coding_agent.Message.Log.{MessageLog, find_result, append}
use py_coding_agent.Message.Append.{append-IsValid, results_final}
use py_coding_agent.Exec.Keeps.{
  Outcome, Outcome-state, Triple, Triple-bind, Triple-gets, Triple-map, Triple-pure, Keeps-gets,
}
use py_coding_agent.Loop.Types.{
  RunLimits, Services, Shared, LoopState, LoopError, LoopOutcome, Published,
}
use py_coding_agent.Loop.Actions.{M, publish}
use py_coding_agent.Loop.Frame.{Frame, Holds, IsOrdinary, emit-Holds, boundary-Holds, publish-Holds}
use py_coding_agent.Loop.Counters.{
  Counts, Counts-Frame, InLimits, InLimits-Frame, executions, requests, count_if,
}
use py_coding_agent.Loop.Limits.{
  Raised, Finished, Tallied, Tallied-Frame, Tallied-Within, InLimits-Within,
}
use py_coding_agent.Loop.Bounded.{rounds-Within}
use py_coding_agent.Loop.Whole.{IsUncounted, run-Keeps}
use py_coding_agent.Loop.Turn.{run, outcome}
use py_coding_agent.Exec.{pure, ◌>>=◌}
use py_coding_agent.State.Invariant as StateInvariant
use py_coding_agent.Message.WellFormed as WellFormed

-- the variables of `run` at its start
abbrev pub begin : {W : Type 0} → MessageLog → RuntimeState → Shared W → ℕ → LoopState W
begin log state shared started_at = record {
  log = log;
  state = state;
  shared = shared;
  turns = 0;
  tool_calls_used = 0;
  provider_calls = 0;
  final_text = "";
  limit_hit = none;
  started_at = started_at;
  trace = [];
}

-- what a run leaves of a log `log` and a snapshot `state`: both well formed, of the same session and
-- run, and every result of `log` in its place
pub record Continues (log : MessageLog) (state : RuntimeState) (log' : MessageLog)
    (state' : RuntimeState) : Type 0 where
  pub log_valid : WellFormed.IsValid log'
  pub session : log'.session_id ≡ log.session_id
  pub results :
      (k : String) (r : ToolResult) → find_result log k ≡ some r → find_result log' k ≡ some r
  pub state_valid : StateInvariant.IsValid state'
  pub run_id : state'.run_id ≡ state.run_id

Continues-append :
    {log log' : MessageLog} {state state' : RuntimeState} (m : Message) {next : MessageLog}
    → append log' m ≡ ok next
    → Continues log state log' state'
    → Continues log state next state'
Continues-append {log' = log'} m {next} e p =
    let (v, same) = append-IsValid log' next m p.log_valid e in
    record {
      log_valid = v;
      session = same ∙ p.session;
      results = λ k r h. (results_final log' next m p.log_valid e).0 k r (p.results k r h);
      state_valid = p.state_valid;
      run_id = p.run_id;
    }

Continues-Step :
    {log log' : MessageLog} {state state' next : RuntimeState}
    → Step state' next
    → Continues log state log' state'
    → Continues log state log' next
Continues-Step st p = record {
  log_valid = p.log_valid;
  session = p.session;
  results = p.results;
  state_valid = Step-IsValid st p.state_valid;
  run_id = (Step-seq st).0 ∙ p.run_id;
}

abbrev pub Holding : MessageLog → RuntimeState → {W : Type 0} → LoopState W → Type 0
Holding log state s = Continues log state s.log s.state

pub Continues-Frame :
    (log : MessageLog) (state : RuntimeState) {W : Type 0} → Frame (Holding log state {W = W})
Continues-Frame log state = record {
  said = λ s n q p. p;
  moved = λ s next t status reason id e p.
      Continues-Step (moved s.state.state_seq t status reason id e) p;
  asked = λ s next reason e p. Continues-Step (asked reason e) p;
  logged = λ s log' m e p. Continues-append m e p;
  shared = λ s sh p. p;
  limited = λ s limit p. p;
  texted = λ s text p. p;
}

pub Continues-IsUncounted :
    (log : MessageLog) (state : RuntimeState) {W : Type 0} → IsUncounted (Holding log state {W = W})
Continues-IsUncounted log state = record {
  turned = λ s n p. p;
  used = λ s n p. p;
  asked = λ s n p. p;
  invoked = λ s id p. p;
  requested = λ s p. p;
}

pub Continues-refl :
    (log : MessageLog) (state : RuntimeState)
    → WellFormed.IsValid log
    → StateInvariant.IsValid state
    → Continues log state log state
Continues-refl log state v w = record {
  log_valid = v;
  session = refl;
  results = λ k r h. h;
  state_valid = w;
  run_id = refl;
}

module _ (env : Services) (limits : RunLimits) where
  open env use {World}

  -- behind a return: the outcome counts the calls of the executor and of the provider, within the limits
  abbrev pub IsBounded : LoopOutcome → LoopState World → Type 0
  IsBounded out s =
      (out.turns ≤ limits.max_turns)
      × (out.tool_calls ≤ limits.max_tool_calls)
      × (out.provider_calls ≤ (limits.max_provider_retries + 1) * limits.max_turns)
      × (executions s.trace ≡ out.tool_calls)
      × (requests s.trace ≡ out.provider_calls)

  -- behind an error
  abbrev pub IsBoundedError : LoopError → LoopState World → Type 0
  IsBoundedError e s =
      IsOrdinary e
      × (s.turns ≤ limits.max_turns)
      × (executions s.trace ≤ limits.max_tool_calls)
      × (requests s.trace ≤ (limits.max_provider_retries + 1) * limits.max_turns)

  -- The loop ends: whatever the provider, the tools and the other tasks do, `run` returns or raises
  -- before it has begun pass `max_turns + 2` of its outer loop. On a return, at most `max_turns` responses were taken,
  -- and the outcome's counters say how often the tool executor and the provider were called: at
  -- most `max_tool_calls` times, and at most `max_turns` times `max_provider_retries + 1` times. The three
  -- bounds hold on an error too.
  pub run-IsBounded :
      (log : MessageLog) (state : RuntimeState) (shared : Shared World) (started_at : ℕ)
      → Outcome IsBounded IsBoundedError (run env limits (begin log state shared started_at))
  unfolding run count_if
  run-IsBounded log state shared started_at =
      run-Within.at (begin log state shared started_at) (refl, omega arith, omega arith, refl, refl)
    where
      failing : (e : LoopError) (s : LoopState World) → Raised env limits e s → IsBoundedError e s
      failing e s p = (p.0, p.1.0, p.1.3, omega arith)

      before :
          {A : Type 0} {m : M World A}
          → Holds (InLimits env limits 0) m
          → Triple (InLimits env limits 0) m (λ _. InLimits env limits 0) IsBoundedError
      before =
          Triple-map (λ s p. p) (λ a s p. p)
            (λ e s p. failing e s (p.0, InLimits-Within env limits 0 (omega arith) s p.1))

      behind :
          {A : Type 0} {m : M World A}
          → Holds (Tallied env limits) m
          → Triple (Tallied env limits) m (λ _. Tallied env limits) IsBoundedError
      behind =
          Triple-map (λ s p. p) (λ a s p. p)
            (λ e s p. failing e s (p.0, Tallied-Within env limits s p.1))

      -- the counters as `last` has them, and the turns within their limit
      told : LoopState World → ℕ → ℕ → ℕ → ℕ → ℕ → Type 0
      told last turns used calls runs asks =
          (turns ≤ limits.max_turns)
          × Finished env limits last.turns last.tool_calls_used last.provider_calls runs asks

      -- the last event and the outcome, from the state that was read
      concluded :
          (last : LoopState World)
          → Triple
              (λ s. Tallied env limits s × (last ≡ s))
              (publish (Published.agent_end last.turns last.tool_calls_used last.provider_calls)
                >>= λ _. pure (outcome env limits last))
              IsBounded
              IsBoundedError
      concluded last =
          Triple-map {P = Counts (told last)}
            (λ s p. (
              p.0.0,
              subst
                  (λ (x : LoopState World).
                    Finished env limits x.turns x.tool_calls_used x.provider_calls
                      (executions s.trace) (requests s.trace))
                  (sym p.1) p.0,
            ))
            (λ out s p. p) (λ e s p. (p.0, p.1.0, omega arith, omega arith))
            (Triple-bind (publish-Holds (Counts-Frame (told last)) _)
              λ _. Triple-pure _ (λ s p. p.1))

      run-Within : Triple (InLimits env limits 0) (run env limits) IsBounded IsBoundedError
      run-Within = Triple-bind (before (emit-Holds (InLimits-Frame env limits 0) _)) λ _.
          Triple-bind (before (Keeps-gets _)) λ turn.
            Triple-bind (before (publish-Holds (InLimits-Frame env limits 0) _)) λ _.
              Triple-bind
                (Triple-map (λ s p. p) (λ a s p. p) failing
                  (rounds-Within env limits _ 0 (omega arith) (omega arith)))
                λ _. Triple-bind (behind (emit-Holds (Tallied-Frame env limits) _)) λ _.
                  Triple-bind (behind (boundary-Holds (Tallied-Frame env limits) _))
                    λ _. Triple-bind (Triple-gets _) concluded

  -- Whatever the provider, the tools and the other tasks do, and whether `run` returns or raises: from
  -- a valid log and a valid snapshot, it leaves a valid log of the same session, in which every tool
  -- result of the first log has its place, and a valid snapshot of the same run.
  pub run-Continues :
      (log : MessageLog) (state : RuntimeState) (shared : Shared World) (started_at : ℕ)
      → WellFormed.IsValid log
      → StateInvariant.IsValid state
      → let s = (run env limits (begin log state shared started_at)).1 in
        Continues log state s.log s.state
  run-Continues log state shared started_at v w =
      Outcome-state (Holding log state) (run env limits (begin log state shared started_at)) (
        (run-Keeps env limits (Continues-Frame log state) (Continues-IsUncounted log state)).at
          (begin log state shared started_at) (Continues-refl log state v w))
