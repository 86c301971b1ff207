-- ===== src/Loop/Limits.antt =====
-- What is within the limits of a run: of the whole run, in a turn, and behind a pass.
use py_coding_agent.Prelude.{ℕ, ◌+◌, ◌*◌, ◌≤◌, ◌<◌, ◌≡◌, arith}
use native.Mathlib.Nat.{mul-le-mul_left}
use py_coding_agent.Exec.Keeps.{Triple}
use py_coding_agent.Loop.Types.{RunLimits, Services, LoopState, LoopError, Flow, again, stop}
use py_coding_agent.Loop.Actions.{M}
use py_coding_agent.Loop.Frame.{Frame, IsOrdinary}
use py_coding_agent.Loop.Counters.{Counts, Counts-Frame, InLimits, Broken, Fails}

module _ (env : Services) (limits : RunLimits) where
  open env use {World, Request}

  -- the limits of the whole run, on the counters and on the calls of the executor and the provider
  abbrev pub Within : LoopState World → Type 0
  Within = Counts λ turns used calls runs asks.
      (turns ≤ limits.max_turns)
      × (used ≤ limits.max_tool_calls)
      × (calls ≤ (limits.max_provider_retries + 1) * limits.max_turns)
      × (runs ≤ limits.max_tool_calls)
      × (asks ≡ calls)

  abbrev pub Raised : LoopError → LoopState World → Type 0
  Raised e s = IsOrdinary e × Within s

  -- within the limits, and the counters say how often the executor and the provider were called
  abbrev pub Finished : ℕ → ℕ → ℕ → ℕ → ℕ → Type 0
  Finished turns used calls runs asks =
      (turns ≤ limits.max_turns)
      × (used ≤ limits.max_tool_calls)
      × (calls ≤ (limits.max_provider_retries + 1) * limits.max_turns)
      × (runs ≡ used)
      × (asks ≡ calls)

  abbrev pub Tallied : LoopState World → Type 0
  Tallied = Counts Finished

  pub Tallied-Frame : Frame Tallied
  Tallied-Frame = Counts-Frame Finished

  -- in the turn behind `t` turns, `left` requests may still be sent
  abbrev pub Permitted : ℕ → ℕ → ℕ → ℕ → ℕ → ℕ → ℕ → Type 0
  Permitted t left turns used calls runs asks =
      (turns ≡ t)
      × (used ≤ limits.max_tool_calls)
      × (calls + left ≤ (limits.max_provider_retries + 1) * (t + 1))
      × (runs ≡ used)
      × (asks ≡ calls)

  abbrev pub Asking : ℕ → ℕ → LoopState World → Type 0
  Asking t left = Counts (Permitted t left)

  pub Asking-Frame : (t left : ℕ) → Frame (Asking t left)
  Asking-Frame t left = Counts-Frame (Permitted t left)

  -- behind a pass that started behind `t` turns
  abbrev pub After : ℕ → Flow → LoopState World → Type 0
  After t again s = (t < limits.max_turns) × InLimits env limits (t + 1) s
  After t stop s = Tallied s

  pub Tallied-Within : (s : LoopState World) → Tallied s → Within s
  Tallied-Within s p = (p.0, p.1, p.2, omega arith, p.4)

  pub Asking-Tallied :
      (t left : ℕ) → t < limits.max_turns → (s : LoopState World) → Asking t left s → Tallied s
  Asking-Tallied t left h s p =
      let next : t + 1 ≤ limits.max_turns = omega arith in
      let monotone = mul-le-mul_left (limits.max_provider_retries + 1) next in
      (omega arith, p.1, omega arith, p.3, p.4)

  pub Asking-Within :
      (t left : ℕ) → t < limits.max_turns → (s : LoopState World) → Asking t left s → Within s
  Asking-Within t left h s p = Tallied-Within s (Asking-Tallied t left h s p)

  pub InLimits-Tallied :
      (t : ℕ) → t ≤ limits.max_turns → (s : LoopState World) → InLimits env limits t s → Tallied s
  InLimits-Tallied t h s p =
      let monotone = mul-le-mul_left (limits.max_provider_retries + 1) h in
      (omega arith, p.1, omega arith, p.3, p.4)

  pub InLimits-Within :
      (t : ℕ) → t ≤ limits.max_turns → (s : LoopState World) → InLimits env limits t s → Within s
  InLimits-Within t h s p = Tallied-Within s (InLimits-Tallied t h s p)

  pub Broken-Within :
      (t : ℕ) → t ≤ limits.max_turns → (s : LoopState World) → Broken env limits t s → Within s
  Broken-Within t h s p =
      let monotone = mul-le-mul_left (limits.max_provider_retries + 1) h in
      (omega arith, p.1, omega arith, p.3, p.4)

  -- an action that moves no counter, or may raise behind a call that is not counted yet
  abbrev pub Limits : (t : ℕ) {A : Type 0} → M World A → Type 0
  Limits t m = Triple (InLimits env limits t) m (λ _. InLimits env limits t) (Fails env limits t)
