-- ===== src/Loop/Status.antt =====
-- The snapshot that `AgentLoop.run` returns.
use py_coding_agent.Prelude.{ℕ, true, ◌≡◌, sym, subst, is_some}
use py_coding_agent.State.{RuntimeState, in_terminal_states}
use py_coding_agent.Message.Log.{MessageLog}
use py_coding_agent.Exec.Keeps.{
  Outcome, Triple, Triple-and, Triple-bind, Triple-gets, Triple-map, Triple-pure, Keeps-gets,
}
use py_coding_agent.Loop.Types.{RunLimits, Services, Shared, LoopState, LoopOutcome}
use py_coding_agent.Loop.Actions.{M}
use py_coding_agent.Loop.Frame.{
  Frame, constant-Frame, both-Frame, Holds, emit-Holds, boundary-Holds, publish-Holds,
}
use py_coding_agent.Loop.Whole.{rounds-Keeps}
use py_coding_agent.Loop.Ending.{HasEnded, HasEnded-Frame, Anything, rounds-HasEnded}
use py_coding_agent.Loop.Run.{
  begin, Holding, Continues-Frame, Continues-IsUncounted, Continues-refl,
}
use py_coding_agent.Loop.Turn.{run}
use py_coding_agent.State.Invariant as StateInvariant
use py_coding_agent.Message.WellFormed as WellFormed

module _ (env : Services) (limits : RunLimits) where
  open env use {World}

  -- A run that returns has ended: from a valid log and a valid snapshot, the snapshot that `run`
  -- returns stands in FINISHED, ERROR or ABORTED, has a status, belongs to the same run, and is valid.
  pub run_ends :
      (log : MessageLog) (state : RuntimeState) (shared : Shared World) (started_at : ℕ)
      → WellFormed.IsValid log
      → StateInvariant.IsValid state
      → Outcome
          (λ (out : LoopOutcome) s.
            (in_terminal_states out.state.state ≡ true)
            × (is_some out.state.status ≡ true)
            × (out.state.run_id ≡ state.run_id)
            × StateInvariant.IsValid out.state)
          (λ e s. Holding log state s)
          (run env limits (begin log state shared started_at))
  unfolding run
  run_ends log state shared started_at v w =
      run-ends.at (begin log state shared started_at) (Continues-refl log state v w)
    where
      P : LoopState World → Type 0
      P = Holding log state

      loosely :
          {A : Type 0} {Q : LoopState World → Type 0} {m : M World A}
          → ((s : LoopState World) → Q s → P s)
          → Holds Q m
          → Triple Q m (λ _. Q) (λ e. P)
      loosely h = Triple-map (λ s p. p) (λ a s p. p) (λ e s p. h s p.1)

      frame : Frame P
      frame = Continues-Frame log state

      both : Frame (λ (s : LoopState World). P s × HasEnded s)
      both = both-Frame frame HasEnded-Frame

      run-ends :
          Triple P
            (run env limits)
            (λ out s.
              (in_terminal_states out.state.state ≡ true)
              × (is_some out.state.status ≡ true)
              × (out.state.run_id ≡ state.run_id)
              × StateInvariant.IsValid out.state)
            (λ e. P)
      run-ends = Triple-bind (loosely (λ s p. p) (emit-Holds frame _)) λ _.
          Triple-bind (loosely (λ s p. p) (Keeps-gets _)) λ turn.
            Triple-bind (loosely (λ s p. p) (publish-Holds frame _)) λ _.
              Triple-bind
                (Triple-map {P = λ s. P s × Anything s} (λ s p. (p, tt)) (λ a s p. p) (λ e s p. p.0)
                  (Triple-and (rounds-Keeps env limits frame (Continues-IsUncounted log state) _)
                    (rounds-HasEnded env limits _)))
                λ _. Triple-bind (loosely (λ s p. p.0) (emit-Holds both _)) λ _.
                  Triple-bind (loosely (λ s p. p.0) (boundary-Holds both _)) λ _.
                    Triple-bind (Triple-gets _) λ last.
                      Triple-map {P = λ s. (P last × HasEnded last) × P s}
                        (λ s p.
                          (subst (λ (l : LoopState World). P l × HasEnded l) (sym p.1) p.0, p.0.0))
                        (λ out s p. p) (λ e s p. p)
                        (Triple-bind
                          (loosely (λ s p. p.1)
                            (publish-Holds (both-Frame (constant-Frame _) frame) _))
                          λ _. Triple-pure _ (λ s p. (
                            p.0.1,
                            p.0.0.state_valid.ended p.0.1,
                            p.0.0.run_id,
                            p.0.0.state_valid,
                          )))
