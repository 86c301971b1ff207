-- ===== src/State/Progress.antt =====
-- From every snapshot of a run a terminal one can be reached.
use py_coding_agent.Prelude.{true, false, none, List, [], ◌∷◌, ◌≡◌, refl, sym, ap, subst, ◌∙◌, ◌↔◌}
use py_coding_agent.Result.{Result, ok, ◌>>=◌}
use py_coding_agent.State.{
  AgentState, StateTrigger, RuntimeState, StateTransitionError, trigger_only, advance,
  in_active_states, in_terminal_states,
}
use py_coding_agent.State.Diagram.{
  Edge, begin, stop, resolve, go_on, inject, compacted, next_turn, cleaned, abort,
  Edge-not_terminal,
}
use py_coding_agent.State.Guards.{transition-ok, transition-Edge}

data Route : AgentState → AgentState → Type 0 where
  here : {a : AgentState} → Route a a
  step : {a b c : AgentState} {t : StateTrigger} → Edge a t b → Route b c → Route a c

diagram_ends :
    (a : AgentState)
    → ((b : AgentState) × Route a b × (in_terminal_states b ≡ true))
      × ((in_terminal_states a ≡ false) ↔ ((t : StateTrigger) × (b : AgentState) × Edge a t b))
unfolding in_terminal_states in_active_states
diagram_ends AgentState.idle = (
  (AgentState.finished, step begin (step stop here), refl),
  (λ _. (StateTrigger.start, AgentState.running, begin), λ _. refl),
)
diagram_ends AgentState.running = (
  (AgentState.finished, step stop here, refl),
  (λ _. (StateTrigger.finish, AgentState.finished, stop), λ _. refl),
)
diagram_ends AgentState.waiting_tool = (
  (AgentState.aborted, step (abort refl) (step cleaned here), refl),
  (λ _. (StateTrigger.tool_result_resolved, AgentState.processing_tool_result, resolve), λ _. refl),
)
diagram_ends AgentState.processing_tool_result = (
  (AgentState.finished, step go_on (step stop here), refl),
  (λ _. (StateTrigger.continue, AgentState.running, go_on), λ _. refl),
)
diagram_ends AgentState.steering = (
  (AgentState.finished, step inject (step stop here), refl),
  (λ _. (StateTrigger.steering_injected, AgentState.running, inject), λ _. refl),
)
diagram_ends AgentState.compacting = (
  (AgentState.finished, step compacted (step stop here), refl),
  (λ _. (StateTrigger.compaction_succeeded, AgentState.running, compacted), λ _. refl),
)
diagram_ends AgentState.follow_up = (
  (AgentState.finished, step next_turn (step stop here), refl),
  (λ _. (StateTrigger.turn_start, AgentState.running, next_turn), λ _. refl),
)
diagram_ends AgentState.aborting = (
  (AgentState.aborted, step cleaned here, refl),
  (λ _. (StateTrigger.cleanup_done, AgentState.aborted, cleaned), λ _. refl),
)
diagram_ends AgentState.aborted =
    ((AgentState.aborted, here, refl), (λ h. cc, λ h. cc (Edge-not_terminal h.2)))
diagram_ends AgentState.finished =
    ((AgentState.finished, here, refl), (λ h. cc, λ h. cc (Edge-not_terminal h.2)))
diagram_ends AgentState.error =
    ((AgentState.error, here, refl), (λ h. cc, λ h. cc (Edge-not_terminal h.2)))

-- the triggers of a list, one after the other
abbrev pub drive : List StateTrigger → RuntimeState → Result StateTransitionError RuntimeState
drive [] s = ok s
drive (t ∷ ts) s = trigger_only s t >>= drive ts

follow :
    {a b : AgentState}
    → Route a b
    → (s : RuntimeState) → s.state ≡ a
    → (ts : List StateTrigger) × (s' : RuntimeState) × (drive ts s ≡ ok s') × (s'.state ≡ b)
unfolding advance
follow here s at = ([], s, refl, at)
follow (step {b = b} {t = t} e route) s at =
    let (ts, s', driven, there) = follow route (advance s b t none none none) refl in
    (
      t ∷ ts,
      s',
      rw (transition-Edge s s.state_seq t none none none refl (subst (λ x. Edge x t b) (sym at) e))
          driven,
      there,
    )

-- No run is stuck before it has ended: from every snapshot some triggers, accepted by `transition` one
-- after the other, lead to a terminal state; and `transition` accepts some trigger, with the snapshot's own
-- sequence number, exactly when the snapshot is not terminal.
pub no_dead_end :
    (s : RuntimeState)
    → ((ts : List StateTrigger) × (s' : RuntimeState) × (drive ts s ≡ ok s')
        × (in_terminal_states s'.state ≡ true))
      × ((in_terminal_states s.state ≡ false)
          ↔ ((t : StateTrigger) × (s' : RuntimeState) × (trigger_only s t ≡ ok s')))
no_dead_end s =
    let ((b, route, ended), live) = diagram_ends s.state in
    let (ts, s', driven, there) = follow route s refl in
    (
      (ts, s', driven, ap in_terminal_states there ∙ ended),
      (
        λ h.
            let (t, b, e) = live.0 h in
            (
              t,
              advance s b t none none none,
              transition-Edge s s.state_seq t none none none refl e,
            ),
        λ h. live.1 (h.0, h.1.state, (transition-ok s s.state_seq h.0 none none none h.2).1),
      ),
    )
