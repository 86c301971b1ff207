-- ===== src/State/Guards.antt =====
-- What `transition` accepts and what it rejects.
use py_coding_agent.Prelude.{
  ℕ, ◌+◌, String, true, Option, none, ◌≡◌, refl, subst, ◌↔◌, arith, inl, inr, Option-cases,
}
use py_coding_agent.Result.{ok, err}
use py_coding_agent.State.{
  AgentState, StateTrigger, RunStatus, StopReason, RuntimeState, next_state, transition,
  can_transition, advance, stale_seq, trigger_only,
}
use py_coding_agent.State.Diagram.{Edge, next_state-Edge, Edge-next_state, Edge-not_terminal}

module _ (s : RuntimeState) (n : ℕ) (t : StateTrigger) (status : Option RunStatus)
    (reason : Option StopReason) (id : Option String) where
  -- an accepted transition had the current number, followed an arrow, and built `advance`
  pub transition-ok :
      {s' : RuntimeState}
      → transition s n t status reason id ≡ ok s'
      → (n ≡ s.state_seq) × Edge s.state t s'.state × (s' ≡ advance s s'.state t status reason id)
  unfolding transition advance
  transition-ok {s'} h = elim (Option-cases (next_state s.state t)) [
    | inl e ↦ ground arith
    | inr (b, e) ↦ (ground arith, next_state-Edge s.state t s'.state (ground arith), ground arith)
  ]

  pub transition-Edge :
      {b : AgentState}
      → n ≡ s.state_seq
      → Edge s.state t b
      → transition s n t status reason id ≡ ok (advance s b t status reason id)
  unfolding transition
  transition-Edge {b} e d = ground (arith, Edge-next_state d, Edge-not_terminal d)

-- `transition` accepts a trigger exactly when the caller holds the current sequence number and the
-- diagram has an arrow for it; the snapshot that it returns stands at the end of that arrow, has
-- the next sequence number, and keeps the run's id.
pub transition_accepts :
    (s : RuntimeState) (n : ℕ) (t : StateTrigger) (b : AgentState) (status : Option RunStatus)
    (reason : Option StopReason) (id : Option String)
    → ((s' : RuntimeState) × (transition s n t status reason id ≡ ok s')
        × (s'.state ≡ b)
        × (s'.state_seq ≡ s.state_seq + 1)
        × (s'.run_id ≡ s.run_id))
      ↔ ((n ≡ s.state_seq) × Edge s.state t b)
unfolding advance
transition_accepts s n t b status reason id = (
  λ h.
      let (e, d, _) = transition-ok s n t status reason id h.1 in
      (e, subst (λ x. Edge s.state t x) h.2 d),
  λ h. (
    advance s b t status reason id,
    transition-Edge s n t status reason id h.0 h.1,
    refl,
    refl,
    refl,
  ),
)

-- Of two callers that hold the same sequence number only the first gets through: after an accepted
-- transition, any trigger with the old number is rejected as stale, with both numbers reported.
pub second_writer_stale :
    (s s' : RuntimeState) (n : ℕ) (t u : StateTrigger) (status status' : Option RunStatus)
    (reason reason' : Option StopReason) (id id' : Option String)
    → transition s n t status reason id ≡ ok s'
    → transition s' n u status' reason' id'
      ≡ err (record { rejection = stale_seq n (n + 1); current_state = s'.state; trigger = u })
unfolding transition advance
second_writer_stale s s' n t u status status' reason reason' id id' h =
    ground (arith, transition-ok s n t status reason id h)

-- The query `can_transition` answers for `transition`: it is true exactly when the transition with
-- the snapshot's own sequence number goes through.
can_transition_iff :
    (s : RuntimeState) (t : StateTrigger)
    → (can_transition s t ≡ true) ↔ ((s' : RuntimeState) × (trigger_only s t ≡ ok s'))
unfolding can_transition transition
can_transition_iff s t = elim (Option-cases (next_state s.state t)) [
  | inl e ↦ (λ h. absurd (ground arith), λ h. ground arith)
  | inr (b, e) ↦ (λ h. (advance s b t none none none, ground arith), λ h. ground arith)
]
