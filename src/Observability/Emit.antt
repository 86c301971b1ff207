-- ===== src/Observability/Emit.antt =====
-- `emit` of src/coding_agent/observability/event_bus.py: an event for all who want it.
use py_coding_agent.Prelude.{
  ℕ, String, not, ◌||◌, Option, none, some, if◌then◌else◌, List, [], ◌∷◌, ◌++◌,
}
use py_coding_agent.Prelude.Dict.{insert}
use py_coding_agent.Value.{Fields}
use py_coding_agent.Observability.Events.{EventType, AgentEvent}
use py_coding_agent.Observability.Bus.{EventBus, Subscription, event_of, matches, post, push}

-- `handle` runs a handler on an event in the state `W` outside the bus: it may raise an error, with the
-- text that the bus notes, and it does not call the bus
module _ {H : Type 0} {W : Type 0} (handle : H → AgentEvent → W → Option String × W) where
  abbrev noted : ℕ → Option String → List (ℕ × String)
  noted n none = []
  noted n (some text) = (n, text) ∷ []

  -- the body of the loop of `emit`: the subscription, the new errors, and the state outside
  abbrev pub deliver_by :
      List EventType
      → Option H
      → Subscription H
      → AgentEvent
      → W
      → Subscription H × List (ℕ × String) × W
  deliver_by droppable none s e w = (post droppable s e, [], w)
  deliver_by droppable (some h) s e w = let (error, w') = handle h e w in (s, noted s.id error, w')

  unfoldable pub deliver :
      List EventType → Subscription H → AgentEvent → W → Subscription H × List (ℕ × String) × W
  deliver droppable s e w =
      if s.disconnected || not (matches s e)
      then (s, [], w)
      else deliver_by droppable s.handler s e w

  unfoldable pub fan_out :
      List EventType
      → List (Subscription H)
      → AgentEvent
      → W
      → List (Subscription H) × List (ℕ × String) × W
  fan_out droppable [] e w = ([], [], w)
  fan_out droppable (s ∷ ss) e w =
      let (s', errors, w') = deliver droppable s e w in
      let (ss', more, w'') = fan_out droppable ss e w' in (s' ∷ ss', errors ++ more, w'')

  unfoldable pub emit :
      EventBus H
      → EventType
      → String
      → String
      → Fields
      → String
      → String
      → W
      → AgentEvent × EventBus H × W
  emit b kind run session payload id now w =
      let e : AgentEvent = event_of b kind run session payload id now in
      let (ss, errors, w') = fan_out b.droppable b.subscriptions e w in
      (
        e,
        record b {
          seq_by_run = insert run e.seq b.seq_by_run;
          audit = push b.audit_limit b.audit e;
          subscriptions = ss;
          subscriber_errors = b.subscriber_errors ++ errors;
        },
        w',
      )
