-- ===== src/Observability/Delivery.antt =====
-- What `emit` does to the subscriptions: each on its own, and nothing is lost unseen.
use py_coding_agent.Prelude.{
  ℕ, ◌≡◌, refl, ap, inl, inr, String, not, ◌||◌, Option, none, some, is_some, if◌then◌else◌, List,
  [], ◌∷◌, ◌++◌, map, Bool-cases, Option-cases,
}
use py_coding_agent.Value.{Fields}
use py_coding_agent.Observability.Events.{EventType, AgentEvent}
use py_coding_agent.Observability.Bus.{Subscription, EventBus, matches, post, event_of}
use py_coding_agent.Observability.Emit.{deliver, fan_out, emit}

module _ {H : Type 0} where
  -- a subscription after an event: nothing but its own state says what
  abbrev pub received : List EventType → AgentEvent → Subscription H → Subscription H
  received droppable e s =
      if (s.disconnected || not (matches s e)) || is_some s.handler then s else post droppable s e

  -- the handlers that an event calls, in the order of the subscriptions
  abbrev here : ℕ → Option H → List (ℕ × H) → List (ℕ × H)
  here n none rest = rest
  here n (some h) rest = (n, h) ∷ rest

  unfoldable pub called : AgentEvent → List (Subscription H) → List (ℕ × H)
  called e [] = []
  called e (s ∷ ss) =
      let rest = called e ss in
      if s.disconnected || not (matches s e) then rest else here s.id s.handler rest

module _ {H W : Type 0} (handle : H → AgentEvent → W → Option String × W) where
  abbrev note : ℕ → Option String → List (ℕ × String) → List (ℕ × String)
  note n none rest = rest
  note n (some text) rest = (n, text) ∷ rest

  -- the handlers one after the other, an error of one stopping none
  unfoldable pub call_all : List (ℕ × H) → AgentEvent → W → List (ℕ × String) × W
  call_all [] e w = ([], w)
  call_all ((n, h) ∷ hs) e w =
      let (error, w') = handle h e w in
      let (errors, w'') = call_all hs e w' in (note n error errors, w'')

  fan_out-lem :
      (droppable : List EventType) (ss : List (Subscription H)) (e : AgentEvent) (w : W)
      → fan_out handle droppable ss e w ≡ (
        map (received droppable e) ss,
        (call_all (called e ss) e w).0,
        (call_all (called e ss) e w).1,
      )
  unfolding fan_out deliver call_all called
  fan_out-lem droppable [] e w = refl
  fan_out-lem droppable (s ∷ ss) e w = elim (Bool-cases (s.disconnected || not (matches s e))) [
    | inl skipped ↦ rw skipped (rw (fan_out-lem droppable ss e w) refl)
    | inr wanted ↦ elim (Option-cases s.handler) [
      | inl without ↦ rw wanted (rw without (rw (fan_out-lem droppable ss e w) refl))
      | inr (h, with_one) ↦ elim (Option-cases (handle h e w).0) [
        | inl fine ↦
            rw wanted
              (rw with_one (rw (fan_out-lem droppable ss e (handle h e w).1) (rw fine refl)))
        | inr (text, raised) ↦
            rw wanted
              (rw with_one (rw (fan_out-lem droppable ss e (handle h e w).1) (rw raised refl)))
      ]
    ]
  ]

  -- Subscribers do not disturb each other. After `emit`, every subscription is what its own state and the
  -- event make of it, whatever the others are and whatever any handler does or raises; the handlers of the
  -- connected subscriptions that match the event have been called once each, in order, an error of one
  -- stopping none; and these errors are noted, each with its subscription's id.
  pub emit-isolates :
      (b : EventBus H) (kind : EventType) (run session : String) (payload : Fields)
      (id now : String) (w : W)
      → ((emit handle b kind run session payload id now w).1.subscriptions
          ≡ map (received b.droppable (event_of b kind run session payload id now)) b.subscriptions)
        × ((emit handle b kind run session payload id now w).1.subscriber_errors
            ≡ b.subscriber_errors
              ++ (call_all
                  (called (event_of b kind run session payload id now) b.subscriptions)
                  (event_of b kind run session payload id now)
                  w).0)
        × ((emit handle b kind run session payload id now w).2
            ≡ (call_all
                (called (event_of b kind run session payload id now) b.subscriptions)
                (event_of b kind run session payload id now)
                w).1)
  unfolding emit
  emit-isolates b kind run session payload id now w =
      let out =
        fan_out-lem b.droppable b.subscriptions (event_of b kind run session payload id now) w in
      (ap (λ p. p.0) out, ap (λ p. b.subscriber_errors ++ p.1) out, ap (λ p. p.2) out)
