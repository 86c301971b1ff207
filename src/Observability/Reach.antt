-- ===== src/Observability/Reach.antt =====
-- The event bus after any operations, in any order.
use py_coding_agent.Prelude.{ℕ, String, Option, List, [], ◌∷◌}
use py_coding_agent.Value.{Fields}
use py_coding_agent.Observability.Events.{EventType, AgentEvent}
use py_coding_agent.Observability.Bus.{EventBus, new_bus, subscribe, unsubscribe, drain}
use py_coding_agent.Observability.Emit.{emit}
use py_coding_agent.Observability.Invariant.{IsBus, new_bus-IsBus}
use py_coding_agent.Observability.Steps.{emit-IsBus, subscribe-IsBus, unsubscribe-IsBus}
use py_coding_agent.Observability.Draining.{drain-IsBus}

-- a call of one of the bus's methods that change it
pub data Operation (H : Type 0) : Type 0 where
  emitting : EventType → String → String → Fields → String → String → Operation H
  subscribing :
      Option String → Option (List EventType) → Option ℕ → Option H → Option ℕ → Operation H
  unsubscribing : ℕ → Operation H
  draining : ℕ → Option ℕ → Operation H

module _ {H W : Type 0} (handle : H → AgentEvent → W → Option String × W) where
  abbrev pub perform : Operation H → EventBus H → W → EventBus H × W
  perform (emitting kind run session payload id now) b w =
      let (e, b', w') = emit handle b kind run session payload id now w in (b', w')
  perform (subscribing run types cursor handler queue_limit) b w =
      ((subscribe b run types cursor handler queue_limit).1, w)
  perform (unsubscribing n) b w = (unsubscribe b n, w)
  perform (draining n max_items) b w = ((drain b n max_items).1, w)

  unfoldable pub perform_all : List (Operation H) → EventBus H → W → EventBus H × W
  perform_all [] b w = (b, w)
  perform_all (o ∷ os) b w = let (b', w') = perform o b w in perform_all os b' w'

  perform-IsBus : (o : Operation H) (b : EventBus H) (w : W) → IsBus b → IsBus (perform o b w).0
  perform-IsBus (emitting kind run session payload id now) b w i =
      emit-IsBus handle b kind run session payload id now w i
  perform-IsBus (subscribing run types cursor handler queue_limit) b w i =
      subscribe-IsBus b run types cursor handler queue_limit i
  perform-IsBus (unsubscribing n) b w i = unsubscribe-IsBus b n i
  perform-IsBus (draining n max_items) b w i = drain-IsBus b n max_items i

  perform_all-keeps :
      (os : List (Operation H)) (b : EventBus H) (w : W) → IsBus b → IsBus (perform_all os b w).0
  unfolding perform_all
  perform_all-keeps [] b w i = i
  perform_all-keeps (o ∷ os) b w i =
      perform_all-keeps os (perform o b w).0 (perform o b w).1 (perform-IsBus o b w i)

  -- Whatever is called on a new bus, in any order, the invariant holds after it: the log is within its
  -- limit; of each run it has the newest events, with numbers that count up by one to the run's last;
  -- subscriptions have different ids; and each mailbox has only events for its subscription, those of
  -- one run with growing numbers up to the run's last.
  pub perform_all-IsBus :
      (audit_limit queue_limit : ℕ) (droppable : List EventType) (os : List (Operation H)) (w : W)
      → IsBus (perform_all os (new_bus audit_limit queue_limit droppable) w).0
  perform_all-IsBus audit_limit queue_limit droppable os w =
      perform_all-keeps os _ w (new_bus-IsBus audit_limit queue_limit droppable)
