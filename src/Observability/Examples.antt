-- ===== src/Observability/Examples.antt =====
-- A bus that keeps two events, with a mailbox for one event and a handler that fails.
use py_coding_agent.Prelude.{
  ℕ, ◌+◌, ◌-◌, ◌≡◌, refl, ◌⊎◌, String, true, false, Option, none, some, List, [], ◌∷◌, ◌++◌, map,
  length, min,
}
use py_coding_agent.Prelude.Dict.{lookup, insert}
use py_coding_agent.Value.{end}
use py_coding_agent.Observability.Events.{EventType, AgentEvent, same_type, type_value}
use py_coding_agent.Observability.Bus.{
  Subscription, EventBus, has_type, matches, select, push, post, new_bus, event_of,
  find_subscription, subscribe, drain, subscription_info, events,
}
use py_coding_agent.Observability.Emit.{deliver, fan_out, emit}
use py_coding_agent.Observability.Delivery.{received, called, call_all, emit-isolates}
use py_coding_agent.Observability.Account.{received_all, Accounted, received_all-Accounted}
use py_coding_agent.Observability.Numbering.{seqs_of, IsRun, last_seq}
use py_coding_agent.Observability.Invariant.{IsBus}
use py_coding_agent.Observability.Draining.{up_to, drain-takes}
use py_coding_agent.Observability.Reach.{
  Operation, emitting, subscribing, perform_all, perform_all-IsBus,
}
use py_coding_agent.Observability.Replay.{events-IsRun}

-- a handler counts its calls and fails
abbrev failing : Unit {0} → AgentEvent → ℕ → Option String × ℕ
failing h e n = (some "ValueError: no", n + 1)

abbrev empty : EventBus (Unit {0})
empty = new_bus 2 1 (EventType.llm_request_stream ∷ [])

abbrev told : EventType → Operation (Unit {0})
told kind = emitting kind "r" "s" end "e" "t"

-- a handler, then three events, then a mailbox that replays the run from the start
abbrev script : List (Operation (Unit {0}))
script =
    subscribing none none none (some tt) none
    ∷ told EventType.agent_start
    ∷ told EventType.llm_request_stream
    ∷ told EventType.agent_end
    ∷ subscribing (some "r") none (some 0) none none
    ∷ []

abbrev bus : EventBus (Unit {0})
bus = (perform_all failing script empty 0).0

-- the replay has put two events into a mailbox for one
replayed_mailbox :
    subscription_info bus 2
    ≡ some (record { id = 2; run_id = some "r"; pending = 2; dropped = 0; disconnected = false })
unfolding perform_all new_bus emit subscribe fan_out deliver select push matches find_subscription
    subscription_info insert lookup
replayed_mailbox = refl

replayed_numbers : map (λ e. e.seq) (events bus (some "r") (some 0) none) ≡ 2 ∷ 3 ∷ []
unfolding perform_all new_bus emit subscribe fan_out deliver select push matches find_subscription
    events insert lookup
replayed_numbers = refl

noted_failures :
    bus.subscriber_errors
    ≡ (1, "ValueError: no") ∷ (1, "ValueError: no") ∷ (1, "ValueError: no") ∷ []
unfolding perform_all new_bus emit subscribe fan_out deliver select push matches find_subscription
    events insert lookup
noted_failures = refl

perform_all-IsBus_example : IsBus (perform_all failing script empty 0).0
perform_all-IsBus_example =
    perform_all-IsBus failing 2 1 (EventType.llm_request_stream ∷ []) script 0

bus-IsBus : IsBus bus
bus-IsBus = perform_all-IsBus failing 2 1 (EventType.llm_request_stream ∷ []) script 0

events-IsRun_example :
    IsRun (map (λ e. e.seq) (events bus (some "r") (some 0) none)) (last_seq bus.seq_by_run "r")
    × (length (map (λ e. e.seq) (events bus (some "r") (some 0) none))
        ≡ min (length (seqs_of "r" bus.audit)) (last_seq bus.seq_by_run "r" - 0))
events-IsRun_example = events-IsRun bus "r" 0 bus-IsBus

abbrev reader : Subscription (Unit {0})
reader = record {
  id = 2;
  run_id = some "r";
  types = none;
  handler = none;
  queue_limit = 1;
  mailbox = [];
  dropped = 0;
  disconnected = false;
}

abbrev event : EventType → ℕ → AgentEvent
event kind n = record {
  kind = kind;
  event_id = "e";
  session_id = "s";
  run_id = "r";
  seq = n;
  utc_time = "t";
  payload = end;
}

abbrev stream : List AgentEvent
stream =
    event EventType.agent_start 1
    ∷ event EventType.llm_request_stream 2
    ∷ event EventType.agent_end 3
    ∷ []

-- the first event fills the mailbox, the second may be dropped, the third may not
stream_received : received_all (EventType.llm_request_stream ∷ []) stream reader ≡ record reader {
  mailbox = event EventType.agent_start 1 ∷ [];
  dropped = 1;
  disconnected = true;
}
unfolding received_all post matches has_type same_type type_value
stream_received = refl

received_all-Accounted_example :
    Accounted
      (EventType.llm_request_stream ∷ [])
      stream
      reader
      (received_all (EventType.llm_request_stream ∷ []) stream reader)
received_all-Accounted_example =
    received_all-Accounted (EventType.llm_request_stream ∷ []) stream reader refl refl

drain-takes_example :
    ((find_subscription 2 bus.subscriptions ≡ none) × (drain bus 2 (some 1) ≡ ([], bus)))
    ⊎ ((s : Subscription (Unit {0})) × (rest : List AgentEvent) × (find_subscription 2
            bus.subscriptions
          ≡ some s)
        × ((drain bus 2 (some 1)).0 ++ rest ≡ s.mailbox)
        × (length (drain bus 2 (some 1)).0 ≡ up_to (some 1) (length s.mailbox))
        × (find_subscription 2 (drain bus 2 (some 1)).1.subscriptions
            ≡ some (record s { mailbox = rest })))
drain-takes_example = drain-takes bus 2 (some 1)

emit-isolates_example :
    ((emit failing bus EventType.abort "r" "s" end "e" "t" 0).1.subscriptions
      ≡ map
          (received bus.droppable (event_of bus EventType.abort "r" "s" end "e" "t"))
          bus.subscriptions)
    × ((emit failing bus EventType.abort "r" "s" end "e" "t" 0).1.subscriber_errors
        ≡ bus.subscriber_errors
          ++ (call_all failing
              (called (event_of bus EventType.abort "r" "s" end "e" "t") bus.subscriptions)
              (event_of bus EventType.abort "r" "s" end "e" "t")
              0).0)
    × ((emit failing bus EventType.abort "r" "s" end "e" "t" 0).2
        ≡ (call_all failing
            (called (event_of bus EventType.abort "r" "s" end "e" "t") bus.subscriptions)
            (event_of bus EventType.abort "r" "s" end "e" "t")
            0).1)
emit-isolates_example = emit-isolates failing bus EventType.abort "r" "s" end "e" "t" 0
