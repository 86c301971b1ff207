-- ===== src/Control.antt =====
-- src/coding_agent/agent/control.py: the cancel token, and the steering and follow-up queues. The two
-- queue classes differ in the name that QueueLimitExceededError carries, and in how they are emptied.
pub mod Fifo
pub mod Once
mod Examples
use py_coding_agent.Prelude.{
  ℕ, ◌+◌, String, Bool, true, false, Option, none, some, leb, if◌then◌else◌, List, [], ◌∷◌, ◌++◌,
  length,
}
use py_coding_agent.Prelude.Dict.{Dict, lookup, insert}
use py_coding_agent.Prelude.Text.{is_blank}
use py_coding_agent.Result.{Result, ok, err}

abbrev pub default_queue_limit : ℕ
default_queue_limit = 20

-- `_cancelled` and `_reason`
pub record CancelToken : Type 0 where
  pub is_cancelled : Bool
  pub reason : Option String

abbrev pub new_token : CancelToken
new_token = record { is_cancelled = false; reason = none }

-- `CancelToken.cancel`: the token after the call, and whether this call was the first
unfoldable pub cancel : CancelToken → String → CancelToken × Bool
cancel token reason =
    if token.is_cancelled
    then (token, false)
    else (record token { is_cancelled = true; reason = some reason }, true)

-- SteeringMessage and FollowUpItem
pub record Item : Type 0 where
  pub id : String
  pub text : String
  pub created_at : String
  pub sequence : ℕ

pub data QueueKind : Type 0 where
  steering follow_up : QueueKind

pub data ControlError : Type 0 where
  blank_text : QueueKind → ControlError
  queue_limit_exceeded : QueueKind → ℕ → ControlError

-- the fields of SteeringQueue and of FollowUpQueue
pub record Queue : Type 0 where
  pub max_pending : ℕ
  pub pending : List Item
  pub by_client_event : Dict Item
  pub sequence : ℕ

abbrev pub new_queue : ℕ → Queue
new_queue max_pending = record {
  max_pending = max_pending;
  pending = [];
  by_client_event = [];
  sequence = 0;
}

-- `self._by_client_event.get(client_event_id)`
unfoldable pub known_event : Queue → Option String → Option Item
unfolding lookup
known_event q none = none
known_event q (some e) = lookup e q.by_client_event

unfoldable pub remember : Option String → Item → Dict Item → Dict Item
unfolding insert
remember none item events = events
remember (some e) item events = insert e item events

-- the part of `enqueue` after its checks
unfoldable pub push : Queue → Item → Option String → Queue
unfolding remember
push q item client_event_id = record q {
  pending = q.pending ++ item ∷ [];
  by_client_event = remember client_event_id item q.by_client_event;
  sequence = q.sequence + 1;
}

-- the item that a call of `enqueue` adds
abbrev pub next_item : Queue → String → String → String → Item
next_item q text id now = record {
  id = id;
  text = text;
  created_at = now;
  sequence = q.sequence + 1;
}

-- `enqueue`; `id` and `now` are the values of `new_id` and `utc_now_rfc3339`
unfoldable pub enqueue :
    QueueKind
    → Queue
    → String
    → Option String
    → String
    → String
    → Result ControlError (Item × Queue)
unfolding known_event push
enqueue kind q text client_event_id id now = elim (known_event q client_event_id) [
  | some item ↦ ok (item, q)
  | none ↦
      if is_blank text
      then err (blank_text kind)
      else if leb q.max_pending (length q.pending)
      then err (queue_limit_exceeded kind q.max_pending)
      else ok (next_item q text id now, push q (next_item q text id now) client_event_id)
]

-- `SteeringQueue.drain_before_next_request`
unfoldable pub drain_before_next_request : Queue → List Item × Queue
drain_before_next_request q = (q.pending, record q { pending = [] })

unfoldable pub has_pending : Queue → Bool
has_pending q = elim q.pending [ [] ↦ false | x ∷ xs ↦ true ]

unfoldable pub pop_first : List Item → Option Item × List Item
pop_first [] = (none, [])
pop_first (item ∷ rest) = (some item, rest)

-- `FollowUpQueue.dequeue_after_turn_end`
unfoldable pub dequeue_after_turn_end : Queue → Option Item × Queue
unfolding pop_first
dequeue_after_turn_end q =
    let (item, rest) = pop_first q.pending in (item, record q { pending = rest })

unfoldable pub pending_count : Queue → ℕ
pending_count q = length q.pending

-- `RunControl`
pub record RunControl : Type 0 where
  pub run_id : String
  pub session_id : String
  pub cancel : CancelToken
  pub steering : Queue

abbrev pub new_control : String → String → RunControl
new_control run_id session_id = record {
  run_id = run_id;
  session_id = session_id;
  cancel = new_token;
  steering = new_queue default_queue_limit;
}
