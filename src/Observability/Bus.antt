-- ===== src/Observability/Bus.antt =====
-- src/coding_agent/observability/event_bus.py: the events of the runs, numbered, kept and handed on.
use py_coding_agent.Prelude.{
  ℕ, suc, ◌+◌, ◌-◌, String, Bool, true, false, ◌&&◌, ◌||◌, Option, none, some, str_eq, leb, ltb,
  ◌==◌, get_or, if◌then◌else◌, List, [], ◌∷◌, ◌++◌, length, drop,
}
use py_coding_agent.Prelude.Dict.{Dict, lookup}
use py_coding_agent.Value.{Fields}
use py_coding_agent.Observability.Events.{EventType, same_type, AgentEvent}

-- `_Subscription`; a handler is a name `H` of a function outside the bus
pub record Subscription (H : Type 0) : Type 0 where
  pub id : ℕ
  pub run_id : Option String
  pub types : Option (List EventType)
  pub handler : Option H
  pub queue_limit : ℕ
  pub mailbox : List AgentEvent
  pub dropped : ℕ
  pub disconnected : Bool

pub record SubscriptionInfo : Type 0 where
  pub id : ℕ
  pub run_id : Option String
  pub pending : ℕ
  pub dropped : ℕ
  pub disconnected : Bool

-- `subscriptions` is the dict's values in its order: the key of each is its id
pub record EventBus (H : Type 0) : Type 0 where
  pub audit_limit : ℕ
  pub audit : List AgentEvent
  pub seq_by_run : Dict ℕ
  pub subscriptions : List (Subscription H)
  pub next_subscription_id : ℕ
  pub queue_limit : ℕ
  pub droppable : List EventType
  pub subscriber_errors : List (ℕ × String)

-- `t in types`
unfoldable pub has_type : EventType → List EventType → Bool
has_type t [] = false
has_type t (u ∷ us) = same_type u t || has_type t us

-- the tests on an event, where `None` asks for nothing
abbrev pub is_of_run : Option String → AgentEvent → Bool
is_of_run none e = true
is_of_run (some r) e = str_eq r e.run_id

abbrev pub is_among : Option (List EventType) → AgentEvent → Bool
is_among none e = true
is_among (some ts) e = has_type e.kind ts

abbrev pub is_after : Option ℕ → AgentEvent → Bool
is_after none e = true
is_after (some n) e = ltb n e.seq

unfoldable pub select : (AgentEvent → Bool) → List AgentEvent → List AgentEvent
select test [] = []
select test (e ∷ es) = let rest = select test es in if test e then e ∷ rest else rest

-- `append` on a deque with a limit
unfoldable pub push : ℕ → List AgentEvent → AgentEvent → List AgentEvent
push limit es e = drop (length (es ++ e ∷ []) - limit) (es ++ e ∷ [])

-- `max_items is None or n < max_items`
abbrev pub is_below : Option ℕ → ℕ → Bool
is_below none n = true
is_below (some m) n = ltb n m

-- `drain`'s loop: what is taken, and what stays
unfoldable pub take_up_to : Option ℕ → ℕ → List AgentEvent → List AgentEvent × List AgentEvent
take_up_to max_items taken [] = ([], [])
take_up_to max_items taken (e ∷ es) =
    let (more, rest) = take_up_to max_items (suc taken) es in
    if is_below max_items taken then (e ∷ more, rest) else ([], e ∷ es)

-- `queue_limit or self._queue_limit`
abbrev limit_or : Option ℕ → ℕ → ℕ
limit_or none default = default
limit_or (some n) default = if n == 0 then default else n

module _ {H : Type 0} where
  -- `matches`
  unfoldable pub matches : Subscription H → AgentEvent → Bool
  matches s e = is_of_run s.run_id e && is_among s.types e

  unfoldable pub new_bus : ℕ → ℕ → List EventType → EventBus H
  new_bus audit_limit queue_limit droppable = record {
    audit_limit = audit_limit;
    audit = [];
    seq_by_run = [];
    subscriptions = [];
    next_subscription_id = 1;
    queue_limit = queue_limit;
    droppable = droppable;
    subscriber_errors = [];
  }

  -- an event for a mailbox
  unfoldable pub post : List EventType → Subscription H → AgentEvent → Subscription H
  post droppable s e =
      if leb s.queue_limit (length s.mailbox)
      then (if has_type e.kind droppable
          then record s { dropped = s.dropped + 1 }
          else record s { disconnected = true })
      else record s { mailbox = s.mailbox ++ e ∷ [] }

  abbrev pub event_of :
      EventBus H → EventType → String → String → Fields → String → String → AgentEvent
  event_of b kind run session payload id now = record {
    kind = kind;
    event_id = id;
    session_id = session;
    run_id = run;
    seq = get_or (lookup run b.seq_by_run) 0 + 1;
    utc_time = now;
    payload = payload;
  }

  -- the subscription with the id
  unfoldable pub find_subscription : ℕ → List (Subscription H) → Option (Subscription H)
  find_subscription n [] = none
  find_subscription n (s ∷ ss) = if s.id == n then some s else find_subscription n ss

  unfoldable pub remove_subscription : ℕ → List (Subscription H) → List (Subscription H)
  remove_subscription n [] = []
  remove_subscription n (s ∷ ss) =
      let rest = remove_subscription n ss in if s.id == n then rest else s ∷ rest

  abbrev with_mailbox : Subscription H → List AgentEvent → Subscription H
  with_mailbox s mailbox = record s { mailbox = mailbox }

  unfoldable pub set_mailbox : ℕ → List AgentEvent → List (Subscription H) → List (Subscription H)
  set_mailbox n mailbox [] = []
  set_mailbox n mailbox (s ∷ ss) =
      if s.id == n then with_mailbox s mailbox ∷ ss else s ∷ set_mailbox n mailbox ss

  -- what a new subscription with a cursor finds in its mailbox
  abbrev pub backlog : EventBus H → Option String → Option ℕ → Subscription H → List AgentEvent
  backlog b (some run) (some cursor) s =
      select (λ e. str_eq run e.run_id && ltb cursor e.seq && matches s e) b.audit
  backlog b run cursor s = []

  abbrev pub new_subscription :
      EventBus H → Option String → Option (List EventType) → Option H → Option ℕ → Subscription H
  new_subscription b run types handler queue_limit = record {
    id = b.next_subscription_id;
    run_id = run;
    types = types;
    handler = handler;
    queue_limit = limit_or queue_limit b.queue_limit;
    mailbox = [];
    dropped = 0;
    disconnected = false;
  }

  unfoldable pub subscribe :
      EventBus H
      → Option String
      → Option (List EventType)
      → Option ℕ
      → Option H
      → Option ℕ
      → ℕ × EventBus H
  subscribe b run types cursor handler queue_limit =
      let s : Subscription H = new_subscription b run types handler queue_limit in
      (
        s.id,
        record b {
          next_subscription_id = b.next_subscription_id + 1;
          subscriptions = b.subscriptions ++ with_mailbox s (backlog b run cursor s) ∷ [];
        },
      )

  unfoldable pub unsubscribe : EventBus H → ℕ → EventBus H
  unsubscribe b n = record b { subscriptions = remove_subscription n b.subscriptions }

  abbrev drain_from :
      EventBus H → ℕ → Option ℕ → Option (Subscription H) → List AgentEvent × EventBus H
  drain_from b n max_items none = ([], b)
  drain_from b n max_items (some s) =
      let (taken, rest) = take_up_to max_items 0 s.mailbox in
      (taken, record b { subscriptions = set_mailbox n rest b.subscriptions })

  unfoldable pub drain : EventBus H → ℕ → Option ℕ → List AgentEvent × EventBus H
  drain b n max_items = drain_from b n max_items (find_subscription n b.subscriptions)

  abbrev info_of : Option (Subscription H) → Option SubscriptionInfo
  info_of none = none
  info_of (some s) = some (record {
    id = s.id;
    run_id = s.run_id;
    pending = length s.mailbox;
    dropped = s.dropped;
    disconnected = s.disconnected;
  })

  unfoldable pub subscription_info : EventBus H → ℕ → Option SubscriptionInfo
  subscription_info b n = info_of (find_subscription n b.subscriptions)

  unfoldable pub events :
      EventBus H → Option String → Option ℕ → Option (List EventType) → List AgentEvent
  events b run after_seq types =
      select (λ e. is_of_run run e && is_after after_seq e && is_among types e) b.audit
