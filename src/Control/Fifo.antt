-- ===== src/Control/Fifo.antt =====
-- The queues against a first-in first-out queue with a bound.
use mathlib.Core.List.{append_assoc, append-nil}
use py_coding_agent.Prelude.{
  ℕ, ◌+◌, ◌≤◌, ◌<◌, String, false, Option, none, some, ◌≡◌, refl, arith, List, [], ◌∷◌, ◌++◌,
  length, length-append, Option-cases, ◌⊎◌, inl, inr,
}
use py_coding_agent.Prelude.Text.{is_blank}
use py_coding_agent.Result.{Result, ok, err}
use py_coding_agent.Control.{
  Item, QueueKind, Queue, known_event, push, next_item, enqueue, drain_before_next_request,
  pop_first, dequeue_after_turn_end, ControlError,
}

-- the items are numbered upwards, above `low` and up to `high`
abbrev pub AreNumbered : ℕ → ℕ → List Item → Type 0
AreNumbered low high [] = low ≤ high
AreNumbered low high (x ∷ xs) = (low < x.sequence) × AreNumbered x.sequence high xs

AreNumbered-snoc :
    (low high : ℕ) (xs : List Item) (x : Item)
    → AreNumbered low high xs
    → x.sequence ≡ high + 1
    → AreNumbered low (high + 1) (xs ++ x ∷ [])
AreNumbered-snoc low high [] x h e = omega arith
AreNumbered-snoc low high (y ∷ xs) x h e = (h.0, AreNumbered-snoc y.sequence high xs x h.1 e)

-- an accepted `enqueue` has found a known event, or has pushed a new item
pub enqueue-ok :
    (kind : QueueKind) (q : Queue) (text : String) (event : Option String) (id now : String)
    {item : Item} {q' : Queue}
    → enqueue kind q text event id now ≡ ok (item, q')
    → ((known_event q event ≡ some item) × (q' ≡ q))
      ⊎ ((known_event q event ≡ none)
          × (is_blank text ≡ false)
          × (length q.pending < q.max_pending)
          × (item ≡ next_item q text id now)
          × (q' ≡ push q (next_item q text id now) event))
unfolding enqueue
enqueue-ok kind q text event id now h = elim (Option-cases (known_event q event)) [
  | inl e ↦ ground arith
  | inr (x, e) ↦ ground arith
]

-- A call of one of the queue's methods.
pub data Operation : Type 0 where
  put : String → Option String → String → String → Operation
  drain dequeue : Operation

-- a queue, what has been taken out of it, and what it has accepted as new, in order
pub record History : Type 0 where
  pub queue : Queue
  pub taken : List Item
  pub accepted : List Item

-- a call that finds its client event known adds nothing
abbrev added : Option Item → Item → List Item
added none item = item ∷ []
added (some _) item = []

abbrev as_list : Option Item → List Item
as_list none = []
as_list (some x) = x ∷ []

-- an `enqueue` that raises leaves everything as it was
abbrev pub accept : History → Option String → Result ControlError (Item × Queue) → History
accept h event (err e) = h
accept h event (ok (item, q')) = record h {
  queue = q';
  accepted = h.accepted ++ added (known_event h.queue event) item;
}

unfoldable pub perform : QueueKind → History → Operation → History
perform kind h (put text event id now) = accept h event (enqueue kind h.queue text event id now)
perform kind h drain =
    let (items, q') = drain_before_next_request h.queue in
    record h { queue = q'; taken = h.taken ++ items }
perform kind h dequeue =
    let (item, q') = dequeue_after_turn_end h.queue in
    record h { queue = q'; taken = h.taken ++ as_list item }

unfoldable pub perform_all : QueueKind → History → List Operation → History
perform_all kind h [] = h
perform_all kind h (op ∷ ops) = perform_all kind (perform kind h op) ops

pub record IsFifo (h : History) : Type 0 where
  pub bounded : length h.queue.pending ≤ h.queue.max_pending
  pub in_order : h.taken ++ h.queue.pending ≡ h.accepted
  pub numbered : AreNumbered 0 h.queue.sequence h.accepted
  pub counted : length h.accepted ≡ h.queue.sequence

pushed-IsFifo :
    (h : History) (item : Item) (event : Option String)
    → length h.queue.pending < h.queue.max_pending
    → item.sequence ≡ h.queue.sequence + 1
    → IsFifo h
    → IsFifo (record h { queue = push h.queue item event; accepted = h.accepted ++ item ∷ [] })
unfolding push
pushed-IsFifo h item event room e v = record {
  bounded = omega (arith, length-append {0} h.queue.pending (item ∷ []));
  in_order = rw (← append_assoc h.taken h.queue.pending (item ∷ []), v.in_order) refl;
  numbered = AreNumbered-snoc 0 h.queue.sequence h.accepted item v.numbered e;
  counted = omega (arith, length-append {0} h.accepted (item ∷ []), v.counted);
}

accept-IsFifo :
    (h : History) (event : Option String) (r : Result ControlError (Item × Queue))
    → ((item : Item) (q' : Queue) → r ≡ ok (item, q') → IsFifo (accept h event (ok (item, q'))))
    → IsFifo h
    → IsFifo (accept h event r)
accept-IsFifo h event (err e) k v = v
accept-IsFifo h event (ok (item, q')) k v = k item q' refl

put-IsFifo :
    (kind : QueueKind) (h : History) (text : String) (event : Option String) (id now : String)
    → IsFifo h
    → IsFifo (perform kind h (put text event id now))
unfolding perform
put-IsFifo kind h text event id now v =
    accept-IsFifo h event (enqueue kind h.queue text event id now) step v
  where
    same_queue :
        (item : Item) (q' : Queue)
        → known_event h.queue event ≡ some item
        → q' ≡ h.queue
        → IsFifo (accept h event (ok (item, q')))
    same_queue item q' known same = rw (known, same, append-nil) v

    step :
        (item : Item) (q' : Queue)
        → enqueue kind h.queue text event id now ≡ ok (item, q')
        → IsFifo (accept h event (ok (item, q')))
    step item q' p = elim (enqueue-ok kind h.queue text event id now p) [
      | inl (known, same) ↦ same_queue item q' known same
      | inr (new, _, room, is, same) ↦
          rw (new, same, is) (pushed-IsFifo h (next_item h.queue text id now) event room refl v)
    ]

drain-IsFifo : (kind : QueueKind) (h : History) → IsFifo h → IsFifo (perform kind h drain)
unfolding perform drain_before_next_request
drain-IsFifo kind h v = record {
  bounded = omega arith;
  in_order = rw append-nil v.in_order;
  numbered = v.numbered;
  counted = v.counted;
}

pop_first-append : (xs : List Item) → as_list (pop_first xs).0 ++ (pop_first xs).1 ≡ xs
unfolding pop_first
pop_first-append [] = refl
pop_first-append (x ∷ xs) = refl

length-pop_first : (xs : List Item) → length (pop_first xs).1 ≤ length xs
unfolding pop_first
length-pop_first [] = omega arith
length-pop_first (x ∷ xs) = omega arith

dequeue-IsFifo : (kind : QueueKind) (h : History) → IsFifo h → IsFifo (perform kind h dequeue)
unfolding perform dequeue_after_turn_end
dequeue-IsFifo kind h v = record {
  bounded = omega (arith, length-pop_first h.queue.pending);
  in_order = rw (append_assoc, pop_first-append) v.in_order;
  numbered = v.numbered;
  counted = v.counted;
}

perform-IsFifo :
    (kind : QueueKind) (h : History) (op : Operation) → IsFifo h → IsFifo (perform kind h op)
perform-IsFifo kind h (put text event id now) v = put-IsFifo kind h text event id now v
perform-IsFifo kind h drain v = drain-IsFifo kind h v
perform-IsFifo kind h dequeue v = dequeue-IsFifo kind h v

-- Whatever calls a queue receives, refused ones included: what was taken out followed by what still
-- waits is what was accepted, in the order of acceptance; the accepted items are numbered upwards,
-- one number each and no number skipped; and no more than `max_pending` ever wait.
pub perform_all-IsFifo :
    (kind : QueueKind) (h : History) (ops : List Operation)
    → IsFifo h
    → IsFifo (perform_all kind h ops)
unfolding perform_all
perform_all-IsFifo kind h [] v = v
perform_all-IsFifo kind h (op ∷ ops) v =
    perform_all-IsFifo kind (perform kind h op) ops (perform-IsFifo kind h op v)
