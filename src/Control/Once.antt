-- ===== src/Control/Once.antt =====
-- What happens once: a cancellation, and the enqueueing of a client event.
use py_coding_agent.Prelude.{
  List, [], ◌∷◌, refl, Option, none, Bool-cases, str_eq, String, true, false, some, ◌≡◌, arith,
  eq_iff, inl, inr,
}
use py_coding_agent.Prelude.Dict.{lookup-insert}
use py_coding_agent.Result.{Result, ok, err}
use py_coding_agent.Control.{
  CancelToken, cancel, Item, QueueKind, Queue, known_event, push, next_item, enqueue, ControlError,
  drain_before_next_request, dequeue_after_turn_end,
}
use py_coding_agent.Control.Fifo.{
  enqueue-ok, Operation, put, drain, dequeue, History, accept, perform, perform_all,
}

-- Cancelling is idempotent: the first request decides, and every later one, whatever its reason,
-- returns False and changes nothing.
pub cancel_once :
    (token : CancelToken) (first second : String)
    → ((cancel token first).0.is_cancelled ≡ true)
      × (cancel (cancel token first).0 second ≡ ((cancel token first).0, false))
      × (((cancel token first).1 ≡ true)
          → (token.is_cancelled ≡ false) × ((cancel token first).0.reason ≡ some first))
unfolding cancel
cancel_once token first second = ground arith

known_again :
    (kind : QueueKind) (q : Queue) (text event id now : String) (item : Item)
    → known_event q (some event) ≡ some item
    → enqueue kind q text (some event) id now ≡ ok (item, q)
unfolding enqueue
known_again kind q text event id now item h = ground arith

known_after_push :
    (q : Queue) (item : Item) (event : String)
    → known_event (push q item (some event)) (some event) ≡ some item
unfolding known_event push
known_after_push q item event = rw lookup-insert (ground (arith, eq_iff event event))

push-known :
    (q : Queue) (added : Item) (given : Option String) (event : String) (item : Item)
    → known_event q given ≡ none
    → known_event q (some event) ≡ some item
    → known_event (push q added given) (some event) ≡ some item
unfolding known_event push
push-known q added none event item new known = known
push-known q added (some e) event item new known = elim (Bool-cases (str_eq e event)) [
  | inl same ↦ absurd (cc ((eq_iff e event).0 same))
  | inr other ↦ rw lookup-insert (ground arith)
]

-- an `enqueue` keeps the item of every client event that it knows
enqueue-known :
    (kind : QueueKind) (q : Queue) (text event : String) (given : Option String) (id now : String)
    (item other : Item) (q' : Queue)
    → enqueue kind q text given id now ≡ ok (other, q')
    → known_event q (some event) ≡ some item
    → known_event q' (some event) ≡ some item
enqueue-known kind q text event given id now item other q' h known =
    elim (enqueue-ok kind q text given id now h) [
      | inl (found, same) ↦ rw same known
      | inr (new, _, room, is, same) ↦
          rw same (push-known q (next_item q text id now) given event item new known)
    ]

accept-known :
    (h : History) (event : String) (given : Option String) (r : Result ControlError (Item × Queue))
    (item : Item)
    → ((other : Item) (q' : Queue) → r ≡ ok (other, q') → known_event q' (some event) ≡ some item)
    → known_event h.queue (some event) ≡ some item
    → known_event (accept h given r).queue (some event) ≡ some item
accept-known h event given (err e) item k known = known
accept-known h event given (ok (other, q')) item k known = k other q' refl

-- no method of the queue forgets a client event
perform-known :
    (kind : QueueKind) (h : History) (op : Operation) (event : String) (item : Item)
    → known_event h.queue (some event) ≡ some item
    → known_event (perform kind h op).queue (some event) ≡ some item
unfolding perform drain_before_next_request dequeue_after_turn_end known_event
perform-known kind h (put text given id now) event item known =
    accept-known h event given (enqueue kind h.queue text given id now) item
      (λ other q' e. enqueue-known kind h.queue text event given id now item other q' e known) known
perform-known kind h drain event item known = known
perform-known kind h dequeue event item known = known

perform_all-known :
    (kind : QueueKind) (h : History) (ops : List Operation) (event : String) (item : Item)
    → known_event h.queue (some event) ≡ some item
    → known_event (perform_all kind h ops).queue (some event) ≡ some item
unfolding perform_all
perform_all-known kind h [] event item known = known
perform_all-known kind h (op ∷ ops) event item known =
    perform_all-known kind (perform kind h op) ops event item
      (perform-known kind h op event item known)

-- A client event is taken once. After an accepted `enqueue` with an event id, whatever the queue is
-- asked to do next, draining included, an `enqueue` with the same id returns the same
-- item and changes nothing, whatever its text, even when the queue is full.
pub enqueue_once :
    (kind : QueueKind) (h : History) (text text' event id id' now now' : String) (item : Item)
    (q' : Queue) (ops : List Operation)
    → enqueue kind h.queue text (some event) id now ≡ ok (item, q')
    → let later = (perform_all kind (perform kind h (put text (some event) id now)) ops).queue in
      enqueue kind later text' (some event) id' now' ≡ ok (item, later)
unfolding perform
enqueue_once kind h text text' event id id' now now' item q' ops e =
    let known : known_event q' (some event) ≡ some item =
      elim (enqueue-ok kind h.queue text (some event) id now e) [
        | inl (known, same) ↦ rw same known
        | inr (new, _, room, is, same) ↦
            rw (same, is) (known_after_push h.queue (next_item h.queue text id now) event)
      ] in
    known_again kind (perform_all kind (perform kind h (put text (some event) id now)) ops).queue
      text' event id' now' item
      (perform_all-known kind (perform kind h (put text (some event) id now)) ops event item
        (rw e known))
