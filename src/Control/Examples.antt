-- ===== src/Control/Examples.antt =====
-- A queue of two places.
use py_coding_agent.Prelude.{true, false, none, some, [], ◌∷◌, ◌≡◌, refl, arith, List, arith}
use py_coding_agent.Prelude.Dict.{lookup}
use py_coding_agent.Prelude.Text.{is_blank}
use py_coding_agent.Result.{ok}
use py_coding_agent.Control.{
  new_token, cancel, Item, QueueKind, new_queue, enqueue, push, next_item,
}
use py_coding_agent.Control.Fifo.{
  Operation, put, drain, dequeue, History, perform, perform_all, IsFifo, perform_all-IsFifo,
}
use py_coding_agent.Control.Once.{cancel_once, enqueue_once}

abbrev start : History
start = record { queue = new_queue 2; taken = []; accepted = [] }

abbrev calls : List Operation
calls =
    put "a" (some "e1") "i1" "t"
    ∷ put "b" none "i2" "t"
    ∷ put "c" none "i3" "t"
    ∷ dequeue
    ∷ put "again" (some "e1") "i4" "t"
    ∷ put " " none "i5" "t"
    ∷ drain
    ∷ []

perform_all-IsFifo_example : IsFifo (perform_all QueueKind.steering start calls)
perform_all-IsFifo_example = perform_all-IsFifo QueueKind.steering start calls (ground arith)

cancel_once_example :
    ((cancel new_token "stop").0.is_cancelled ≡ true)
    × (cancel (cancel new_token "stop").0 "later" ≡ ((cancel new_token "stop").0, false))
    × (((cancel new_token "stop").1 ≡ true)
        → (new_token.is_cancelled ≡ false) × ((cancel new_token "stop").0.reason ≡ some "stop"))
cancel_once_example = cancel_once new_token "stop" "later"

abbrev first : Item
first = next_item (new_queue 1) "a" "i1" "t"

-- a queue of one place
abbrev one_place : History
one_place = record { queue = new_queue 1; taken = []; accepted = [] }

-- the first item is taken out, and another one fills the queue
abbrev between : List Operation
between = drain ∷ put "b" none "i2" "t" ∷ []

enqueue_once_example :
    let later =
      (perform_all QueueKind.follow_up
        (perform QueueKind.follow_up one_place (put "a" (some "e1") "i1" "t"))
        between).queue in
    enqueue QueueKind.follow_up later "c" (some "e1") "i3" "u" ≡ ok (first, later)
unfolding enqueue lookup is_blank
enqueue_once_example =
    enqueue_once QueueKind.follow_up one_place "a" "c" "e1" "i1" "i3" "t" "u" first
      (push (new_queue 1) first (some "e1")) between refl
