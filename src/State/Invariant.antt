-- ===== src/State/Invariant.antt =====
-- The invariant of a run's snapshots, and the runs from the initial snapshot.
use py_coding_agent.Prelude.{
  ℕ, zero, suc, ◌+◌, ◌≤◌, String, Bool, true, false, Option, none, ◌≡◌, refl, sym, subst, ◌∙◌,
  arith, is_some,
}
use py_coding_agent.Result.{ok}
use py_coding_agent.State.{
  AgentState, StateTrigger, RunStatus, StopReason, RuntimeState, CancellationState, initial,
  in_active_states, in_terminal_states, transition, advance, request_abort, ignores_abort,
}
use py_coding_agent.State.Diagram.{Edge}
use py_coding_agent.State.Abort.{request_abort-ok}
use py_coding_agent.State.Guards.{transition-ok}

-- the states in which a tool call may be in flight
abbrev pub may_hold_call : AgentState → Bool
may_hold_call AgentState.waiting_tool = true
may_hold_call AgentState.processing_tool_result = true
may_hold_call _ = false

-- how far a cancellation has come, read off the state
abbrev pub cancellation_of : AgentState → CancellationState
cancellation_of AgentState.aborting = CancellationState.requested
cancellation_of AgentState.aborted = CancellationState.completed
cancellation_of _ = CancellationState.none

-- a run that has begun is in turn 1 or later
abbrev pub HasTurn : AgentState → ℕ → Type 0
HasTurn AgentState.idle n = n ≡ 0
HasTurn _ n = 1 ≤ n

pub record IsValid (s : RuntimeState) : Type 0 where
  pub in_flight : may_hold_call s.state ≡ false → s.current_tool_call_id ≡ none
  pub cancel : s.cancellation ≡ cancellation_of s.state
  pub turn : HasTurn s.state s.current_turn
  pub ended : in_terminal_states s.state ≡ true → is_some s.status ≡ true

advance-IsValid :
    {a b : AgentState} {t : StateTrigger}
    → Edge a t b
    → (s : RuntimeState) (status : Option RunStatus) (reason : Option StopReason)
      (id : Option String)
    → s.state ≡ a
    → IsValid s
    → IsValid (advance s b t status reason id)
unfolding advance in_terminal_states in_active_states
advance-IsValid Edge.begin s status reason id e v = ground arith
advance-IsValid (Edge.abort active) s status reason id e v = ground arith
advance-IsValid _ s status reason id e v = ground arith

-- one operation on a snapshot: an accepted transition, or a request to abort
pub data Step (s s' : RuntimeState) : Type 0 where
  moved :
      (n : ℕ) (t : StateTrigger) (status : Option RunStatus) (reason : Option StopReason)
      (id : Option String)
      → transition s n t status reason id ≡ ok s'
      → Step s s'
  asked : (reason : String) → request_abort s reason ≡ ok s' → Step s s'

-- the snapshots of a run, each with the number of operations before it
pub data Run (run_id : String) : ℕ → RuntimeState → Type 0 where
  created : Run run_id zero (initial run_id)
  next : {n : ℕ} {s s' : RuntimeState} → Run run_id n s → Step s s' → Run run_id (suc n) s'

transition-IsValid :
    (s s' : RuntimeState) (n : ℕ) (t : StateTrigger) (status : Option RunStatus)
    (reason : Option StopReason) (id : Option String)
    → transition s n t status reason id ≡ ok s'
    → IsValid s
    → IsValid s'
transition-IsValid s s' n t status reason id h v =
    let (_, d, e) = transition-ok s n t status reason id h in
    subst IsValid (sym e) (advance-IsValid d s status reason id refl v)

request_abort-IsValid :
    (s s' : RuntimeState) (reason : String)
    → request_abort s reason ≡ ok s'
    → IsValid s
    → IsValid s'
unfolding advance ignores_abort in_terminal_states
request_abort-IsValid s s' reason h v = ground (arith, request_abort-ok s reason)

pub Step-IsValid : {s s' : RuntimeState} → Step s s' → IsValid s → IsValid s'
Step-IsValid {s} {s'} (moved n t status reason id h) v =
    transition-IsValid s s' n t status reason id h v
Step-IsValid {s} {s'} (asked reason h) v = request_abort-IsValid s s' reason h v

IsValid-initial : (run_id : String) → IsValid (initial run_id)
unfolding in_terminal_states
IsValid-initial run_id = ground arith

-- a step keeps the run's id and counts at most one in the sequence number
pub Step-seq :
    {s s' : RuntimeState} → Step s s' → (s'.run_id ≡ s.run_id) × (s'.state_seq ≤ s.state_seq + 1)
unfolding advance
Step-seq {s} (moved n t status reason id h) = ground (arith, transition-ok s n t status reason id h)
Step-seq {s} (asked reason h) = ground (arith, request_abort-ok s reason)

-- However a run's snapshots came about, by accepted transitions with any arguments and requests to
-- abort from the initial one: a call is in flight only in WAITING_TOOL and PROCESSING_TOOL_RESULT;
-- the cancellation is requested exactly in ABORTING and completed exactly in ABORTED; the turn is 0
-- in IDLE and at least 1 elsewhere; a terminal state has a status; the run's id never changes, and
-- the sequence number never passes the number of operations.
pub Run-IsValid :
    {run_id : String} {n : ℕ} {s : RuntimeState}
    → Run run_id n s
    → IsValid s × (s.run_id ≡ run_id) × (s.state_seq ≤ n)
Run-IsValid {run_id} created = (IsValid-initial run_id, refl, omega arith)
Run-IsValid (next r st) =
    let (v, i, le) = Run-IsValid r in
    let (j, q) = Step-seq st in (Step-IsValid st v, j ∙ i, omega arith)
