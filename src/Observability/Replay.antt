-- ===== src/Observability/Replay.antt =====
-- Reading the log of the event bus again.
use py_coding_agent.Prelude.{
  ℕ, ◌-◌, ◌≡◌, refl, String, Bool, true, ◌&&◌, none, some, str_eq, ltb, min, List, [], ◌∷◌, map,
  length, arith,
}
use py_coding_agent.Observability.Events.{AgentEvent}
use py_coding_agent.Observability.Bus.{Subscription, EventBus, matches, select, backlog, events}
use py_coding_agent.Observability.Numbering.{seqs_of, IsRun, IsRun-above, above, last_seq}
use py_coding_agent.Observability.Invariant.{IsBus}

-- the events of a run above a cursor have these numbers
seqs-select :
    (r : String) (cursor : ℕ) (es : List AgentEvent)
    → map (λ e. e.seq) (select (λ e. str_eq r e.run_id && ltb cursor e.seq && true) es)
      ≡ above cursor (seqs_of r es)
unfolding select seqs_of above
seqs-select r cursor [] = refl
seqs-select r cursor (e ∷ es) = ground (arith, seqs-select r cursor es)

select-same :
    (test test' : AgentEvent → Bool) (es : List AgentEvent)
    → ((e : AgentEvent) → test e ≡ test' e)
    → select test es ≡ select test' es
unfolding select
select-same test test' [] h = refl
select-same test test' (e ∷ es) h = ground (arith, h e, select-same test test' es h)

module _ {H : Type 0} where
  -- Replaying a run from a cursor leaves no gap: the events that `events` returns have the numbers up to
  -- the run's last one, each one more than the one before, and there are as many as the run has above
  -- the cursor, or as many as the log still has.
  pub events-IsRun :
      (b : EventBus H) (r : String) (cursor : ℕ)
      → IsBus b
      → IsRun (map (λ e. e.seq) (events b (some r) (some cursor) none)) (last_seq b.seq_by_run r)
        × (length (map (λ e. e.seq) (events b (some r) (some cursor) none))
            ≡ min (length (seqs_of r b.audit)) (last_seq b.seq_by_run r - cursor))
  unfolding events
  events-IsRun b r cursor i =
      rw (seqs-select r cursor b.audit)
        (IsRun-above cursor (seqs_of r b.audit) (last_seq b.seq_by_run r) (i.numbered r))

  -- A subscription to a run with a cursor finds in its mailbox just what `events` returns for the run,
  -- the cursor and the types.
  pub backlog-events :
      (b : EventBus H) (r : String) (cursor : ℕ) (s : Subscription H)
      → s.run_id ≡ some r
      → backlog b (some r) (some cursor) s ≡ events b (some r) (some cursor) s.types
  unfolding events matches
  backlog-events b r cursor s h = select-same _ _ b.audit (λ e. rw h (ground arith))
