-- ===== src/Observability/Invariant.antt =====
-- The invariant of the event bus, kept by each operation.
use py_coding_agent.Prelude.{
  ℕ, suc, ◌+◌, ◌-◌, ◌≤◌, ◌≡◌, refl, sym, subst, ◌⊎◌, inl, inr, String, Bool, true, List, [], ◌∷◌,
  ◌++◌, map, length, length-drop, Bool-cases, arith,
}
use py_coding_agent.Prelude.Dict.{Dict, insert}
use py_coding_agent.Observability.Events.{EventType, AgentEvent}
use py_coding_agent.Observability.Bus.{Subscription, EventBus, matches, select, push, post, new_bus}
use py_coding_agent.Observability.Delivery.{received}
use py_coding_agent.Observability.Numbering.{
  seqs_of, IsRun, Ascend, Ascend-high, last_seq, last_seq-insert, Ascend-next,
}

abbrev pub AreWanted : (AgentEvent → Bool) → List AgentEvent → Type 0
AreWanted test [] = Unit
AreWanted test (e ∷ es) = (test e ≡ true) × AreWanted test es

AreWanted-snoc :
    (test : AgentEvent → Bool) (es : List AgentEvent) (e : AgentEvent)
    → AreWanted test es
    → test e ≡ true
    → AreWanted test (es ++ e ∷ [])
AreWanted-snoc test [] e w h = (h, tt)
AreWanted-snoc test (x ∷ xs) e w h = (w.0, AreWanted-snoc test xs e w.1 h)

pub AreWanted-select :
    (test want : AgentEvent → Bool) (es : List AgentEvent)
    → ((e : AgentEvent) → test e ≡ true → want e ≡ true)
    → AreWanted want (select test es)
unfolding select
AreWanted-select test want [] h = tt
AreWanted-select test want (e ∷ es) h = elim (Bool-cases (test e)) [
  | inl q ↦ rw q (h e q, AreWanted-select test want es h)
  | inr q ↦ rw q (AreWanted-select test want es h)
]

pub length-push :
    (limit : ℕ) (es : List AgentEvent) (e : AgentEvent) → length (push limit es e) ≤ limit
unfolding push
length-push limit es e = omega (arith, length-drop (length (es ++ e ∷ []) - limit) (es ++ e ∷ []))

module _ {H : Type 0} where
  -- a mailbox has events for its subscription only, each run's with growing numbers
  pub record IsInbox (d : Dict ℕ) (s : Subscription H) : Type 0 where
    pub wanted : AreWanted (matches s) s.mailbox
    pub ordered : (r : String) → Ascend 1 (seqs_of r s.mailbox) (suc (last_seq d r))

  abbrev pub AreInboxes : Dict ℕ → List (Subscription H) → Type 0
  AreInboxes d [] = Unit
  AreInboxes d (s ∷ ss) = IsInbox d s × AreInboxes d ss

  abbrev pub ids : List (Subscription H) → List ℕ
  ids [] = []
  ids (s ∷ ss) = s.id ∷ ids ss

  -- The log is within its limit, and of each run it has the newest events, without a gap. Subscriptions
  -- have different ids, in the order in which they came, and their mailboxes are in order.
  pub record IsBus (b : EventBus H) : Type 0 where
    pub bounded : length b.audit ≤ b.audit_limit
    pub numbered : (r : String) → IsRun (seqs_of r b.audit) (last_seq b.seq_by_run r)
    pub distinct : Ascend 1 (ids b.subscriptions) b.next_subscription_id
    pub inboxes : AreInboxes b.seq_by_run b.subscriptions

  pub new_bus-IsBus :
      (audit_limit queue_limit : ℕ) (droppable : List EventType)
      → IsBus (new_bus audit_limit queue_limit droppable)
  unfolding new_bus seqs_of
  new_bus-IsBus audit_limit queue_limit droppable = record {
    bounded = omega arith;
    numbered = λ r. tt;
    distinct = omega arith;
    inboxes = tt;
  }

  IsInbox-later :
      (d : Dict ℕ) (run : String) (s : Subscription H)
      → IsInbox d s
      → IsInbox (insert run (last_seq d run + 1) d) s
  IsInbox-later d run s i = record {
    wanted = i.wanted;
    ordered = λ r.
        Ascend-high 1 (seqs_of r s.mailbox) _ _ (omega (arith, last_seq-insert d run r))
          (i.ordered r);
  }

  received-cases :
      (droppable : List EventType) (e : AgentEvent) (s : Subscription H)
      → (received droppable e s ≡ s)
        ⊎ (received droppable e s ≡ record s { dropped = s.dropped + 1 })
        ⊎ (received droppable e s ≡ record s { disconnected = true })
        ⊎ ((received droppable e s ≡ record s { mailbox = s.mailbox ++ e ∷ [] })
            × (matches s e ≡ true))
  unfolding post
  received-cases droppable e s = ground arith

  received-IsInbox :
      (d : Dict ℕ) (droppable : List EventType) (e : AgentEvent) (s : Subscription H)
      → e.seq ≡ last_seq d e.run_id + 1
      → IsInbox d s
      → IsInbox (insert e.run_id (last_seq d e.run_id + 1) d) (received droppable e s)
  unfolding post matches
  received-IsInbox d droppable e s n i = elim (received-cases droppable e s) [
    | inl same ↦ onto s same (IsInbox-later d e.run_id s i)
    | inr (inl lost) ↦
        onto (record s { dropped = s.dropped + 1 }) lost
          (IsInbox-later d e.run_id (record s { dropped = s.dropped + 1 })
            (record { wanted = i.wanted; ordered = i.ordered }))
    | inr (inr (inl cut)) ↦
        onto (record s { disconnected = true }) cut
          (IsInbox-later d e.run_id (record s { disconnected = true })
            (record { wanted = i.wanted; ordered = i.ordered }))
    | inr (inr (inr (kept, match))) ↦
        onto (record s { mailbox = s.mailbox ++ e ∷ [] }) kept
          (record {
            wanted = AreWanted-snoc (matches s) s.mailbox e i.wanted match;
            ordered = λ r. Ascend-next d r s.mailbox e n (i.ordered r);
          })
  ]
    where
      onto :
          (t : Subscription H)
          → received droppable e s ≡ t
          → IsInbox (insert e.run_id (last_seq d e.run_id + 1) d) t
          → IsInbox (insert e.run_id (last_seq d e.run_id + 1) d) (received droppable e s)
      onto t same j = subst (IsInbox (insert e.run_id (last_seq d e.run_id + 1) d)) (sym same) j

  pub received-AreInboxes :
      (d : Dict ℕ) (droppable : List EventType) (e : AgentEvent) (ss : List (Subscription H))
      → e.seq ≡ last_seq d e.run_id + 1
      → AreInboxes d ss
      → AreInboxes (insert e.run_id (last_seq d e.run_id + 1) d) (map (received droppable e) ss)
  received-AreInboxes d droppable e [] n i = tt
  received-AreInboxes d droppable e (s ∷ ss) n i =
      (received-IsInbox d droppable e s n i.0, received-AreInboxes d droppable e ss n i.1)

  pub ids-received :
      (droppable : List EventType) (e : AgentEvent) (ss : List (Subscription H))
      → ids (map (received droppable e) ss) ≡ ids ss
  unfolding post
  ids-received droppable e [] = refl
  ids-received droppable e (s ∷ ss) = ground (arith, ids-received droppable e ss)
