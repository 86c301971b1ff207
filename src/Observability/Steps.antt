-- ===== src/Observability/Steps.antt =====
-- The operations of the event bus, one after the other: each keeps the invariant.
use py_coding_agent.Prelude.{
  ℕ, suc, ◌+◌, ◌≡◌, refl, sym, ap, subst, inl, inr, String, Option, none, some, ◌==◌, List, [], ◌∷◌,
  ◌++◌, Bool-cases, arith,
}
use py_coding_agent.Prelude.Dict.{Dict, insert}
use py_coding_agent.Value.{Fields}
use py_coding_agent.Observability.Events.{EventType, AgentEvent}
use py_coding_agent.Observability.Bus.{
  Subscription, EventBus, matches, push, event_of, remove_subscription, new_subscription, backlog,
  subscribe, unsubscribe,
}
use py_coding_agent.Observability.Emit.{emit}
use py_coding_agent.Observability.Delivery.{emit-isolates}
use py_coding_agent.Observability.Numbering.{
  seqs_of, Ascend, IsRun-length, IsRun-Ascend, Ascend-low, Ascend-snoc, IsRun-drop, Ascend-select,
  IsRun-next,
}
use py_coding_agent.Observability.Invariant.{
  AreWanted-select, length-push, IsInbox, AreInboxes, ids, IsBus, received-AreInboxes, ids-received,
}

module _ {H W : Type 0} (handle : H → AgentEvent → W → Option String × W) where
  pub emit-IsBus :
      (b : EventBus H) (kind : EventType) (run session : String) (payload : Fields)
      (id now : String) (w : W)
      → IsBus b
      → IsBus (emit handle b kind run session payload id now w).1
  unfolding emit push
  emit-IsBus b kind run session payload id now w i =
      let e : AgentEvent = event_of b kind run session payload id now in
      let same = (emit-isolates handle b kind run session payload id now w).0 in
      record {
        bounded = length-push b.audit_limit b.audit e;
        numbered = λ r.
            IsRun-drop r _ (b.audit ++ e ∷ []) _
              (IsRun-next b.seq_by_run r b.audit e refl (i.numbered r));
        distinct =
            subst (λ ss. Ascend 1 (ids ss) b.next_subscription_id) (sym same)
              (subst (λ l. Ascend 1 l b.next_subscription_id)
                (sym (ids-received b.droppable e b.subscriptions)) i.distinct);
        inboxes =
            subst (AreInboxes (insert run e.seq b.seq_by_run)) (sym same)
              (received-AreInboxes b.seq_by_run b.droppable e b.subscriptions refl i.inboxes);
      }

module _ {H : Type 0} where
  AreInboxes-snoc :
      (d : Dict ℕ) (ss : List (Subscription H)) (s : Subscription H)
      → AreInboxes d ss
      → IsInbox d s
      → AreInboxes d (ss ++ s ∷ [])
  AreInboxes-snoc d [] s i j = (j, tt)
  AreInboxes-snoc d (x ∷ xs) s i j = (i.0, AreInboxes-snoc d xs s i.1 j)

  ids-snoc :
      (ss : List (Subscription H)) (s : Subscription H) → ids (ss ++ s ∷ []) ≡ ids ss ++ s.id ∷ []
  ids-snoc [] s = refl
  ids-snoc (x ∷ xs) s = ap (λ l. x.id ∷ l) (ids-snoc xs s)

  -- the backlog of a new subscription
  backlog-IsInbox :
      (b : EventBus H) (run : Option String) (cursor : Option ℕ) (s : Subscription H)
      → IsBus b
      → IsInbox b.seq_by_run (record s { mailbox = backlog b run cursor s })
  unfolding matches seqs_of
  backlog-IsInbox b none cursor s i = record { wanted = tt; ordered = λ r. omega arith }
  backlog-IsInbox b (some run) none s i = record { wanted = tt; ordered = λ r. omega arith }
  backlog-IsInbox b (some run) (some cursor) s i = record {
    wanted = AreWanted-select _ (matches s) b.audit (λ e h. ground arith);
    ordered = λ r. Ascend-select r _ b.audit 1 _ (
        IsRun-Ascend 1 _ (seqs_of r b.audit)
          (omega (arith, IsRun-length (seqs_of r b.audit) _ (i.numbered r))) (i.numbered r));
  }

  pub subscribe-IsBus :
      (b : EventBus H) (run : Option String) (types : Option (List EventType)) (cursor : Option ℕ)
      (handler : Option H) (queue_limit : Option ℕ)
      → IsBus b
      → IsBus (subscribe b run types cursor handler queue_limit).1
  unfolding subscribe
  subscribe-IsBus b run types cursor handler queue_limit i =
      let s : Subscription H = new_subscription b run types handler queue_limit in
      record {
        bounded = i.bounded;
        numbered = i.numbered;
        distinct =
            subst (λ l. Ascend 1 l (b.next_subscription_id + 1)) (sym (ids-snoc b.subscriptions _))
              (subst (Ascend 1 (ids b.subscriptions ++ b.next_subscription_id ∷ [])) (omega arith)
                (Ascend-snoc 1 (ids b.subscriptions) b.next_subscription_id i.distinct));
        inboxes =
            AreInboxes-snoc b.seq_by_run b.subscriptions _ i.inboxes
              (backlog-IsInbox b run cursor s i);
      }

  remove-AreInboxes :
      (d : Dict ℕ) (n : ℕ) (ss : List (Subscription H))
      → AreInboxes d ss
      → AreInboxes d (remove_subscription n ss)
  unfolding remove_subscription
  remove-AreInboxes d n [] i = tt
  remove-AreInboxes d n (s ∷ ss) i = elim (Bool-cases (s.id == n)) [
    | inl q ↦ rw q (remove-AreInboxes d n ss i.1)
    | inr q ↦ rw q (i.0, remove-AreInboxes d n ss i.1)
  ]

  remove-Ascend :
      (n low high : ℕ) (ss : List (Subscription H))
      → Ascend low (ids ss) high
      → Ascend low (ids (remove_subscription n ss)) high
  unfolding remove_subscription
  remove-Ascend n low high [] a = a
  remove-Ascend n low high (s ∷ ss) a = elim (Bool-cases (s.id == n)) [
    | inl q ↦ rw q (
        Ascend-low low (suc s.id) _ high (omega (arith, a.0))
          (remove-Ascend n (suc s.id) high ss a.1))
    | inr q ↦ rw q (a.0, remove-Ascend n (suc s.id) high ss a.1)
  ]

  pub unsubscribe-IsBus : (b : EventBus H) (n : ℕ) → IsBus b → IsBus (unsubscribe b n)
  unfolding unsubscribe
  unsubscribe-IsBus b n i = record {
    bounded = i.bounded;
    numbered = i.numbered;
    distinct = remove-Ascend n 1 _ b.subscriptions i.distinct;
    inboxes = remove-AreInboxes b.seq_by_run n b.subscriptions i.inboxes;
  }
