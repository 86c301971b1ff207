-- ===== src/Observability/Account.antt =====
-- The account of a mailbox: what has become of each event.
use mathlib.Core.List.{append-nil, append_assoc}
use py_coding_agent.Prelude.{
  ◌+◌, ◌≤◌, ◌≡◌, refl, sym, ap, subst, ◌∙◌, ◌⊎◌, inl, inr, true, false, none, leb, List, [], ◌∷◌,
  ◌++◌, length, length-append, Bool-cases, arith,
}
use py_coding_agent.Observability.Events.{EventType, AgentEvent}
use py_coding_agent.Observability.Bus.{Subscription, has_type, matches, select, post}
use py_coding_agent.Observability.Delivery.{received}

-- a list taken apart into two, each in the list's order
pub data Split : List AgentEvent → List AgentEvent → List AgentEvent → Type 0 where
  done : Split [] [] []
  keep :
      {kept lost all : List AgentEvent} (e : AgentEvent)
      → Split kept lost all
      → Split (e ∷ kept) lost (e ∷ all)
  lose :
      {kept lost all : List AgentEvent} (e : AgentEvent)
      → Split kept lost all
      → Split kept (e ∷ lost) (e ∷ all)

abbrev pub AreDroppable : List EventType → List AgentEvent → Type 0
AreDroppable droppable [] = Unit
AreDroppable droppable (e ∷ es) = (has_type e.kind droppable ≡ true) × AreDroppable droppable es

module _ {H : Type 0} where
  -- a subscription after some events
  unfoldable pub received_all : List EventType → List AgentEvent → Subscription H → Subscription H
  received_all droppable [] s = s
  received_all droppable (e ∷ es) s = received_all droppable es (received droppable e s)

  -- Of the events for the subscription, `seen` are those before it was disconnected: they have been kept
  -- or lost, and the lost ones are counted and may be dropped. While it is connected it has seen all.
  pub record Accounted (droppable : List EventType) (es : List AgentEvent) (s s' : Subscription H)
      : Type 0 where
    pub seen : List AgentEvent
    pub unseen : List AgentEvent
    pub kept : List AgentEvent
    pub lost : List AgentEvent
    pub all : seen ++ unseen ≡ select (matches s) es
    pub split : Split kept lost seen
    pub mailbox : s'.mailbox ≡ s.mailbox ++ kept
    pub counted : s'.dropped ≡ s.dropped + length lost
    pub droppable_only : AreDroppable droppable lost
    pub connected : s'.disconnected ≡ false → unseen ≡ []
    pub bounded : (kept ≡ []) ⊎ (length s'.mailbox ≤ s.queue_limit)

  -- a disconnected subscription stays as it is
  received_all-disconnected :
      (droppable : List EventType) (es : List AgentEvent) (s : Subscription H)
      → s.disconnected ≡ true
      → received_all droppable es s ≡ s
  unfolding received_all
  received_all-disconnected droppable [] s h = refl
  received_all-disconnected droppable (e ∷ es) s h =
      ap (received_all droppable es) (rw h refl) ∙ received_all-disconnected droppable es s h

  -- the last event: the subscription is disconnected
  disconnected-Accounted :
      (droppable : List EventType) (e : AgentEvent) (es : List AgentEvent) (s s' : Subscription H)
      → s' ≡ record s { disconnected = true }
      → Accounted droppable (e ∷ es) s s'
  disconnected-Accounted droppable e es s s' same = record {
    seen = [];
    unseen = select (matches s) (e ∷ es);
    kept = [];
    lost = [];
    all = refl;
    split = done;
    mailbox = rw same (sym (append-nil s.mailbox));
    counted = rw same (omega arith);
    droppable_only = tt;
    connected = λ h. absurd (ground (arith, ap (λ (x : Subscription H). x.disconnected) same));
    bounded = inl refl;
  }

  dropped-Accounted :
      (droppable : List EventType) (e : AgentEvent) (es : List AgentEvent) (s s' : Subscription H)
      → matches s e ≡ true
      → has_type e.kind droppable ≡ true
      → Accounted droppable es (record s { dropped = s.dropped + 1 }) s'
      → Accounted droppable (e ∷ es) s s'
  unfolding select matches
  dropped-Accounted droppable e es s s' m d a = record {
    seen = e ∷ a.seen;
    unseen = a.unseen;
    kept = a.kept;
    lost = e ∷ a.lost;
    all = rw m (ap (λ l. e ∷ l) a.all);
    split = lose e a.split;
    mailbox = a.mailbox;
    counted = omega (arith, a.counted);
    droppable_only = (d, a.droppable_only);
    connected = a.connected;
    bounded = a.bounded;
  }

  kept-Accounted :
      (droppable : List EventType) (e : AgentEvent) (es : List AgentEvent) (s s' : Subscription H)
      → matches s e ≡ true
      → leb s.queue_limit (length s.mailbox) ≡ false
      → Accounted droppable es (record s { mailbox = s.mailbox ++ e ∷ [] }) s'
      → Accounted droppable (e ∷ es) s s'
  unfolding select matches
  kept-Accounted droppable e es s s' m room a = record {
    seen = e ∷ a.seen;
    unseen = a.unseen;
    kept = e ∷ a.kept;
    lost = a.lost;
    all = rw m (ap (λ l. e ∷ l) a.all);
    split = keep e a.split;
    mailbox = a.mailbox ∙ append_assoc s.mailbox (e ∷ []) a.kept;
    counted = a.counted;
    droppable_only = a.droppable_only;
    connected = a.connected;
    bounded = inr (elim a.bounded [
      | inl none_kept ↦ ground (
        arith,
        ap length a.mailbox,
        length-append (s.mailbox ++ e ∷ []) a.kept,
        length-append s.mailbox (e ∷ []),
        ap length none_kept,
      )
      | inr h ↦ h
    ]);
  }

  other-Accounted :
      (droppable : List EventType) (e : AgentEvent) (es : List AgentEvent) (s s' : Subscription H)
      → matches s e ≡ false
      → Accounted droppable es s s'
      → Accounted droppable (e ∷ es) s s'
  unfolding select
  other-Accounted droppable e es s s' m a = record {
    seen = a.seen;
    unseen = a.unseen;
    kept = a.kept;
    lost = a.lost;
    all = rw m a.all;
    split = a.split;
    mailbox = a.mailbox;
    counted = a.counted;
    droppable_only = a.droppable_only;
    connected = a.connected;
    bounded = a.bounded;
  }

  -- A mailbox loses nothing unseen. Take a connected subscription without a handler and any events, one
  -- after the other. Those that match it and came before it was disconnected are its mailbox's new
  -- entries, in order, except for the ones that were dropped: each of these may be dropped, and the
  -- subscription counts them. While it is connected, no matching event is missing from this account. And
  -- the mailbox has only grown up to its limit.
  pub received_all-Accounted :
      (droppable : List EventType) (es : List AgentEvent) (s : Subscription H)
      → s.handler ≡ none
      → s.disconnected ≡ false
      → Accounted droppable es s (received_all droppable es s)
  unfolding received_all select post
  received_all-Accounted droppable [] s h c = record {
    seen = [];
    unseen = [];
    kept = [];
    lost = [];
    all = refl;
    split = done;
    mailbox = sym (append-nil s.mailbox);
    counted = omega arith;
    droppable_only = tt;
    connected = λ _. refl;
    bounded = inl refl;
  }
  received_all-Accounted droppable (e ∷ es) s h c = elim (Bool-cases (matches s e)) [
    | inr other ↦
        by_step s (ground arith)
          (other-Accounted droppable e es s _ other (received_all-Accounted droppable es s h c))
    | inl match ↦ elim (Bool-cases (leb s.queue_limit (length s.mailbox))) [
      | inr room ↦ by_step _ (posted match ∙ rw room refl) (
          kept-Accounted droppable e es s _ match room
            (received_all-Accounted droppable es (record s { mailbox = s.mailbox ++ e ∷ [] }) h c))
      | inl full ↦ elim (Bool-cases (has_type e.kind droppable)) [
        | inl drop' ↦ by_step _ (posted match ∙ rw full (rw drop' refl)) (
            dropped-Accounted droppable e es s _ match drop'
              (received_all-Accounted droppable es (record s { dropped = s.dropped + 1 }) h c))
        | inr keep' ↦ by_step _ (posted match ∙ rw full (rw keep' refl)) (
            disconnected-Accounted droppable e es s _
              (received_all-disconnected droppable es (record s { disconnected = true }) refl))
      ]
    ]
  ]
    where
      by_step :
          (t : Subscription H)
          → received droppable e s ≡ t
          → Accounted droppable (e ∷ es) s (received_all droppable es t)
          → Accounted droppable (e ∷ es) s (received_all droppable es (received droppable e s))
      by_step t step a =
          subst (λ x. Accounted droppable (e ∷ es) s (received_all droppable es x)) (sym step) a

      posted : matches s e ≡ true → received droppable e s ≡ post droppable s e
      posted m = ground arith
