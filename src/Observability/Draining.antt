-- ===== src/Observability/Draining.antt =====
-- `drain` of the event bus: what it takes, and that it keeps the invariant.
use py_coding_agent.Prelude.{
  ℕ, suc, ◌-◌, ◌≡◌, refl, sym, ap, subst, ◌∙◌, ◌⊎◌, inl, inr, Option, none, some, ◌==◌, min, List,
  [], ◌∷◌, ◌++◌, length, Bool-cases, Option-cases, arith,
}
use py_coding_agent.Prelude.Dict.{Dict}
use py_coding_agent.Observability.Events.{AgentEvent}
use py_coding_agent.Observability.Bus.{
  Subscription, EventBus, matches, is_below, take_up_to, find_subscription, set_mailbox, drain,
}
use py_coding_agent.Observability.Numbering.{seqs_of, Ascend, Ascend-tail, last_seq}
use py_coding_agent.Observability.Invariant.{AreWanted, IsInbox, AreInboxes, ids, IsBus}

-- what stays in a mailbox has each property that a list's tail takes over
take_up_to-rest :
    (P : List AgentEvent → Type 0)
    (tail : (e : AgentEvent) (es : List AgentEvent) → P (e ∷ es) → P es) (max_items : Option ℕ)
    (taken : ℕ) (es : List AgentEvent)
    → P es
    → P (take_up_to max_items taken es).1
unfolding take_up_to
take_up_to-rest P tail max_items taken [] h = h
take_up_to-rest P tail max_items taken (e ∷ es) h = elim (Bool-cases (is_below max_items taken)) [
  | inl q ↦ rw q (take_up_to-rest P tail max_items (suc taken) es (tail e es h))
  | inr q ↦ rw q h
]

-- the number of events that `drain` takes
abbrev pub up_to : Option ℕ → ℕ → ℕ
up_to none n = n
up_to (some m) n = min m n

take_up_to-append :
    (max_items : Option ℕ) (taken : ℕ) (es : List AgentEvent)
    → (take_up_to max_items taken es).0 ++ (take_up_to max_items taken es).1 ≡ es
unfolding take_up_to
take_up_to-append max_items taken [] = refl
take_up_to-append max_items taken (e ∷ es) =
    ground (arith, take_up_to-append max_items (suc taken) es)

take_up_to-all :
    (taken : ℕ) (es : List AgentEvent) → length (take_up_to none taken es).0 ≡ length es
unfolding take_up_to
take_up_to-all taken [] = refl
take_up_to-all taken (e ∷ es) = ap suc (take_up_to-all (suc taken) es)

take_up_to-some :
    (m taken : ℕ) (es : List AgentEvent)
    → length (take_up_to (some m) taken es).0 ≡ min (m - taken) (length es)
unfolding take_up_to
take_up_to-some m taken [] = omega arith
take_up_to-some m taken (e ∷ es) = ground (arith, take_up_to-some m (suc taken) es)

take_up_to-length :
    (max_items : Option ℕ) (es : List AgentEvent)
    → length (take_up_to max_items 0 es).0 ≡ up_to max_items (length es)
take_up_to-length none es = take_up_to-all 0 es
take_up_to-length (some m) es = take_up_to-some m 0 es ∙ omega arith

module _ {H : Type 0} where
  find-IsInbox :
      (d : Dict ℕ) (n : ℕ) (ss : List (Subscription H)) (s : Subscription H)
      → find_subscription n ss ≡ some s
      → AreInboxes d ss
      → IsInbox d s
  unfolding find_subscription
  find-IsInbox d n [] s e i = absurd (ground arith)
  find-IsInbox d n (x ∷ xs) s e i = elim (Bool-cases (x.id == n)) [
    | inl q ↦ let found : some x ≡ some s = rw q at e in subst (IsInbox d) (ground arith) i.0
    | inr q ↦ find-IsInbox d n xs s (rw q at e) i.1
  ]

  set-AreInboxes :
      (d : Dict ℕ) (n : ℕ) (mailbox : List AgentEvent) (ss : List (Subscription H))
      → ((s : Subscription H)
          → find_subscription n ss ≡ some s
          → IsInbox d (record s { mailbox = mailbox }))
      → AreInboxes d ss
      → AreInboxes d (set_mailbox n mailbox ss)
  unfolding find_subscription set_mailbox
  set-AreInboxes d n mailbox [] h i = tt
  set-AreInboxes d n mailbox (x ∷ xs) h i = elim (Bool-cases (x.id == n)) [
    | inl q ↦ rw q (h x (rw q refl), i.1)
    | inr q ↦ rw q (i.0, set-AreInboxes d n mailbox xs (λ s found. h s (rw q found)) i.1)
  ]

  ids-set :
      (n : ℕ) (mailbox : List AgentEvent) (ss : List (Subscription H))
      → ids (set_mailbox n mailbox ss) ≡ ids ss
  unfolding set_mailbox
  ids-set n mailbox [] = refl
  ids-set n mailbox (s ∷ ss) = ground (arith, ids-set n mailbox ss)

  rest-IsInbox :
      (d : Dict ℕ) (s : Subscription H) (max_items : Option ℕ)
      → IsInbox d s
      → IsInbox d (record s { mailbox = (take_up_to max_items 0 s.mailbox).1 })
  unfolding matches
  rest-IsInbox d s max_items i = record {
    wanted = take_up_to-rest (AreWanted (matches s)) (λ e es h. h.1) max_items 0 s.mailbox i.wanted;
    ordered = λ r.
        take_up_to-rest (λ es. Ascend 1 (seqs_of r es) (suc (last_seq d r)))
          (λ e es h. Ascend-tail r e es 1 _ h) max_items 0 s.mailbox (i.ordered r);
  }

  pub drain-IsBus :
      (b : EventBus H) (n : ℕ) (max_items : Option ℕ) → IsBus b → IsBus (drain b n max_items).1
  unfolding drain
  drain-IsBus b n max_items i = elim (Option-cases (find_subscription n b.subscriptions)) [
    | inl missing ↦ rw missing i
    | inr (s, found) ↦ rw found (record {
      bounded = i.bounded;
      numbered = i.numbered;
      distinct =
          subst (λ l. Ascend 1 l b.next_subscription_id) (sym (ids-set n _ b.subscriptions))
            i.distinct;
      inboxes =
          set-AreInboxes b.seq_by_run n _ b.subscriptions (λ t found_t. rest_of t s found_t found)
            i.inboxes;
    })
  ]
    where
      rest_of :
          (t s : Subscription H)
          → find_subscription n b.subscriptions ≡ some t
          → find_subscription n b.subscriptions ≡ some s
          → IsInbox b.seq_by_run (record t { mailbox = (take_up_to max_items 0 s.mailbox).1 })
      rest_of t s found_t found_s =
          let same : t ≡ s = ground arith in
          subst
            (λ (u : Subscription H).
              IsInbox b.seq_by_run (record t { mailbox = (take_up_to max_items 0 u.mailbox).1 }))
            same
            (rest-IsInbox b.seq_by_run t max_items
              (find-IsInbox b.seq_by_run n b.subscriptions t found_t i.inboxes))

  find-set :
      (n : ℕ) (mailbox : List AgentEvent) (ss : List (Subscription H)) (s : Subscription H)
      → find_subscription n ss ≡ some s
      → find_subscription n (set_mailbox n mailbox ss) ≡ some (record s { mailbox = mailbox })
  unfolding find_subscription set_mailbox
  find-set n mailbox [] s h = absurd (ground arith)
  find-set n mailbox (x ∷ xs) s h = elim (Bool-cases (x.id == n)) [
    | inl q ↦
        let found : some x ≡ some s = rw q at h in
        let same : x ≡ s = ground arith in
        rw q (rw q (ap (λ (u : Subscription H). some (record u { mailbox = mailbox })) same))
    | inr q ↦ rw q (rw q (find-set n mailbox xs s (rw q at h)))
  ]

  -- `drain` takes the oldest events of a subscription's mailbox: what it takes and what it leaves are the
  -- mailbox, in order, and it takes all, or as many as are asked for if there are more. A subscription
  -- that is not there gives nothing and changes nothing.
  pub drain-takes :
      (b : EventBus H) (n : ℕ) (max_items : Option ℕ)
      → ((find_subscription n b.subscriptions ≡ none) × (drain b n max_items ≡ ([], b)))
        ⊎ ((s : Subscription H) × (rest : List AgentEvent) × (find_subscription n b.subscriptions
              ≡ some s)
            × ((drain b n max_items).0 ++ rest ≡ s.mailbox)
            × (length (drain b n max_items).0 ≡ up_to max_items (length s.mailbox))
            × (find_subscription n (drain b n max_items).1.subscriptions
                ≡ some (record s { mailbox = rest })))
  unfolding drain
  drain-takes b n max_items = elim (Option-cases (find_subscription n b.subscriptions)) [
    | inl missing ↦ inl (missing, rw missing refl)
    | inr (s, found) ↦ inr (
      s,
      (take_up_to max_items 0 s.mailbox).1,
      found,
      rw found (take_up_to-append max_items 0 s.mailbox),
      rw found (take_up_to-length max_items s.mailbox),
      rw found (find-set n _ b.subscriptions s found),
    )
  ]
