-- ===== src/Recovery/Justified.antt =====
-- Each decision of `inspect` has its reason in the history and in the journal.
use py_coding_agent.Prelude.{
  ◌≡◌, refl, sym, ap, subst, ◌⊎◌, inl, inr, String, true, false, Option, none, some, List, [], ◌∷◌,
  ◌++◌, eq_iff, Bool-cases, Option-cases, arith,
}
use py_coding_agent.Prelude.Dict.{Dict, lookup, contains}
use py_coding_agent.Result.{ok, bind-ok}
use py_coding_agent.Value.{Value}
use py_coding_agent.Message.History.{AreAmong}
use py_coding_agent.Storage.Rows.{SessionRecord}
use py_coding_agent.Storage.Checkpoints.{
  Checkpoint, ToolIntent, IntentStatus, is_planned, is_started,
}
use py_coding_agent.Recovery.Inspection.{
  stop, RecoveryPlan, Reason, fingerprint_mismatch, gather, call_ids_in, resolved_in, without,
  by_call, dangling, Sorted, stopped, sorted, add_pending, add_uncertain, by_status, sort_one,
  sort_calls, mismatch, sorted_plan, plan, decide, inspect,
}
use py_coding_agent.Recovery.Verdicts.{
  Partition, Verdict, dangles, disagrees, done, intent_calls, safe, unjournaled, unknown,
  was_planned, was_started,
}

-- where the loop over the open calls may end
data Ending (d : Dict ToolIntent) (unanswered : List String) : Sorted → Type 0 where
  lacks :
      (c : String) (reason : Reason)
      → contains c unanswered ≡ true
      → lookup c d ≡ none
      → Ending d unanswered (stopped reason)
  contradicts :
      (c : String) (i : ToolIntent) (reason : Reason)
      → contains c unanswered ≡ true
      → lookup c d ≡ some i
      → is_planned i.status ≡ false
      → is_started i.status ≡ false
      → Ending d unanswered (stopped reason)
  splits :
      (pending uncertain : List ToolIntent)
      → Partition d unanswered pending uncertain
      → Ending d unanswered (sorted pending uncertain)

dangling-AreAmong :
    (calls : List String) (intents : List ToolIntent)
    → dangling calls intents ≡ none
    → AreAmong calls (intent_calls intents)
unfolding dangling
dangling-AreAmong calls [] h = tt
dangling-AreAmong calls (i ∷ is) h = elim (Bool-cases (contains i.call_id calls)) [
  | inl q ↦ (q, dangling-AreAmong calls is (rw q at h))
  | inr q ↦ absurd (ground arith)
]

dangling-some :
    (calls : List String) (intents : List ToolIntent) (i : ToolIntent)
    → dangling calls intents ≡ some i
    → (before : List ToolIntent) × (after : List ToolIntent) × (intents ≡ before ++ i ∷ after)
      × (contains i.call_id calls ≡ false)
unfolding dangling
dangling-some calls [] i h = absurd (ground arith)
dangling-some calls (x ∷ xs) i h = elim (Bool-cases (contains x.call_id calls)) [
  | inl q ↦
      let (before, after, same, out) = dangling-some calls xs i (rw q at h) in
      (x ∷ before, after, ap (λ l. x ∷ l) same, out)
  | inr q ↦
      let same : x ≡ i = ground arith in
      (
        [],
        xs,
        ap (λ y. y ∷ xs) same,
        subst (λ (y : ToolIntent). contains y.call_id calls ≡ false) same q,
      )
]

contains-tail :
    (c k : String) (cs : List String) → contains k cs ≡ true → contains k (c ∷ cs) ≡ true
unfolding contains
contains-tail c k cs h = ground arith

contains-head : (c : String) (cs : List String) → contains c (c ∷ cs) ≡ true
unfolding contains
contains-head c cs = ground (arith, eq_iff c c)

-- one more call before the others, planned or started
planned-Ending :
    (d : Dict ToolIntent) (c : String) (cs : List String) (i : ToolIntent) (rest : Sorted)
    → lookup c d ≡ some i
    → i.status ≡ IntentStatus.planned
    → Ending d cs rest
    → Ending d (c ∷ cs) (add_pending i rest)
planned-Ending d c cs i (stopped reason) h s (lacks k _ in' none') =
    lacks k reason (contains-tail c k cs in') none'
planned-Ending d c cs i (stopped reason) h s (contradicts k j _ in' found p q) =
    contradicts k j reason (contains-tail c k cs in') found p q
planned-Ending d c cs i (sorted pending uncertain) h s (splits _ _ p) =
    splits (i ∷ pending) uncertain (was_planned c i h s p)

started-Ending :
    (d : Dict ToolIntent) (c : String) (cs : List String) (i : ToolIntent) (rest : Sorted)
    → lookup c d ≡ some i
    → i.status ≡ IntentStatus.started
    → Ending d cs rest
    → Ending d (c ∷ cs) (add_uncertain i rest)
started-Ending d c cs i (stopped reason) h s (lacks k _ in' none') =
    lacks k reason (contains-tail c k cs in') none'
started-Ending d c cs i (stopped reason) h s (contradicts k j _ in' found p q) =
    contradicts k j reason (contains-tail c k cs in') found p q
started-Ending d c cs i (sorted pending uncertain) h s (splits _ _ p) =
    splits pending (i ∷ uncertain) (was_started c i h s p)

status-Ending :
    (d : Dict ToolIntent) (c : String) (cs : List String) (i : ToolIntent) (rest : Sorted)
    (s : IntentStatus)
    → lookup c d ≡ some i
    → i.status ≡ s
    → Ending d cs rest
    → Ending d (c ∷ cs) (by_status c i rest s)
status-Ending d c cs i rest IntentStatus.planned h s e = planned-Ending d c cs i rest h s e
status-Ending d c cs i rest IntentStatus.started h s e = started-Ending d c cs i rest h s e
status-Ending d c cs i rest IntentStatus.completed h s e =
    contradicts c i _ (contains-head c cs) h (ap is_planned s) (ap is_started s)
status-Ending d c cs i rest IntentStatus.uncertain h s e =
    contradicts c i _ (contains-head c cs) h (ap is_planned s) (ap is_started s)
status-Ending d c cs i rest IntentStatus.resolved h s e =
    contradicts c i _ (contains-head c cs) h (ap is_planned s) (ap is_started s)
status-Ending d c cs i rest IntentStatus.abandoned h s e =
    contradicts c i _ (contains-head c cs) h (ap is_planned s) (ap is_started s)

one-Ending :
    (d : Dict ToolIntent) (c : String) (cs : List String) (rest : Sorted) (o : Option ToolIntent)
    → lookup c d ≡ o
    → Ending d cs rest
    → Ending d (c ∷ cs) (sort_one c rest o)
one-Ending d c cs rest none h e = lacks c _ (contains-head c cs) h
one-Ending d c cs rest (some i) h e = status-Ending d c cs i rest i.status h refl e

sort_calls-Ending :
    (d : Dict ToolIntent) (unanswered : List String) → Ending d unanswered (sort_calls d unanswered)
unfolding sort_calls
sort_calls-Ending d [] = splits [] [] done
sort_calls-Ending d (c ∷ cs) =
    one-Ending d c cs (sort_calls d cs) (lookup c d) refl (sort_calls-Ending d cs)

-- the plan of an ending
sorted_plan-Verdict :
    (r : SessionRecord) (checkpoint : Option Checkpoint) (intents : List ToolIntent)
    (calls unanswered : List String) (e : Sorted)
    → AreAmong calls (intent_calls intents)
    → Ending (by_call [] intents) unanswered e
    → Verdict intents calls unanswered
        (sorted_plan r checkpoint e).decision
        (sorted_plan r checkpoint e).pending_intents
        (sorted_plan r checkpoint e).uncertain_intents
unfolding plan
sorted_plan-Verdict r checkpoint intents calls unanswered (stopped reason) a (lacks c _ in' none') =
    unjournaled c in' none'
sorted_plan-Verdict r checkpoint intents calls unanswered (stopped reason) a
      (contradicts c i _ in' found p q) =
    disagrees c i in' found p q
sorted_plan-Verdict r checkpoint intents calls unanswered (sorted pending []) a (splits _ _ p) =
    safe pending a p
sorted_plan-Verdict r checkpoint intents calls unanswered (sorted pending (u ∷ us)) a
      (splits _ _ p) =
    unknown pending u us a p

pub decide-Verdict :
    (r : SessionRecord) (checkpoint : Option Checkpoint) (intents : List ToolIntent)
    (calls resolved : List String)
    → Verdict intents calls
        (without resolved calls)
        (decide r checkpoint intents calls resolved).decision
        (decide r checkpoint intents calls resolved).pending_intents
        (decide r checkpoint intents calls resolved).uncertain_intents
unfolding decide plan
decide-Verdict r checkpoint intents calls resolved = elim (Option-cases (dangling calls intents)) [
  | inl journaled ↦ rw journaled (
      sorted_plan-Verdict r checkpoint intents calls (without resolved calls) _
        (dangling-AreAmong calls intents journaled)
        (sort_calls-Ending (by_call [] intents) (without resolved calls)))
  | inr (i, found) ↦
      let (before, after, same, out) = dangling-some calls intents i found in
      rw found (dangles i before after same out)
]

-- Every plan of `inspect` is justified. Either the workspace's fingerprint is another than the
-- checkpoint's, and the decision is to stop. Or the fingerprints agree, and of the calls of the history
-- and those of them without a result one of these holds. To resume: the journal knows no call that the
-- history has not, and each call without a result was planned and not started; these intents are the
-- pending ones, in order. To reconcile: the same, but each such call was planned or started, at least one
-- of them started, and these are the uncertain ones. To stop: an intent is about a call that the history
-- has not, or a call without a result has no intent, or one that is neither planned nor started.
pub inspect-Verdict :
    (show : Value → String) (r : SessionRecord) (checkpoint : Option Checkpoint)
    (intents : List ToolIntent) (current : Option String) (p : RecoveryPlan)
    → inspect show r checkpoint intents current ≡ ok p
    → ((mismatch current checkpoint ≡ true) × (p.decision ≡ stop))
      ⊎ ((calls : List String) × (resolved : List String) × (mismatch current checkpoint ≡ false)
          × (gather (call_ids_in show) r.messages ≡ ok calls)
          × (gather (resolved_in show) r.messages ≡ ok resolved)
          × Verdict intents calls
              (without resolved calls)
              p.decision
              p.pending_intents
              p.uncertain_intents)
unfolding inspect plan
inspect-Verdict show r checkpoint intents current p h =
    elim (Bool-cases (mismatch current checkpoint)) [
      | inl q ↦
          let same : plan r checkpoint stop fingerprint_mismatch [] [] ≡ p =
            ground (arith, rw q at h) in
          inl (q, sym (ap (λ (x : RecoveryPlan). x.decision) same))
      | inr q ↦
          let (resolved, gathered, h1) =
            bind-ok (gather (resolved_in show) r.messages) _ p (rw q at h) in
          let (calls, called, h2) = bind-ok (gather (call_ids_in show) r.messages) _ p h1 in
          let same : decide r checkpoint intents calls resolved ≡ p = ground arith in
          inr (
            calls,
            resolved,
            q,
            called,
            gathered,
            subst
                (λ (x : RecoveryPlan).
                  Verdict intents calls (without resolved calls) x.decision x.pending_intents
                    x.uncertain_intents)
                same (decide-Verdict r checkpoint intents calls resolved),
          )
    ]
