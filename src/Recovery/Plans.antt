-- ===== src/Recovery/Plans.antt =====
-- Plans to resume, the calls that they are about, and the results that are recorded for them.
use mathlib.Core.List.{append_assoc}
use py_coding_agent.Prelude.{
  ℕ, suc, ◌≡◌, refl, sym, ap, subst, ◌∙◌, inl, inr, String, Bool, true, Option, some, List, [], ◌∷◌,
  ◌++◌, map, eq_iff, Bool-cases, Option-cases, arith,
}
use py_coding_agent.Prelude.Dict.{Dict, lookup, insert, lookup-insert, contains}
use py_coding_agent.Result.{Result, ok, bind-ok}
use py_coding_agent.Value.{Value, Fields, obj, get_field}
use py_coding_agent.Message.{tool_result}
use py_coding_agent.Message.Dicts.{message_to_dict}
use py_coding_agent.Message.History.{AreAmong, contains-append}
use py_coding_agent.Storage.Rows.{SessionRecord}
use py_coding_agent.Storage.Checkpoints.{Checkpoint, ToolIntent}
use py_coding_agent.Recovery.Inspection.{
  RecoveryDecision, resume_run, stop, fingerprint_mismatch, mismatch, plan, sorted_plan, decide,
  dangling, Sorted, stopped, sorted, RecoveryPlan, RecoveryError, gather, call_ids_in, resolved_in,
  without, by_call, inspect,
}
use py_coding_agent.Recovery.Verdicts.{
  Partition, done, was_planned, Verdict, safe, dangles, unjournaled, disagrees, unknown,
  intent_calls,
}
use py_coding_agent.Recovery.Resolution.{turn_of_call, payloads}
use py_coding_agent.Recovery.Results.{Resolution, result_for, fields_or_end}

pub gather-append :
    (read : Value → Result RecoveryError (List String)) (ms ns : List Value) (xs ys : List String)
    → gather read ms ≡ ok xs
    → gather read ns ≡ ok ys
    → gather read (ms ++ ns) ≡ ok (xs ++ ys)
unfolding gather
gather-append read [] ns xs ys h k =
    let none_read : [] ≡ xs = ground arith in subst (λ l. gather read ns ≡ ok (l ++ ys)) none_read k
gather-append read (m ∷ ms) ns xs ys h k =
    let (here, first, h1) = bind-ok (read m) _ xs h in
    let (rest, more, h2) = bind-ok (gather read ms) _ xs h1 in
    let all : here ++ rest ≡ xs = ground arith in
    rw first (
      rw (gather-append read ms ns rest ys more k)
        (ap ok (sym (append_assoc here rest ys) ∙ ap (λ l. l ++ ys) all)))

-- each intent in the dict is under its call
by_call-lookup :
    (d : Dict ToolIntent) (is : List ToolIntent) (c : String) (i : ToolIntent)
    → ((k : String) (j : ToolIntent) → lookup k d ≡ some j → j.call_id ≡ k)
    → lookup c (by_call d is) ≡ some i
    → i.call_id ≡ c
unfolding by_call
by_call-lookup d [] c i h e = h c i e
by_call-lookup d (x ∷ xs) c i h e = by_call-lookup (insert x.call_id x d) xs c i inserted e
  where
    inserted :
        (k : String) (j : ToolIntent) → lookup k (insert x.call_id x d) ≡ some j → j.call_id ≡ k
    inserted k j found = ground (arith, lookup-insert x.call_id k x d, eq_iff x.call_id k, h k j)

call_of-lookup :
    (is : List ToolIntent) (c : String) (i : ToolIntent)
    → lookup c (by_call [] is) ≡ some i
    → i.call_id ≡ c
unfolding lookup
call_of-lookup is c i = by_call-lookup [] is c i (λ k j h. absurd (ground arith))

AreAmong-more : (x : String) (set cs : List String) → AreAmong set cs → AreAmong (x ∷ set) cs
unfolding contains
AreAmong-more x set [] h = tt
AreAmong-more x set (c ∷ cs) h = (ground arith, AreAmong-more x set cs h.1)

-- the pending intents are about all calls without a result
pub Partition-AreAmong :
    (is : List ToolIntent) (unanswered : List String) (pending : List ToolIntent)
    → Partition (by_call [] is) unanswered pending []
    → AreAmong (intent_calls pending) unanswered
unfolding contains
Partition-AreAmong is [] [] done = tt
Partition-AreAmong is [] (i ∷ pending) p = elim p [ ]
Partition-AreAmong is (c ∷ cs) [] p = elim p [ ]
Partition-AreAmong is (_ ∷ cs) (_ ∷ pending) (was_planned c i found s rest) = (
  ground (arith, call_of-lookup is c i found, eq_iff i.call_id c),
  AreAmong-more i.call_id (intent_calls pending) cs (Partition-AreAmong is cs pending rest),
)

pub Partition-nil :
    (is : List ToolIntent) (unanswered : List String)
    → Partition (by_call [] is) unanswered [] []
    → unanswered ≡ []
Partition-nil is [] p = refl
Partition-nil is (c ∷ cs) p = elim p [ ]

-- a verdict to resume
pub Verdict-resume :
    (intents : List ToolIntent) (calls unanswered : List String) (decision : RecoveryDecision)
    (pending uncertain : List ToolIntent)
    → Verdict intents calls unanswered decision pending uncertain
    → decision ≡ resume_run
    → Partition (by_call [] intents) unanswered pending []
Verdict-resume intents calls unanswered _ _ _ (dangles i before after same out) h =
    absurd (ground arith)
Verdict-resume intents calls unanswered _ _ _ (unjournaled c in' none') h = absurd (ground arith)
Verdict-resume intents calls unanswered _ _ _ (disagrees c i in' found p q) h =
    absurd (ground arith)
Verdict-resume intents calls unanswered _ _ _ (unknown pending u us a p) h = absurd (ground arith)
Verdict-resume intents calls unanswered _ _ _ (safe pending a p) h = p

-- a plan names the session and its version
sorted_plan-names :
    (r : SessionRecord) (checkpoint : Option Checkpoint) (e : Sorted)
    → ((sorted_plan r checkpoint e).session_id ≡ r.session_id)
      × ((sorted_plan r checkpoint e).session_version ≡ r.version)
unfolding plan
sorted_plan-names r checkpoint (stopped reason) = (refl, refl)
sorted_plan-names r checkpoint (sorted pending []) = (refl, refl)
sorted_plan-names r checkpoint (sorted pending (u ∷ us)) = (refl, refl)

decide-names :
    (r : SessionRecord) (checkpoint : Option Checkpoint) (intents : List ToolIntent)
    (calls resolved : List String)
    → ((decide r checkpoint intents calls resolved).session_id ≡ r.session_id)
      × ((decide r checkpoint intents calls resolved).session_version ≡ r.version)
unfolding decide plan
decide-names r checkpoint intents calls resolved = elim (Option-cases (dangling calls intents)) [
  | inl journaled ↦ rw journaled (sorted_plan-names r checkpoint _)
  | inr (i, found) ↦ rw found (refl, refl)
]

pub inspect-names :
    (show : Value → String) (r : SessionRecord) (checkpoint : Option Checkpoint)
    (intents : List ToolIntent) (current : Option String) (p : RecoveryPlan)
    → inspect show r checkpoint intents current ≡ ok p
    → (p.session_id ≡ r.session_id) × (p.session_version ≡ r.version)
unfolding inspect plan
inspect-names show r checkpoint intents current p h =
    elim (Bool-cases (mismatch current checkpoint)) [
      | inl q ↦
          let same : plan r checkpoint stop fingerprint_mismatch [] [] ≡ p =
            ground (arith, rw q at h) in
          (
            sym (ap (λ (x : RecoveryPlan). x.session_id) same),
            sym (ap (λ (x : RecoveryPlan). x.session_version) same),
          )
      | inr q ↦
          let (resolved, gathered, h1) =
            bind-ok (gather (resolved_in show) r.messages) _ p (rw q at h) in
          let (calls, called, h2) = bind-ok (gather (call_ids_in show) r.messages) _ p h1 in
          let same : decide r checkpoint intents calls resolved ≡ p = ground arith in
          subst
            (λ (x : RecoveryPlan). (x.session_id ≡ r.session_id) × (x.session_version ≡ r.version))
            same (decide-names r checkpoint intents calls resolved)
    ]

pub ok_inj : {E A : Type 0} {a b : A} → Path (Result E A) (ok a) (ok b) → a ≡ b
ok_inj {E} {A} {a} {b} h = ground arith

-- with results for all of them, no call is without one
pub without-AreAmong :
    (resolved more calls : List String)
    → AreAmong more (without resolved calls)
    → without (resolved ++ more) calls ≡ []
unfolding without
without-AreAmong resolved more [] h = refl
without-AreAmong resolved more (c ∷ cs) h = elim (Bool-cases (contains c resolved)) [
  | inl q ↦
      let in_both : contains c (resolved ++ more) ≡ true =
        contains-append c resolved more ∙ ground arith in
      rw in_both (without-AreAmong resolved more cs (rw q at h))
  | inr q ↦
      let among : AreAmong more (c ∷ without resolved cs) = rw q at h in
      let in_both : contains c (resolved ++ more) ≡ true =
        contains-append c resolved more ∙ ground arith in
      rw in_both (without-AreAmong resolved more cs among.1)
]

module _ (show : Value → String) (fromisoformat : String → Option Bool) (new_id : ℕ → String)
    (now : String) where
  -- the new messages make no call, and answer the intents' calls
  pub payloads-ids :
      (session : String) (how : Resolution) (ms : List Value) (n : ℕ) (is : List ToolIntent)
      (ps : List Fields)
      → payloads show fromisoformat new_id now session how ms n is ≡ ok ps
      → (gather (call_ids_in show) (map obj ps) ≡ ok [])
        × (gather (resolved_in show) (map obj ps) ≡ ok (intent_calls is))
  unfolding payloads gather message_to_dict call_ids_in resolved_in get_field
  payloads-ids session how ms n [] ps h =
      let nothing : [] ≡ ps = ground arith in
      subst
        (λ l.
          (gather (call_ids_in show) (map obj l) ≡ ok [])
          × (gather (resolved_in show) (map obj l) ≡ ok []))
        nothing (refl, refl)
  payloads-ids session how ms n (i ∷ is) ps h =
      let (turn, found, h1) = bind-ok (turn_of_call show fromisoformat i.call_id ms) _ ps h in
      let (rest, more, h2) =
        bind-ok (payloads show fromisoformat new_id now session how ms (suc n) is) _ ps h1 in
      let all : fields_or_end
              (message_to_dict (tool_result (result_for now session how i turn (new_id n))))
            ∷ rest
          ≡ ps =
        ground arith in
      let (no_calls, answers) = payloads-ids session how ms (suc n) is rest more in
      subst
        (λ l.
          (gather (call_ids_in show) (map obj l) ≡ ok [])
          × (gather (resolved_in show) (map obj l) ≡ ok (intent_calls (i ∷ is))))
        all (rw no_calls refl, rw answers refl)
