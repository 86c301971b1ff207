-- ===== src/Recovery/Settled.antt =====
-- What `resume` leaves behind.
use mathlib.Core.List.{append-nil}
use py_coding_agent.Prelude.{
  ℕ, ◌≡◌, refl, sym, ap, subst, ◌∙◌, inl, inr, String, Bool, true, Option, none, some, List, [],
  ◌∷◌, ◌++◌, map, arith,
}
use py_coding_agent.Result.{Result, ok, err, bind-ok, Result-cases}
use py_coding_agent.Value.{Value, obj}
use py_coding_agent.Message.History.{AreAmong}
use py_coding_agent.Storage.Sessions.{load, append}
use py_coding_agent.Storage.Rows.{Database, SessionRecord, StoreError}
use py_coding_agent.Storage.Appending.{load-append}
use py_coding_agent.Storage.Loaded.{load-session_id}
use py_coding_agent.Storage.Checkpoints.{Checkpoint, ToolIntent, Journal, save, all_intents}
use py_coding_agent.Recovery.Inspection.{
  RecoveryDecision, resume_run, stop, RecoveryPlan, RecoveryError, checkpoint_exists, gather,
  call_ids_in, resolved_in, without, by_call, inspect,
}
use py_coding_agent.Recovery.Justified.{inspect-Verdict}
use py_coding_agent.Recovery.Verdicts.{Partition, intent_calls}
use py_coding_agent.Recovery.Plans.{
  gather-append, Partition-AreAmong, Partition-nil, Verdict-resume, inspect-names, ok_inj,
  without-AreAmong, payloads-ids,
}
use py_coding_agent.Recovery.Resolution.{
  payloads, append_results, record_results, saved, resume_by, resume_pending, resume,
}
use py_coding_agent.Recovery.Results.{
  RecoveryOutcome, Stores, Resolution, not_executed, lift_store, set_all,
}

pub is_error :
    {out : RecoveryOutcome} (e : RecoveryError)
    → Path (Result RecoveryError RecoveryOutcome) (err e) (ok out)
    → ⊥
is_error {out} e h = ground arith

pub outcome_inj :
    {a b : RecoveryOutcome} → Path (Result RecoveryError RecoveryOutcome) (ok a) (ok b) → a ≡ b
outcome_inj {a} {b} h = ground arith

lift_store-ok : {A : Type 0} (m : Result StoreError A) (a : A) → lift_store m ≡ ok a → m ≡ ok a
lift_store-ok (ok b) a h = ground arith
lift_store-ok (err e) a h = absurd (ground arith)

-- a session with a version that can be read, whose calls are these and all have results
pub record IsSettled (show : Value → String) (read_session : Result StoreError SessionRecord)
    (calls : List String) (version : ℕ) : Type 0 where
  pub session : SessionRecord
  pub resolved : List String
  pub readable : read_session ≡ ok session
  pub current : session.version ≡ version
  pub made : gather (call_ids_in show) session.messages ≡ ok calls
  pub answered : gather (resolved_in show) session.messages ≡ ok resolved
  pub none_left : without resolved calls ≡ []

module _ (show : Value → String) (fromisoformat : String → Option Bool) (new_id : ℕ → String)
    (now : String) (parse : String → Option Value) (dumps : Value → Option String)
    (iterate : Value → Option (List Value)) (show_number : ℕ → String) where
  saved-ok :
      (session : String) (is : List ToolIntent) (v : ℕ) (d : Database) (j : Journal)
      (o : Option Journal) (stores' : Stores) (out : RecoveryOutcome)
      → saved show fromisoformat new_id now parse dumps iterate show_number session is v d j o
        ≡ (ok out, stores')
      → (v ≡ out.session_version) × (d ≡ stores'.database)
  saved-ok session is v d j none stores' out h = absurd (
      is_error checkpoint_exists
        (ap (λ (p : Result RecoveryError RecoveryOutcome × Stores). p.0) h))
  saved-ok session is v d j (some j') stores' out h =
      let outcome =
        outcome_inj (ap (λ (p : Result RecoveryError RecoveryOutcome × Stores). p.0) h) in
      (
        ap (λ (x : RecoveryOutcome). x.session_version) outcome,
        ap (λ (p : Result RecoveryError RecoveryOutcome × Stores). p.1.database) h,
      )

  record_results-ok :
      (session : String) (is : List ToolIntent) (how : Resolution) (stores stores' : Stores)
      (out : RecoveryOutcome)
      → record_results show fromisoformat new_id now parse dumps iterate show_number session is how
          stores
        ≡ (ok out, stores')
      → append_results show fromisoformat new_id now parse dumps iterate show_number session is how
          stores.database
        ≡ ok (out.session_version, stores'.database)
  unfolding record_results
  record_results-ok session is how stores stores' out h =
      elim (Result-cases (
        append_results show fromisoformat new_id now parse dumps iterate show_number session is how
          stores.database)) [
            | inr (e, failed) ↦ absurd (
                is_error e (
                  ap (λ (p : Result RecoveryError RecoveryOutcome × Stores). p.0) (rw failed at h)))
            | inl ((v, d), written_all) ↦
                let j : Journal = set_all session how.new_status now is stores.journal in
                let (same_version, same_database) =
                  saved-ok session is v d j (save _ j) stores' out (rw written_all at h) in
                written_all
                ∙ ap (λ n. ok (n, d)) same_version
                ∙ ap (λ x. ok (out.session_version, x)) same_database
          ]

  module _ (written : (v : Value) (text : String) → dumps v ≡ some text → parse text ≡ some v) where
    append_results-IsSettled :
        (session : String) (is : List ToolIntent) (how : Resolution) (d d' : Database) (v : ℕ)
        (r : SessionRecord) (calls resolved : List String)
        → append_results show fromisoformat new_id now parse dumps iterate show_number session is
            how d
          ≡ ok (v, d')
        → load parse dumps iterate session true d ≡ ok r
        → r.filtered_tail ≡ 0
        → gather (call_ids_in show) r.messages ≡ ok calls
        → gather (resolved_in show) r.messages ≡ ok resolved
        → AreAmong (intent_calls is) (without resolved calls)
        → IsSettled show (load parse dumps iterate session true d') calls v
    unfolding append_results
    append_results-IsSettled session is how d d' v r calls resolved h loaded whole called gathered
          among =
        let (ms, paid, h1) =
          bind-ok (payloads show fromisoformat new_id now session how r.messages 0 is) _ (v, d')
            (rw loaded at h) in
        let stored =
          lift_store-ok
            (append parse dumps iterate session r.version (record { messages = ms; summaries = [] })
              d)
            (v, d') h1 in
        let (next, again) =
          load-append parse dumps iterate written session true ms d d' v r loaded whole stored in
        let (no_calls, answers) =
          payloads-ids show fromisoformat new_id now session how r.messages 0 is ms paid in
        record {
          session = record r { version = v; messages = r.messages ++ map obj ms };
          resolved = resolved ++ intent_calls is;
          readable = again;
          current = refl;
          made =
              gather-append (call_ids_in show) r.messages (map obj ms) calls [] called no_calls
              ∙ ap ok (append-nil calls);
          answered =
              gather-append (resolved_in show) r.messages (map obj ms) resolved (intent_calls is)
                gathered answers;
          none_left = without-AreAmong resolved (intent_calls is) calls among;
        }

    resume_pending-IsSettled :
        (p : RecoveryPlan) (pending : List ToolIntent) (stores stores' : Stores)
        (out : RecoveryOutcome) (r : SessionRecord) (calls resolved : List String)
        → resume_pending show fromisoformat new_id now parse dumps iterate show_number p stores
            pending
          ≡ (ok out, stores')
        → p.session_version ≡ r.version
        → load parse dumps iterate p.session_id true stores.database ≡ ok r
        → r.filtered_tail ≡ 0
        → gather (call_ids_in show) r.messages ≡ ok calls
        → gather (resolved_in show) r.messages ≡ ok resolved
        → (intents : List ToolIntent)
        → Partition (by_call [] intents) (without resolved calls) pending []
        → IsSettled show
            (load parse dumps iterate p.session_id true stores'.database)
            calls
            out.session_version
    resume_pending-IsSettled p [] stores stores' out r calls resolved h version loaded whole called
          gathered intents part =
        let outcome =
          outcome_inj (ap (λ (q : Result RecoveryError RecoveryOutcome × Stores). q.0) h) in
        record {
          session = r;
          resolved = resolved;
          readable =
              ap
                (λ (q : Result RecoveryError RecoveryOutcome × Stores).
                  load parse dumps iterate p.session_id true q.1.database)
                (sym h)
              ∙ loaded;
          current = sym version ∙ ap (λ (x : RecoveryOutcome). x.session_version) outcome;
          made = called;
          answered = gathered;
          none_left = Partition-nil intents (without resolved calls) part;
        }
    resume_pending-IsSettled p (i ∷ is) stores stores' out r calls resolved h version loaded whole
          called gathered intents part =
        append_results-IsSettled p.session_id (i ∷ is) not_executed stores.database stores'.database
          out.session_version r calls resolved
          (record_results-ok p.session_id (i ∷ is) not_executed stores stores' out h) loaded whole
          called gathered (Partition-AreAmong intents (without resolved calls) (i ∷ is) part)

    -- Resuming settles the session. Take a session that can be read in full, and the plan to resume that
    -- `inspect` makes for it. If `resume` returns, the session can be read again, at the version that
    -- `resume` returns; it has the same calls as before, and each of them now has a result. It is assumed
    -- that `json.loads` reads what `json.dumps` writes.
    pub resume-IsSettled :
        (session : String) (checkpoint : Option Checkpoint) (current : Option String)
        (stores stores' : Stores) (r : SessionRecord) (p : RecoveryPlan) (out : RecoveryOutcome)
        (calls : List String)
        → load parse dumps iterate session true stores.database ≡ ok r
        → r.filtered_tail ≡ 0
        → gather (call_ids_in show) r.messages ≡ ok calls
        → inspect show r checkpoint (all_intents session stores.journal) current ≡ ok p
        → p.decision ≡ resume_run
        → resume show fromisoformat new_id now parse dumps iterate show_number p stores
          ≡ (ok out, stores')
        → IsSettled show
            (load parse dumps iterate session true stores'.database)
            calls
            out.session_version
    unfolding resume
    resume-IsSettled session checkpoint current stores stores' r p out calls loaded whole called
          inspected decided resumed =
        let (same_id, same_version) =
          inspect-names show r checkpoint (all_intents session stores.journal) current p
            inspected in
        let same_session : p.session_id ≡ session =
          same_id ∙ load-session_id parse dumps iterate session true stores.database r loaded in
        elim (inspect-Verdict show r checkpoint (all_intents session stores.journal) current p
          inspected) [
            | inl (q, stopped') ↦ absurd (not_stop p.decision decided stopped')
            | inr (calls', resolved, q, called', gathered, verdict) ↦
                let same_calls : calls' ≡ calls = ok_inj (sym called' ∙ called) in
                let part =
                  Verdict-resume (all_intents session stores.journal) calls'
                    (without resolved calls') p.decision p.pending_intents p.uncertain_intents
                    verdict decided in
                let unfolded : resume_pending show fromisoformat new_id now parse dumps iterate
                      show_number p stores p.pending_intents
                    ≡ (ok out, stores') =
                  subst
                    (λ x.
                      resume_by show fromisoformat new_id now parse dumps iterate show_number p
                        stores x
                      ≡ (ok out, stores'))
                    decided resumed in
                subst
                  (λ x.
                    IsSettled show (load parse dumps iterate x true stores'.database) calls
                      out.session_version)
                  same_session
                  (resume_pending-IsSettled p p.pending_intents stores stores' out r calls resolved
                    unfolded same_version
                    (ap (λ x. load parse dumps iterate x true stores.database) same_session
                      ∙ loaded)
                    whole called gathered (all_intents session stores.journal)
                    (subst
                      (λ l.
                        Partition (by_call [] (all_intents session stores.journal))
                          (without resolved l) p.pending_intents [])
                      same_calls part))
          ]
      where
        not_stop : (d : RecoveryDecision) → d ≡ resume_run → d ≡ stop → ⊥
        not_stop d h k = ground arith
