-- ===== src/Recovery/Collision.antt =====
-- Two recoveries that reach the same version.
use py_coding_agent.Prelude.{
  ℕ, ◌≡◌, refl, sym, ap, ◌∙◌, inl, inr, String, Bool, true, Option, some, List, [], ◌∷◌, ◌++◌,
  eq_iff, Bool-cases, arith,
}
use py_coding_agent.Prelude.Text.{join}
use py_coding_agent.Result.{Result, ok, err, Result-cases}
use py_coding_agent.Value.{Value}
use py_coding_agent.Storage.Rows.{Database}
use py_coding_agent.Storage.Checkpoints.{
  Checkpoint, ToolIntent, IntentStatus, Journal, has_checkpoint, save, set_intent_status,
}
use py_coding_agent.Recovery.Inspection.{RecoveryError, checkpoint_exists}
use py_coding_agent.Recovery.Resolution.{saved, append_results, record_results, recovery_checkpoint}
use py_coding_agent.Recovery.Results.{RecoveryOutcome, Stores, Resolution, set_all}
use py_coding_agent.Recovery.Settled.{is_error, outcome_inj}

has_checkpoint-snoc :
    (c : Checkpoint) (cs : List Checkpoint) → has_checkpoint c.checkpoint_id (cs ++ c ∷ []) ≡ true
unfolding has_checkpoint
has_checkpoint-snoc c [] = ground (arith, eq_iff c.checkpoint_id c.checkpoint_id)
has_checkpoint-snoc c (x ∷ xs) = ground (arith, has_checkpoint-snoc c xs)

set_all-checkpoints :
    (session : String) (status : IntentStatus) (now : String) (is : List ToolIntent) (j : Journal)
    → (set_all session status now is j).checkpoints ≡ j.checkpoints
unfolding set_all set_intent_status
set_all-checkpoints session status now [] j = refl
set_all-checkpoints session status now (i ∷ is) j =
    set_all-checkpoints session status now is (set_intent_status session i.call_id status now j)

module _ (show : Value → String) (fromisoformat : String → Option Bool) (new_id : ℕ → String)
    (now : String) (parse : String → Option Value) (dumps : Value → Option String)
    (iterate : Value → Option (List Value)) (show_number : ℕ → String) where
  -- the checkpoint that a recovery has saved
  saved-has :
      (session : String) (is : List ToolIntent) (v : ℕ) (d : Database) (j : Journal)
      (stores' : Stores) (out : RecoveryOutcome)
      → saved show fromisoformat new_id now parse dumps iterate show_number session is v d j (
          save
            (recovery_checkpoint show fromisoformat new_id now parse dumps iterate show_number
              session v j)
            j)
        ≡ (ok out, stores')
      → has_checkpoint
          (join "ckpt_recovery_" (show_number out.session_version))
          stores'.journal.checkpoints
        ≡ true
  unfolding save
  saved-has session is v d j stores' out h =
      let c : Checkpoint =
        recovery_checkpoint show fromisoformat new_id now parse dumps iterate show_number session v
          j in
      elim (Bool-cases (has_checkpoint c.checkpoint_id j.checkpoints)) [
        | inl taken ↦ absurd (
            is_error checkpoint_exists
              (ap (λ (p : Result RecoveryError RecoveryOutcome × Stores). p.0) (rw taken at h)))
        | inr free ↦
            let fresh : saved show fromisoformat new_id now parse dumps iterate show_number session
                  is v d j (some (record j { checkpoints = j.checkpoints ++ c ∷ [] }))
                ≡ (ok out, stores') =
              rw free at h in
            let same_version : v ≡ out.session_version =
              ap (λ (x : RecoveryOutcome). x.session_version)
                (outcome_inj
                  (ap (λ (p : Result RecoveryError RecoveryOutcome × Stores). p.0) fresh)) in
            let same_checkpoints : j.checkpoints ++ c ∷ [] ≡ stores'.journal.checkpoints =
              ap (λ (p : Result RecoveryError RecoveryOutcome × Stores). p.1.journal.checkpoints)
                fresh in
            ap
              (λ n.
                has_checkpoint (join "ckpt_recovery_" (show_number n)) stores'.journal.checkpoints)
              (sym same_version)
            ∙ ap (has_checkpoint c.checkpoint_id) (sym same_checkpoints)
            ∙ has_checkpoint-snoc c j.checkpoints
      ]

  record_results-has :
      (session : String) (is : List ToolIntent) (how : Resolution) (stores stores' : Stores)
      (out : RecoveryOutcome)
      → record_results show fromisoformat new_id now parse dumps iterate show_number session is how
          stores
        ≡ (ok out, stores')
      → has_checkpoint
          (join "ckpt_recovery_" (show_number out.session_version))
          stores'.journal.checkpoints
        ≡ true
  unfolding record_results
  record_results-has session is how stores stores' out h =
      elim (Result-cases (
        append_results show fromisoformat new_id now parse dumps iterate show_number session is how
          stores.database)) [
            | inr (e, failed) ↦ absurd (
                is_error e (
                  ap (λ (p : Result RecoveryError RecoveryOutcome × Stores). p.0) (rw failed at h)))
            | inl ((v, d), written_all) ↦
                saved-has session is v d (set_all session how.new_status now is stores.journal)
                  stores' out (rw written_all at h)
          ]

  -- A checkpoint's id is made from the session's version alone. After a recovery that succeeded, take the
  -- recovery of any session whose results are appended and reach the same version. It raises an error of
  -- the database when it saves its checkpoint, and the results that it has appended stay.
  pub record_results-collides :
      (session other : String) (is others : List ToolIntent) (how how' : Resolution)
      (stores stores' : Stores) (out : RecoveryOutcome) (d : Database)
      → record_results show fromisoformat new_id now parse dumps iterate show_number session is how
          stores
        ≡ (ok out, stores')
      → append_results show fromisoformat new_id now parse dumps iterate show_number other others
          how' stores'.database
        ≡ ok (out.session_version, d)
      → (j : Journal) × (record_results show fromisoformat new_id now parse dumps iterate
            show_number other others how' stores'
          ≡ (err checkpoint_exists, record { database = d; journal = j }))
  unfolding record_results save
  record_results-collides session other is others how how' stores stores' out d h again =
      let j : Journal = set_all other how'.new_status now others stores'.journal in
      let taken : has_checkpoint (join "ckpt_recovery_" (show_number out.session_version))
            j.checkpoints
          ≡ true =
        ap (has_checkpoint (join "ckpt_recovery_" (show_number out.session_version)))
          (set_all-checkpoints other how'.new_status now others stores'.journal)
        ∙ record_results-has session is how stores stores' out h in
      (j, rw again (rw taken refl))
