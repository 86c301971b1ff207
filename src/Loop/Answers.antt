-- ===== src/Loop/Answers.antt =====
-- The tool calls of a response and their results in the log.
use py_coding_agent.Prelude.{
  String, Bool, true, false, ◌≡◌, refl, ap, inl, inr, List, [], ◌∷◌, leb, if◌then◌else◌, is_some,
  arith, Option-cases,
}
use py_coding_agent.Result.{ok, Result-cases}
use py_coding_agent.State.{StopReason}
use py_coding_agent.Message.{Message, tool_result, ToolCall, ToolResult}
use py_coding_agent.Message.Log.{MessageLog, append, find_result}
use py_coding_agent.Message.WellFormed.{IsValid}
use py_coding_agent.Message.Append.{append-IsValid, results_final}
use py_coding_agent.Provider.{ToolOutcome, ModelResponse}
use py_coding_agent.Exec.Keeps.{
  Outcome, Triple, Triple-and, Triple-bind, Triple-if, Triple-map, Triple-pure, Keeps-gets,
  Keeps-modify, Keeps-bind, Keeps-pure,
}
use py_coding_agent.Loop.Types.{RunLimits, Services, LoopState, Batch}
use py_coding_agent.Loop.Actions.{M, commit, commit_result, cancelled}
use py_coding_agent.Loop.Frame.{
  Frame, both-Frame, Holds, new_meta-Holds, emit-Holds, boundary-Holds, publish-Holds, move-Holds,
  commit-Holds, ask_abort-Holds,
}
use py_coding_agent.Loop.Steps.{
  cancel_pending-Holds, start_call-Holds, after_call-Holds, after_batch-Holds, conclude-Holds,
}
use py_coding_agent.Loop.Whole.{IsUncounted, run_batch-Holds}
use py_coding_agent.Loop.Batch.{
  insert_call, sort_calls, cancel_pending, finish_call, perform_call, run_batch,
}
use py_coding_agent.Loop.Turn.{act, by_calls, by_stop_reason, respond}

answer_kept :
    (log log' : MessageLog) (m : Message) (k : String)
    → append log m ≡ ok log'
    → IsValid log
    → is_some (find_result log k) ≡ true
    → is_some (find_result log' k) ≡ true
answer_kept log log' m k e v h = elim (Option-cases (find_result log k)) [
  | inl e' ↦ absurd (ground arith)
  | inr (r, found) ↦ ap is_some ((results_final log log' m v e).0 k r found)
]

module _ {W : Type 0} where
  abbrev pub HasLog : LoopState W → Type 0
  HasLog s = IsValid s.log

  abbrev HasAnswer : String → LoopState W → Type 0
  HasAnswer k s = IsValid s.log × (is_some (find_result s.log k) ≡ true)

  -- the log is valid and has a result for each of these calls
  abbrev pub AreAnswered : List ToolCall → LoopState W → Type 0
  AreAnswered [] s = IsValid s.log
  AreAnswered (c ∷ cs) s = HasAnswer c.id s × AreAnswered cs s

  -- `m`, if it returns, does so with `Q`
  abbrev Leads : {A : Type 0} → (LoopState W → Type 0) → M W A → (LoopState W → Type 0) → Type 0
  Leads P m Q = Triple P m (λ _. Q) (λ e s. Unit)

  kept : {A : Type 0} {P : LoopState W → Type 0} {m : M W A} → Holds P m → Leads P m P
  kept h = Triple-map (λ s p. p) (λ a s p. p) (λ e s p. tt) h

  HasLog-Frame : Frame HasLog
  HasLog-Frame = record {
    said = λ s n q p. p;
    moved = λ s next t status reason id e p. p;
    asked = λ s next reason e p. p;
    logged = λ s log m e p. (append-IsValid s.log log m p e).0;
    shared = λ s sh p. p;
    limited = λ s limit p. p;
    texted = λ s text p. p;
  }

  HasAnswer-Frame : (k : String) → Frame (HasAnswer k)
  HasAnswer-Frame k = record {
    said = λ s n q p. p;
    moved = λ s next t status reason id e p. p;
    asked = λ s next reason e p. p;
    logged =
        λ s log m e p. ((append-IsValid s.log log m p.0 e).0, answer_kept s.log log m k e p.0 p.1);
    shared = λ s sh p. p;
    limited = λ s limit p. p;
    texted = λ s text p. p;
  }

  HasAnswer-IsUncounted : (k : String) → IsUncounted (HasAnswer k)
  HasAnswer-IsUncounted k = record {
    turned = λ s n p. p;
    used = λ s n p. p;
    asked = λ s n p. p;
    invoked = λ s id p. p;
    requested = λ s p. p;
  }

  AreAnswered-Frame : (cs : List ToolCall) → Frame (AreAnswered cs)
  AreAnswered-Frame [] = HasLog-Frame
  AreAnswered-Frame (c ∷ cs) = both-Frame (HasAnswer-Frame c.id) (AreAnswered-Frame cs)

  AreAnswered-HasLog : (cs : List ToolCall) (s : LoopState W) → AreAnswered cs s → HasLog s
  AreAnswered-HasLog [] s p = p
  AreAnswered-HasLog (c ∷ cs) s p = p.0.0

  insert_split :
      (b : Bool) (c d : ToolCall) (ds rest : List ToolCall) (s : LoopState W)
      → (AreAnswered rest s → HasAnswer c.id s × AreAnswered ds s)
      → AreAnswered (if b then c ∷ d ∷ ds else d ∷ rest) s
      → HasAnswer c.id s × AreAnswered (d ∷ ds) s
  insert_split true c d ds rest s f p = p
  insert_split false c d ds rest s f p = let (a, r) = f p.1 in (a, (p.0, r))

  AreAnswered-insert :
      (c : ToolCall) (cs : List ToolCall) (s : LoopState W)
      → AreAnswered (insert_call c cs) s
      → HasAnswer c.id s × AreAnswered cs s
  unfolding insert_call
  AreAnswered-insert c [] s p = p
  AreAnswered-insert c (d ∷ ds) s p =
      insert_split (leb c.ordinal d.ordinal) c d ds (insert_call c ds) s (AreAnswered-insert c ds s)
        p

  AreAnswered-sort :
      (cs : List ToolCall) (s : LoopState W) → AreAnswered (sort_calls cs) s → AreAnswered cs s
  unfolding sort_calls
  AreAnswered-sort [] s p = p
  AreAnswered-sort (c ∷ cs) s p =
      let (a, rest) = AreAnswered-insert c (sort_calls cs) s p in (a, AreAnswered-sort cs s rest)

  commit-HasAnswer :
      (r : ToolResult) → Leads HasLog (commit (tool_result r)) (HasAnswer r.tool_call_id)
  unfolding commit
  commit-HasAnswer r = record {
    at = λ s v. elim (Result-cases (append s.log (tool_result r))) [
      | inl (log, e) ↦ rw e (
        (append-IsValid s.log log (tool_result r) v e).0,
        ap is_some ((results_final s.log log (tool_result r) v e).2 r refl),
      )
      | inr (why, e) ↦ rw e tt
    ];
  }

module _ (env : Services) (limits : RunLimits) where
  open env use {World}

  commit_result-HasAnswer :
      (c : ToolCall) (o : ToolOutcome) → Leads HasLog (commit_result env c o) (HasAnswer c.id)
  unfolding commit_result
  commit_result-HasAnswer c o = Triple-bind (kept (new_meta-Holds env HasLog-Frame)) λ meta.
      Triple-bind (commit-HasAnswer _) λ _.
        Triple-bind (kept (emit-Holds (HasAnswer-Frame c.id) _))
          λ _. kept (boundary-Holds (HasAnswer-Frame c.id) _)

  cancel_pending-AreAnswered :
      (o : ToolOutcome) (cs : List ToolCall)
      → Leads HasLog (cancel_pending env limits o cs) (AreAnswered cs)
  unfolding cancel_pending
  cancel_pending-AreAnswered o [] = Triple-pure tt (λ s p. p)
  cancel_pending-AreAnswered o (c ∷ cs) = Triple-bind (commit_result-HasAnswer c o) λ _.
      Triple-bind (kept (publish-Holds (HasAnswer-Frame c.id) _)) λ _.
        Triple-map (λ s p. (p, p.0)) (λ a s p. p) (λ e s p. tt)
          (Triple-and (kept (cancel_pending-Holds env limits (HasAnswer-Frame c.id) o cs))
            (cancel_pending-AreAnswered o cs))

  perform_call-HasAnswer :
      (c : ToolCall) → Leads HasLog (perform_call env limits c) (HasAnswer c.id)
  unfolding perform_call finish_call
  perform_call-HasAnswer c =
      Triple-bind (kept (start_call-Holds env limits HasLog-Frame (λ s id p. p) c)) λ outcome.
        Triple-bind (kept (Keeps-modify {P = HasLog} _ (λ s p. p))) λ _.
          Triple-bind (kept (move-Holds HasLog-Frame _ _ _ _)) λ _.
            Triple-bind (commit_result-HasAnswer c outcome)
              λ _. kept (publish-Holds (HasAnswer-Frame c.id) _)

  run_batch-AreAnswered :
      (cs : List ToolCall) → Leads HasLog (run_batch env limits cs) (AreAnswered cs)
  unfolding run_batch
  run_batch-AreAnswered [] = Triple-pure Batch.completed (λ s p. p)
  run_batch-AreAnswered (c ∷ cs) = Triple-bind (kept (Keeps-gets cancelled)) λ stopped.
      Triple-bind (kept (Keeps-gets _)) λ used.
        Triple-if stopped
          (λ _.
            Triple-bind (cancel_pending-AreAnswered _ (c ∷ cs))
              λ _. Triple-pure Batch.aborted (λ s p. p))
          (λ _.
            Triple-if (leb limits.max_tool_calls used)
              (λ _. Triple-bind (cancel_pending-AreAnswered _ (c ∷ cs)) λ _.
                Triple-bind
                  (kept (
                    Keeps-modify {P = AreAnswered (c ∷ cs)} _
                      (λ s p. (AreAnswered-Frame (c ∷ cs)).limited s _ p)))
                  λ _. Triple-pure Batch.budget_hit (λ s p. p))
              (λ _. Triple-bind (perform_call-HasAnswer c) λ _.
                Triple-bind (kept (after_call-Holds env limits (HasAnswer-Frame c.id) cs)) λ _.
                  Triple-map (λ s p. (p, p.0)) (λ a s p. p) (λ e s p. tt)
                    (Triple-and
                      (kept (
                        run_batch-Holds env limits (HasAnswer-Frame c.id)
                          (HasAnswer-IsUncounted c.id) cs))
                      (run_batch-AreAnswered cs))))

  -- No call of a batch is left without a result: from a valid log, if the loop over the calls returns,
  -- whether the batch was completed, cut short by a cancellation, or cut short by the tool budget, the
  -- log is valid and has a result for every call.
  pub batch_answered :
      (cs : List ToolCall) (s : LoopState World)
      → IsValid s.log
      → Outcome (λ _ s'. AreAnswered cs s') (λ e s'. Unit) (run_batch env limits cs s)
  batch_answered cs s v = (run_batch-AreAnswered cs).at s v

  act-AreAnswered :
      (r : StopReason) (c : ToolCall) (cs : List ToolCall)
      → Leads HasLog (act env limits r c cs) (AreAnswered (c ∷ cs))
  unfolding act
  act-AreAnswered r c cs =
      Triple-map (λ s p. p) (λ flow s p. AreAnswered-sort (c ∷ cs) s p) (λ e s p. tt)
        (Triple-bind (kept (move-Holds HasLog-Frame _ _ _ _)) λ _.
          Triple-bind (run_batch-AreAnswered (sort_calls (c ∷ cs)))
            λ b. kept (after_batch-Holds env limits (AreAnswered-Frame (sort_calls (c ∷ cs))) r b))

  -- behind a response: every call has a result, but for the two stop reasons that end the run at once
  abbrev pub IsSettled : StopReason → List ToolCall → LoopState World → Type 0
  IsSettled StopReason.provider_error cs s = IsValid s.log
  IsSettled StopReason.cancelled cs s = IsValid s.log
  IsSettled reason cs s = AreAnswered cs s

  by_calls-AreAnswered :
      (r : StopReason) (cs : List ToolCall)
      → Leads HasLog (by_calls env limits r cs) (AreAnswered cs)
  unfolding by_calls
  by_calls-AreAnswered r [] = kept (conclude-Holds env limits HasLog-Frame r)
  by_calls-AreAnswered r (c ∷ cs) = act-AreAnswered r c cs

  by_stop_reason-IsSettled :
      (r : StopReason) (cs : List ToolCall)
      → Leads HasLog (by_stop_reason env limits r cs) (IsSettled r cs)
  unfolding by_stop_reason
  by_stop_reason-IsSettled StopReason.provider_error cs =
      kept (Keeps-bind (move-Holds HasLog-Frame _ _ _ _) λ _. Keeps-pure _)
  by_stop_reason-IsSettled StopReason.cancelled cs = kept (
      Keeps-bind (ask_abort-Holds HasLog-Frame _)
        λ _. Keeps-bind (move-Holds HasLog-Frame _ _ _ _) λ _. Keeps-pure _)
  by_stop_reason-IsSettled StopReason.end_turn cs = by_calls-AreAnswered StopReason.end_turn cs
  by_stop_reason-IsSettled StopReason.tool_calls cs = by_calls-AreAnswered StopReason.tool_calls cs
  by_stop_reason-IsSettled StopReason.max_tokens cs = by_calls-AreAnswered StopReason.max_tokens cs

  -- All that follows a response, from its commit to the log on: from a valid log, if it
  -- returns, the log is valid, and unless the stop reason is `provider_error` or `cancelled`, every
  -- call of the response has a result in the log, in whatever order the ordinals put them.
  pub calls_answered :
      (r : ModelResponse) (s : LoopState World)
      → IsValid s.log
      → Outcome
          (λ flow s'. IsSettled r.stop_reason r.tool_calls s')
          (λ e s'. Unit)
          (respond env limits r s)
  unfolding respond
  calls_answered r s v = answer.at s v
    where
      answer : Leads HasLog (respond env limits r) (IsSettled r.stop_reason r.tool_calls)
      answer = Triple-bind (kept (Keeps-modify {P = HasLog} _ (λ s p. p))) λ _.
          Triple-bind (kept (new_meta-Holds env HasLog-Frame)) λ _.
            Triple-bind (kept (commit-Holds HasLog-Frame _)) λ _.
              Triple-bind (kept (emit-Holds HasLog-Frame _)) λ _.
                Triple-bind (kept (boundary-Holds HasLog-Frame _)) λ _.
                  Triple-bind (kept (publish-Holds HasLog-Frame _)) λ _.
                    Triple-bind (kept (Keeps-modify {P = HasLog} _ (λ s p. p)))
                      λ _. by_stop_reason-IsSettled r.stop_reason r.tool_calls
