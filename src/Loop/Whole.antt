-- ===== src/Loop/Whole.antt =====
-- What a whole pass keeps, and a whole run, on every way out of them.
use py_coding_agent.Prelude.{String, ℕ, zero, suc, Option, none, some, List, [], ◌∷◌, leb}
use py_coding_agent.State.{StopReason}
use py_coding_agent.Message.{ToolCall}
use py_coding_agent.Provider.{ModelResponse}
use py_coding_agent.Exec.{pure}
use py_coding_agent.Exec.Keeps.{
  Triple, keeps_rules, Triple-bind, Triple-map, Triple-pure, Triple-raise, Keeps-pure, Keeps-bind,
  Keeps-if, Keeps-gets, Keeps-modify,
}
use py_coding_agent.Loop.Types.{
  RunLimits, Services, LoopState, Notice, Flow, again, stop, Batch, ProviderReply, responded,
  timed_out, failed, raised,
}
use py_coding_agent.Loop.Actions.{M, say, cancelled}
use py_coding_agent.Loop.Frame.{
  Frame, Holds, publish-Holds, emit-Holds, boundary-Holds, move-Holds, ask_abort-Holds,
  commit-Holds, abort_run-Holds, exhaust-Holds, drain_steering-Holds, new_meta-Holds,
  remaining_seconds-Holds,
}
use py_coding_agent.Loop.Steps.{
  cancel_pending-Holds, start_call-Holds, finish_call-Holds, after_call-Holds, inject_all-Holds,
  leave_steering-Holds, build_request-Holds, call_model-Holds, back_off-Holds, conclude-Holds,
  after_batch-Holds,
}
use py_coding_agent.Loop.Batch.{perform_call, run_batch}
use py_coding_agent.Loop.Model.{ask_once, ask_model}
use py_coding_agent.Loop.Turn.{
  act, by_calls, by_stop_reason, respond, after_reply, with_request, think, turn_once, rounds, run,
}

-- a property that does not read the counters and the marks of calls
pub record IsUncounted {W : Type 0} (P : LoopState W → Type 0) : Type 0 where
  pub turned : (s : LoopState W) (n : ℕ) → P s → P (record s { turns = n })
  pub used : (s : LoopState W) (n : ℕ) → P s → P (record s { tool_calls_used = n })
  pub asked : (s : LoopState W) (n : ℕ) → P s → P (record s { provider_calls = n })
  pub invoked : (s : LoopState W) (id : String) → P s → P (say (Notice.invoked id) s)
  pub requested : (s : LoopState W) → P s → P (say Notice.requested s)

module _ (env : Services) (limits : RunLimits) {P : LoopState env.World → Type 0} (f : Frame P)
    (u : IsUncounted P) where
  open env use {World, Request}

  perform_call-Holds : (c : ToolCall) → Holds P (perform_call env limits c)
  unfolding perform_call
  perform_call-Holds c = Keeps-bind (start_call-Holds env limits f u.invoked c) λ outcome.
      Keeps-bind (Keeps-modify _ (λ s p. u.used s _ p))
        λ _. finish_call-Holds env limits f c outcome

  pub run_batch-Holds : (cs : List ToolCall) → Holds P (run_batch env limits cs)
  unfolding run_batch
  run_batch-Holds [] = Keeps-pure Batch.completed
  run_batch-Holds (c ∷ cs) = Keeps-bind (Keeps-gets cancelled) λ stopped.
      Keeps-bind (Keeps-gets _) λ used.
        Keeps-if stopped
          (Keeps-bind (cancel_pending-Holds env limits f _ _) λ _. Keeps-pure Batch.aborted)
          (Keeps-if (leb limits.max_tool_calls used)
            (Keeps-bind (cancel_pending-Holds env limits f _ _) λ _.
              Keeps-bind (Keeps-modify _ (λ s p. f.limited s _ p)) λ _. Keeps-pure Batch.budget_hit)
            (Keeps-bind (perform_call-Holds c)
              λ _. Keeps-bind (after_call-Holds env limits f cs) λ _. run_batch-Holds cs))

  act-Holds : (r : StopReason) (c : ToolCall) (cs : List ToolCall) → Holds P (act env limits r c cs)
  unfolding act
  act-Holds r c cs =
      Keeps-bind (move-Holds f _ _ _ _)
        λ _. Keeps-bind (run_batch-Holds _) λ b. after_batch-Holds env limits f r b

  by_calls-Holds : (r : StopReason) (cs : List ToolCall) → Holds P (by_calls env limits r cs)
  unfolding by_calls
  by_calls-Holds r [] = conclude-Holds env limits f r
  by_calls-Holds r (c ∷ cs) = act-Holds r c cs

  by_stop_reason-Holds :
      (r : StopReason) (cs : List ToolCall) → Holds P (by_stop_reason env limits r cs)
  unfolding by_stop_reason
  by_stop_reason-Holds StopReason.provider_error cs =
      Keeps-bind (move-Holds f _ _ _ _) λ _. Keeps-pure stop
  by_stop_reason-Holds StopReason.cancelled cs =
      Keeps-bind (ask_abort-Holds f _) λ _. Keeps-bind (move-Holds f _ _ _ _) λ _. Keeps-pure stop
  by_stop_reason-Holds StopReason.end_turn cs = by_calls-Holds StopReason.end_turn cs
  by_stop_reason-Holds StopReason.tool_calls cs = by_calls-Holds StopReason.tool_calls cs
  by_stop_reason-Holds StopReason.max_tokens cs = by_calls-Holds StopReason.max_tokens cs

  respond-Holds : (r : ModelResponse) → Holds P (respond env limits r)
  unfolding respond
  respond-Holds r = Keeps-bind (Keeps-modify _ (λ s p. u.turned s _ p)) λ _.
      Keeps-bind (new_meta-Holds env f) λ _. Keeps-bind (commit-Holds f _) λ _.
        Keeps-bind (emit-Holds f _) λ _. Keeps-bind (boundary-Holds f _) λ _.
          Keeps-bind (publish-Holds f _) λ _.
            Keeps-bind (Keeps-modify _ (λ s p. f.texted s _ p))
              λ _. by_stop_reason-Holds r.stop_reason r.tool_calls

  ask_once-Holds : (request : Request) (r : Option ℕ) → Holds P (ask_once env limits request r)
  unfolding ask_once
  ask_once-Holds request r =
      Keeps-bind (Keeps-modify _ (λ s p. u.asked s _ p))
        λ _. call_model-Holds env limits f u.requested request r

  ask_model-Holds :
      (left : ℕ) (request : Request) (r : Option ℕ) → Holds P (ask_model env limits left request r)
  unfolding ask_model
  ask_model-Holds zero request r = ask_once-Holds request r
  ask_model-Holds (suc left) request r = Keeps-bind (ask_once-Holds request r) λ reply.
      Keeps-bind (Keeps-gets cancelled) λ c.
        Keeps-if _ (Keeps-bind (back_off-Holds env limits f _) λ _. ask_model-Holds left request r)
          (Keeps-pure reply)

  after_reply-Holds : (reply : ProviderReply) → Holds P (after_reply env limits reply)
  unfolding after_reply
  after_reply-Holds (responded r) = respond-Holds r
  after_reply-Holds timed_out = search (keeps_rules, publish-Holds f, exhaust-Holds f)
  after_reply-Holds (failed kind) =
      search (keeps_rules, publish-Holds f, abort_run-Holds f, move-Holds f) depth 12
  after_reply-Holds (raised e) = Triple-raise _ (λ s p. (tt, p))

  with_request-Holds :
      (remaining : Option ℕ) (request : Option Request)
      → Holds P (with_request env limits remaining request)
  unfolding with_request
  with_request-Holds remaining none = search (keeps_rules, exhaust-Holds f)
  with_request-Holds remaining (some request) = Keeps-bind (Keeps-gets _) λ turn.
      Keeps-bind (publish-Holds f _)
        λ _. Keeps-bind (ask_model-Holds _ request remaining) after_reply-Holds

  think-Holds : (remaining : Option ℕ) → Holds P (think env limits remaining)
  unfolding think
  think-Holds remaining = Keeps-bind (leave_steering-Holds env limits f) λ _.
      Keeps-bind (drain_steering-Holds f) λ steering.
        Keeps-bind (inject_all-Holds env limits f steering) λ _.
          Keeps-bind (emit-Holds f _)
            λ _. Keeps-bind (build_request-Holds env limits f) (with_request-Holds remaining)

  turn_once-Holds : Holds P (turn_once env limits)
  unfolding turn_once
  turn_once-Holds =
      search
        (
          keeps_rules,
          abort_run-Holds f,
          exhaust-Holds f,
          remaining_seconds-Holds env f,
          think-Holds,
        )
        depth 12

  -- behind a return and behind an error alike
  pub rounds-Keeps : (n : ℕ) → Triple P (rounds env limits n) (λ _. P) (λ e. P)
  unfolding rounds
  rounds-Keeps zero = Triple-raise _ (λ s p. p)
  rounds-Keeps (suc n) =
      Triple-bind (either turn_once-Holds) (on_flow (rounds env limits n) (rounds-Keeps n))
    where
      either : {A : Type 0} {m : M World A} → Holds P m → Triple P m (λ _. P) (λ e. P)
      either h = Triple-map (λ s p. p) (λ a s p. p) (λ e s p. p.1) h

      on_flow :
          (rest : M World (Unit {0}))
          → Triple P rest (λ _. P) (λ e. P)
          → (flow : Flow) → Triple P (elim flow [ again ↦ rest | stop ↦ pure tt ]) (λ _. P) (λ e. P)
      on_flow rest h again = h
      on_flow rest h stop = Triple-pure tt (λ s p. p)

  pub run-Keeps : Triple P (run env limits) (λ _. P) (λ e. P)
  unfolding run
  run-Keeps = Triple-bind (either (emit-Holds f _)) λ _. Triple-bind (either (Keeps-gets _)) λ turn.
      Triple-bind (either (publish-Holds f _)) λ _. Triple-bind (rounds-Keeps _) λ _. either (
        Keeps-bind (emit-Holds f _) λ _.
          Keeps-bind (boundary-Holds f _)
            λ _. Keeps-bind (Keeps-gets _) λ s. Keeps-bind (publish-Holds f _) λ _. Keeps-pure _)
    where
      either : {A : Type 0} {m : M World A} → Holds P m → Triple P m (λ _. P) (λ e. P)
      either h = Triple-map (λ s p. p) (λ a s p. p) (λ e s p. p.1) h
