-- ===== src/Loop/Frame.antt =====
-- What every action of the loop keeps that moves no counter: any property which survives each single
-- write to the loop's variables.
use py_coding_agent.Prelude.{ℕ, String, Option, none, some, ◌≡◌, inl, inr}
use py_coding_agent.Result.{ok, Result-cases}
use py_coding_agent.State.{
  RuntimeState, StateTrigger, RunStatus, StopReason, transition, request_abort,
}
use py_coding_agent.Message.{Message, ToolCall}
use py_coding_agent.Message.Log.{MessageLog, append}
use py_coding_agent.Provider.{ToolOutcome}
use py_coding_agent.Exec.Keeps.{
  Keeps, keeps_rules, Triple-modify, Triple-call, Keeps-pure, Keeps-bind,
}
use py_coding_agent.Loop.Types.{
  Services, Shared, LoopState, LoopError, no_rounds_left, Notice, LoopEventKind, BoundaryKind,
  Published, Limit,
}
use py_coding_agent.Loop.Actions.{
  M, say, tell, emit, publish, boundary, move, ask_abort, abort_run, exhaust, commit,
  drain_steering, next_follow_up, new_meta, remaining_seconds, inject_user_text, commit_result,
}

-- every error but that of the model's own bound on the passes
abbrev pub IsOrdinary : LoopError → Type 0
IsOrdinary no_rounds_left = ⊥
IsOrdinary _ = Unit

-- every notice but those that mark a call of the tool executor and of the provider
abbrev pub IsQuiet : Notice → Type 0
IsQuiet (Notice.invoked id) = ⊥
IsQuiet Notice.requested = ⊥
IsQuiet n = Unit

pub record Frame {W : Type 0} (P : LoopState W → Type 0) : Type 0 where
  pub said : (s : LoopState W) (n : Notice) → IsQuiet n → P s → P (say n s)
  pub moved :
      (s : LoopState W) (next : RuntimeState) (t : StateTrigger) (status : Option RunStatus)
      (reason : Option StopReason) (id : Option String)
      → transition s.state s.state.state_seq t status reason id ≡ ok next
      → P s
      → P (record s { state = next })
  pub asked :
      (s : LoopState W) (next : RuntimeState) (reason : String)
      → request_abort s.state reason ≡ ok next
      → P s
      → P (record s { state = next })
  pub logged :
      (s : LoopState W) (log : MessageLog) (m : Message)
      → append s.log m ≡ ok log
      → P s
      → P (record s { log = log })
  pub shared : (s : LoopState W) (sh : Shared W) → P s → P (record s { shared = sh })
  pub limited : (s : LoopState W) (limit : Option Limit) → P s → P (record s { limit_hit = limit })
  pub texted : (s : LoopState W) (text : String) → P s → P (record s { final_text = text })

pub constant-Frame : (C : Type 0) {W : Type 0} → Frame {W = W} (λ _. C)
constant-Frame C = record {
  said = λ s n q p. p;
  moved = λ s next t status reason id e p. p;
  asked = λ s next reason e p. p;
  logged = λ s log m e p. p;
  shared = λ s sh p. p;
  limited = λ s limit p. p;
  texted = λ s text p. p;
}

pub both-Frame :
    {W : Type 0} {P Q : LoopState W → Type 0} → Frame P → Frame Q → Frame (λ s. P s × Q s)
both-Frame f g = record {
  said = λ s n q p. (f.said s n q p.0, g.said s n q p.1);
  moved = λ s next t status reason id e p.
      (f.moved s next t status reason id e p.0, g.moved s next t status reason id e p.1);
  asked = λ s next reason e p. (f.asked s next reason e p.0, g.asked s next reason e p.1);
  logged = λ s log m e p. (f.logged s log m e p.0, g.logged s log m e p.1);
  shared = λ s sh p. (f.shared s sh p.0, g.shared s sh p.1);
  limited = λ s limit p. (f.limited s limit p.0, g.limited s limit p.1);
  texted = λ s text p. (f.texted s text p.0, g.texted s text p.1);
}

-- what the loop's actions do with a property: keep it, and raise no bound of the model
abbrev pub Holds : {W A : Type 0} → (LoopState W → Type 0) → M W A → Type 0
Holds P m = Keeps IsOrdinary P m

module _ {W : Type 0} {P : LoopState W → Type 0} (f : Frame P) where
  pub tell-Holds : (n : Notice) → IsQuiet n → Holds P (tell n)
  unfolding tell
  tell-Holds n q = Triple-modify (say n) (λ s p. f.said s n q p)

  pub publish-Holds : (e : Published) → Holds P (publish e)
  unfolding publish
  publish-Holds e = tell-Holds (Notice.published e) tt

  pub emit-Holds : (k : LoopEventKind) → Holds P (emit k)
  unfolding emit
  emit-Holds k = record {
    at = λ s p. (tell-Holds (Notice.emitted k s.state.current_turn) tt).at s p;
  }

  pub boundary-Holds : (k : BoundaryKind) → Holds P (boundary k)
  unfolding boundary
  boundary-Holds k = record {
    at = λ s p. (tell-Holds (Notice.at_boundary k s.state.state_seq) tt).at s p;
  }

  pub move-Holds :
      (t : StateTrigger) (status : Option RunStatus) (reason : Option StopReason)
      (id : Option String)
      → Holds P (move t status reason id)
  unfolding move
  move-Holds t status reason id = record {
    at = λ s p. elim (Result-cases (transition s.state s.state.state_seq t status reason id)) [
      | inl (next, e) ↦ rw e (f.moved s next t status reason id e p)
      | inr (why, e) ↦ rw e (tt, p)
    ];
  }

  pub ask_abort-Holds : (reason : String) → Holds P (ask_abort reason)
  unfolding ask_abort
  ask_abort-Holds reason = record {
    at = λ s p. elim (Result-cases (request_abort s.state reason)) [
      | inl (next, e) ↦ rw e (f.asked s next reason e p)
      | inr (why, e) ↦ rw e (tt, p)
    ];
  }

  pub commit-Holds : (m : Message) → Holds P (commit m)
  unfolding commit
  commit-Holds m = record {
    at = λ s p. elim (Result-cases (append s.log m)) [
      | inl (log, e) ↦ rw e (f.logged s log m e p)
      | inr (why, e) ↦ rw e (tt, p)
    ];
  }

  pub abort_run-Holds : (reason : String) → Holds P (abort_run reason)
  unfolding abort_run
  abort_run-Holds reason = search (keeps_rules, publish-Holds, ask_abort-Holds, move-Holds)

  pub exhaust-Holds : (limit : Limit) (reason : Option StopReason) → Holds P (exhaust limit reason)
  unfolding exhaust
  exhaust-Holds limit reason =
      Keeps-bind (Triple-modify _ (λ s p. f.limited s (some limit) p))
        λ _. move-Holds StateTrigger.finish _ _ _

  pub drain_steering-Holds : Holds P drain_steering
  unfolding drain_steering
  drain_steering-Holds = Triple-call _ (λ s p. f.shared s _ p)

  pub next_follow_up-Holds : Holds P next_follow_up
  unfolding next_follow_up
  next_follow_up-Holds = Triple-call _ (λ s p. f.shared s _ p)

module _ (env : Services) {P : LoopState env.World → Type 0} (f : Frame P) where
  pub new_meta-Holds : Holds P (new_meta env)
  unfolding new_meta
  new_meta-Holds = Triple-call _ (λ s p. f.shared s _ p)

  pub remaining_seconds-Holds : (deadline : Option ℕ) → Holds P (remaining_seconds env deadline)
  unfolding remaining_seconds
  remaining_seconds-Holds none = Keeps-pure none
  remaining_seconds-Holds (some d) = Triple-call _ (λ s p. f.shared s _ p)

  pub inject_user_text-Holds :
      (text : String) (kind : LoopEventKind) (at : BoundaryKind) (event : Published)
      → Holds P (inject_user_text env text kind at event)
  unfolding inject_user_text
  inject_user_text-Holds text kind at event =
      search (
        keeps_rules,
        new_meta-Holds,
        commit-Holds f,
        emit-Holds f,
        boundary-Holds f,
        publish-Holds f,
      )

  pub commit_result-Holds : (c : ToolCall) (o : ToolOutcome) → Holds P (commit_result env c o)
  unfolding commit_result
  commit_result-Holds c o =
      search (keeps_rules, new_meta-Holds, commit-Holds f, emit-Holds f, boundary-Holds f)
