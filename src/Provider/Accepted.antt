-- ===== src/Provider/Accepted.antt =====
-- What the log makes of a response that passed src/coding_agent/ports/provider.py's checks.
use py_coding_agent.Prelude.{
  String, true, not, eq_iff, ◌==◌, List, [], ◌∷◌, map, length, ◌≡◌, ◌↔◌, refl, arith, ◌≤◌,
}
use py_coding_agent.Prelude.Dict.{Dict, contains, lookup, has_key}
use py_coding_agent.Result.{ok}
use py_coding_agent.State.{StopReason}
use py_coding_agent.Message.{ToolCall}
use py_coding_agent.Message.Log.{validate_tool_calls}
use py_coding_agent.Message.History.{call_ids, AreDistinct, AreFresh, AreFresh-nil}
use py_coding_agent.Message.Admission.{AreCallable, check_calls-ok, check_calls_accepts}
use py_coding_agent.Context.Groups.{distinct}
use py_coding_agent.Provider.{ModelResponse}
use py_coding_agent.Provider.Validation.{
  validate_calls, check_response_calls, validate_model_response, is_tool_calls,
}

has_key-keys : (d : Dict ToolCall) (k : String) → has_key k d ≡ contains k (map (λ e. e.0) d)
unfolding lookup contains
has_key-keys [] k = refl
has_key-keys ((j, c) ∷ d) k = ground (arith, has_key-keys d k)

distinct-bound : (xs : List String) → length (distinct xs) ≤ length xs
unfolding distinct
distinct-bound [] = ground arith
distinct-bound (x ∷ xs) = ground (arith, distinct-bound xs)

contains-distinct : (k : String) (xs : List String) → contains k (distinct xs) ≡ contains k xs
unfolding distinct contains
contains-distinct k [] = refl
contains-distinct k (x ∷ xs) =
    ground (arith, contains-distinct k xs, contains-distinct x xs, eq_iff x k)

distinct-AreDistinct :
    (xs : List String) → (length (distinct xs) == length xs) ≡ true → AreDistinct xs
unfolding distinct
distinct-AreDistinct [] h = tt
distinct-AreDistinct (x ∷ xs) h = (
  ground (arith, distinct-bound xs, contains-distinct x xs),
  distinct-AreDistinct xs (ground (arith, distinct-bound xs)),
)

check_response_calls-AreCallable :
    (calls : List ToolCall) → check_response_calls calls ≡ ok tt → AreCallable calls
unfolding check_response_calls
check_response_calls-AreCallable [] h = tt
check_response_calls-AreCallable (c ∷ cs) h =
    ((ground arith, ground arith), check_response_calls-AreCallable cs (ground arith))

-- When the log's calls are `known` and a response passes `validate_model_response`, its stop reason
-- is `tool_calls` exactly if it has calls, and the log's `_validate_tool_calls` passes its calls
-- exactly if none of their ids is known.
pub validate_model_response-validate_tool_calls :
    (known : Dict ToolCall) (r : ModelResponse)
    → validate_model_response r ≡ ok tt
    → (is_tool_calls r.stop_reason ≡ not (length r.tool_calls == 0))
      × ((validate_tool_calls known r.tool_calls ≡ ok tt)
          ↔ AreFresh (map (λ e. e.0) known) (call_ids r.tool_calls))
unfolding validate_model_response validate_tool_calls
validate_model_response-validate_tool_calls known r h = accepted r.stop_reason r.tool_calls h
  where
    accepted :
        (reason : StopReason) (calls : List ToolCall)
        → validate_calls reason calls ≡ ok tt
        → (is_tool_calls reason ≡ not (length calls == 0))
          × ((validate_tool_calls known calls ≡ ok tt)
              ↔ AreFresh (map (λ e. e.0) known) (call_ids calls))
    accepted reason [] h = (ground arith, (λ _. tt, λ _. ground arith))
    accepted reason (c ∷ cs) h = (
      ground arith,
      (
        λ v.
            (check_calls-ok known (map (λ e. e.0) known) (has_key-keys known) [] (c ∷ cs)
              (ground arith)).2,
        λ f. ground (
          arith,
          check_calls_accepts known (map (λ e. e.0) known) (has_key-keys known) [] (c ∷ cs)
              (distinct-AreDistinct (call_ids (c ∷ cs)) (ground arith))
              (AreFresh-nil (call_ids (c ∷ cs))) f
              (check_response_calls-AreCallable (c ∷ cs) (ground arith)),
        ),
      ),
    )
