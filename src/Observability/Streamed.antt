-- ===== src/Observability/Streamed.antt =====
-- What a response of src/coding_agent/observability/stream.py has from its stream.
use mathlib.Core.List.{append_assoc, append-nil}
use py_coding_agent.Prelude.{
  String, or_else, Option, none, some, List, [], ◌∷◌, ◌++◌, map, ◌≡◌, ◌↔◌, refl, ap, sym, ◌∙◌,
  arith,
}
use py_coding_agent.Prelude.Text.{join_with}
use py_coding_agent.Prelude.Dict.{Dict}
use py_coding_agent.Result.{Result, ok, err}
use py_coding_agent.State.{StopReason}
use py_coding_agent.Value.{Value}
use py_coding_agent.Message.{ToolCall}
use py_coding_agent.Message.Log.{validate_tool_calls}
use py_coding_agent.Message.History.{call_ids, AreFresh}
use py_coding_agent.Provider.{ProviderErrorKind, TokenUsage, ModelResponse}
use py_coding_agent.Provider.Validation.{validate_model_response}
use py_coding_agent.Provider.Accepted.{validate_model_response-validate_tool_calls}
use py_coding_agent.Observability.Stream.{
  AssemblyError, ModelDelta, text_delta, tool_call_delta, fragment_delta, usage_delta, stop_delta,
  Aggregator, new_aggregator, aggregate, aggregate_all, finalize, response_with, if_valid,
  finish_response, finalize_at, finalize_response,
}

-- the texts of a stream, in its order
unfoldable pub texts_of : List ModelDelta → List String
texts_of [] = []
texts_of (text_delta text ∷ ds) = text ∷ texts_of ds
texts_of (d ∷ ds) = texts_of ds

-- the last usage that a stream tells
unfoldable pub last_usage : List ModelDelta → Option TokenUsage
last_usage [] = none
last_usage (usage_delta usage ∷ ds) = or_else (last_usage ds) (some usage)
last_usage (d ∷ ds) = last_usage ds

unfoldable pub last_stop : List ModelDelta → Option StopReason
last_stop [] = none
last_stop (stop_delta reason ∷ ds) = or_else (last_stop ds) (some reason)
last_stop (d ∷ ds) = last_stop ds

or_else_twice :
    {A : Type 0} (x : Option A) (a : A) (y : Option A)
    → or_else x (some a) ≡ or_else (or_else x (some a)) y
or_else_twice none a y = refl
or_else_twice (some x) a y = refl

aggregate_all-reads :
    (ds : List ModelDelta) (g : Aggregator)
    → ((aggregate_all ds g).text_parts ≡ g.text_parts ++ texts_of ds)
      × ((aggregate_all ds g).usage ≡ or_else (last_usage ds) g.usage)
      × ((aggregate_all ds g).stop_reason ≡ or_else (last_stop ds) g.stop_reason)
unfolding aggregate_all aggregate texts_of last_usage last_stop
aggregate_all-reads [] g = (sym (append-nil g.text_parts), refl, refl)
aggregate_all-reads (text_delta text ∷ ds) g =
    let (t, u, r) = aggregate_all-reads ds (aggregate (text_delta text) g) in
    (t ∙ append_assoc g.text_parts (text ∷ []) (texts_of ds), u, r)
aggregate_all-reads (tool_call_delta call ∷ ds) g =
    aggregate_all-reads ds (aggregate (tool_call_delta call) g)
aggregate_all-reads (fragment_delta d ∷ ds) g =
    aggregate_all-reads ds (aggregate (fragment_delta d) g)
aggregate_all-reads (usage_delta usage ∷ ds) g =
    let (t, u, r) = aggregate_all-reads ds (aggregate (usage_delta usage) g) in
    (t, u ∙ or_else_twice (last_usage ds) usage g.usage, r)
aggregate_all-reads (stop_delta reason ∷ ds) g =
    let (t, u, r) = aggregate_all-reads ds (aggregate (stop_delta reason) g) in
    (t, u, r ∙ or_else_twice (last_stop ds) reason g.stop_reason)

or_else-none : {A : Type 0} (x : Option A) → or_else x none ≡ x
or_else-none none = refl
or_else-none (some x) = refl

if_valid-ok :
    (r r' : ModelResponse) (v : Result ProviderErrorKind (Unit {0}))
    → if_valid r v ≡ ok r'
    → (r' ≡ r) × (v ≡ ok tt)
if_valid-ok r r' (ok tt) h = (ground arith, refl)
if_valid-ok r r' (err e) h = absurd (ground arith)

module _ (json_loads : String → Option Value) (response_id : String) where
  -- what a response has from the aggregator
  finalize_at-ok :
      (g : Aggregator) (stop : Option StopReason) (r : ModelResponse)
      → finalize_at json_loads response_id g stop ≡ ok r
      → (stop ≡ some r.stop_reason)
        × (r.content ≡ join_with "" g.text_parts)
        × (r.usage ≡ g.usage)
        × (validate_model_response r ≡ ok tt)
  finalize_at-ok g none r h = absurd (ground arith)
  finalize_at-ok g (some reason) r h = responded (finalize json_loads g.tool_calls) h
    where
      responded :
          (calls : Result AssemblyError (List ToolCall))
          → finish_response json_loads response_id g reason calls ≡ ok r
          → (some reason ≡ some r.stop_reason)
            × (r.content ≡ join_with "" g.text_parts)
            × (r.usage ≡ g.usage)
            × (validate_model_response r ≡ ok tt)
      responded (ok calls) v =
          let made = response_with json_loads response_id g reason calls in
          let (same, valid) = if_valid-ok made r (validate_model_response made) v in
          (
            ap (λ x. some x.stop_reason) (sym same),
            ap (λ x. x.content) same,
            ap (λ x. x.usage) same,
            ap (λ x. validate_model_response x) same ∙ valid,
          )
      responded (err e) v = absurd (ground arith)

  -- Where a stream's response is made, a StopDelta has come, the response has the reason of the last one,
  -- the texts in their order and the usage that came last, and the log's `_validate_tool_calls` passes
  -- its calls exactly if none of their ids is known.
  pub finalize_response-IsStreamed :
      (known : Dict ToolCall) (ds : List ModelDelta) (r : ModelResponse)
      → finalize_response json_loads response_id (aggregate_all ds new_aggregator) ≡ ok r
      → (last_stop ds ≡ some r.stop_reason)
        × (r.content ≡ join_with "" (texts_of ds))
        × (r.usage ≡ last_usage ds)
        × ((validate_tool_calls known r.tool_calls ≡ ok tt)
            ↔ AreFresh (map (λ e. e.0) known) (call_ids r.tool_calls))
  unfolding finalize_response
  finalize_response-IsStreamed known ds r h =
      let g = aggregate_all ds new_aggregator in
      let (t, u, s) = aggregate_all-reads ds new_aggregator in
      let (stop, content, usage, valid) = finalize_at-ok g g.stop_reason r h in
      (
        sym (s ∙ or_else-none (last_stop ds)) ∙ stop,
        content ∙ ap (join_with "") t,
        usage ∙ u ∙ or_else-none (last_usage ds),
        (validate_model_response-validate_tool_calls known r valid).1,
      )
