-- ===== src/Observability/Stream/Examples.antt =====
-- Runs of the aggregation of streams.
use py_coding_agent.Prelude.{
  ℕ, if◌then◌else◌, String, str_eq, Option, none, some, List, [], ◌∷◌, map, ◌≡◌, ◌↔◌, refl,
}
use py_coding_agent.Prelude.Text.{join_with, join}
use py_coding_agent.Prelude.Dict.{Dict, lookup, insert, contains}
use py_coding_agent.Result.{ok, err}
use py_coding_agent.State.{StopReason}
use py_coding_agent.Value.{Value, Fields, str, obj, end, field, fields_json}
use py_coding_agent.Message.{ToolCall}
use py_coding_agent.Message.Ordinals.{sorted, insert_sorted, is_range_from}
use py_coding_agent.Message.Log.{validate_tool_calls}
use py_coding_agent.Message.History.{call_ids, AreFresh}
use py_coding_agent.Context.Groups.{distinct}
use py_coding_agent.Provider.{ModelResponse}
use py_coding_agent.Provider.Validation.{validate_model_response, check_response_calls}
use py_coding_agent.Observability.Stream.{
  interrupted, FragmentDelta, ModelDelta, text_delta, tool_call_delta, fragment_delta, stop_delta,
  new_buffer, new_aggregator, buffer_of, set_default, with_fragment, add_fragment, add_complete,
  fragment_at, assembled, call_of, finalize_from, finalize, aggregate, aggregate_all,
  finalize_response,
}
use py_coding_agent.Observability.Fragments.{with_fragment_comm}
use py_coding_agent.Observability.Streamed.{
  texts_of, last_usage, last_stop, finalize_response-IsStreamed,
}

-- the parser of the runs knows one text
abbrev loads : String → Option Value
loads text = if str_eq text "{path}" then some (obj path) else none
  where
    path : Fields
    path = field "path" (str "a.py") end

abbrev piece : ℕ → String → ModelDelta
piece seq text =
    fragment_delta
      (record { call_id = "c1"; arguments_fragment = text; fragment_seq = seq; name = some "read" })

abbrev edit_call : ToolCall
edit_call = record { id = "c2"; name = "edit"; arguments = end; ordinal = 7 }

abbrev earlier_calls : Dict ToolCall
earlier_calls = ("c0", edit_call) ∷ []

-- the second piece first, the first one twice
abbrev deltas : List ModelDelta
deltas =
    text_delta "I "
    ∷ piece 1 "th}"
    ∷ text_delta "read"
    ∷ piece 0 "{pa"
    ∷ tool_call_delta edit_call
    ∷ piece 0 "{pa"
    ∷ stop_delta StopReason.tool_calls
    ∷ []

abbrev reply : ModelResponse
reply = record {
  content = "I read";
  stop_reason = StopReason.tool_calls;
  tool_calls =
      record { id = "c1"; name = "read"; arguments = field "path" (str "a.py") end; ordinal = 0 }
      ∷ record edit_call { ordinal = 1 }
      ∷ [];
  usage = none;
  response_id = "r";
}

reply_made : finalize_response loads "r" (aggregate_all deltas new_aggregator) ≡ ok reply
unfolding finalize_response aggregate_all aggregate add_fragment add_complete buffer_of
    with_fragment set_default lookup insert finalize finalize_from call_of assembled fragment_at
    sorted insert_sorted join_with join validate_model_response check_response_calls distinct
    contains is_range_from fields_json
reply_made = refl

finalize_response-IsStreamed_example :
    (last_stop deltas ≡ some reply.stop_reason)
    × (reply.content ≡ join_with "" (texts_of deltas))
    × (reply.usage ≡ last_usage deltas)
    × ((validate_tool_calls earlier_calls reply.tool_calls ≡ ok tt)
        ↔ AreFresh (map (λ e. e.0) earlier_calls) (call_ids reply.tool_calls))
finalize_response-IsStreamed_example =
    finalize_response-IsStreamed loads "r" earlier_calls deltas reply reply_made

no_stop :
    finalize_response loads "r" (aggregate_all (tool_call_delta edit_call ∷ []) new_aggregator)
    ≡ err interrupted
unfolding finalize_response aggregate_all aggregate add_complete buffer_of lookup insert
no_stop = refl

-- the numbers of the pieces may have a gap
pieces_with_gap :
    finalize loads (aggregate_all (piece 0 "{pa" ∷ piece 5 "th}" ∷ []) new_aggregator).tool_calls
    ≡ ok (
        record { id = "c1"; name = "read"; arguments = field "path" (str "a.py") end; ordinal = 0 }
        ∷ [])
unfolding aggregate_all aggregate add_fragment buffer_of with_fragment set_default lookup insert
    finalize finalize_from call_of assembled fragment_at sorted insert_sorted join_with join
pieces_with_gap = refl

abbrev fragment : ℕ → String → FragmentDelta
fragment seq text = record {
  call_id = "c1";
  arguments_fragment = text;
  fragment_seq = seq;
  name = some "read";
}

with_fragment_comm_example :
    (call_of loads 0 "c1"
        (with_fragment (fragment 0 "{pa") (with_fragment (fragment 1 "th}") new_buffer))
      ≡ call_of loads 0 "c1"
          (with_fragment (fragment 1 "th}") (with_fragment (fragment 0 "{pa") new_buffer)))
    × (with_fragment (fragment 0 "{pa") (with_fragment (fragment 0 "{pa") new_buffer)
        ≡ with_fragment (fragment 0 "{pa") new_buffer)
with_fragment_comm_example =
    with_fragment_comm loads 0 "c1" (fragment 0 "{pa") (fragment 1 "th}") new_buffer refl refl
