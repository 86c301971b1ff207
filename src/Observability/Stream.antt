-- ===== src/Observability/Stream.antt =====
-- src/coding_agent/observability/stream.py: a complete response from the deltas of a stream.
mod Examples
use py_coding_agent.Prelude.{
  ℕ, suc, String, Bool, true, false, str_eq, ◌==◌, if◌then◌else◌, Option, none, some, is_some, List,
  [], ◌∷◌, ◌++◌, map,
}
use py_coding_agent.Prelude.Text.{is_empty, join_with}
use py_coding_agent.Prelude.Dict.{Dict, lookup, insert}
use py_coding_agent.Result.{Result, ok, err, ◌>>=◌, ◌>>◌}
use py_coding_agent.State.{StopReason}
use py_coding_agent.Value.{Value, Fields, obj}
use py_coding_agent.Message.{ToolCall}
use py_coding_agent.Message.Ordinals.{sorted}
use py_coding_agent.Provider.{ProviderErrorKind, TokenUsage, ModelResponse}
use py_coding_agent.Provider.Validation.{validate_model_response}

pub record FragmentDelta : Type 0 where
  pub call_id : String
  pub arguments_fragment : String
  pub fragment_seq : ℕ
  pub name : Option String

pub data ModelDelta : Type 0 where
  text_delta : String → ModelDelta
  tool_call_delta : ToolCall → ModelDelta
  fragment_delta : FragmentDelta → ModelDelta
  usage_delta : TokenUsage → ModelDelta
  stop_delta : StopReason → ModelDelta

pub record FragmentBuffer : Type 0 where
  pub name : Option String
  pub fragments : List (ℕ × String)
  pub complete : Option ToolCall

pub record Accumulator : Type 0 where
  pub buffers : Dict FragmentBuffer
  pub order : List String

-- `StreamAssemblyError` with its reasons, and the `KeyError` of `self._buffers[call_id]`
pub data AssemblyError : Type 0 where
  missing_name no_arguments corrupted_json not_an_object key_error : AssemblyError

pub data StreamError : Type 0 where
  interrupted invalid_response unexpected : StreamError

abbrev pub new_buffer : FragmentBuffer
new_buffer = record { name = none; fragments = []; complete = none }

abbrev pub new_accumulator : Accumulator
new_accumulator = record { buffers = []; order = [] }

-- `_buffer`: the buffer of a call, and the accumulator in which it is registered
unfoldable pub buffer_of : String → Accumulator → FragmentBuffer × Accumulator
buffer_of call_id a = found (lookup call_id a.buffers)
  where
    found : Option FragmentBuffer → FragmentBuffer × Accumulator
    found (some b) = (b, a)
    found none = (
      new_buffer,
      record { buffers = insert call_id new_buffer a.buffers; order = a.order ++ call_id ∷ [] },
    )

-- `fragments.setdefault(seq, text)`
unfoldable pub set_default : ℕ → String → List (ℕ × String) → List (ℕ × String)
set_default seq text [] = (seq, text) ∷ []
set_default seq text ((s, t) ∷ fs) =
    if s == seq then (s, t) ∷ fs else (s, t) ∷ set_default seq text fs

-- `if delta.name: buffer.name = delta.name`
abbrev pub name_after : Option String → Option String → Option String
name_after none old = old
name_after (some name) old = if str_eq name "" then old else some name

unfoldable pub with_fragment : FragmentDelta → FragmentBuffer → FragmentBuffer
with_fragment d b = if is_some b.complete then b else record {
  name = name_after d.name b.name;
  fragments = set_default d.fragment_seq d.arguments_fragment b.fragments;
  complete = b.complete;
}

abbrev set_buffer : String → FragmentBuffer → Accumulator → Accumulator
set_buffer call_id b a = record { buffers = insert call_id b a.buffers; order = a.order }

unfoldable pub add_fragment : FragmentDelta → Accumulator → Accumulator
add_fragment d a =
    let found = buffer_of d.call_id a in set_buffer d.call_id (with_fragment d found.0) found.1

-- `if buffer.complete is None: buffer.complete = call`
abbrev pub with_complete : ToolCall → FragmentBuffer → FragmentBuffer
with_complete call b =
    if is_some b.complete
    then b
    else record { name = b.name; fragments = b.fragments; complete = some call }

unfoldable pub add_complete : ToolCall → Accumulator → Accumulator
add_complete call a =
    let found = buffer_of call.id a in set_buffer call.id (with_complete call found.0) found.1

-- `buffer.fragments[seq]`, where `seq` is one of the keys
unfoldable pub fragment_at : List (ℕ × String) → ℕ → String
fragment_at [] seq = ""
fragment_at ((s, t) ∷ fs) seq = if s == seq then t else fragment_at fs seq

-- the fragments by their numbers, joined
unfoldable pub assembled : List (ℕ × String) → String
assembled fs = join_with "" (map (fragment_at fs) (sorted (map (λ f. f.0) fs)))

-- `json_loads` is `json.loads`, without a value where it raises JSONDecodeError
module _ (json_loads : String → Option Value) where
  abbrev parsed : Option Value → Result AssemblyError Fields
  parsed none = err corrupted_json
  parsed (some (obj fields)) = ok fields
  parsed (some v) = err not_an_object

  abbrev pub arguments_of : String → Result AssemblyError Fields
  arguments_of text = if is_empty text then err no_arguments else parsed (json_loads text)

  abbrev assemble_named :
      ℕ → String → Option String → FragmentBuffer → Result AssemblyError ToolCall
  assemble_named n call_id none b = err missing_name
  assemble_named n call_id (some name) b =
      if str_eq name ""
      then err missing_name
      else arguments_of (assembled b.fragments) >>= λ arguments.
          ok (record { id = call_id; name = name; arguments = arguments; ordinal = n })

  -- the body of the loop of `finalize`
  unfoldable pub call_of : ℕ → String → FragmentBuffer → Result AssemblyError ToolCall
  call_of n call_id b = from b.complete
    where
      from : Option ToolCall → Result AssemblyError ToolCall
      from (some c) = ok (record { id = c.id; name = c.name; arguments = c.arguments; ordinal = n })
      from none = assemble_named n call_id b.name b

  abbrev call_at : ℕ → String → Option FragmentBuffer → Result AssemblyError ToolCall
  call_at n call_id none = err key_error
  call_at n call_id (some b) = call_of n call_id b

  -- the loop of `finalize`, from the ordinal `n` on
  unfoldable pub finalize_from :
      Dict FragmentBuffer → ℕ → List String → Result AssemblyError (List ToolCall)
  finalize_from buffers n [] = ok []
  finalize_from buffers n (call_id ∷ ids) = call_at n call_id (lookup call_id buffers) >>= λ call.
      finalize_from buffers (suc n) ids >>= λ calls. ok (call ∷ calls)

  unfoldable pub finalize : Accumulator → Result AssemblyError (List ToolCall)
  finalize a = finalize_from a.buffers 0 a.order

pub record Aggregator : Type 0 where
  pub text_parts : List String
  pub tool_calls : Accumulator
  pub usage : Option TokenUsage
  pub stop_reason : Option StopReason

abbrev pub new_aggregator : Aggregator
new_aggregator = record {
  text_parts = [];
  tool_calls = new_accumulator;
  usage = none;
  stop_reason = none;
}

unfoldable pub aggregate : ModelDelta → Aggregator → Aggregator
aggregate (text_delta text) g = record g { text_parts = g.text_parts ++ text ∷ [] }
aggregate (tool_call_delta call) g = record g { tool_calls = add_complete call g.tool_calls }
aggregate (fragment_delta d) g = record g { tool_calls = add_fragment d g.tool_calls }
aggregate (usage_delta usage) g = record g { usage = some usage }
aggregate (stop_delta reason) g = record g { stop_reason = some reason }

-- the deltas of a stream, one after the other
unfoldable pub aggregate_all : List ModelDelta → Aggregator → Aggregator
aggregate_all [] g = g
aggregate_all (d ∷ ds) g = aggregate_all ds (aggregate d g)

abbrev pub if_valid :
    ModelResponse → Result ProviderErrorKind (Unit {0}) → Result StreamError ModelResponse
if_valid r (ok u) = ok r
if_valid r (err e) = err invalid_response

-- what `finalize_response` makes of an exception of `finalize`
abbrev pub error_of : AssemblyError → StreamError
error_of key_error = unexpected
error_of e = invalid_response

module _ (json_loads : String → Option Value) (response_id : String) where
  abbrev pub response_with : Aggregator → StopReason → List ToolCall → ModelResponse
  response_with g reason calls = record {
    content = join_with "" g.text_parts;
    stop_reason = reason;
    tool_calls = calls;
    usage = g.usage;
    response_id = response_id;
  }

  -- the code below the check of the stop reason
  abbrev pub finish_response :
      Aggregator
      → StopReason
      → Result AssemblyError (List ToolCall)
      → Result StreamError ModelResponse
  finish_response g reason (ok calls) =
      let r = response_with g reason calls in if_valid r (validate_model_response r)
  finish_response g reason (err e) = err (error_of e)

  abbrev pub finalize_at : Aggregator → Option StopReason → Result StreamError ModelResponse
  finalize_at g none = err interrupted
  finalize_at g (some reason) = finish_response g reason (finalize json_loads g.tool_calls)

  unfoldable pub finalize_response : Aggregator → Result StreamError ModelResponse
  finalize_response g = finalize_at g g.stop_reason
