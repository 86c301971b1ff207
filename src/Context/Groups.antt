-- ===== src/Context/Groups.antt =====
-- `group_messages` of src/coding_agent/context/compaction.py: the parts of a history that must not be
-- taken apart.
use py_coding_agent.Prelude.{
  ℕ, zero, suc, ◌+◌, String, Bool, false, ltb, if◌then◌else◌, List, [], ◌∷◌, ◌++◌, length,
}
use py_coding_agent.Prelude.Dict.{contains}
use py_coding_agent.Message.{Message, assistant_message, tool_result}
use py_coding_agent.Message.History.{call_ids}

-- `end_index` is the place of the last message in the history
pub record MessageGroup : Type 0 where
  pub messages : List Message
  pub end_index : ℕ
  pub incomplete : Bool

-- a set of texts: each one once
unfoldable pub distinct : List String → List String
unfolding contains
distinct [] = []
distinct (x ∷ xs) = let rest = distinct xs in if contains x rest then rest else x ∷ rest

-- `isinstance(message, ToolResult) and message.tool_call_id in call_ids`
unfoldable pub answers : List String → Message → Bool
answers ids (tool_result r) = contains r.tool_call_id ids
answers ids _ = false

-- the inner loop: the results that follow, and what is behind them
unfoldable pub collect : List String → List Message → List Message × List Message
collect ids [] = ([], [])
collect ids (m ∷ ms) =
    let (rs, rest) = collect ids ms in if answers ids m then (m ∷ rs, rest) else ([], m ∷ ms)

abbrev pub assistant_group : Message → List String → ℕ → List Message → MessageGroup
assistant_group m ids index rs = record {
  messages = m ∷ rs;
  end_index = index + length rs;
  incomplete = ltb (length rs) (length (distinct ids));
}

abbrev pub single_group : Message → ℕ → MessageGroup
single_group m index = record { messages = m ∷ []; end_index = index; incomplete = false }

-- the group that starts with a message, and the messages behind the group
unfoldable pub first_group : ℕ → Message → List Message → MessageGroup × List Message
first_group index (assistant_message a) ms =
    let (rs, rest) = collect (call_ids a.tool_calls) ms in
    (assistant_group (assistant_message a) (call_ids a.tool_calls) index rs, rest)
first_group index m ms = (single_group m index, ms)

-- the outer loop, from a place in the history; each round takes a message, so the number of messages
-- is fuel enough
unfoldable pub group_from : ℕ → ℕ → List Message → List MessageGroup
group_from zero index ms = []
group_from (suc fuel) index [] = []
group_from (suc fuel) index (m ∷ ms) =
    let (g, rest) = first_group index m ms in g ∷ group_from fuel (suc g.end_index) rest

unfoldable pub group_messages : List Message → List MessageGroup
group_messages ms = group_from (length ms) 0 ms

-- the messages of some groups
unfoldable pub ungroup : List MessageGroup → List Message
ungroup [] = []
ungroup (g ∷ gs) = g.messages ++ ungroup gs
