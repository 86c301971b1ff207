-- ===== src/Tools/Examples.antt =====
-- A call of one tool that both policies allow.
use py_coding_agent.Prelude.{ℕ, ◌≤◌, String, none, some, List, [], ◌∷◌, ◌≡◌, refl}
use py_coding_agent.Result.{Result, ok}
use py_coding_agent.Value.{end, field, str, get_field, fields_json}
use py_coding_agent.Message.{ToolCall}
use py_coding_agent.Tools.Pipeline.{
  ToolSpec, find_tool, Environment, RegisteredTool, PermissionResult, allow, finished,
}
use py_coding_agent.Tools.Invoke.{invoke}
use py_coding_agent.Tools.Trace.{IsGuarded, executions}
use py_coding_agent.Prelude.Dict.{lookup, insert}
use py_coding_agent.Prelude.Text.{is_blank}
use py_coding_agent.Tools.Registry.{
  ToolRegistry, register, register_named, validate_spec, registered, snapshot,
}
use py_coding_agent.Tools.Snapshot.{IsBuilt, created, added, snapshot_finds}
use py_coding_agent.Tools.Guarded.{invoke-IsGuarded}

abbrev permitted : PermissionResult
permitted = record { decision = allow; reason = ""; risk = none; policy_version = none }

abbrev open_environment : Environment
open_environment = record {
  World = ℕ;
  normalize_name = λ name. ok name;
  repr = λ text. text;
  schema_errors = λ schema args. [];
  hooks = none;
  authorize = λ stage i w. (ok permitted, w);
  execute = λ tool i timeout w.
      (finished (record { output = "text"; exit_code = none; artifacts = [] }), 1);
  process = none;
  execute_timeout = some 30;
  seconds = λ t. "30";
}

abbrev tools : List RegisteredTool
tools =
    record {
      name = "read";
      spec = record { name = "read"; description = "reads"; json_schema = end };
    }
    ∷ []

abbrev read_call : ToolCall
read_call = record { id = "c1"; name = "read"; arguments = end; ordinal = 0 }

invoke-IsGuarded_example :
    let s = (invoke open_environment tools read_call none (record { world = 0; trace = [] })).1 in
    IsGuarded s.trace × (executions s.trace ≤ 1)
invoke-IsGuarded_example = invoke-IsGuarded open_environment tools read_call none 0

abbrev accept : String → Result String String
accept name = ok name

abbrev read_spec : ToolSpec
read_spec = record {
  name = "read";
  description = "reads";
  json_schema = field "type" (str "object") end;
}

abbrev one_tool : ToolRegistry
one_tool = record { tools = ("read", registered "read" read_spec) ∷ []; version = 1 }

one_tool-IsBuilt : IsBuilt accept 1 one_tool
unfolding register validate_spec register_named is_blank get_field fields_json lookup insert
one_tool-IsBuilt = added read_spec created refl

snapshot_finds_example :
    ((k : String) → find_tool k (snapshot one_tool) ≡ lookup k one_tool.tools)
    × (one_tool.version ≡ 1)
snapshot_finds_example = snapshot_finds one_tool-IsBuilt
