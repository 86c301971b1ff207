-- ===== src/Tools/Registry.antt =====
-- src/coding_agent/tools/registry.py: the register of the tools. The pattern of the names and the
-- stripping of blanks are an argument, `normalize_name`.
use py_coding_agent.Prelude.{
  ℕ, ◌+◌, String, Bool, false, Option, none, some, not, str_eq, if◌then◌else◌, List, [], ◌∷◌,
}
use py_coding_agent.Prelude.Dict.{Dict, insert, erase, has_key}
use py_coding_agent.Prelude.Text.{is_blank}
use py_coding_agent.Result.{Result, ok, err}
use py_coding_agent.Value.{Value, str, get_field, fields_json}
use py_coding_agent.Tools.Pipeline.{ToolSpec, RegisteredTool}

-- ToolRegistryError, and UnknownToolError as the last
pub data RegistryError : Type 0 where
  invalid_name : String → RegistryError
  no_description schema_not_object schema_not_json : RegistryError
  duplicate unknown : String → RegistryError

pub record ToolRegistry : Type 0 where
  pub tools : Dict RegisteredTool
  pub version : ℕ

abbrev pub empty_registry : ToolRegistry
empty_registry = record { tools = []; version = 0 }

abbrev is_object : Option Value → Bool
is_object (some (str kind)) = str_eq kind "object"
is_object _ = false

-- `_validate_spec`
unfoldable pub validate_spec : ToolSpec → Option RegistryError
validate_spec spec =
    if is_blank spec.description
    then some no_description
    else if not (is_object (get_field spec.json_schema "type"))
    then some schema_not_object
    else if not (fields_json spec.json_schema)
    then some schema_not_json
    else none

abbrev pub registered : String → ToolSpec → RegisteredTool
registered name spec = record { name = name; spec = spec }

unfoldable pub register_named :
    ToolRegistry → ToolSpec → String → Option RegistryError → Result RegistryError ToolRegistry
register_named r spec name (some e) = err e
register_named r spec name none =
    if has_key name r.tools
    then err (duplicate name)
    else ok (record { tools = insert name (registered name spec) r.tools; version = r.version + 1 })

abbrev pub with_name :
    Result String String
    → (String → Result RegistryError ToolRegistry)
    → Result RegistryError ToolRegistry
with_name (err e) f = err (invalid_name e)
with_name (ok name) f = f name

-- `register`
unfoldable pub register :
    (String → Result String String) → ToolRegistry → ToolSpec → Result RegistryError ToolRegistry
register normalize_name r spec =
    with_name (normalize_name spec.name) (λ name. register_named r spec name (validate_spec spec))

unfoldable pub unregister_named : ToolRegistry → String → Result RegistryError ToolRegistry
unregister_named r name =
    if has_key name r.tools
    then ok (record { tools = erase name r.tools; version = r.version + 1 })
    else err (unknown name)

-- `unregister`
unfoldable pub unregister :
    (String → Result String String) → ToolRegistry → String → Result RegistryError ToolRegistry
unregister normalize_name r name = with_name (normalize_name name) (λ n. unregister_named r n)

-- the values of a dict, in its order
unfoldable pub values : Dict RegisteredTool → List RegisteredTool
values [] = []
values ((k, t) ∷ d) = t ∷ values d

-- the tools of `snapshot`
unfoldable pub snapshot : ToolRegistry → List RegisteredTool
snapshot r = values r.tools
