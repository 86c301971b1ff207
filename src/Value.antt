-- ===== src/Value.antt =====
-- The values that Python's `json` module reads and writes, and what the code asks of them: `get`
-- on a dict, `isinstance`, and whether `json.dumps` accepts a value.
use py_coding_agent.Prelude.{
  String, Bool, true, false, Option, none, some, ◌&&◌, str_eq, if◌then◌else◌, List, [], ◌∷◌,
}
use py_coding_agent.Prelude.Int.{ℤ}

-- `float` carries the number's repr; `opaque` is any object that `json` cannot encode.
mutual
  pub data Value : Type 0 where
    null : Value
    float str opaque : String → Value
    boolean : Bool → Value
    int : ℤ → Value
    obj : Fields → Value
    arr : Items → Value

  -- the entries of a dict, in its order
  pub data Fields : Type 0 where
    end : Fields
    field : String → Value → Fields → Fields

  pub data Items : Type 0 where
    nil : Items
    cons : Value → Items → Items

-- `data.get(key)`: `none` if the key is missing
unfoldable pub get_field : Fields → String → Option Value
get_field end key = none
get_field (field k v rest) key = if str_eq k key then some v else get_field rest key

-- `json.dumps(value)` succeeds
unfoldable mutual
  pub is_json : Value → Bool
  is_json null = true
  is_json (boolean b) = true
  is_json (int n) = true
  is_json (float x) = true
  is_json (str s) = true
  is_json (opaque x) = false
  is_json (arr items) = are_json items
  is_json (obj fields) = fields_json fields

  pub are_json : Items → Bool
  are_json nil = true
  are_json (cons v rest) = is_json v && are_json rest

  pub fields_json : Fields → Bool
  fields_json end = true
  fields_json (field k v rest) = is_json v && fields_json rest

-- a dict display `{k: v, ...}` with distinct keys
abbrev pub dict_of : List (String × Value) → Fields
dict_of [] = end
dict_of ((k, v) ∷ rest) = field k v (dict_of rest)

abbrev pub items_of : List Value → Items
items_of [] = nil
items_of (v ∷ rest) = cons v (items_of rest)

abbrev pub list_of : Items → List Value
list_of nil = []
list_of (cons v rest) = v ∷ list_of rest
