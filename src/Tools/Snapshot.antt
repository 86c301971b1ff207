-- ===== src/Tools/Snapshot.antt =====
-- What a reader of a snapshot finds, and the registry's version.
use py_coding_agent.Prelude.{
  ℕ, suc, ◌+◌, String, Bool, true, false, Option, str_eq, if◌then◌else◌, ◌≡◌, refl, sym, ◌∙◌, ◌↔◌,
  eq_iff, [], ◌∷◌, arith,
}
use py_coding_agent.Prelude.Dict.{Dict, lookup, insert, erase}
use py_coding_agent.Result.{Result, ok, err}
use py_coding_agent.Tools.Pipeline.{ToolSpec, RegisteredTool, find_tool}
use py_coding_agent.Tools.Registry.{
  ToolRegistry, RegistryError, empty_registry, register, register_named, validate_spec, registered,
  with_name, unregister, unregister_named, snapshot, values,
}

-- every tool stands under its own name
abbrev pub AreNamed : Dict RegisteredTool → Type 0
AreNamed [] = Unit
AreNamed ((k, t) ∷ d) = (t.name ≡ k) × AreNamed d

AreNamed-insert :
    (k : String) (t : RegisteredTool) (d : Dict RegisteredTool)
    → t.name ≡ k
    → AreNamed d
    → AreNamed (insert k t d)
unfolding insert
AreNamed-insert k t [] e n = (e, tt)
AreNamed-insert k t ((j, u) ∷ d) e n =
    placed (str_eq j k) (eq_iff j k) (AreNamed-insert k t d e n.1)
  where
    placed :
        (b : Bool)
        → (b ≡ true) ↔ (j ≡ k)
        → AreNamed (insert k t d)
        → AreNamed (if b then (j, t) ∷ d else (j, u) ∷ insert k t d)
    placed true same rest = (e ∙ sym (same.0 refl), n.1)
    placed false same rest = (n.0, rest)

AreNamed-erase : (k : String) (d : Dict RegisteredTool) → AreNamed d → AreNamed (erase k d)
unfolding erase
AreNamed-erase k [] n = tt
AreNamed-erase k ((j, u) ∷ d) n = kept (str_eq j k) (AreNamed-erase k d n.1)
  where
    kept :
        (b : Bool) → AreNamed (erase k d) → AreNamed (if b then erase k d else (j, u) ∷ erase k d)
    kept true rest = rest
    kept false rest = (n.0, rest)

find_tool-values :
    (k : String) (d : Dict RegisteredTool) → AreNamed d → find_tool k (values d) ≡ lookup k d
unfolding find_tool values lookup
find_tool-values k [] n = refl
find_tool-values k ((j, t) ∷ d) n = rw (n.0, find_tool-values k d n.1) refl

-- the registries that `register` and `unregister` build, with the number of calls that they accepted
pub data IsBuilt (normalize_name : String → Result String String) : ℕ → ToolRegistry → Type 0 where
  created : IsBuilt normalize_name 0 empty_registry
  added :
      {n : ℕ} {r r' : ToolRegistry} (spec : ToolSpec)
      → IsBuilt normalize_name n r
      → register normalize_name r spec ≡ ok r'
      → IsBuilt normalize_name (suc n) r'
  removed :
      {n : ℕ} {r r' : ToolRegistry} (name : String)
      → IsBuilt normalize_name n r
      → unregister normalize_name r name ≡ ok r'
      → IsBuilt normalize_name (suc n) r'

register_named-ok :
    (r r' : ToolRegistry) (spec : ToolSpec) (name : String) (v : Option RegistryError)
    → register_named r spec name v ≡ ok r'
    → (r'.tools ≡ insert name (registered name spec) r.tools) × (r'.version ≡ r.version + 1)
unfolding register_named
register_named-ok r r' spec name v h = ground arith

register-keeps :
    (normalize_name : String → Result String String) (r r' : ToolRegistry) (spec : ToolSpec)
    → register normalize_name r spec ≡ ok r'
    → AreNamed r.tools
    → AreNamed r'.tools × (r'.version ≡ r.version + 1)
unfolding register
register-keeps normalize_name r r' spec h n = by_name (normalize_name spec.name) h
  where
    by_name :
        (m : Result String String)
        → with_name m (λ name. register_named r spec name (validate_spec spec)) ≡ ok r'
        → AreNamed r'.tools × (r'.version ≡ r.version + 1)
    by_name (err e) h = absurd (ground arith)
    by_name (ok name) h =
        let (e, v) = register_named-ok r r' spec name (validate_spec spec) h in
        (rw e (AreNamed-insert name (registered name spec) r.tools refl n), v)

unregister_named-ok :
    (r r' : ToolRegistry) (name : String)
    → unregister_named r name ≡ ok r'
    → (r'.tools ≡ erase name r.tools) × (r'.version ≡ r.version + 1)
unfolding unregister_named
unregister_named-ok r r' name h = ground arith

unregister-keeps :
    (normalize_name : String → Result String String) (r r' : ToolRegistry) (name : String)
    → unregister normalize_name r name ≡ ok r'
    → AreNamed r.tools
    → AreNamed r'.tools × (r'.version ≡ r.version + 1)
unfolding unregister
unregister-keeps normalize_name r r' name h n = by_name (normalize_name name) h
  where
    by_name :
        (m : Result String String)
        → with_name m (λ k. unregister_named r k) ≡ ok r'
        → AreNamed r'.tools × (r'.version ≡ r.version + 1)
    by_name (err e) h = absurd (ground arith)
    by_name (ok k) h =
        let (e, v) = unregister_named-ok r r' k h in (rw e (AreNamed-erase k r.tools n), v)

built-AreNamed :
    {normalize_name : String → Result String String} {n : ℕ} {r : ToolRegistry}
    → IsBuilt normalize_name n r
    → AreNamed r.tools × (r.version ≡ n)
built-AreNamed created = (tt, refl)
built-AreNamed {normalize_name} {r = r'} (added {n = n} {r = r} spec b h) =
    let (named, v) = built-AreNamed b in
    let (named', v') = register-keeps normalize_name r r' spec h named in (named', omega arith)
built-AreNamed {normalize_name} {r = r'} (removed {n = n} {r = r} name b h) =
    let (named, v) = built-AreNamed b in
    let (named', v') = unregister-keeps normalize_name r r' name h named in (named', omega arith)

-- A snapshot of a registry, however the registry was built by `register` and `unregister`: its `get`
-- finds under a normalized name what the registry has under it; and the version of the registry is
-- the number of the calls that it accepted.
pub snapshot_finds :
    {normalize_name : String → Result String String} {n : ℕ} {r : ToolRegistry}
    → IsBuilt normalize_name n r
    → ((k : String) → find_tool k (snapshot r) ≡ lookup k r.tools) × (r.version ≡ n)
unfolding snapshot
snapshot_finds {r = r} b =
    let (named, v) = built-AreNamed b in (λ k. find_tool-values k r.tools named, v)
