-- ===== src/Tools/Trace.antt =====
-- What the notices of one call of the pipeline say of its policies and its tool.
use py_coding_agent.Prelude.{ℕ, suc, ◌≤◌, Bool, true, false, ◌≡◌, List, [], ◌∷◌, arith}
use py_coding_agent.Tools.Pipeline.{
  PermissionDecision, allow, Stage, Notice, event, judged, executed,
}

-- how often a tool was called
abbrev pub executions : List Notice → ℕ
executions [] = 0
executions (executed id ∷ ts) = suc (executions ts)
executions (_ ∷ ts) = executions ts

abbrev pub is_allow : PermissionDecision → Bool
is_allow allow = true
is_allow _ = false

-- the latest answer of a stage's policy was ALLOW
abbrev pub allowed : Stage → List Notice → Bool
allowed stage [] = false
allowed Stage.permission (judged Stage.permission d ∷ ts) = is_allow d
allowed Stage.safety (judged Stage.safety d ∷ ts) = is_allow d
allowed stage (_ ∷ ts) = allowed stage ts

-- before every call of a tool, no tool was called, and both policies had allowed this one; the trace
-- has its latest notice first
abbrev pub IsGuarded : List Notice → Type 0
IsGuarded [] = Unit
IsGuarded (executed id ∷ ts) =
    (executions ts ≡ 0)
    × (allowed Stage.permission ts ≡ true)
    × (allowed Stage.safety ts ≡ true)
    × IsGuarded ts
IsGuarded (_ ∷ ts) = IsGuarded ts

-- a guarded trace has at most one call
pub IsGuarded-executions : (ts : List Notice) → IsGuarded ts → executions ts ≤ 1
IsGuarded-executions [] g = omega arith
IsGuarded-executions (executed id ∷ ts) g = omega arith
IsGuarded-executions (event kind id detail ∷ ts) g = IsGuarded-executions ts g
IsGuarded-executions (judged stage d ∷ ts) g = IsGuarded-executions ts g
