-- ===== src/Context/Cut.antt =====
-- `find_cut` of src/coding_agent/context/compaction.py: how far a history may be covered by a summary.
use py_coding_agent.Prelude.{
  ℕ, suc, ◌-◌, String, Option, none, some, ltb, ◌==◌, if◌then◌else◌, min, List, [], ◌∷◌, length,
  take, drop,
}
use py_coding_agent.Result.{Result, ok, err}
use py_coding_agent.Message.{Message}
use py_coding_agent.Message.History.{ids_of}
use py_coding_agent.Context.Groups.{MessageGroup, group_messages, ungroup}

-- what `find_cut`, `compact` and `validate` raise: ValueError, the IndexError of `covered_ids[-1]`,
-- then the checks of CompactionError
pub data CompactionError : Type 0 where
  preserve_too_few no_covered_id : CompactionError
  boundary_unknown preserved_covered : String → CompactionError
  incomplete_covered negative_tokens bad_version : CompactionError

pub record CutPlan : Type 0 where
  pub covered : List MessageGroup
  pub preserved : List MessageGroup
  pub cut_index : ℕ
  pub covered_ids : List String
  pub preserved_ids : List String

-- the place of the first incomplete group, or the number of groups
unfoldable pub blocker : List MessageGroup → ℕ
blocker [] = 0
blocker (g ∷ gs) = if g.incomplete then 0 else suc (blocker gs)

-- `groups[-1].end_index`
unfoldable pub last_end : List MessageGroup → ℕ
last_end [] = 0
last_end (g ∷ []) = g.end_index
last_end (g ∷ h ∷ gs) = last_end (h ∷ gs)

abbrev pub plan_at : ℕ → List MessageGroup → CutPlan
plan_at k groups = record {
  covered = take k groups;
  preserved = drop k groups;
  cut_index = suc (last_end (take k groups));
  covered_ids = ids_of (ungroup (take k groups));
  preserved_ids = ids_of (ungroup (drop k groups));
}

-- the plan for a number of groups; `-` stops at 0, where the code has a number below 1 as well
unfoldable pub cut_groups : ℕ → List MessageGroup → Option CutPlan
unfolding blocker
cut_groups preserve groups =
    let k = min (length groups - preserve) (blocker groups) in
    if k == 0 then none else some (plan_at k groups)

unfoldable pub find_cut : List Message → ℕ → Result CompactionError (Option CutPlan)
find_cut ms preserve_recent =
    if ltb preserve_recent 1
    then err preserve_too_few
    else ok (cut_groups preserve_recent (group_messages ms))
