-- ===== src/Context/Cutting.antt =====
-- Where `find_cut` cuts.
use py_coding_agent.Prelude.{
  ℕ, zero, suc, ◌+◌, ◌-◌, ◌≤◌, ◌<◌, ◌≡◌, refl, ap, ◌∙◌, ◌⊎◌, inl, inr, true, false, none, some, min,
  ◌==◌, List, [], ◌∷◌, ◌++◌, length, length-append, take, drop, length-drop, length-take,
  Bool-cases, leb-cases, subst, arith,
}
use py_coding_agent.Result.{ok}
use py_coding_agent.Message.{Message}
use py_coding_agent.Message.History.{ids_of}
use py_coding_agent.Context.Groups.{MessageGroup, group_messages, ungroup}
use py_coding_agent.Context.Grouping.{
  ungroup-take-drop, ungroup-group_messages, AreIndexed, group_messages-AreIndexed,
}
use py_coding_agent.Context.Cut.{CutPlan, blocker, last_end, plan_at, cut_groups, find_cut}

abbrev pub AreComplete : List MessageGroup → Type 0
AreComplete [] = Unit
AreComplete (g ∷ gs) = (g.incomplete ≡ false) × AreComplete gs

-- the first group, if there is one, lacks a result
abbrev pub StartsIncomplete : List MessageGroup → Type 0
StartsIncomplete [] = ⊥
StartsIncomplete (g ∷ gs) = g.incomplete ≡ true

-- A legal cut of the groups which cannot be later: `covered` are whole groups with all their results,
-- at least one, `preserved` are the others, at least `preserve`, and either no more than that or the
-- first of them lacks a result.
pub record IsCut (ms : List Message) (preserve : ℕ) (plan : CutPlan) : Type 0 where
  pub groups : plan.covered ++ plan.preserved ≡ group_messages ms
  pub history : ungroup plan.covered ++ ungroup plan.preserved ≡ ms
  pub place : plan.cut_index ≡ length (ungroup plan.covered)
  pub complete : AreComplete plan.covered
  pub some_covered : 0 < length plan.covered
  pub recent : preserve ≤ length plan.preserved
  pub latest : (length plan.preserved ≡ preserve) ⊎ StartsIncomplete plan.preserved
  pub boundary_ids : plan.covered_ids ≡ ids_of (ungroup plan.covered)
  pub kept_ids : plan.preserved_ids ≡ ids_of (ungroup plan.preserved)

blocker-AreComplete : (k : ℕ) (gs : List MessageGroup) → k ≤ blocker gs → AreComplete (take k gs)
unfolding blocker
blocker-AreComplete zero gs h = tt
blocker-AreComplete (suc k) [] h = tt
blocker-AreComplete (suc k) (g ∷ gs) h = ground (arith, blocker-AreComplete k gs)

blocker-StartsIncomplete :
    (gs : List MessageGroup) → blocker gs < length gs → StartsIncomplete (drop (blocker gs) gs)
unfolding blocker
blocker-StartsIncomplete [] h = absurd (omega arith)
blocker-StartsIncomplete (g ∷ gs) h = elim (Bool-cases g.incomplete) [
  | inl e ↦ rw e refl
  | inr e ↦ rw e (blocker-StartsIncomplete gs (ground arith))
]

blocker-le : (gs : List MessageGroup) → blocker gs ≤ length gs
unfolding blocker
blocker-le [] = omega arith
blocker-le (g ∷ gs) = ground (arith, blocker-le gs)

last_end-AreIndexed :
    (k i : ℕ) (gs : List MessageGroup)
    → AreIndexed i gs
    → 0 < k
    → 0 < length gs
    → suc (last_end (take k gs)) ≡ i + length (ungroup (take k gs))
unfolding last_end ungroup
last_end-AreIndexed zero i gs a h n = absurd (omega arith)
last_end-AreIndexed (suc k) i [] a h n = absurd (omega arith)
last_end-AreIndexed (suc zero) i (g ∷ gs) a h n = omega (arith, length-append g.messages [])
last_end-AreIndexed (suc (suc k)) i (g ∷ []) a h n = omega (arith, length-append g.messages [])
last_end-AreIndexed (suc (suc k)) i (g ∷ g' ∷ gs) a h n = omega (
  arith,
  last_end-AreIndexed (suc k) (suc g.end_index) (g' ∷ gs) a.1 (omega arith) (omega arith),
  length-append g.messages (ungroup (g' ∷ take k gs)),
)

take-drop-append : (k : ℕ) (gs : List MessageGroup) → take k gs ++ drop k gs ≡ gs
take-drop-append zero gs = refl
take-drop-append (suc k) [] = refl
take-drop-append (suc k) (g ∷ gs) = ap (λ l. g ∷ l) (take-drop-append k gs)

-- a cut behind `k` groups, as late as the blocker and the groups to preserve allow
plan_at-IsCut :
    (ms : List Message) (preserve k : ℕ)
    → k ≡ min (length (group_messages ms) - preserve) (blocker (group_messages ms))
    → 0 < k
    → IsCut ms preserve (plan_at k (group_messages ms))
plan_at-IsCut ms preserve k e pos = record {
  groups = take-drop-append k gs;
  history = ungroup-take-drop k gs ∙ ungroup-group_messages ms;
  place = last_end-AreIndexed k 0 gs (group_messages-AreIndexed ms) pos (omega arith) ∙ omega arith;
  complete = blocker-AreComplete k gs (omega arith);
  some_covered = omega (arith, length-take k gs, blocker-le gs);
  recent = omega (arith, length-drop k gs);
  latest = latest_cut (leb-cases (length gs - preserve) (blocker gs));
  boundary_ids = refl;
  kept_ids = refl;
}
  where
    gs : List MessageGroup
    gs = group_messages ms

    latest_cut :
        (length gs - preserve ≤ blocker gs) ⊎ (blocker gs < length gs - preserve)
        → (length (drop k gs) ≡ preserve) ⊎ StartsIncomplete (drop k gs)
    latest_cut (inl h) = inl (omega (arith, length-drop k gs))
    latest_cut (inr h) =
        let at_blocker : blocker gs ≡ k = omega arith in
        inr (
          subst (λ n. StartsIncomplete (drop n gs)) at_blocker
            (blocker-StartsIncomplete gs (omega arith)))

-- a legal cut leaves room before the blocker and the groups to preserve
IsCut-room :
    (ms : List Message) (preserve : ℕ) (plan : CutPlan)
    → IsCut ms preserve plan
    → (0 < length (group_messages ms) - preserve) × (0 < blocker (group_messages ms))
unfolding blocker
IsCut-room ms preserve plan c = rw (← c.groups) (room plan.covered c.complete c.some_covered)
  where
    room :
        (covered : List MessageGroup)
        → AreComplete covered
        → 0 < length covered
        → (0 < length (covered ++ plan.preserved) - preserve)
          × (0 < blocker (covered ++ plan.preserved))
    room [] a h = absurd (omega arith)
    room (g ∷ gs) a h = (omega (arith, length-append gs plan.preserved, c.recent), ground arith)

-- With at least one group to preserve, `find_cut` never raises. Either it plans a legal cut and none is
-- later: whole groups are covered, at least one, each call of them with its result, at least
-- `preserve` groups stay, and one more group could not be covered. Or it plans none, and then there is
-- no legal cut at all.
pub find_cut-IsCut :
    (ms : List Message) (preserve : ℕ)
    → 1 ≤ preserve
    → ((plan : CutPlan) × (find_cut ms preserve ≡ ok (some plan)) × IsCut ms preserve plan)
      ⊎ ((find_cut ms preserve ≡ ok none) × ((plan : CutPlan) → ¬ IsCut ms preserve plan))
unfolding find_cut cut_groups
find_cut-IsCut ms preserve h = by_room (Bool-cases (k == 0))
  where
    k : ℕ
    k = min (length (group_messages ms) - preserve) (blocker (group_messages ms))

    by_room :
        ((k == 0) ≡ true) ⊎ ((k == 0) ≡ false)
        → ((plan : CutPlan) × (find_cut ms preserve ≡ ok (some plan)) × IsCut ms preserve plan)
          ⊎ ((find_cut ms preserve ≡ ok none) × ((plan : CutPlan) → ¬ IsCut ms preserve plan))
    by_room (inl e) = inr (ground arith, λ plan c. ground (arith, IsCut-room ms preserve plan c))
    by_room (inr e) = inl (
      plan_at k (group_messages ms),
      ground arith,
      plan_at-IsCut ms preserve k refl (ground arith),
    )
