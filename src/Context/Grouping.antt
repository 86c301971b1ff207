-- ===== src/Context/Grouping.antt =====
-- The groups of a history: they are its parts in order, and cutting between groups changes none.
use mathlib.Core.List.{append_assoc}
use py_coding_agent.Prelude.{
  ℕ, zero, suc, ◌+◌, ◌≤◌, ◌≡◌, refl, ap, ◌∙◌, false, List, [], ◌∷◌, ◌++◌, length, length-append,
  take, drop, Bool-cases, inl, inr, arith, String,
}
use py_coding_agent.Message.{Message, assistant_message, tool_result, system_message, user_message}
use py_coding_agent.Message.History.{call_ids}
use py_coding_agent.Context.Groups.{
  MessageGroup, answers, collect, first_group, group_from, group_messages, ungroup, assistant_group,
}

collect-append :
    (ids : List String) (ms : List Message) → (collect ids ms).0 ++ (collect ids ms).1 ≡ ms
unfolding collect
collect-append ids [] = refl
collect-append ids (m ∷ ms) = ground (arith, collect-append ids ms)

first_group-append :
    (i : ℕ) (m : Message) (ms : List Message)
    → (first_group i m ms).0.messages ++ (first_group i m ms).1 ≡ m ∷ ms
unfolding first_group
first_group-append i (assistant_message a) ms =
    ap (λ l. assistant_message a ∷ l) (collect-append (call_ids a.tool_calls) ms)
first_group-append i (system_message meta c) ms = refl
first_group-append i (user_message meta c) ms = refl
first_group-append i (tool_result r) ms = refl

first_group-rest :
    (i : ℕ) (m : Message) (ms : List Message) → length (first_group i m ms).1 ≤ length ms
unfolding first_group
first_group-rest i (assistant_message a) ms = omega (
  arith,
  length-append (collect (call_ids a.tool_calls) ms).0 (collect (call_ids a.tool_calls) ms).1,
  ap length (collect-append (call_ids a.tool_calls) ms),
)
first_group-rest i (system_message meta c) ms = omega arith
first_group-rest i (user_message meta c) ms = omega arith
first_group-rest i (tool_result r) ms = omega arith

pub ungroup-group_from :
    (fuel i : ℕ) (ms : List Message) → length ms ≤ fuel → ungroup (group_from fuel i ms) ≡ ms
unfolding group_from ungroup
ungroup-group_from zero i [] h = refl
ungroup-group_from zero i (m ∷ ms) h = absurd (omega arith)
ungroup-group_from (suc fuel) i [] h = refl
ungroup-group_from (suc fuel) i (m ∷ ms) h =
    let shorter = first_group-rest i m ms in
    ap (λ l. (first_group i m ms).0.messages ++ l)
      (ungroup-group_from fuel (suc (first_group i m ms).0.end_index) (first_group i m ms).1
        (omega arith))
    ∙ first_group-append i m ms

-- what stopped `collect` stops it again where the rest is cut off
collect-cut :
    (ids : List String) (ms xs ys : List Message)
    → xs ++ ys ≡ (collect ids ms).1
    → collect ids ((collect ids ms).0 ++ xs) ≡ ((collect ids ms).0, xs)
unfolding collect
collect-cut ids [] [] ys e = refl
collect-cut ids [] (x ∷ xs) ys e = absurd (ground arith)
collect-cut ids (m ∷ ms) xs ys e = elim (Bool-cases (answers ids m)) [
  | inl yes' ↦ ground (arith, collect-cut ids ms xs ys)
  | inr no' ↦ stopped ids m ms xs ys no' (rw no' at e)
]
  where
    stopped :
        (ids : List String) (m : Message) (ms xs ys : List Message)
        → answers ids m ≡ false
        → xs ++ ys ≡ m ∷ ms
        → collect ids ((collect ids (m ∷ ms)).0 ++ xs) ≡ ((collect ids (m ∷ ms)).0, xs)
    stopped ids m ms [] ys no' e = ground arith
    stopped ids m ms (x ∷ xs) ys no' e = ground arith

first_group-cut :
    (i : ℕ) (m : Message) (ms xs ys : List Message)
    → xs ++ ys ≡ (first_group i m ms).1
    → (rs : List Message) × ((first_group i m ms).0.messages ≡ m ∷ rs)
      × (first_group i m (rs ++ xs) ≡ ((first_group i m ms).0, xs))
unfolding first_group
first_group-cut i (assistant_message a) ms xs ys e =
    let cut = collect-cut (call_ids a.tool_calls) ms xs ys e in
    (
      (collect (call_ids a.tool_calls) ms).0,
      refl,
      ap
          (λ (p : List Message × List Message).
            (assistant_group (assistant_message a) (call_ids a.tool_calls) i p.0, p.1))
          cut,
    )
first_group-cut i (system_message meta c) ms xs ys e = ([], refl, refl)
first_group-cut i (user_message meta c) ms xs ys e = ([], refl, refl)
first_group-cut i (tool_result r) ms xs ys e = ([], refl, refl)

pub ungroup-take-drop :
    (k : ℕ) (gs : List MessageGroup) → ungroup (take k gs) ++ ungroup (drop k gs) ≡ ungroup gs
unfolding ungroup
ungroup-take-drop zero gs = refl
ungroup-take-drop (suc k) [] = refl
ungroup-take-drop (suc k) (g ∷ gs) =
    append_assoc g.messages (ungroup (take k gs)) (ungroup (drop k gs))
    ∙ ap (λ l. g.messages ++ l) (ungroup-take-drop k gs)

group_from-nil : (fuel i : ℕ) → group_from fuel i [] ≡ []
unfolding group_from
group_from-nil zero i = refl
group_from-nil (suc fuel) i = refl

-- the groups of some groups' messages, counted from the place where they start, are these groups
group_from-take :
    (fuel fuel' k i : ℕ) (ms : List Message)
    → length ms ≤ fuel
    → length (ungroup (take k (group_from fuel i ms))) ≤ fuel'
    → group_from fuel' i (ungroup (take k (group_from fuel i ms))) ≡ take k (group_from fuel i ms)
unfolding group_from ungroup
group_from-take fuel fuel' zero i ms h h' = group_from-nil fuel' i
group_from-take zero fuel' (suc k) i [] h h' = group_from-nil fuel' i
group_from-take (suc fuel) fuel' (suc k) i [] h h' = group_from-nil fuel' i
group_from-take zero fuel' (suc k) i (m ∷ ms) h h' = absurd (omega arith)
group_from-take (suc fuel) zero (suc k) i (m ∷ ms) h h' =
    let (rs, starts, cut) = first_group-cut i m ms [] (first_group i m ms).1 refl in
    absurd (
      omega (
        arith,
        ap length starts,
        length-append (first_group i m ms).0.messages (
            ungroup (
              take k
                (group_from fuel (suc (first_group i m ms).0.end_index) (first_group i m ms).1))),
      ))
group_from-take (suc fuel) (suc fuel') (suc k) i (m ∷ ms) h h' =
    let f : MessageGroup × List Message = first_group i m ms in
    let gs : List MessageGroup = group_from fuel (suc f.0.end_index) f.1 in
    let xs : List Message = ungroup (take k gs) in
    let shorter : length f.1 ≤ fuel = omega (arith, first_group-rest i m ms) in
    let (rs, starts, cut) =
      first_group-cut i m ms xs (ungroup (drop k gs))
        (ungroup-take-drop k gs ∙ ungroup-group_from fuel (suc f.0.end_index) f.1 shorter) in
    ap (λ l. group_from (suc fuel') i (l ++ xs)) starts
    ∙ ap (λ (p : MessageGroup × List Message). p.0 ∷ group_from fuel' (suc p.0.end_index) p.1) cut
    ∙ ap (λ l. f.0 ∷ l)
        (group_from-take fuel fuel' k (suc f.0.end_index) f.1 shorter
          (omega (arith, ap length starts, length-append f.0.messages xs)))

-- the messages of the groups before a cut have these groups
pub group_messages-take :
    (k : ℕ) (ms : List Message)
    → group_messages (ungroup (take k (group_messages ms))) ≡ take k (group_messages ms)
unfolding group_messages
group_messages-take k ms = group_from-take (length ms) _ k 0 ms (omega arith) (omega arith)

-- Grouping takes a history apart and loses nothing: the groups' messages, one group behind the other,
-- are the history.
pub ungroup-group_messages : (ms : List Message) → ungroup (group_messages ms) ≡ ms
unfolding group_messages
ungroup-group_messages ms = ungroup-group_from (length ms) 0 ms (omega arith)

-- groups that start at a place of the history, none of them empty, each ending where it says
abbrev pub AreIndexed : ℕ → List MessageGroup → Type 0
AreIndexed i [] = Unit
AreIndexed i (g ∷ gs) = (suc g.end_index ≡ i + length g.messages) × AreIndexed (suc g.end_index) gs

first_group-end :
    (i : ℕ) (m : Message) (ms : List Message)
    → suc (first_group i m ms).0.end_index ≡ i + length (first_group i m ms).0.messages
unfolding first_group
first_group-end i (assistant_message a) ms = omega arith
first_group-end i (system_message meta c) ms = omega arith
first_group-end i (user_message meta c) ms = omega arith
first_group-end i (tool_result r) ms = omega arith

group_from-AreIndexed : (fuel i : ℕ) (ms : List Message) → AreIndexed i (group_from fuel i ms)
unfolding group_from
group_from-AreIndexed zero i ms = tt
group_from-AreIndexed (suc fuel) i [] = tt
group_from-AreIndexed (suc fuel) i (m ∷ ms) =
    (first_group-end i m ms, group_from-AreIndexed fuel _ (first_group i m ms).1)

pub group_messages-AreIndexed : (ms : List Message) → AreIndexed 0 (group_messages ms)
unfolding group_messages
group_messages-AreIndexed ms = group_from-AreIndexed (length ms) 0 ms
