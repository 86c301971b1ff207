-- ===== src/Context/Compaction.antt =====
-- What `Compactor.compact` guarantees.
use py_coding_agent.Prelude.{
  ℕ, suc, ◌+◌, ◌≤◌, ◌<◌, ◌≡◌, refl, sym, ap, ◌∙◌, subst, ◌⊎◌, inl, inr, String, false, Option, none,
  some, ◌||◌, List, [], ◌∷◌, ◌++◌, length, length-append, take, eq_iff, arith,
}
use py_coding_agent.Prelude.Int.{ℤ, pos, negsuc, ◌+ℤ◌, is_negative}
use py_coding_agent.Prelude.Dict.{Dict, lookup, insert, lookup-insert, contains}
use py_coding_agent.Result.{ok}
use py_coding_agent.Value.{Fields}
use py_coding_agent.Message.{Message, meta_of}
use py_coding_agent.Message.History.{
  ids_of, ids_of-append, AreDistinct, AreFresh, AreFresh-cons_of, AreFresh-nil, contains-append,
}
use py_coding_agent.Context.Groups.{MessageGroup, group_messages, ungroup}
use py_coding_agent.Context.Grouping.{AreIndexed, group_messages-AreIndexed, group_messages-take}
use py_coding_agent.Context.Cut.{CutPlan}
use py_coding_agent.Context.Cutting.{AreComplete, IsCut, find_cut-IsCut}
use py_coding_agent.Context.Extraction.{extract_summary-HasSeen}
use py_coding_agent.Context.Compactor.{
  CompactionRecord, index_from, last_id, covered_one, any_incomplete, below_one, validate_covered,
  validate_record, count_messages, next_version, record_of, compact,
}

take-length-append {ℓ} : {A : Type ℓ} (xs ys : List A) → take (length xs) (xs ++ ys) ≡ xs
take-length-append [] ys = refl
take-length-append (x ∷ xs) ys = ap (λ l. x ∷ l) (take-length-append xs ys)

AreDistinct-AreFresh : (xs ys : List String) → AreDistinct (xs ++ ys) → AreFresh xs ys
AreDistinct-AreFresh [] ys d = AreFresh-nil ys
AreDistinct-AreFresh (x ∷ xs) ys d =
    AreFresh-cons_of x xs ys (ground (arith, contains-append x xs ys))
      (AreDistinct-AreFresh xs ys d.1)

covered_one-AreFresh : (xs ys : List String) → AreFresh xs ys → covered_one xs ys ≡ none
unfolding covered_one
covered_one-AreFresh xs [] f = refl
covered_one-AreFresh xs (y ∷ ys) f = ground (arith, covered_one-AreFresh xs ys)

any_incomplete-AreComplete : (gs : List MessageGroup) → AreComplete gs → any_incomplete gs ≡ false
unfolding any_incomplete
any_incomplete-AreComplete [] a = refl
any_incomplete-AreComplete (g ∷ gs) a = ground (arith, any_incomplete-AreComplete gs)

length-ids_of : (ms : List Message) → length (ids_of ms) ≡ length ms
unfolding ids_of
length-ids_of [] = refl
length-ids_of (m ∷ ms) = ap suc (length-ids_of ms)

-- the first of the groups of a history has a message
ungroup-nonempty :
    (gs ps : List MessageGroup) → AreIndexed 0 (gs ++ ps) → 0 < length gs → 0 < length (ungroup gs)
unfolding ungroup
ungroup-nonempty [] ps a h = h
ungroup-nonempty (g ∷ gs) ps a h = omega (arith, a.0, length-append g.messages (ungroup gs))

-- an id that no later message has keeps its place
lookup-index_from :
    (k : String) (i : ℕ) (d : Dict ℕ) (ms : List Message)
    → contains k (ids_of ms) ≡ false
    → lookup k (index_from i d ms) ≡ lookup k d
unfolding index_from ids_of contains
lookup-index_from k i d [] h = refl
lookup-index_from k i d (m ∷ ms) h =
    lookup-index_from k (suc i) (insert (meta_of m).id i d) ms (ground arith)
    ∙ lookup-insert (meta_of m).id k i d
    ∙ ground (arith, eq_iff (meta_of m).id k)

-- the place of the last of some messages
lookup-last_id :
    (b : String) (i : ℕ) (d : Dict ℕ) (cs ps : List Message)
    → AreDistinct (ids_of (cs ++ ps))
    → last_id (ids_of cs) ≡ some b
    → (j : ℕ) × (lookup b (index_from i d (cs ++ ps)) ≡ some j) × (suc j ≡ i + length cs)
unfolding index_from ids_of last_id
lookup-last_id b i d [] ps h e = absurd (ground arith)
lookup-last_id b i d (m ∷ []) ps h e =
    let same : (meta_of m).id ≡ b = ground arith in
    (
      i,
      lookup-index_from b (suc i) (insert (meta_of m).id i d) ps
            (subst (λ x. contains x (ids_of ps) ≡ false) same h.0)
          ∙ lookup-insert (meta_of m).id b i d
          ∙ ground (arith, eq_iff (meta_of m).id b),
      omega arith,
    )
lookup-last_id b i d (m ∷ m' ∷ cs) ps h e =
    let (j, found, place) =
      lookup-last_id b (suc i) (insert (meta_of m).id i d) (m' ∷ cs) ps h.1 e in
    (j, found, omega arith)

last_id-some : (x : String) (xs : List String) → (b : String) × (last_id (x ∷ xs) ≡ some b)
unfolding last_id
last_id-some x [] = (x, refl)
last_id-some x (y ∷ ys) = last_id-some y ys

+ℤ-not_negative :
    (a b : ℤ) → is_negative a ≡ false → is_negative b ≡ false → is_negative (a +ℤ b) ≡ false
+ℤ-not_negative (pos a) (pos b) h k = refl
+ℤ-not_negative (pos a) (negsuc b) h k = absurd (ground arith)
+ℤ-not_negative (negsuc a) b h k = absurd (ground arith)

next-not_below_one : (v : ℤ) → is_negative v ≡ false → below_one (v +ℤ pos 1) ≡ false
next-not_below_one (pos n) h = ground arith
next-not_below_one (negsuc n) h = absurd (ground arith)

-- a record with the boundary of a legal cut passes the checks
validate_record-IsCut :
    (ms : List Message) (preserve : ℕ) (plan : CutPlan) (r : CompactionRecord)
    → AreDistinct (ids_of ms)
    → IsCut ms preserve plan
    → last_id plan.covered_ids ≡ some r.covered_through_id
    → r.preserved_ids ≡ plan.preserved_ids
    → (is_negative r.token_before || is_negative r.token_after) ≡ false
    → below_one r.summary_version ≡ false
    → validate_record r ms ≡ ok tt
unfolding validate_record validate_covered
validate_record-IsCut ms preserve plan r d c boundary kept tokens version =
    let covered : List Message = ungroup plan.covered in
    let preserved : List Message = ungroup plan.preserved in
    let (j, found, place) =
      lookup-last_id r.covered_through_id 0 [] covered preserved
        (subst (λ l. AreDistinct (ids_of l)) (sym c.history) d)
        (ap last_id (sym c.boundary_ids) ∙ boundary) in
    let found_in : lookup r.covered_through_id (index_from 0 [] ms) ≡ some j =
      ap (λ l. lookup r.covered_through_id (index_from 0 [] l)) (sym c.history) ∙ found in
    let cut : take (suc j) ms ≡ covered =
      ap (λ l. take (suc j) l) (sym c.history)
      ∙ ap (λ n. take n (covered ++ preserved)) (place ∙ omega arith)
      ∙ take-length-append covered preserved in
    let fresh : covered_one (ids_of covered) r.preserved_ids ≡ none =
      covered_one-AreFresh (ids_of covered) r.preserved_ids (
        subst (AreFresh (ids_of covered)) (sym (kept ∙ c.kept_ids)) (
          AreDistinct-AreFresh (ids_of covered) (ids_of preserved)
            (subst AreDistinct (ap ids_of (sym c.history) ∙ ids_of-append covered preserved) d))) in
    let whole : take (length plan.covered) (group_messages ms) ≡ plan.covered =
      ap (λ l. take (length plan.covered) l) (sym c.groups)
      ∙ take-length-append plan.covered plan.preserved in
    let groups : group_messages covered ≡ plan.covered =
      ap (λ l. group_messages (ungroup l)) (sym whole)
      ∙ group_messages-take (length plan.covered) ms
      ∙ whole in
    let complete : any_incomplete (group_messages covered) ≡ false =
      ap any_incomplete groups ∙ any_incomplete-AreComplete plan.covered c.complete in
    rw found_in (rw cut (rw fresh (rw complete (rw tokens (rw version refl)))))

-- `r` is the record of the plan: it covers the history up to the last covered message, keeps the others'
-- ids, names the covered messages as the summary's sources, counts the version up and passes the checks
pub record IsCompaction (ms : List Message) (old : Option CompactionRecord) (plan : CutPlan)
    (r : CompactionRecord) : Type 0 where
  pub boundary : last_id (ids_of (ungroup plan.covered)) ≡ some r.covered_through_id
  pub kept : r.preserved_ids ≡ ids_of (ungroup plan.preserved)
  pub sources : r.summary.source_ids ≡ ids_of (ungroup plan.covered)
  pub version : r.summary_version ≡ next_version old
  pub valid : validate_record r ms ≡ ok tt

-- the version of an old record, if there is one, is not negative
abbrev pub IsVersioned : Option CompactionRecord → Type 0
IsVersioned none = Unit
IsVersioned (some old) = is_negative old.summary_version ≡ false

next_version-not_below_one :
    (old : Option CompactionRecord) → IsVersioned old → below_one (next_version old) ≡ false
next_version-not_below_one none h = refl
next_version-not_below_one (some old) h = next-not_below_one old.summary_version h

module _ (show_fields : Fields → String) (lower : String → String) (show_int : Option ℤ → String)
    (show : ℕ → String) (count_text : String → ℤ)
    (counts : (text : String) → is_negative (count_text text) ≡ false) where
  count_messages-not_negative :
      (ms : List Message)
      → is_negative (count_messages show_fields lower show_int show count_text ms) ≡ false
  unfolding count_messages
  count_messages-not_negative [] = refl
  count_messages-not_negative (m ∷ ms) =
      +ℤ-not_negative _ _ (counts _) (count_messages-not_negative ms)

  -- With distinct message ids, at least one group to preserve, token counts that are not negative and an
  -- old record, if any, whose version is not negative, `compact` never raises. Either it returns the
  -- record of a legal cut that cannot be later, and that record passes `validate`: it covers the history
  -- up to the last covered message, keeps the ids of the others, names the covered messages as the
  -- summary's sources and has the next version. Or it returns no record, and then no cut is legal.
  pub compact-IsCompaction :
      (preserve : ℕ) (ms : List Message) (old : Option CompactionRecord)
      → 1 ≤ preserve
      → AreDistinct (ids_of ms)
      → IsVersioned old
      → ((plan : CutPlan) × (r : CompactionRecord) × (compact show_fields lower show_int show
              count_text preserve ms old
            ≡ ok (some r))
          × IsCut ms preserve plan
          × IsCompaction ms old plan r)
        ⊎ ((compact show_fields lower show_int show count_text preserve ms old ≡ ok none)
            × ((plan : CutPlan) → ¬ IsCut ms preserve plan))
  unfolding compact
  compact-IsCompaction preserve ms old h d v = elim (find_cut-IsCut ms preserve h) [
    | inr (none_found, no_cut) ↦ inr (rw none_found refl, no_cut)
    | inl (plan, found, c) ↦
        let (b, last) = boundary plan c in
        let r : CompactionRecord =
          record_of show_fields lower show_int show count_text plan old b in
        let tokens : (is_negative r.token_before || is_negative r.token_after) ≡ false =
          rw (count_messages-not_negative (ungroup plan.covered)) (counts _) in
        let valid =
          validate_record-IsCut ms preserve plan r d c last refl tokens
            (next_version-not_below_one old v) in
        inl (
          plan,
          r,
          rw found (rw last (rw valid refl)),
          c,
          record {
            boundary = ap last_id (sym c.boundary_ids) ∙ last;
            kept = c.kept_ids;
            sources = (extract_summary-HasSeen lower show_int show (ungroup plan.covered)).0;
            version = refl;
            valid = valid;
          },
        )
  ]
    where
      nonempty : (ids : List String) → 0 < length ids → (b : String) × (last_id ids ≡ some b)
      nonempty [] e = absurd (omega arith)
      nonempty (x ∷ xs) e = last_id-some x xs

      boundary :
          (plan : CutPlan)
          → IsCut ms preserve plan
          → (b : String) × (last_id plan.covered_ids ≡ some b)
      boundary plan c =
          let some_message =
            ungroup-nonempty plan.covered plan.preserved
              (subst (AreIndexed 0) (sym c.groups) (group_messages-AreIndexed ms)) c.some_covered in
          nonempty plan.covered_ids (
            omega
              (arith, ap length c.boundary_ids, length-ids_of (ungroup plan.covered), some_message))
