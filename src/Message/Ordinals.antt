-- ===== src/Message/Ordinals.antt =====
-- `sorted(ordinals) != list(range(len(...)))` in src/coding_agent/domain/messages.py.
use mathlib.Core.List.{Permᴰ}
use mathlib.Core.List.Permᴰ
use py_coding_agent.Prelude.{
  ℕ, zero, suc, ◌≤◌, ◌≡◌, refl, ◌↔◌, Bool, true, ◌&&◌, leb, ◌==◌, if◌then◌else◌, List, [], ◌∷◌,
  length, arith, Bool-cases, inl, inr, sym, subst, ◌∙◌, ap,
}

-- `sorted` on ints
unfoldable pub insert_sorted : ℕ → List ℕ → List ℕ
insert_sorted n [] = n ∷ []
insert_sorted n (m ∷ ms) = if leb n m then n ∷ m ∷ ms else m ∷ insert_sorted n ms

unfoldable pub sorted : List ℕ → List ℕ
unfolding insert_sorted
sorted [] = []
sorted (n ∷ ns) = insert_sorted n (sorted ns)

-- `list == list(range(start, start + len(list)))`
unfoldable pub is_range_from : ℕ → List ℕ → Bool
is_range_from start [] = true
is_range_from start (n ∷ ns) = n == start && is_range_from (suc start) ns

-- start, start + 1, ... : `count` numbers
abbrev pub range_from : ℕ → ℕ → List ℕ
range_from start zero = []
range_from start (suc count) = start ∷ range_from (suc start) count

-- each of 0, 1, ..., n - 1 once, in any order
abbrev pub AreConsecutive : List ℕ → Type 0
AreConsecutive ns = Permᴰ ns (range_from 0 (length ns))

pub insert_sorted_comm :
    (a b : ℕ) (l : List ℕ)
    → insert_sorted a (insert_sorted b l) ≡ insert_sorted b (insert_sorted a l)
unfolding insert_sorted
insert_sorted_comm a b [] = ground arith
insert_sorted_comm a b (c ∷ l) = ground (arith, insert_sorted_comm a b l)

sorted-perm : {xs ys : List ℕ} → Permᴰ xs ys → sorted xs ≡ sorted ys
unfolding sorted
sorted-perm Permᴰ.nil = refl
sorted-perm (Permᴰ.cons {a = a} e p) = rw (e, sorted-perm p) refl
sorted-perm (Permᴰ.swap {a = a} {b = b} {l = l} e f) =
    rw (← e, ← f) (insert_sorted_comm a b (sorted l))
sorted-perm (Permᴰ.trans p q) = sorted-perm p ∙ sorted-perm q

perm-insert_sorted : (n : ℕ) (l : List ℕ) → Permᴰ (n ∷ l) (insert_sorted n l)
unfolding insert_sorted
perm-insert_sorted n [] = Permᴰ.refl _
perm-insert_sorted n (m ∷ l) = elim (Bool-cases (leb n m)) [
  | inl e ↦ rw e (Permᴰ.refl _)
  | inr e ↦ rw e (Permᴰ.trans (Permᴰ.swap refl refl) (Permᴰ.cons refl (perm-insert_sorted n l)))
]

perm-sorted : (l : List ℕ) → Permᴰ l (sorted l)
unfolding sorted
perm-sorted [] = Permᴰ.nil
perm-sorted (n ∷ l) =
    Permᴰ.trans (Permᴰ.cons refl (perm-sorted l)) (perm-insert_sorted n (sorted l))

is_range_from-eq :
    (start : ℕ) (l : List ℕ) → is_range_from start l ≡ true → l ≡ range_from start (length l)
unfolding is_range_from
is_range_from-eq start [] h = refl
is_range_from-eq start (n ∷ l) h = ground (arith, is_range_from-eq (suc start) l)

range_from_is_range : (start count : ℕ) → is_range_from start (range_from start count) ≡ true
unfolding is_range_from
range_from_is_range start zero = refl
range_from_is_range start (suc count) = ground (arith, range_from_is_range (suc start) count)

insert_sorted_least :
    (start count a : ℕ)
    → a ≤ start
    → insert_sorted a (range_from start count) ≡ a ∷ range_from start count
unfolding insert_sorted
insert_sorted_least start zero a h = refl
insert_sorted_least start (suc count) a h = ground arith

sorted-range_from : (start count : ℕ) → sorted (range_from start count) ≡ range_from start count
unfolding sorted
sorted-range_from start zero = refl
sorted-range_from start (suc count) =
    rw (sorted-range_from (suc start) count)
      (insert_sorted_least (suc start) count start (omega arith))

length-perm : {xs ys : List ℕ} → Permᴰ xs ys → length xs ≡ length ys
length-perm Permᴰ.nil = refl
length-perm (Permᴰ.cons e p) = omega (arith, length-perm p)
length-perm (Permᴰ.swap e f) = refl
length-perm (Permᴰ.trans p q) = length-perm p ∙ length-perm q

-- the test of the code accepts exactly the permutations of 0, ..., n - 1
pub sorted_range-AreConsecutive :
    (ns : List ℕ) → (is_range_from 0 (sorted ns) ≡ true) ↔ AreConsecutive ns
sorted_range-AreConsecutive ns = (
  λ h.
      let e = is_range_from-eq 0 (sorted ns) h in
      let n = ap (range_from 0) (sym (length-perm (perm-sorted ns))) in
      subst (λ l. Permᴰ ns l) (e ∙ n) (perm-sorted ns),
  λ p. rw (sorted-perm p, sorted-range_from 0 (length ns)) (range_from_is_range 0 (length ns)),
)
