-- ===== src/Observability/Fragments.antt =====
-- The pieces of a call in src/coding_agent/observability/stream.py: in which order they come.
use py_coding_agent.Prelude.{
  ℕ, String, Bool, true, false, ◌||◌, ◌==◌, if◌then◌else◌, Option, none, some, List, [], ◌∷◌, map,
  ◌≡◌, refl, ap, ◌∙◌, arith,
}
use py_coding_agent.Value.{Value}
use py_coding_agent.Message.{ToolCall}
use py_coding_agent.Message.Ordinals.{sorted, insert_sorted, insert_sorted_comm}
use py_coding_agent.Observability.Stream.{
  FragmentDelta, FragmentBuffer, name_after, set_default, with_fragment, fragment_at, assembled,
  call_of,
}

abbrev Pieces : Type 0
Pieces = List (ℕ × String)

unfoldable has_piece : ℕ → Pieces → Bool
has_piece seq [] = false
has_piece seq ((s, t) ∷ fs) = s == seq || has_piece seq fs

has_piece-set_default :
    (u s : ℕ) (t : String) (fs : Pieces)
    → has_piece u (set_default s t fs) ≡ (s == u || has_piece u fs)
unfolding has_piece set_default
has_piece-set_default u s t [] = ground arith
has_piece-set_default u s t ((v, x) ∷ fs) = ground (arith, has_piece-set_default u s t fs)

fragment_at-set_default :
    (u s : ℕ) (t : String) (fs : Pieces)
    → fragment_at (set_default s t fs) u
      ≡ (if s == u then if has_piece s fs then fragment_at fs u else t else fragment_at fs u)
unfolding has_piece set_default fragment_at
fragment_at-set_default u s t [] = ground arith
fragment_at-set_default u s t ((v, x) ∷ fs) = ground (arith, fragment_at-set_default u s t fs)

numbers-set_default :
    (s : ℕ) (t : String) (fs : Pieces)
    → sorted (map (λ f. f.0) (set_default s t fs)) ≡ (
        if has_piece s fs
        then sorted (map (λ f. f.0) fs)
        else insert_sorted s (sorted (map (λ f. f.0) fs)))
unfolding has_piece set_default sorted
numbers-set_default s t [] = refl
numbers-set_default s t ((v, x) ∷ fs) =
    grind (arith, numbers-set_default s t fs, insert_sorted_comm)

has_piece-known :
    (s : ℕ) (t : String) (fs : Pieces) → has_piece s fs ≡ true → set_default s t fs ≡ fs
unfolding has_piece set_default
has_piece-known s t [] h = absurd (ground arith)
has_piece-known s t ((v, x) ∷ fs) h = ground (arith, has_piece-known s t fs)

numbers_comm :
    (s u : ℕ) (t x : String) (fs : Pieces)
    → (s == u) ≡ false
    → sorted (map (λ f. f.0) (set_default s t (set_default u x fs)))
      ≡ sorted (map (λ f. f.0) (set_default u x (set_default s t fs)))
numbers_comm s u t x fs h = ground (
  arith,
  numbers-set_default s t (set_default u x fs),
  numbers-set_default u x (set_default s t fs),
  numbers-set_default s t fs,
  numbers-set_default u x fs,
  has_piece-set_default s u x fs,
  has_piece-set_default u s t fs,
  insert_sorted_comm s u (sorted (map (λ f. f.0) fs)),
)

fragment_at_comm :
    (s u : ℕ) (t x : String) (fs : Pieces) (v : ℕ)
    → (s == u) ≡ false
    → fragment_at (set_default s t (set_default u x fs)) v
      ≡ fragment_at (set_default u x (set_default s t fs)) v
fragment_at_comm s u t x fs v h = ground (
  arith,
  fragment_at-set_default v s t (set_default u x fs),
  fragment_at-set_default v u x (set_default s t fs),
  fragment_at-set_default v s t fs,
  fragment_at-set_default v u x fs,
  has_piece-set_default s u x fs,
  has_piece-set_default u s t fs,
)

fragment_at_same :
    (s u : ℕ) (t x : String) (fs : Pieces)
    → (s == u) ≡ false
    → fragment_at (set_default s t (set_default u x fs))
      ≡ fragment_at (set_default u x (set_default s t fs))
fragment_at_same s u t x fs h = λ i v. fragment_at_comm s u t x fs v h i

assembled_comm :
    (s u : ℕ) (t x : String) (fs : Pieces)
    → (s == u) ≡ false
    → assembled (set_default s t (set_default u x fs))
      ≡ assembled (set_default u x (set_default s t fs))
unfolding assembled
assembled_comm s u t x fs h = rw (numbers_comm s u t x fs h, fragment_at_same s u t x fs h) refl

name_after_comm :
    (m n old : Option String)
    → m ≡ n
    → name_after m (name_after n old) ≡ name_after n (name_after m old)
name_after_comm m n old h = rw h refl

name_after_twice : (m old : Option String) → name_after m (name_after m old) ≡ name_after m old
name_after_twice none old = refl
name_after_twice (some m) old = ground arith

set_default_twice :
    (s : ℕ) (t : String) (fs : Pieces) → set_default s t (set_default s t fs) ≡ set_default s t fs
set_default_twice s t fs =
    has_piece-known s t (set_default s t fs) (ground (arith, has_piece-set_default s s t fs))

module _ (json_loads : String → Option Value) (n : ℕ) (call_id : String) where
  call_of-pieces :
      (name : Option String) (fs gs : Pieces)
      → assembled fs ≡ assembled gs
      → call_of json_loads n call_id (record { name = name; fragments = fs; complete = none })
        ≡ call_of json_loads n call_id (record { name = name; fragments = gs; complete = none })
  unfolding call_of
  call_of-pieces none fs gs h = refl
  call_of-pieces (some name) fs gs h = rw h refl

  -- For two fragments of a call, with the same name and different numbers, the call that `finalize`
  -- makes of the buffer is the same whichever comes first, and a fragment that comes twice
  -- leaves the buffer as it is after the first time.
  pub with_fragment_comm :
      (d e : FragmentDelta) (b : FragmentBuffer)
      → (d.fragment_seq == e.fragment_seq) ≡ false
      → d.name ≡ e.name
      → (call_of json_loads n call_id (with_fragment d (with_fragment e b))
          ≡ call_of json_loads n call_id (with_fragment e (with_fragment d b)))
        × (with_fragment d (with_fragment d b) ≡ with_fragment d b)
  unfolding with_fragment
  with_fragment_comm d e b h s = by_complete b.complete
    where
      by_complete :
          (c : Option ToolCall)
          → let b' = record b { complete = c } in
            (call_of json_loads n call_id (with_fragment d (with_fragment e b'))
              ≡ call_of json_loads n call_id (with_fragment e (with_fragment d b')))
            × (with_fragment d (with_fragment d b') ≡ with_fragment d b')
      by_complete (some c) = (refl, refl)
      by_complete none = (
        ap
              (λ m. call_of json_loads n call_id (record {
                name = m;
                fragments =
                    set_default d.fragment_seq d.arguments_fragment
                      (set_default e.fragment_seq e.arguments_fragment b.fragments);
                complete = none;
              }))
              (name_after_comm d.name e.name b.name s)
            ∙ call_of-pieces (name_after e.name (name_after d.name b.name))
                (set_default d.fragment_seq d.arguments_fragment
                  (set_default e.fragment_seq e.arguments_fragment b.fragments))
                (set_default e.fragment_seq e.arguments_fragment
                  (set_default d.fragment_seq d.arguments_fragment b.fragments))
                (assembled_comm d.fragment_seq e.fragment_seq d.arguments_fragment
                  e.arguments_fragment b.fragments h),
        rw
            (
              name_after_twice d.name b.name,
              set_default_twice d.fragment_seq d.arguments_fragment b.fragments,
            )
            refl,
      )
