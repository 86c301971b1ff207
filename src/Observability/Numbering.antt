-- ===== src/Observability/Numbering.antt =====
-- The sequence numbers of a run's events.
use mathlib.Core.List.{append-nil}
use py_coding_agent.Prelude.{
  ℕ, zero, suc, ◌+◌, ◌-◌, ◌≤◌, ◌≡◌, refl, sym, ap, subst, ◌∙◌, eq_iff, get_or, inl, inr, String,
  Bool, true, false, str_eq, ltb, min, if◌then◌else◌, List, [], ◌∷◌, ◌++◌, length, length-append,
  drop, Bool-cases, arith,
}
use py_coding_agent.Prelude.Dict.{Dict, lookup, insert, lookup-insert}
use py_coding_agent.Observability.Events.{AgentEvent}
use py_coding_agent.Observability.Bus.{select}

-- the numbers of a run's events, in order
unfoldable pub seqs_of : String → List AgentEvent → List ℕ
seqs_of r [] = []
seqs_of r (e ∷ es) = let rest = seqs_of r es in if str_eq r e.run_id then e.seq ∷ rest else rest

-- numbers that count up by one to `n` and start at 1 or later: the one with `j` behind it is `n - j`
abbrev pub IsRun : List ℕ → ℕ → Type 0
IsRun [] n = Unit
IsRun (x ∷ xs) n = (x + length xs ≡ n) × (1 ≤ x) × IsRun xs n

-- numbers that grow, from `low` on and below `high`
abbrev pub Ascend : ℕ → List ℕ → ℕ → Type 0
Ascend low [] high = low ≤ high
Ascend low (x ∷ xs) high = (low ≤ x) × Ascend (suc x) xs high

pub IsRun-length : (l : List ℕ) (n : ℕ) → IsRun l n → length l ≤ n
IsRun-length [] n h = omega arith
IsRun-length (x ∷ xs) n h = omega (arith, h.0, h.1)

pub IsRun-snoc : (l : List ℕ) (n : ℕ) → IsRun l n → IsRun (l ++ suc n ∷ []) (suc n)
IsRun-snoc [] n h = (omega arith, omega arith, tt)
IsRun-snoc (x ∷ xs) n h =
    (omega (arith, h.0, length-append xs (suc n ∷ [])), h.1, IsRun-snoc xs n h.2)

pub IsRun-Ascend :
    (low n : ℕ) (l : List ℕ) → low + length l ≤ suc n → IsRun l n → Ascend low l (suc n)
IsRun-Ascend low n [] h r = omega arith
IsRun-Ascend low n (x ∷ xs) h r =
    (omega (arith, r.0), IsRun-Ascend (suc x) n xs (omega (arith, r.0)) r.2)

pub Ascend-low :
    (low low' : ℕ) (l : List ℕ) (high : ℕ) → low ≤ low' → Ascend low' l high → Ascend low l high
Ascend-low low low' [] high h a = omega arith
Ascend-low low low' (x ∷ xs) high h a = (omega (arith, a.0), a.1)

pub Ascend-high :
    (low : ℕ) (l : List ℕ) (high high' : ℕ) → high ≤ high' → Ascend low l high → Ascend low l high'
Ascend-high low [] high high' h a = omega arith
Ascend-high low (x ∷ xs) high high' h a = (a.0, Ascend-high (suc x) xs high high' h a.1)

pub Ascend-snoc : (low : ℕ) (l : List ℕ) (n : ℕ) → Ascend low l n → Ascend low (l ++ n ∷ []) (suc n)
Ascend-snoc low [] n a = (a, omega arith)
Ascend-snoc low (x ∷ xs) n a = (a.0, Ascend-snoc (suc x) xs n a.1)

pub seqs_of-append :
    (r : String) (es fs : List AgentEvent) → seqs_of r (es ++ fs) ≡ seqs_of r es ++ seqs_of r fs
unfolding seqs_of
seqs_of-append r [] fs = refl
seqs_of-append r (e ∷ es) fs = ground (arith, seqs_of-append r es fs)

-- without its first event
pub IsRun-tail :
    (r : String) (e : AgentEvent) (es : List AgentEvent) (n : ℕ)
    → IsRun (seqs_of r (e ∷ es)) n
    → IsRun (seqs_of r es) n
unfolding seqs_of
IsRun-tail r e es n h = elim (Bool-cases (str_eq r e.run_id)) [
  | inl q ↦ (rw q at h).2
  | inr q ↦ rw q at h
]

pub Ascend-tail :
    (r : String) (e : AgentEvent) (es : List AgentEvent) (low high : ℕ)
    → Ascend low (seqs_of r (e ∷ es)) high
    → Ascend low (seqs_of r es) high
unfolding seqs_of
Ascend-tail r e es low high h = elim (Bool-cases (str_eq r e.run_id)) [
  | inl q ↦
      let a : Ascend low (e.seq ∷ seqs_of r es) high = rw q at h in
      Ascend-low low (suc e.seq) (seqs_of r es) high (omega (arith, a.0)) a.1
  | inr q ↦ rw q at h
]

pub IsRun-drop :
    (r : String) (d : ℕ) (es : List AgentEvent) (n : ℕ)
    → IsRun (seqs_of r es) n
    → IsRun (seqs_of r (drop d es)) n
IsRun-drop r zero es n h = h
IsRun-drop r (suc d) [] n h = h
IsRun-drop r (suc d) (e ∷ es) n h = IsRun-drop r d es n (IsRun-tail r e es n h)

pub Ascend-select :
    (r : String) (test : AgentEvent → Bool) (es : List AgentEvent) (low high : ℕ)
    → Ascend low (seqs_of r es) high
    → Ascend low (seqs_of r (select test es)) high
unfolding select seqs_of
Ascend-select r test [] low high h = h
Ascend-select r test (e ∷ es) low high h = elim (Bool-cases (test e)) [
  | inr out ↦ rw out (Ascend-select r test es low high (Ascend-tail r e es low high h))
  | inl in' ↦ elim (Bool-cases (str_eq r e.run_id)) [
    | inl q ↦
        let a : Ascend low (e.seq ∷ seqs_of r es) high = rw q at h in
        rw in' (rw q (a.0, Ascend-select r test es (suc e.seq) high a.1))
    | inr q ↦ rw in' (rw q (Ascend-select r test es low high (rw q at h)))
  ]
]

-- the numbers above a cursor
unfoldable pub above : ℕ → List ℕ → List ℕ
above cursor [] = []
above cursor (x ∷ xs) = let rest = above cursor xs in if ltb cursor x then x ∷ rest else rest

pub IsRun-above :
    (cursor : ℕ) (l : List ℕ) (n : ℕ)
    → IsRun l n
    → IsRun (above cursor l) n × (length (above cursor l) ≡ min (length l) (n - cursor))
unfolding above
IsRun-above cursor [] n h = (tt, omega arith)
IsRun-above cursor (x ∷ xs) n h =
    let (run, count) = IsRun-above cursor xs n h.2 in
    elim (Bool-cases (ltb cursor x)) [
      | inl q ↦ rw q ((ground (arith, h.0, count), h.1, run), ground (arith, h.0, count))
      | inr q ↦ rw q (run, ground (arith, h.0, count))
    ]

-- the last number given to a run
abbrev pub last_seq : Dict ℕ → String → ℕ
last_seq d r = get_or (lookup r d) 0

pub last_seq-insert :
    (d : Dict ℕ) (run r : String) → last_seq d r ≤ last_seq (insert run (last_seq d run + 1) d) r
last_seq-insert d run r = ground (arith, lookup-insert run r (last_seq d run + 1) d, eq_iff run r)

last_seq-same :
    (d : Dict ℕ) (run r : String) (n : ℕ) → str_eq r run ≡ true → last_seq (insert run n d) r ≡ n
last_seq-same d run r n h = ground (arith, lookup-insert run r n d, eq_iff run r, eq_iff r run)

last_seq-other :
    (d : Dict ℕ) (run r : String) (n : ℕ)
    → str_eq r run ≡ false
    → last_seq (insert run n d) r ≡ last_seq d r
last_seq-other d run r n h = ground (arith, lookup-insert run r n d, eq_iff run r, eq_iff r run)

-- an event with the next number of its run, behind the others
seqs_of-snoc :
    (r : String) (es : List AgentEvent) (e : AgentEvent)
    → str_eq r e.run_id ≡ true
    → seqs_of r (es ++ e ∷ []) ≡ seqs_of r es ++ e.seq ∷ []
unfolding seqs_of
seqs_of-snoc r es e h = seqs_of-append r es (e ∷ []) ∙ rw h refl

seqs_of-skip :
    (r : String) (es : List AgentEvent) (e : AgentEvent)
    → str_eq r e.run_id ≡ false
    → seqs_of r (es ++ e ∷ []) ≡ seqs_of r es
unfolding seqs_of
seqs_of-skip r es e h = seqs_of-append r es (e ∷ []) ∙ rw h (append-nil (seqs_of r es))

last_seq-run : (d : Dict ℕ) (run r : String) → str_eq r run ≡ true → last_seq d run ≡ last_seq d r
last_seq-run d run r h = ap (last_seq d) (sym ((eq_iff r run).0 h))

pub Ascend-next :
    (d : Dict ℕ) (r : String) (es : List AgentEvent) (e : AgentEvent)
    → e.seq ≡ last_seq d e.run_id + 1
    → Ascend 1 (seqs_of r es) (suc (last_seq d r))
    → Ascend 1
        (seqs_of r (es ++ e ∷ []))
        (suc (last_seq (insert e.run_id (last_seq d e.run_id + 1) d) r))
Ascend-next d r es e n a = elim (Bool-cases (str_eq r e.run_id)) [
  | inl q ↦ rw (seqs_of-snoc r es e q) (
      rw (last_seq-same d e.run_id r (last_seq d e.run_id + 1) q) (
        subst (λ k. Ascend 1 (seqs_of r es ++ e.seq ∷ []) (suc k)) n
          (Ascend-snoc 1 (seqs_of r es) e.seq
            (subst (Ascend 1 (seqs_of r es)) (omega (arith, n, last_seq-run d e.run_id r q)) a))))
  | inr q ↦
      rw (seqs_of-skip r es e q) (rw (last_seq-other d e.run_id r (last_seq d e.run_id + 1) q) a)
]

pub IsRun-next :
    (d : Dict ℕ) (r : String) (es : List AgentEvent) (e : AgentEvent)
    → e.seq ≡ last_seq d e.run_id + 1
    → IsRun (seqs_of r es) (last_seq d r)
    → IsRun (seqs_of r (es ++ e ∷ [])) (last_seq (insert e.run_id (last_seq d e.run_id + 1) d) r)
IsRun-next d r es e n a = elim (Bool-cases (str_eq r e.run_id)) [
  | inl q ↦ rw (seqs_of-snoc r es e q) (
      rw (last_seq-same d e.run_id r (last_seq d e.run_id + 1) q) (
        subst (λ k. IsRun (seqs_of r es ++ k ∷ []) (last_seq d e.run_id + 1))
          (omega (arith, n, last_seq-run d e.run_id r q))
          (subst (IsRun (seqs_of r es ++ suc (last_seq d r) ∷ []))
            (omega (arith, last_seq-run d e.run_id r q))
            (IsRun-snoc (seqs_of r es) (last_seq d r) a))))
  | inr q ↦
      rw (seqs_of-skip r es e q) (rw (last_seq-other d e.run_id r (last_seq d e.run_id + 1) q) a)
]
