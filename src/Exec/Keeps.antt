-- ===== src/Exec/Keeps.antt =====
-- Rules for what holds before and after an action: one for each way to build an action.
use py_coding_agent.Prelude.{Bool, true, false, ◌≡◌, refl, if◌then◌else◌}
use py_coding_agent.Result.{Result, ok, err}
use py_coding_agent.Exec.{Exec, pure, raise, gets, call, modify, ◌>>=◌, resume}

-- what is true of an outcome: `Q` of a value and the state behind it, `R` of an error and its state
abbrev pub Outcome :
    {E S A : Type 0} → (A → S → Type 0) → (E → S → Type 0) → Result E A × S → Type 0
Outcome Q R (ok a, s) = Q a s
Outcome Q R (err e, s) = R e s

-- from a state with `P`, `m` ends with `Q`, or raises with `R`
pub record Triple {E S A : Type 0} (P : S → Type 0) (m : Exec E S A) (Q : A → S → Type 0)
    (R : E → S → Type 0) : Type 0 where
  pub at : (s : S) → P s → Outcome Q R (m s)

-- what is true of the state on both ways out
pub Outcome-state :
    {E S A : Type 0} (P : S → Type 0) (o : Result E A × S) → Outcome (λ _. P) (λ _. P) o → P o.1
Outcome-state P (ok a, s) p = p
Outcome-state P (err e, s) p = p

module _ {E S A : Type 0} {Q : A → S → Type 0} {R : E → S → Type 0} where
  Outcome-map :
      {Q' : A → S → Type 0} {R' : E → S → Type 0} (o : Result E A × S)
      → ((a : A) (s : S) → Q a s → Q' a s)
      → ((e : E) (s : S) → R e s → R' e s)
      → Outcome Q R o
      → Outcome Q' R' o
  Outcome-map (ok a, s) f g h = f a s h
  Outcome-map (err e, s) f g h = g e s h

  Outcome-resume :
      {B : Type 0} {T : B → S → Type 0} (o : Result E A × S) (f : A → Exec E S B)
      → Outcome Q R o
      → ((a : A) → Triple (Q a) (f a) T R)
      → Outcome T R (resume o f)
  Outcome-resume (ok a, s) f h k = (k a).at s h
  Outcome-resume (err e, s) f h k = h

module _ {E S A : Type 0} {P : S → Type 0} {Q : A → S → Type 0} {R : E → S → Type 0} where
  pub Triple-pure : (a : A) → ((s : S) → P s → Q a s) → Triple P (pure a) Q R
  unfolding pure
  Triple-pure a h = record { at = h }

  pub Triple-raise : (e : E) → ((s : S) → P s → R e s) → Triple P (raise e) Q R
  unfolding raise
  Triple-raise e h = record { at = h }

  -- a weaker conclusion from a stronger assumption
  pub Triple-map :
      {P' : S → Type 0} {Q' : A → S → Type 0} {R' : E → S → Type 0} {m : Exec E S A}
      → ((s : S) → P' s → P s)
      → ((a : A) (s : S) → Q a s → Q' a s)
      → ((e : E) (s : S) → R e s → R' e s)
      → Triple P m Q R
      → Triple P' m Q' R'
  Triple-map {m = m} w f g t = record { at = λ s p. Outcome-map (m s) f g (t.at s (w s p)) }

  pub Triple-if :
      (b : Bool) {m n : Exec E S A}
      → (b ≡ true → Triple P m Q R)
      → (b ≡ false → Triple P n Q R)
      → Triple P (if b then m else n) Q R
  Triple-if true t f = t refl
  Triple-if false t f = f refl

  pub Triple-bind :
      {B : Type 0} {T : B → S → Type 0} {m : Exec E S A} {f : A → Exec E S B}
      → Triple P m Q R
      → ((a : A) → Triple (Q a) (f a) T R)
      → Triple P (m >>= f) T R
  unfolding ◌>>=◌
  Triple-bind {m = m} {f = f} t k = record { at = λ s p. Outcome-resume (m s) f (t.at s p) k }

Outcome-and :
    {E S A : Type 0} (Q Q' : A → S → Type 0) (R R' : E → S → Type 0) (o : Result E A × S)
    → Outcome Q R o
    → Outcome Q' R' o
    → Outcome (λ a s. Q a s × Q' a s) (λ e s. R e s × R' e s) o
Outcome-and Q Q' R R' (ok a, s) p q = (p, q)
Outcome-and Q Q' R R' (err e, s) p q = (p, q)

pub Triple-and :
    {E S A : Type 0} {P P' : S → Type 0} {Q Q' : A → S → Type 0} {R R' : E → S → Type 0}
    {m : Exec E S A}
    → Triple P m Q R
    → Triple P' m Q' R'
    → Triple (λ s. P s × P' s) m (λ a s. Q a s × Q' a s) (λ e s. R e s × R' e s)
Triple-and {Q = Q} {Q'} {R} {R'} {m} t u = record {
  at = λ s p. Outcome-and Q Q' R R' (m s) (t.at s p.0) (u.at s p.1);
}

-- what is read is known behind the read
pub Triple-gets :
    {E S A : Type 0} {P : S → Type 0} {R : E → S → Type 0} (f : S → A)
    → Triple P (gets f) (λ a s. P s × (a ≡ f s)) R
unfolding gets
Triple-gets f = record { at = λ s p. (p, refl) }

pub Triple-modify :
    {E S : Type 0} {P Q : S → Type 0} {R : E → S → Type 0} (f : S → S)
    → ((s : S) → P s → Q (f s))
    → Triple P (modify f) (λ _. Q) R
unfolding modify
Triple-modify f h = record { at = h }

pub Triple-call :
    {E S A : Type 0} {P Q : S → Type 0} {R : E → S → Type 0} (f : S → A × S)
    → ((s : S) → P s → Q (f s).1)
    → Triple P (call f) (λ _. Q) R
unfolding call
Triple-call f h = record { at = h }

-- `m` keeps `P`, whether it returns or raises, and raises nothing but what `Er` allows
abbrev pub Keeps : {E S A : Type 0} → (E → Type 0) → (S → Type 0) → Exec E S A → Type 0
Keeps Er P m = Triple P m (λ _. P) (λ e s. Er e × P s)

module _ {E S : Type 0} {Er : E → Type 0} {P : S → Type 0} where
  pub Keeps-pure : {A : Type 0} (a : A) → Keeps Er P (pure a)
  Keeps-pure a = Triple-pure a (λ s p. p)

  pub Keeps-gets : {A : Type 0} (f : S → A) → Keeps Er P (gets f)
  unfolding gets
  Keeps-gets f = record { at = λ s p. p }

  pub Keeps-if :
      {A : Type 0} (b : Bool) {m n : Exec E S A}
      → Keeps Er P m
      → Keeps Er P n
      → Keeps Er P (if b then m else n)
  Keeps-if b h k = Triple-if b (λ _. h) (λ _. k)

  pub Keeps-bind :
      {A B : Type 0} {m : Exec E S A} {f : A → Exec E S B}
      → Keeps Er P m
      → ((a : A) → Keeps Er P (f a))
      → Keeps Er P (m >>= f)
  Keeps-bind h k = Triple-bind h k

-- a write that keeps `P`
pub Keeps-modify :
    {E S : Type 0} {Er : E → Type 0} {P : S → Type 0} (f : S → S)
    → ((s : S) → P s → P (f s))
    → Keeps Er P (modify f)
Keeps-modify f h = Triple-modify f h

pub ruleset keeps_rules = (Keeps-pure, Keeps-gets, Keeps-if, Keeps-bind)
