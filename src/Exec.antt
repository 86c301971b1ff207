-- ===== src/Exec.antt =====
-- Python methods over a state of type `S` that may raise. What was written before a raise stays
-- written, so the state comes back beside the error too.
pub mod Keeps
use py_coding_agent.Prelude.{Bool, if◌then◌else◌}
use py_coding_agent.Result.{Result, ok, err}

abbrev pub Exec : Type 0 → Type 0 → Type 0 → Type 0
Exec E S A = S → Result E A × S

module _ {E S A : Type 0} where
  unfoldable pub pure : A → Exec E S A
  pure a s = (ok a, s)

  unfoldable pub raise : E → Exec E S A
  raise e s = (err e, s)

  -- a read of the state
  unfoldable pub gets : (S → A) → Exec E S A
  gets f s = (ok (f s), s)

  -- a call that reads and writes the state and does not raise
  unfoldable pub call : (S → A × S) → Exec E S A
  call f s = let (a, s') = f s in (ok a, s')

  unfoldable pub lift : Result E A → Exec E S A
  lift r s = (r, s)

module _ {E S : Type 0} where
  unfoldable pub modify : (S → S) → Exec E S (Unit {0})
  modify f s = (ok tt, f s)

module _ {E S A B : Type 0} where
  abbrev pub resume : Result E A × S → (A → Exec E S B) → Result E B × S
  resume (ok a, s) f = f a s
  resume (err e, s) f = (err e, s)

  infixl 5 ◌>>=◌ ◌>>◌
  unfoldable pub ◌>>=◌ : Exec E S A → (A → Exec E S B) → Exec E S B
  ◌>>=◌ m f s = resume (m s) f

  abbrev pub ◌>>◌ : Exec E S A → Exec E S B → Exec E S B
  m >> k = m >>= λ _. k
