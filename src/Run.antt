-- ===== src/Run.antt =====
-- Coroutines that read and change a state and may raise. What was written before a raise stays
-- written, so the state is passed on beside the exception.
pub mod Ensures
pub mod Raises
pub mod Returns
use hooklane.Prelude.Outcome.{Outcome, ok, err}

abbrev pub Run : Type 0 → Type 0 → Type 0 → Type 0
Run E S A = S → Outcome E A × S

module _ {E S A : Type 0} where
  abbrev pub pure : A → Run E S A
  pure a s = (ok a, s)

  abbrev pub raise : E → Run E S A
  raise e s = (err e, s)

  abbrev pub gets : (S → A) → Run E S A
  gets f s = (ok (f s), s)

  -- `try: m`: what `m` raises becomes a value for the handlers.
  abbrev pub attempt : Run E S A → Run E S (Outcome E A)
  attempt m s = let (r, s') = m s in (ok r, s')

abbrev pub modify : {E S : Type 0} → (S → S) → Run E S (Unit {0})
modify f s = (ok tt, f s)

module _ {E S A B : Type 0} where
  abbrev pub continue : Outcome E A → (A → Run E S B) → Run E S B
  continue (ok a) f s = f a s
  continue (err e) f s = (err e, s)

  infixl 5 ◌>>=◌ ◌>>◌
  unfoldable pub ◌>>=◌ : Run E S A → (A → Run E S B) → Run E S B
  ◌>>=◌ m f s = let (r, s') = m s in continue r f s'

  abbrev pub ◌>>◌ : Run E S A → Run E S B → Run E S B
  m >> k = m >>= λ _. k
