-- ===== src/Run/Raises.antt =====
-- What holds of the exception and the state when a coroutine raises: one rule for each way to build
-- one.
use hooklane.Prelude.{Bool, true, false, if◌then◌else◌}
use hooklane.Prelude.Outcome.{Outcome, ok, err}
use hooklane.Run.{Run, pure, continue, ◌>>=◌}

abbrev pub Fails : {E S A : Type 0} → (E → S → Type 0) → Outcome E A × S → Type 0
Fails P (ok a, s) = Unit
Fails P (err e, s) = P e s

pub record Raises {E S A : Type 0} (P : E → S → Type 0) (m : Run E S A) : Type 0 where
  pub at : (s : S) → Fails P (m s)

module _ {E S A : Type 0} {P : E → S → Type 0} where
  pub Raises-pure : (a : A) → Raises P (pure a)
  Raises-pure a = record { at = λ s. tt }

  pub Raises-if :
      (b : Bool) {m n : Run E S A} → Raises P m → Raises P n → Raises P (if b then m else n)
  Raises-if true hm hn = hm
  Raises-if false hm hn = hn

module _ {E S A B : Type 0} {P : E → S → Type 0} where
  Fails-continue :
      (f : A → Run E S B)
      → ((a : A) → Raises P (f a))
      → (r : Outcome E A × S) → Fails P r
      → Fails P (continue r.0 f r.1)
  Fails-continue f h (ok a, s) q = (h a).at s
  Fails-continue f h (err e, s) q = q

  pub Raises-bind :
      {m : Run E S A} {f : A → Run E S B}
      → Raises P m
      → ((a : A) → Raises P (f a))
      → Raises P (m >>= f)
  unfolding ◌>>=◌
  Raises-bind {m} {f} hm hf = record { at = λ s. Fails-continue f hf (m s) (hm.at s) }
