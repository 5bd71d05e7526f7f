-- ===== src/Run/Returns.antt =====
-- What ran first, when a coroutine of two parts returns.
use hooklane.Prelude.{◌≡◌, refl}
use hooklane.Prelude.Outcome.{Outcome, ok, err}
use hooklane.Run.{Run, continue, ◌>>=◌}

-- The value of the first part and the state after it.
pub record Returned {E S A B : Type 0} (m : Run E S A) (f : A → Run E S B) (s : S) (b : B) (s' : S)
    : Type 0 where
  pub value : A
  pub state : S
  pub first : m s ≡ (ok value, state)
  pub second : f value state ≡ (ok b, s')

pub bind-Returned :
    {E S A B : Type 0} (m : Run E S A) (f : A → Run E S B) (s : S) {b : B} {s' : S}
    → (m >>= f) s ≡ (ok b, s')
    → Returned m f s b s'
unfolding ◌>>=◌
bind-Returned {E} {S} {A} {B} m f s {b} {s'} h = go (m s) refl h
  where
    go : (x : Outcome E A × S) → m s ≡ x → continue x.0 f x.1 ≡ (ok b, s') → Returned m f s b s'
    go (ok a, t) e k = record { value = a; state = t; first = e; second = k }
    go (err why, t) e k = absurd (cc)
