-- ===== src/Run/Ensures.antt =====
-- What holds of the value and the state when a coroutine returns: one rule for each way to build
-- one.
use hooklane.Prelude.{Bool, true, false, ◌≡◌, refl, if◌then◌else◌}
use hooklane.Prelude.Outcome.{Outcome, ok, err}
use hooklane.Run.{Run, pure, raise, continue, ◌>>=◌}

-- The postcondition at a result; nothing is asked of a raise.
abbrev pub Holds : {E S A : Type 0} → (A → S → Type 0) → Outcome E A × S → Type 0
Holds Q (ok a, s) = Q a s
Holds Q (err e, s) = Unit

pub record Ensures {E S A : Type 0} (P : S → Type 0) (Q : A → S → Type 0) (m : Run E S A)
    : Type 0 where
  pub at : (s : S) → P s → Holds Q (m s)

module _ {E S A : Type 0} (Q R : A → S → Type 0) where
  pub Holds-weaken :
      ((a : A) (s : S) → Q a s → R a s) → (r : Outcome E A × S) → Holds Q r → Holds R r
  Holds-weaken h (ok a, s) q = h a s q
  Holds-weaken h (err e, s) q = tt

  pub Holds-and : (r : Outcome E A × S) → Holds Q r → Holds R r → Holds (λ a s. Q a s × R a s) r
  Holds-and (ok a, s) q h = (q, h)
  Holds-and (err e, s) q h = tt

module _ {E S A B : Type 0} (Q : A → S → Type 0) (R : B → S → Type 0) where
  Holds-continue :
      (f : A → Run E S B)
      → ((a : A) → (s : S) → Q a s → Holds R (f a s))
      → (r : Outcome E A × S) → Holds Q r
      → Holds R (continue r.0 f r.1)
  Holds-continue f h (ok a, s) q = h a s q
  Holds-continue f h (err e, s) q = tt

module _ {E S A : Type 0} {P : S → Type 0} {Q : A → S → Type 0} where
  pub Ensures-pure : (a : A) → ((s : S) → P s → Q a s) → Ensures {E = E} P Q (pure a)
  Ensures-pure a h = record { at = h }

  pub Ensures-raise : (e : E) → Ensures P Q (raise e)
  Ensures-raise e = record { at = λ s p. tt }

  pub Ensures-if :
      (b : Bool) (m n : Run E S A)
      → (b ≡ true → Ensures P Q m)
      → (b ≡ false → Ensures P Q n)
      → Ensures P Q (if b then m else n)
  Ensures-if true m n hm hn = hm refl
  Ensures-if false m n hm hn = hn refl

  pub Ensures-weaken :
      {R : A → S → Type 0} {m : Run E S A}
      → Ensures P Q m
      → ((a : A) (s : S) → Q a s → R a s)
      → Ensures P R m
  Ensures-weaken {R} {m} e h = record { at = λ s p. Holds-weaken Q R h (m s) (e.at s p) }

  pub Ensures-and :
      {R : A → S → Type 0} (m : Run E S A)
      → Ensures P Q m
      → Ensures P R m
      → Ensures P (λ a s. Q a s × R a s) m
  Ensures-and {R} m e h = record { at = λ s p. Holds-and Q R (m s) (e.at s p) (h.at s p) }

module _ {E S A B : Type 0} {P : S → Type 0} {Q : A → S → Type 0} {R : B → S → Type 0} where
  pub Ensures-bind :
      (m : Run E S A) (f : A → Run E S B)
      → Ensures P Q m
      → ((a : A) → Ensures (Q a) R (f a))
      → Ensures P R (m >>= f)
  unfolding ◌>>=◌
  Ensures-bind m f e h = record {
    at = λ s p. Holds-continue Q R f (λ a s' q. (h a).at s' q) (m s) (e.at s p);
  }

-- A postcondition on the state alone, which also holds at a raise.
pub Ensures-state :
    {E S A : Type 0} {P Q : S → Type 0} (m : Run E S A)
    → ((s : S) → P s → Q (m s).1)
    → Ensures P (λ (a : A) s. Q s) m
Ensures-state {E} {S} {A} {P} {Q} m h = record { at = λ s p. go (m s) (h s p) }
  where
    go : (r : Outcome E A × S) → Q r.1 → Holds (λ (a : A) s. Q s) r
    go (ok a, s) q = q
    go (err e, s) q = tt
