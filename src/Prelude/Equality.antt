-- ===== src/Prelude/Equality.antt =====
-- A Boolean test of equality for every type whose equality can be decided.
use Prim.Native.String.{String}
use text.Mathlib.Text
use text.Mathlib.TextEquality.{eq_iff}
use mathlib.Core.Path.{◌≡◌, refl}
use mathlib.Core.Bool.{Bool, true, false, Bool-discrete}
use mathlib.Core.Logic.{dite, ◌≢◌}

pub record Eq (A : Type 0) : Type 0 where
  pub dec : Discrete A

instance unfoldable pub string_eq : Eq String
string_eq = record {
  dec = λ s t.
      dite (Bool-discrete (Text.◌==◌ s t) true) (λ same. yes ((eq_iff s t).0 same))
        (λ differ. no (λ p. differ ((eq_iff s t).1 p)));
}

module _ {P : Type 0} where
  abbrev pub decided : Dec P → Bool
  decided (yes p) = true
  decided (no n) = false

  decided_yes : (d : Dec P) → P → decided d ≡ true
  decided_yes (yes p) q = refl
  decided_yes (no n) q = absurd (n q)

  decided_no : (d : Dec P) → ¬ P → decided d ≡ false
  decided_no (yes p) n = absurd (n p)
  decided_no (no m) n = refl

  decided_holds : (d : Dec P) → decided d ≡ true → P
  decided_holds (yes p) h = p
  decided_holds (no n) h = absurd (cc)

  decided_apart : (d : Dec P) → decided d ≡ false → ¬ P
  decided_apart (yes p) h q = absurd (cc)
  decided_apart (no n) h q = n q

module _ {A : Type 0} ⦃e : Eq A⦄ where
  abbrev pub same : A → A → Bool
  same a b = decided (e.dec a b)

  pub same_refl : (a : A) → same a a ≡ true
  same_refl a = decided_yes (e.dec a a) refl

  pub same_eq : {a b : A} → same a b ≡ true → a ≡ b
  same_eq {a} {b} h = decided_holds (e.dec a b) h

  pub same_differ : {a b : A} → a ≢ b → same a b ≡ false
  same_differ {a} {b} d = decided_no (e.dec a b) d

  pub same_apart : {a b : A} → same a b ≡ false → a ≢ b
  same_apart {a} {b} h p = decided_apart (e.dec a b) h p
