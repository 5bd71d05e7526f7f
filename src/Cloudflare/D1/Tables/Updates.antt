-- ===== src/Cloudflare/D1/Tables/Updates.antt =====
-- What an UPDATE leaves true of a table.
use hooklane.Prelude.{Bool, true, List, [], ◌∷◌, ◌≡◌, refl, All, Grows, any, Bool-cases, inl, inr}
use hooklane.Cloudflare.D1.Tables.{update_where}

module _ {ℓ} {A : Type ℓ} (p : A → Bool) (f : A → A) where
  pub Grows-update_where :
      (R : A → A → Type 0)
      → ((x : A) → R x x)
      → ((x : A) → p x ≡ true → R x (f x))
      → (xs : List A) → Grows R xs (update_where p f xs)
  Grows-update_where R same step [] = tt
  Grows-update_where R same step (x ∷ xs) = elim (Bool-cases (p x)) [
    | inl e ↦ rw e (step x e, Grows-update_where R same step xs)
    | inr e ↦ rw e (same x, Grows-update_where R same step xs)
  ]

  pub All-update_where :
      (P : A → Type 0)
      → ((x : A) → p x ≡ true → P x → P (f x))
      → (xs : List A) → All P xs
      → All P (update_where p f xs)
  All-update_where P step [] h = tt
  All-update_where P step (x ∷ xs) h = elim (Bool-cases (p x)) [
    | inl e ↦ rw e (step x e h.0, All-update_where P step xs h.1)
    | inr e ↦ rw e (h.0, All-update_where P step xs h.1)
  ]

  -- The same where the step is known of the rows of the table only.
  pub Grows-update_where_each :
      (R : A → A → Type 0)
      → ((x : A) → R x x)
      → (xs : List A) → All (λ x. p x ≡ true → R x (f x)) xs
      → Grows R xs (update_where p f xs)
  Grows-update_where_each R same [] step = tt
  Grows-update_where_each R same (x ∷ xs) step = elim (Bool-cases (p x)) [
    | inl e ↦ rw e (step.0 e, Grows-update_where_each R same xs step.1)
    | inr e ↦ rw e (same x, Grows-update_where_each R same xs step.1)
  ]

  pub All-update_where_each :
      (P : A → Type 0) (xs : List A)
      → All (λ x. p x ≡ true → P x → P (f x)) xs
      → All P xs
      → All P (update_where p f xs)
  All-update_where_each P [] step h = tt
  All-update_where_each P (x ∷ xs) step h = elim (Bool-cases (p x)) [
    | inl e ↦ rw e (step.0 e h.0, All-update_where_each P xs step.1 h.1)
    | inr e ↦ rw e (h.0, All-update_where_each P xs step.1 h.1)
  ]

  pub any-update_where :
      (q : A → Bool)
      → ((x : A) → p x ≡ true → q (f x) ≡ q x)
      → (xs : List A) → any q (update_where p f xs) ≡ any q xs
  any-update_where q same [] = refl
  any-update_where q same (x ∷ xs) = elim (Bool-cases (p x)) [
    | inl e ↦ rw e (rw (same x e) (rw (any-update_where q same xs)))
    | inr e ↦ rw e (rw (any-update_where q same xs))
  ]
