-- ===== src/Cloudflare/D1/Keeps.antt =====
-- Operations that change the tables by allowed steps only, if the other clients do too: one rule
-- for each way to build an operation.
pub mod Statements
pub mod Claims
pub mod Batch
pub mod Inserts
pub mod Operations
use hooklane.Prelude.{ℕ, Bool, true, false, Option, none, some, ◌≡◌, refl, ◌∙◌, if◌then◌else◌}
use hooklane.Prelude.Outcome.{Outcome, ok, err}
use hooklane.Cloudflare.Core.{Error}
use hooklane.Cloudflare.D1.Tables.{Tables}
use hooklane.Cloudflare.D1.World.{
  Env, World, Action, Statement, Answer, commit, outcome_tables, query, pure, raise, gets, modify,
  or_unavailable, or_value_error, ◌>>=◌,
}
use hooklane.Cloudflare.Exec.{continue}
use hooklane.Cloudflare.D1.Invariant.{Allowed, Allowed-refl, Allowed-trans}

-- What the other clients do to the tables between two calls is allowed too.
abbrev pub Rely : ℕ → Env → Type 0
Rely maximum env = (n : ℕ) (t : Tables) → Allowed maximum t ((env.tick n).others t)

pub record Keeps {A : Type 0} (maximum : ℕ) (m : Action A) : Type 0 where
  pub at : (w : World) → Rely maximum w.env → Allowed maximum w.tables (m w).1.tables
  pub env : (w : World) → (m w).1.env ≡ w.env

pub record KeepsTables {A : Type 0} (maximum : ℕ) (s : Statement A) : Type 0 where
  pub at : (t : Tables) → Allowed maximum t (commit t (s t))

module _ {A : Type 0} {maximum : ℕ} where
  outcome_tables-Allowed :
      (a : Answer) (t : Tables) (r : Option (A × Tables))
      → Allowed maximum t (commit t r)
      → Allowed maximum t (outcome_tables a t r)
  outcome_tables-Allowed Answer.request_lost t r h = Allowed-refl maximum t
  outcome_tables-Allowed Answer.answered t r h = h
  outcome_tables-Allowed Answer.reply_lost t r h = h

  pub Keeps-query : (s : Statement A) → KeepsTables maximum s → Keeps maximum (query s)
  unfolding query
  Keeps-query s k = record {
    at = λ w rely.
        let tick = w.env.tick w.calls in
        let t = tick.others w.tables in
        Allowed-trans maximum w.tables t (outcome_tables tick.answer t (s t))
          (rely w.calls w.tables) (outcome_tables-Allowed tick.answer t (s t) (k.at t));
    env = λ w. refl;
  }

  pub Keeps-pure : (a : A) → Keeps maximum (pure a)
  Keeps-pure a = record { at = λ w rely. Allowed-refl maximum w.tables; env = λ w. refl }

  pub Keeps-raise : (e : Error) → Keeps maximum (raise {A = A} e)
  Keeps-raise e = record { at = λ w rely. Allowed-refl maximum w.tables; env = λ w. refl }

  pub Keeps-gets : (f : World → A) → Keeps maximum (gets f)
  Keeps-gets f = record { at = λ w rely. Allowed-refl maximum w.tables; env = λ w. refl }

  pub Keeps-or_unavailable : (o : Option A) → Keeps maximum (or_unavailable o)
  Keeps-or_unavailable none = Keeps-raise _
  Keeps-or_unavailable (some a) = Keeps-pure a

  pub Keeps-or_value_error : (o : Option A) → Keeps maximum (or_value_error o)
  Keeps-or_value_error none = Keeps-raise _
  Keeps-or_value_error (some a) = Keeps-pure a

  pub Keeps-if :
      (b : Bool) (m n : Action A)
      → Keeps maximum m
      → Keeps maximum n
      → Keeps maximum (if b then m else n)
  Keeps-if true m n km kn = km
  Keeps-if false m n km kn = kn

-- Operations whose parts are chosen by what they read of the world.
module _ {A : Type 0} {maximum : ℕ} where
  pub Keeps-read :
      (g : World → Action A) → ((v : World) → Keeps maximum (g v)) → Keeps maximum (λ w. g w w)
  Keeps-read g k = record { at = λ w rely. (k w).at w rely; env = λ w. (k w).env w }

  pub Keeps-fork :
      (b : World → Bool) (m n : Action A)
      → Keeps maximum m
      → Keeps maximum n
      → Keeps maximum (λ w. if b w then m w else n w)
  Keeps-fork b m n km kn = record {
    at = λ w rely. choose_at w rely (b w);
    env = λ w. choose_env w (b w);
  }
    where
      choose_at :
          (w : World)
          → Rely maximum w.env
          → (c : Bool) → Allowed maximum w.tables (if c then m w else n w).1.tables
      choose_at w rely true = km.at w rely
      choose_at w rely false = kn.at w rely

      choose_env : (w : World) (c : Bool) → (if c then m w else n w).1.env ≡ w.env
      choose_env w true = km.env w
      choose_env w false = kn.env w

  -- The fault switches raise, and are off from then on.
  pub Keeps-fail :
      (e : Error) (reset : World → World)
      → ((w : World) → (reset w).tables ≡ w.tables)
      → ((w : World) → (reset w).env ≡ w.env)
      → Keeps maximum (λ w. raise {A = A} e (reset w))
  Keeps-fail e reset same_tables same_env = record {
    at = λ w rely. rw (same_tables w) (Allowed-refl maximum w.tables);
    env = same_env;
  }

module _ {A B : Type 0} {maximum : ℕ} (f : A → Action B) (kf : (a : A) → Keeps maximum (f a)) where
  continue-Keeps :
      (r : Outcome Error A) (w : World)
      → Rely maximum w.env
      → Allowed maximum w.tables (continue r f w).1.tables
  continue-Keeps (ok a) w rely = (kf a).at w rely
  continue-Keeps (err e) w rely = Allowed-refl maximum w.tables

  continue-env : (r : Outcome Error A) (w : World) → (continue r f w).1.env ≡ w.env
  continue-env (ok a) w = (kf a).env w
  continue-env (err e) w = refl

  pub Keeps-bind : (m : Action A) → Keeps maximum m → Keeps maximum (m >>= f)
  unfolding ◌>>=◌
  Keeps-bind m km = record {
    at = λ w rely.
        let (r, w') = m w in
        Allowed-trans maximum w.tables w'.tables (continue r f w').1.tables (km.at w rely)
          (continue-Keeps r w' (rw (km.env w) rely));
    env = λ w. let (r, w') = m w in continue-env r w' ∙ km.env w;
  }
