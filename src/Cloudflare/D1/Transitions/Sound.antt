-- ===== src/Cloudflare/D1/Transitions/Sound.antt =====
-- Postconditions of the operations of the store over well-formed tables: the rule for a call of the
-- database.
use hooklane.Prelude.{ℕ, suc, Option, none, some}
use hooklane.Prelude.Outcome.{Outcome, ok, err}
use hooklane.Cloudflare.Core.{Error}
use hooklane.Run.Ensures.{Holds, Ensures}
use hooklane.Cloudflare.D1.Tables.{Tables}
use hooklane.Cloudflare.D1.World.{World, Answer, Action, Statement, reply, outcome_tables, query}
use hooklane.Cloudflare.D1.Invariant.{IsWellFormed}
use hooklane.Cloudflare.D1.Keeps.{Rely, Keeps}
use hooklane.Cloudflare.D1.Transitions.{seen}

-- Well-formed tables, and others that keep them so.
pub record IsSound (maximum : ℕ) (w : World) : Type 0 where
  pub tables : IsWellFormed maximum w.tables
  pub rely : Rely maximum w.env

pub seen-IsWellFormed :
    (maximum : ℕ) (w : World) → IsSound maximum w → IsWellFormed maximum (seen w)
seen-IsWellFormed maximum w s = (s.rely w.calls w.tables).keeps s.tables

pub Holds-state :
    {A : Type 0} (P : World → Type 0) (r : Outcome Error A × World) → P r.1 → Holds (λ a w. P w) r
Holds-state P (ok a, w) h = h
Holds-state P (err e, w) h = tt

pub Keeps-IsSound :
    {A : Type 0} (maximum : ℕ) (m : Action A)
    → Keeps maximum m
    → Ensures (IsSound maximum) (λ a w. IsSound maximum w) m
Keeps-IsSound maximum m k = record {
  at = λ w s.
      Holds-state (IsSound maximum) (m w)
        (record { tables = (k.at w s.rely).keeps s.tables; rely = rw (k.env w) s.rely });
}

-- What a statement gives when it runs.
abbrev pub Gives : {A : Type 0} → (A → Tables → Type 0) → Option (A × Tables) → Type 0
Gives Q none = Unit
Gives Q (some (a, t)) = Q a t

Holds-reply :
    {A : Type 0} (Q : A → World → Type 0) (answer : Answer) (t : Tables) (r : Option (A × Tables))
    (w : World)
    → Gives (λ a u. Q a (record w { calls = suc w.calls; tables = u })) r
    → Holds Q (reply answer r, record w { calls = suc w.calls; tables = outcome_tables answer t r })
Holds-reply Q Answer.answered t none w g = tt
Holds-reply Q Answer.answered t (some (a, u)) w g = g
Holds-reply Q Answer.request_lost t r w g = tt
Holds-reply Q Answer.reply_lost t r w g = tt

-- A call that returns was answered.
pub Ensures-query :
    {A : Type 0} {P : World → Type 0} {Q : A → World → Type 0} (s : Statement A)
    → ((w : World)
        → P w
        → Gives (λ a u. Q a (record w { calls = suc w.calls; tables = u })) (s (seen w)))
    → Ensures P Q (query s)
unfolding query
Ensures-query {Q} s h = record {
  at = λ w p. Holds-reply Q (w.env.tick w.calls).answer (seen w) (s (seen w)) w (h w p);
}
