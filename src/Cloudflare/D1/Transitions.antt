-- ===== src/Cloudflare/D1/Transitions.antt =====
-- What the transitions of a delivery do to the row of their event, in
-- cloudflare/src/hooklane_cf/d1.py.
pub mod Finish
pub mod Sound
pub mod Settled
pub mod Exclusion
use hooklane.Prelude.{
  ℕ, Bool, true, false, Option, none, some, List, [], ◌∷◌, ◌≡◌, refl, ◌∙◌, sym, ap, Grows, any,
  filter, head?, ◌==◌, Bool-cases, inl, inr, arith, if◌then◌else◌,
}
use hooklane.Cloudflare.Contract.{EventStatus}
use hooklane.Cloudflare.D1.Tables.{EventRow, Tables, is_terminal, find_event, has_event_id}
use hooklane.Cloudflare.D1.World.{World}
use hooklane.Cloudflare.D1.Invariant.{EventStep, Evolves}

-- The tables that the next call of the database meets.
abbrev pub seen : World → Tables
seen w = (w.env.tick w.calls).others w.tables

-- The event is in the table, with this status.
pub record HasStatus (id : ℕ) (status : EventStatus) (t : Tables) : Type 0 where
  pub row : EventRow
  pub found : find_event id t.events ≡ some row
  pub has_status : row.status ≡ status

-- A row that is found is found after any evolution, one step further.
pub record StepsTo (id : ℕ) (r : EventRow) (rows : List EventRow) : Type 0 where
  pub row : EventRow
  pub found : find_event id rows ≡ some row
  pub step : EventStep r row

pub find_event-Grows :
    (id : ℕ) (rows rows' : List EventRow) (r : EventRow)
    → Grows EventStep rows rows'
    → find_event id rows ≡ some r
    → StepsTo id r rows'
find_event-Grows id [] rows' r g h = absurd (cc)
find_event-Grows id (x ∷ rows) [] r g h = absurd g
find_event-Grows id (x ∷ rows) (y ∷ rows') r g h = elim (Bool-cases (x.event_id == id)) [
  | inl here ↦
      let same : (y.event_id == id) ≡ true = rw ((g.0).event_id) here in
      let is_x : x ≡ r = ground arith in
      record { row = y; found = rw same; step = rw (sym is_x) (g.0) }
  | inr other ↦
      let same : (y.event_id == id) ≡ false = rw ((g.0).event_id) other in
      let rest = find_event-Grows id rows rows' r g.1 (rw other at h) in
      record { row = rest.row; found = rw same (rest.found); step = rest.step }
]

-- A terminal event has its status for good.
pub HasStatus-Evolves :
    (id : ℕ) (status : EventStatus) (t u : Tables)
    → is_terminal status ≡ true
    → Evolves t u
    → HasStatus id status t
    → HasStatus id status u
HasStatus-Evolves id status t u ends e h =
    let k = find_event-Grows id t.events u.events h.row e.events h.found in
    record {
      row = k.row;
      found = k.found;
      has_status =
          ap (λ (r : EventRow). r.status) ((k.step).is_final (rw (h.has_status) ends))
          ∙ h.has_status;
    }
