-- ===== src/Cloudflare/D1/Transitions/Exclusion.antt =====
-- One delivery of an event at a time: what the claim of `mark_delivery_started` in
-- cloudflare/src/hooklane_cf/d1.py keeps other deliveries from.
use hooklane.Prelude.{
  ℕ, ◌+◌, ◌<◌, ◌≤◌, String, true, false, Option, none, some, ◌≡◌, ◌≢◌, refl, ◌∙◌, sym, ◌==◌, filter,
  head?, map, length, arith, Bool-cases, inl, inr,
}
use mathlib.Core.Path.{subst}
use hooklane.Cloudflare.Contract.{EventStatus}
use hooklane.Cloudflare.D1.Tables.{EventRow, Tables, update_where, find_event}
use hooklane.Cloudflare.D1.Delivery.{
  can_start, start_row, start, is_held_by, finish_row, finish, delivery_lease_ms,
}
use hooklane.Cloudflare.D1.Invariant.{IsUnique, IsWellFormed}
use hooklane.Cloudflare.D1.Invariant.Lookup.{
  updated, chosen, find_event-update_where, head-filter, changes_one, untouched,
}
use hooklane.Cloudflare.D1.Keeps.Statements.{start-KeepsTables}
use hooklane.Cloudflare.D1.Transitions.Finish.{is_held_by-id}

can_start-id : (id limit now : ℕ) (r : EventRow) → can_start id limit now r ≡ true → r.event_id ≡ id
unfolding can_start
can_start-id id limit now r h = ground arith

-- A row that a claim has been won on.
pub record IsClaimed (id token now : ℕ) (r : EventRow) : Type 0 where
  pub status : r.status ≡ EventStatus.delivering
  pub holder : r.delivery_token ≡ some token
  pub lease : r.delivery_lease_until_ms ≡ some (now + delivery_lease_ms)

-- What a claim that was won leaves in the table.
pub record Claimed (id token now : ℕ) (t : Tables) : Type 0 where
  pub row : EventRow
  pub unique : IsUnique t.events
  pub found : find_event id t.events ≡ some row
  pub is_claimed : IsClaimed id token now row

chosen_row :
    (id limit token now : ℕ) (o : Option EventRow) (r : EventRow)
    → chosen (can_start id limit now) (start_row limit token now) o ≡ some r
    → (s : EventRow) × (updated (can_start id limit now) (start_row limit token now) o ≡ some s)
      × IsClaimed id token now s
unfolding start_row
chosen_row id limit token now none r h = absurd (cc)
chosen_row id limit token now (some x) r h = elim (Bool-cases (can_start id limit now x)) [
  | inr e ↦ absurd (cc (rw e at h))
  | inl e ↦ (
    start_row limit token now x,
    rw e refl,
    record { status = refl; holder = refl; lease = refl },
  )
]

start-Claimed :
    (maximum limit id token now : ℕ) (t u : Tables) (r : EventRow)
    → limit ≤ maximum
    → IsWellFormed maximum t
    → start id limit token now t ≡ some (some r, u)
    → Claimed id token now u
unfolding start
start-Claimed maximum limit id token now t u r fits well won =
    let p = can_start id limit now in
    let f = start_row limit token now in
    let only = can_start-id id limit now in
    let kept = ((start-KeepsTables id limit token now maximum fits).at t).keeps well in
    let got : head? (map f (filter p t.events)) ≡ some r = ground arith in
    let same : record t { events = update_where p f t.events } ≡ u = ground arith in
    let (s, found, is) =
      chosen_row id limit token now (find_event id t.events) r
        (sym (head-filter id p f only (λ x. refl) t.events well.ids) ∙ got) in
    record {
      row = s;
      unique = subst (λ (x : Tables). IsUnique x.events) same (kept.ids);
      found = rw (sym same) (find_event-update_where id p f only (λ x. refl) t.events ∙ found);
      is_claimed = is;
    }

-- The row of a claim passes no other claim, and no other token.
claim_refused :
    (id token now limit' now' : ℕ) (r : EventRow)
    → IsClaimed id token now r
    → now' < now + delivery_lease_ms
    → can_start id limit' now' r ≡ false
unfolding can_start
claim_refused id token now limit' now' r c early = rw (c.status) (rw (c.lease) (ground arith))

token_refused :
    (id token now stale : ℕ) (r : EventRow)
    → IsClaimed id token now r
    → stale ≢ token
    → is_held_by id stale r ≡ false
unfolding is_held_by
token_refused id token now stale r c ne = rw (c.status) (rw (c.holder) (ground arith))

-- In the tables that a claim leaves, which were well-formed before it, no other claim of the event
-- succeeds while its lease runs, under whatever limit and whatever token: it gives no row and leaves
-- the tables as they are.
pub start_excludes :
    (maximum limit id token now : ℕ) (t u : Tables) (r : EventRow)
    → limit ≤ maximum
    → IsWellFormed maximum t
    → start id limit token now t ≡ some (some r, u)
    → (limit' token' now' : ℕ) → now' < now + delivery_lease_ms
    → start id limit' token' now' u ≡ some (none, u)
unfolding start
start_excludes maximum limit id token now t u r fits well won limit' token' now' early =
    let c = start-Claimed maximum limit id token now t u r fits well won in
    let p = can_start id limit' now' in
    let f = start_row limit' token' now' in
    let only = can_start-id id limit' now' in
    let no : p c.row ≡ false = claim_refused id token now limit' now' c.row c.is_claimed early in
    let quiet : update_where p f u.events ≡ u.events =
      untouched id p f only (λ x. refl) u.events c.unique (rw (c.found) no) in
    let nothing : head? (map f (filter p u.events)) ≡ none =
      head-filter id p f only (λ x. refl) u.events c.unique ∙ rw (c.found) (rw no) in
    rw quiet (rw nothing refl)

-- In the tables that a claim leaves, which were well-formed before it, the transition that ends an
-- attempt is refused to every other token, and leaves the tables as they are: a delivery that was
-- taken over cannot report its result.
pub start_fences :
    (maximum limit id token now : ℕ) (t u : Tables) (r : EventRow)
    → limit ≤ maximum
    → IsWellFormed maximum t
    → start id limit token now t ≡ some (some r, u)
    → (status : EventStatus) (reason : Option String) (stale now' : ℕ) → stale ≢ token
    → finish id status reason stale now' u ≡ some (false, u)
unfolding finish
start_fences maximum limit id token now t u r fits well won status reason stale now' ne =
    let c = start-Claimed maximum limit id token now t u r fits well won in
    let p = is_held_by id stale in
    let f = finish_row status reason now' in
    let only = is_held_by-id id stale in
    let no : p c.row ≡ false = token_refused id token now stale c.row c.is_claimed ne in
    let quiet : update_where p f u.events ≡ u.events =
      untouched id p f only (λ x. refl) u.events c.unique (rw (c.found) no) in
    let nothing : (length (filter p u.events) == 1) ≡ false =
      changes_one id p f only (λ x. refl) u.events c.unique ∙ rw (c.found) no in
    rw quiet (rw nothing refl)
