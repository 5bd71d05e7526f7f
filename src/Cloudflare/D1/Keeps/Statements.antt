-- ===== src/Cloudflare/D1/Keeps/Statements.antt =====
-- Each UPDATE of cloudflare/src/hooklane_cf/d1.py takes an allowed step, and each SELECT none.
use hooklane.Prelude.{ℕ, ◌≤◌, String, true, false, Option, ◌≡◌, refl, All-every, arith}
use hooklane.Cloudflare.Contract.{EventStatus}
use hooklane.Cloudflare.D1.Tables.{EventRow, OutboxRow, is_delivering}
use hooklane.Cloudflare.D1.Payload.{select_chunks, select_event}
use hooklane.Cloudflare.D1.Outbox.{
  dispatch, is_dispatchable, dispatch_row, release, is_claimed_by, release_row, select_outbox,
}
use hooklane.Cloudflare.D1.Delivery.{
  start, can_start, start_row, exhaust, is_exhausted, exhaust_row, finish, is_held_by, finish_row,
}
use hooklane.Cloudflare.D1.Invariant.{
  EventRowIsValid, OutboxRowIsValid, EventStep, OutboxStep, Allowed-refl,
}
use hooklane.Cloudflare.D1.Invariant.Updates.{update_events-Allowed, update_outbox-Allowed}
use hooklane.Cloudflare.D1.Keeps.{KeepsTables}

module _ (id limit token now : ℕ) where
  start_row-EventStep :
      (r : EventRow) → can_start id limit now r ≡ true → EventStep r (start_row limit token now r)
  unfolding can_start start_row
  start_row-EventStep r h = ground arith

  start_row-valid :
      (maximum : ℕ)
      → limit ≤ maximum
      → (r : EventRow) → can_start id limit now r ≡ true
      → EventRowIsValid maximum r
      → EventRowIsValid maximum (start_row limit token now r)
  unfolding can_start start_row
  start_row-valid maximum fits r h v = ground arith

  pub start-KeepsTables :
      (maximum : ℕ) → limit ≤ maximum → KeepsTables maximum (start id limit token now)
  unfolding start
  start-KeepsTables maximum fits = record {
    at =
        update_events-Allowed (can_start id limit now) (start_row limit token now)
          start_row-EventStep maximum (start_row-valid maximum fits);
  }

module _ (id limit now : ℕ) where
  exhaust_row-EventStep :
      (r : EventRow) → is_exhausted id limit r ≡ true → EventStep r (exhaust_row now r)
  unfolding is_exhausted
  exhaust_row-EventStep r h = ground arith

  exhaust_row-valid :
      (maximum : ℕ) (r : EventRow)
      → is_exhausted id limit r ≡ true
      → EventRowIsValid maximum r
      → EventRowIsValid maximum (exhaust_row now r)
  unfolding is_exhausted
  exhaust_row-valid maximum r h v = ground arith

  pub exhaust-KeepsTables : (maximum : ℕ) → KeepsTables maximum (exhaust id limit now)
  unfolding exhaust
  exhaust-KeepsTables maximum = record {
    at =
        update_events-Allowed (is_exhausted id limit) (exhaust_row now) exhaust_row-EventStep
          maximum (exhaust_row-valid maximum);
  }

module _ (id : ℕ) (status : EventStatus) (reason : Option String) (token now : ℕ)
    (leaves : status ≡ EventStatus.queued → ⊥) (ends : is_delivering status ≡ false) where
  finish_row-EventStep :
      (r : EventRow) → is_held_by id token r ≡ true → EventStep r (finish_row status reason now r)
  unfolding is_held_by
  finish_row-EventStep r h = ground arith

  finish_row-valid :
      (maximum : ℕ) (r : EventRow)
      → is_held_by id token r ≡ true
      → EventRowIsValid maximum r
      → EventRowIsValid maximum (finish_row status reason now r)
  unfolding is_held_by
  finish_row-valid maximum r h v = ground arith

  pub finish-KeepsTables : (maximum : ℕ) → KeepsTables maximum (finish id status reason token now)
  unfolding finish
  finish-KeepsTables maximum = record {
    at =
        update_events-Allowed (is_held_by id token) (finish_row status reason now)
          finish_row-EventStep maximum (finish_row-valid maximum);
  }

pub select_event-KeepsTables : (maximum id : ℕ) → KeepsTables maximum (select_event id)
unfolding select_event
select_event-KeepsTables maximum id = record { at = Allowed-refl maximum }

pub select_chunks-KeepsTables : (maximum id : ℕ) → KeepsTables maximum (select_chunks id)
unfolding select_chunks
select_chunks-KeepsTables maximum id = record { at = Allowed-refl maximum }

pub select_outbox-KeepsTables : (maximum id : ℕ) → KeepsTables maximum (select_outbox id)
unfolding select_outbox
select_outbox-KeepsTables maximum id = record { at = Allowed-refl maximum }

dispatch_row-OutboxStep :
    (id : ℕ) (claim : Option ℕ) (now : ℕ) (r : OutboxRow)
    → is_dispatchable id claim r ≡ true
    → OutboxStep r (dispatch_row now r)
unfolding is_dispatchable
dispatch_row-OutboxStep id claim now r h = ground arith

dispatch_row-valid :
    (id : ℕ) (claim : Option ℕ) (now : ℕ) (r : OutboxRow)
    → is_dispatchable id claim r ≡ true
    → OutboxRowIsValid r
    → OutboxRowIsValid (dispatch_row now r)
dispatch_row-valid id claim now r h v = ground arith

release_row-OutboxStep :
    (id token now : ℕ) (r : OutboxRow)
    → is_claimed_by id token r ≡ true
    → OutboxStep r (release_row now r)
unfolding is_claimed_by
release_row-OutboxStep id token now r h = ground arith

release_row-valid :
    (id token now : ℕ) (r : OutboxRow)
    → is_claimed_by id token r ≡ true
    → OutboxRowIsValid r
    → OutboxRowIsValid (release_row now r)
unfolding is_claimed_by
release_row-valid id token now r h v = ground arith

pub dispatch-KeepsTables :
    (maximum id : ℕ) (claim : Option ℕ) (now : ℕ) → KeepsTables maximum (dispatch id claim now)
unfolding dispatch
dispatch-KeepsTables maximum id claim now = record {
  at = λ t.
      update_outbox-Allowed (is_dispatchable id claim) (dispatch_row now) (λ r. refl) maximum t
        (λ u. All-every _ t.outbox (dispatch_row-OutboxStep id claim now))
        (λ u. All-every _ t.outbox (dispatch_row-valid id claim now));
}

pub release-KeepsTables : (maximum id token now : ℕ) → KeepsTables maximum (release id token now)
unfolding release
release-KeepsTables maximum id token now = record {
  at = λ t.
      update_outbox-Allowed (is_claimed_by id token) (release_row now) (λ r. refl) maximum t
        (λ u. All-every _ t.outbox (release_row-OutboxStep id token now))
        (λ u. All-every _ t.outbox (release_row-valid id token now));
}
