-- ===== src/Cloudflare/D1/Transitions/Finish.antt =====
-- `_update_terminal` of cloudflare/src/hooklane_cf/d1.py: the compare-and-set that ends an attempt.
use hooklane.Prelude.{
  ℕ, String, Bool, true, false, Option, none, some, ◌≡◌, ◌≢◌, refl, ap, ◌==◌, ==_eq, ==_refl, arith,
  Bool-cases, inl, inr,
}
use hooklane.Prelude.Outcome.{Outcome, ok}
use hooklane.Cloudflare.Contract.{EventStatus}
use hooklane.Cloudflare.D1.Tables.{EventRow, find_event, is_delivering, column_eq}
use hooklane.Cloudflare.Core.{Error}
use hooklane.Cloudflare.D1.World.{World, Answer, now_ms, query}
use hooklane.Cloudflare.D1.Delivery.{is_held_by, finish_row, update_terminal}
use hooklane.Cloudflare.D1.Invariant.{IsUnique}
use hooklane.Cloudflare.D1.Invariant.Lookup.{
  passes, updated, find_event-has_id, find_event-update_where, find_event-update_where_ne,
  changes_one,
}
use hooklane.Cloudflare.D1.Transitions.{seen}

pub is_held_by-id : (id token : ℕ) (r : EventRow) → is_held_by id token r ≡ true → r.event_id ≡ id
unfolding is_held_by
is_held_by-id id token r h = ground arith

-- What a transition reports of a row, and what it makes of it.
pub data Decided (status : EventStatus) (reason : Option String) (token now : ℕ)
    : Option EventRow → Outcome Error Bool → Option EventRow → Type 0 where
  was_held :
      (r : EventRow)
      → r.status ≡ EventStatus.delivering
      → r.delivery_token ≡ some token
      → Decided status reason token now (some r) (ok true) (
          some (record r {
            status = status;
            updated_at_ms = now;
            last_reason = reason;
            delivery_token = none;
            delivery_lease_until_ms = none;
          }))
  was_missing : Decided status reason token now none (ok false) none
  was_not_delivering :
      (r : EventRow)
      → r.status ≢ EventStatus.delivering
      → Decided status reason token now (some r) (ok false) (some r)
  was_not_held :
      (r : EventRow)
      → r.delivery_token ≢ some token
      → Decided status reason token now (some r) (ok false) (some r)

status_is : (s : EventStatus) → is_delivering s ≡ true → s ≡ EventStatus.delivering
status_is EventStatus.delivering h = refl
status_is EventStatus.queued h = absurd (cc)
status_is EventStatus.retry_scheduled h = absurd (cc)
status_is EventStatus.delivered h = absurd (cc)
status_is EventStatus.dead_letter h = absurd (cc)

column_is : (o : Option ℕ) (v : ℕ) → column_eq o v ≡ true → o ≡ some v
column_is none v h = absurd (cc)
column_is (some c) v h = ap some (==_eq c v h)

column_ne : (o : Option ℕ) (v : ℕ) → column_eq o v ≡ false → o ≢ some v
column_ne o v h e = absurd (cc (==_refl v, rw e at h))

decides :
    (id token : ℕ) (status : EventStatus) (reason : Option String) (now : ℕ) (row : Option EventRow)
    → ((r : EventRow) → row ≡ some r → r.event_id ≡ id)
    → Decided status reason token now row
        (ok (passes (is_held_by id token) row))
        (updated (is_held_by id token) (finish_row status reason now) row)
unfolding is_held_by
decides id token status reason now none has_id = was_missing
decides id token status reason now (some r) has_id =
    let same_id : (r.event_id == id) ≡ true = rw (has_id r refl) (==_refl id) in
    elim (Bool-cases (is_delivering r.status)) [
      | inl d ↦ elim (Bool-cases (column_eq r.delivery_token token)) [
        | inl t ↦
            rw same_id
              (rw d (rw t (was_held r (status_is r.status d) (column_is r.delivery_token token t))))
        | inr t ↦ rw same_id (rw d (rw t (was_not_held r (column_ne r.delivery_token token t))))
      ]
      | inr d ↦ rw same_id (rw d (was_not_delivering r (λ e. absurd (cc (rw e at d)))))
    ]

-- A transition that the database answers, over unique ids and with the fault switch off, reports true
-- exactly if the event was being delivered under this very token. Then its row has the new status and
-- reason and gives up token and lease, and the rest of it is as it was; else the row is as it was. No
-- other event changes.
pub update_terminal_decides :
    (id : ℕ) (status : EventStatus) (reason : Option String) (token : ℕ) (w : World)
    → w.fail_delivery_transition ≡ false
    → (w.env.tick w.calls).answer ≡ Answer.answered
    → IsUnique (seen w).events
    → let (reported, w') = update_terminal id status reason token w in
      Decided status reason token
        (now_ms w)
        (find_event id (seen w).events)
        reported
        (find_event id w'.tables.events)
      × ((j : ℕ) → j ≢ id → find_event j w'.tables.events ≡ find_event j (seen w).events)
unfolding update_terminal query
update_terminal_decides id status reason token w works answered unique =
    let p = is_held_by id token in
    let f = finish_row status reason (now_ms w) in
    let rows = (seen w).events in
    simp (works, answered)
      (
        rw (changes_one id p f (is_held_by-id id token) (λ r. refl) rows unique) (
            rw (find_event-update_where id p f (is_held_by-id id token) (λ r. refl) rows) (
              decides id token status reason (now_ms w) (find_event id rows)
                (find_event-has_id id rows))),
        λ j ne. find_event-update_where_ne id p f (is_held_by-id id token) (λ r. refl) j rows ne,
      )
