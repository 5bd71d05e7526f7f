-- ===== src/Cloudflare/D1/Keeps/Operations.antt =====
-- Each operation of `D1EventStore` in cloudflare/src/hooklane_cf/d1.py keeps the contract.
use hooklane.Prelude.{
  ℕ, ◌≤◌, String, Bool, true, false, Option, none, some, List, ◌≡◌, refl, arith, ltb,
}
use hooklane.Cloudflare.Contract.{EventStatus, EventRequest}
use hooklane.Cloudflare.Core.{DeliveryErrorClass, persistence_unavailable, value_error}
use hooklane.Cloudflare.Exec.{◌>>=◌}
use hooklane.Cloudflare.D1.Tables.{EventRow, is_delivering}
use hooklane.Cloudflare.D1.World.{now_ms, uuid4, query}
use hooklane.Cloudflare.D1.Accept.{accept, accepted, new_event_row}
use hooklane.Cloudflare.D1.Payload.{load_payload_json, load_record, load_if_found, get_status}
use hooklane.Cloudflare.D1.Outbox.{
  claim_outbox, mark_dispatched, release_outbox_claim, get_outbox_state, dispatch,
}
use hooklane.Cloudflare.D1.Delivery.{
  reread, after_exhaust, dispose, after_start, mark_delivery_started, update_terminal,
  mark_delivered, mark_retry, mark_dead_letter, start, finish, reason_value,
}
use hooklane.Cloudflare.D1.Invariant.{EventRowIsValid}
use hooklane.Cloudflare.D1.Keeps.{
  Keeps, Keeps-query, Keeps-pure, Keeps-raise, Keeps-gets, Keeps-or_unavailable,
  Keeps-or_value_error, Keeps-if, Keeps-bind, Keeps-read, Keeps-fork, Keeps-fail,
}
use hooklane.Cloudflare.D1.Keeps.Statements.{
  start-KeepsTables, exhaust-KeepsTables, finish-KeepsTables, select_event-KeepsTables,
  select_chunks-KeepsTables, select_outbox-KeepsTables, dispatch-KeepsTables, release-KeepsTables,
}
use hooklane.Cloudflare.D1.Keeps.Claims.{claim_outbox_rows-KeepsTables}
use hooklane.Cloudflare.D1.Keeps.Batch.{accept_batch-KeepsTables}

ruleset keeps_rules = (
  Keeps-query, Keeps-pure, Keeps-raise, Keeps-gets, Keeps-or_unavailable, Keeps-or_value_error,
  Keeps-if, Keeps-bind,
)

module _ (maximum : ℕ) where
  accepted-Keeps :
      (proposed : ℕ) (key : Option ℕ) (fingerprint : ℕ) (row : EventRow)
      → Keeps maximum (accepted proposed key fingerprint row)
  unfolding accepted
  accepted-Keeps proposed key fingerprint row = search keeps_rules

  pub new_event_row-valid :
      (id : ℕ) (event : EventRequest) (key : Option ℕ) (fingerprint now : ℕ)
      → EventRowIsValid maximum (new_event_row id event key fingerprint now)
  new_event_row-valid id event key fingerprint now = ground arith

  pub accept-Keeps :
      (proposed : ℕ) (event : EventRequest) (key : Option ℕ) (fingerprint : ℕ)
      → Keeps maximum (accept proposed event key fingerprint)
  unfolding accept
  accept-Keeps proposed event key fingerprint =
      search (keeps_rules, accepted-Keeps, new_event_row-valid, accept_batch-KeepsTables) depth 9

  load_payload_json-Keeps : (id : ℕ) (legacy : List ℕ) → Keeps maximum (load_payload_json id legacy)
  unfolding load_payload_json
  load_payload_json-Keeps id legacy = search (keeps_rules, select_chunks-KeepsTables)

  pub load_record-Keeps : (id : ℕ) (row : EventRow) → Keeps maximum (load_record id row)
  unfolding load_record
  load_record-Keeps id row = search (keeps_rules, load_payload_json-Keeps) depth 9

  load_if_found-Keeps : (id : ℕ) (row : Option EventRow) → Keeps maximum (load_if_found id row)
  unfolding load_if_found
  load_if_found-Keeps id none = search keeps_rules
  load_if_found-Keeps id (some row) = search (keeps_rules, load_record-Keeps)

  pub get_status-Keeps : (id : ℕ) → Keeps maximum (get_status id)
  unfolding get_status
  get_status-Keeps id = search (keeps_rules, select_event-KeepsTables, load_if_found-Keeps)

  pub claim_outbox-Keeps :
      (limit token lease_ms : ℕ) → Keeps maximum (claim_outbox limit token lease_ms)
  unfolding claim_outbox
  claim_outbox-Keeps limit token lease_ms = search (keeps_rules, claim_outbox_rows-KeepsTables)

  pub release_outbox_claim-Keeps : (id token : ℕ) → Keeps maximum (release_outbox_claim id token)
  unfolding release_outbox_claim
  release_outbox_claim-Keeps id token = search (keeps_rules, release-KeepsTables)

  pub get_outbox_state-Keeps : (id : ℕ) → Keeps maximum (get_outbox_state id)
  unfolding get_outbox_state
  get_outbox_state-Keeps id = search (keeps_rules, select_outbox-KeepsTables)

  reread-Keeps : (row : Option EventRow) → Keeps maximum (reread row)
  unfolding reread
  reread-Keeps none = search keeps_rules
  reread-Keeps (some row) = search keeps_rules

  after_exhaust-Keeps :
      (id : ℕ) (row : EventRow) (won : Bool) → Keeps maximum (after_exhaust id row won)
  unfolding after_exhaust
  after_exhaust-Keeps id row true = search keeps_rules
  after_exhaust-Keeps id row false = search (keeps_rules, select_event-KeepsTables, reread-Keeps)

  dispose-Keeps :
      (id limit now : ℕ) (row : Option EventRow) → Keeps maximum (dispose id limit now row)
  unfolding dispose
  dispose-Keeps id limit now none = search keeps_rules
  dispose-Keeps id limit now (some row) =
      search (keeps_rules, exhaust-KeepsTables, after_exhaust-Keeps) depth 9

  after_start-Keeps :
      (id limit token now : ℕ) (row : Option EventRow)
      → Keeps maximum (after_start id limit token now row)
  unfolding after_start
  after_start-Keeps id limit token now none =
      search (keeps_rules, select_event-KeepsTables, dispose-Keeps)
  after_start-Keeps id limit token now (some row) = search (keeps_rules, load_record-Keeps)

  pub mark_dispatched-Keeps : (id : ℕ) (claim : Option ℕ) → Keeps maximum (mark_dispatched id claim)
  unfolding mark_dispatched
  mark_dispatched-Keeps id claim =
      Keeps-fork (λ w. w.fail_dispatch_transition) _ _
        (Keeps-fail persistence_unavailable (λ w. record w { fail_dispatch_transition = false })
          (λ w. refl) (λ w. refl))
        (Keeps-read (λ w. query (dispatch id claim (now_ms w)))
          (λ w. Keeps-query _ (dispatch-KeepsTables maximum id claim (now_ms w))))

  -- With at most `maximum` attempts.
  pub mark_delivery_started-Keeps :
      (id limit : ℕ) → limit ≤ maximum → Keeps maximum (mark_delivery_started id limit)
  unfolding mark_delivery_started
  mark_delivery_started-Keeps id limit fits =
      Keeps-fork (λ w. ltb limit 1) _ _ (Keeps-raise value_error)
        (Keeps-read
          (λ w.
            query (start id limit (uuid4 w) (now_ms w))
            >>= after_start id limit (uuid4 w) (now_ms w))
          (λ w.
            Keeps-bind _ (after_start-Keeps id limit (uuid4 w) (now_ms w)) _
              (Keeps-query _ (start-KeepsTables id limit (uuid4 w) (now_ms w) maximum fits))))

  update_terminal-Keeps :
      (id : ℕ) (status : EventStatus) (reason : Option String) (token : ℕ)
      → (status ≡ EventStatus.queued → ⊥)
      → is_delivering status ≡ false
      → Keeps maximum (update_terminal id status reason token)
  unfolding update_terminal
  update_terminal-Keeps id status reason token leaves ends =
      Keeps-fork (λ w. w.fail_delivery_transition) _ _
        (Keeps-fail persistence_unavailable (λ w. record w { fail_delivery_transition = false })
          (λ w. refl) (λ w. refl))
        (Keeps-read (λ w. query (finish id status reason token (now_ms w)))
          (λ w.
            Keeps-query _
              (finish-KeepsTables id status reason token (now_ms w) leaves ends maximum)))

  pub mark_delivered-Keeps : (id token : ℕ) → Keeps maximum (mark_delivered id token)
  unfolding mark_delivered
  mark_delivered-Keeps id token =
      update_terminal-Keeps id EventStatus.delivered none token (λ e. cc) refl

  pub mark_retry-Keeps :
      (id : ℕ) (reason : DeliveryErrorClass) (token : ℕ)
      → Keeps maximum (mark_retry id reason token)
  unfolding mark_retry
  mark_retry-Keeps id reason token =
      update_terminal-Keeps id EventStatus.retry_scheduled (some (reason_value reason)) token
        (λ e. cc) refl

  pub mark_dead_letter-Keeps :
      (id : ℕ) (reason : DeliveryErrorClass) (token : ℕ)
      → Keeps maximum (mark_dead_letter id reason token)
  unfolding mark_dead_letter
  mark_dead_letter-Keeps id reason token =
      update_terminal-Keeps id EventStatus.dead_letter (some (reason_value reason)) token (λ e. cc)
        refl
