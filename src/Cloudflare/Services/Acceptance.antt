-- ===== src/Cloudflare/Services/Acceptance.antt =====
-- `AcceptanceService` of cloudflare/src/hooklane_cf/core.py, over any `EventStore`.
pub mod Counts
use hooklane.Prelude.{ℕ, ◌+◌, Bool, true, false, Option, none, some, List, [], ◌∷◌, if◌then◌else◌}
use hooklane.Prelude.Outcome.{Outcome, ok, err}
use hooklane.Cloudflare.Contract.{EventRequest}
use hooklane.Cloudflare.Core.{
  Error, persistence_unavailable, queue_send_unavailable, AcceptanceRecord, OutboxRecord,
  outbox_lease_ms,
}
use hooklane.Cloudflare.Exec.{Exec, pure, raise, attempt, ◌>>=◌, ◌>>◌}
use hooklane.Cloudflare.Services.Setting.{EventStore, Service, on_store, emit, send}

module _ {W : Type 0} (store : EventStore W) where
  -- After the transition of the outbox.
  unfoldable pub report_dispatch :
      AcceptanceRecord → Outcome Error Bool → Exec (Service W) AcceptanceRecord
  unfolding emit
  report_dispatch r (ok true) = do emit "queued" r.event_id 0 "none"; pure r
  report_dispatch r (ok false) = do emit "outbox_pending" r.event_id 0 "dispatch_claimed"; pure r
  report_dispatch r (err persistence_unavailable) = do
    emit "outbox_pending" r.event_id 0 "dispatch_transition_failed"
    pure r
  report_dispatch r (err e) = raise e

  -- After the send.
  unfoldable pub dispatch_sent :
      AcceptanceRecord → Outcome Error (Unit {0}) → Exec (Service W) AcceptanceRecord
  unfolding emit report_dispatch on_store
  dispatch_sent r (ok _) = do
    dispatched ← attempt (on_store (store.mark_dispatched r.event_id none))
    report_dispatch r dispatched
  dispatch_sent r (err queue_send_unavailable) = do
    emit "outbox_pending" r.event_id 0 "queue_unavailable"
    pure r
  dispatch_sent r (err e) = raise e

  unfoldable pub announce : AcceptanceRecord → Exec (Service W) AcceptanceRecord
  unfolding emit send dispatch_sent
  announce r =
      if r.created
      then (do
        emit "accepted" r.event_id 0 "none"
        sent ← attempt (send r.event_id)
        dispatch_sent r sent)
      else (do emit "idempotent_reuse" r.event_id r.attempt_count "none"; pure r)

  -- `accept`, from the proposed id, the hash of the key and the fingerprint on.
  unfoldable pub accept : ℕ → EventRequest → Option ℕ → ℕ → Exec (Service W) AcceptanceRecord
  unfolding on_store announce
  accept proposed event key_hash fingerprint = do
    r ← on_store (store.accept proposed event key_hash fingerprint)
    announce r

  -- The handlers of one round of `repair`, each with the counts `repaired` and `deferred` so far.
  unfoldable pub report_repair :
      OutboxRecord → ℕ → ℕ → Outcome Error Bool → Exec (Service W) (ℕ × ℕ)
  unfolding emit
  report_repair r repaired deferred (ok true) = do
    emit "repair_dispatched" r.event_id (r.send_attempt_count + 1) "none"
    pure (repaired + 1, deferred)
  report_repair r repaired deferred (ok false) = do
    emit "repair_deferred" r.event_id r.send_attempt_count "claim_lost"
    pure (repaired, deferred + 1)
  report_repair r repaired deferred (err persistence_unavailable) = do
    emit "repair_deferred" r.event_id r.send_attempt_count "dispatch_transition_failed"
    pure (repaired, deferred + 1)
  report_repair r repaired deferred (err e) = raise e

  -- `except PersistenceUnavailable: pass`.
  unfoldable pub deferred_round :
      OutboxRecord → ℕ → ℕ → Outcome Error (Unit {0}) → Exec (Service W) (ℕ × ℕ)
  unfolding emit
  deferred_round r repaired deferred (err persistence_unavailable) = do
    emit "repair_deferred" r.event_id r.send_attempt_count "dependency_unavailable"
    pure (repaired, deferred + 1)
  deferred_round r repaired deferred (err e) = raise e
  deferred_round r repaired deferred (ok _) = do
    emit "repair_deferred" r.event_id r.send_attempt_count "dependency_unavailable"
    pure (repaired, deferred + 1)

  unfoldable pub repair_sent :
      ℕ → OutboxRecord → ℕ → ℕ → Outcome Error (Unit {0}) → Exec (Service W) (ℕ × ℕ)
  unfolding deferred_round report_repair on_store
  repair_sent token r repaired deferred (ok _) = do
    dispatched ← attempt (on_store (store.mark_dispatched r.event_id (some token)))
    report_repair r repaired deferred dispatched
  repair_sent token r repaired deferred (err queue_send_unavailable) = do
    released ← attempt (on_store (store.release_outbox_claim r.event_id token))
    deferred_round r repaired deferred released
  repair_sent token r repaired deferred (err e) = raise e

  unfoldable pub repair_one : ℕ → OutboxRecord → ℕ → ℕ → Exec (Service W) (ℕ × ℕ)
  unfolding send repair_sent
  repair_one token r repaired deferred = do
    sent ← attempt (send r.event_id)
    repair_sent token r repaired deferred sent

  -- The loop, with the counts so far.
  unfoldable pub repair_all : ℕ → List OutboxRecord → ℕ → ℕ → Exec (Service W) (ℕ × ℕ)
  unfolding repair_one
  repair_all token [] repaired deferred = pure (repaired, deferred)
  repair_all token (r ∷ outboxes) repaired deferred = do
    counts ← repair_one token r repaired deferred
    repair_all token outboxes counts.0 counts.1

  unfoldable pub repair : ℕ → ℕ → Exec (Service W) (ℕ × ℕ)
  unfolding repair_all on_store
  repair limit token = do
    outboxes ← on_store (store.claim_outbox limit token outbox_lease_ms)
    repair_all token outboxes 0 0
