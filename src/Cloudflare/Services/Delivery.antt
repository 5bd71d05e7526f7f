-- ===== src/Cloudflare/Services/Delivery.antt =====
-- `DeliveryService` of cloudflare/src/hooklane_cf/core.py, over any `EventStore`.
pub mod Ack
pub mod Backoff
use hooklane.Prelude.{
  ℕ, zero, suc, ◌+◌, ◌-◌, ◌*◌, ◌/◌, ◌%◌, ◌^◌, ◌==◌, min, max, String, Bool, true, false, not, ◌||◌,
  Option, none, some, List, [], ◌∷◌, ◌++◌, ltb, leb, if◌then◌else◌,
}
use hooklane.Prelude.Outcome.{Outcome, ok, err}
use hooklane.Cloudflare.Contract.{EventStatus}
use hooklane.Cloudflare.Core.{
  Error, persistence_unavailable, event_not_found, value_error, sink_failure, DeliveryErrorClass,
  DeliveryStart, DeliveryStartDisposition, EventRecord, is_retryable,
}
use hooklane.Cloudflare.D1.Tables.{is_terminal}
use hooklane.Cloudflare.D1.Delivery.{reason_value}
use hooklane.Cloudflare.Exec.{Exec, pure, raise, attempt, ◌>>=◌, ◌>>◌}
use hooklane.Cloudflare.Services.Setting.{EventStore, Service, on_store, emit}

pub data DeliveryDisposition : Type 0 where
  ack retry : DeliveryDisposition

pub record DeliveryResult : Type 0 where
  pub disposition : DeliveryDisposition
  pub event_id : ℕ
  pub attempt_count : ℕ
  pub status : EventStatus
  pub retry_delay_seconds : Option ℕ

abbrev pub acked : ℕ → ℕ → EventStatus → DeliveryResult
acked id attempt_count status = record {
  disposition = ack;
  event_id = id;
  attempt_count = attempt_count;
  status = status;
  retry_delay_seconds = none;
}

abbrev pub retried : ℕ → ℕ → EventStatus → ℕ → DeliveryResult
retried id attempt_count status delay = record {
  disposition = retry;
  event_id = id;
  attempt_count = attempt_count;
  status = status;
  retry_delay_seconds = some delay;
}

-- `min(2 ** min(attempt_count - 1, 62), 60)`.
unfoldable pub backoff : ℕ → ℕ
backoff attempt_count = min (2 ^ min (attempt_count - 1) 62) 60

-- A quarter, in units of 2 ** -53: the floats from 0.5 to 2 are multiples of this unit.
abbrev pub quarter : ℕ
quarter = 2251799813685248

abbrev pub is_odd : ℕ → Bool
is_odd n = n % 2 == 1

-- `round`, to the nearest integer and in the middle to the even one.
unfoldable pub round : ℕ → ℕ
round units =
    let whole = units / (4 * quarter) in
    let part = units % (4 * quarter) in
    if ltb part (2 * quarter)
    then whole
    else if ltb (2 * quarter) part
    then whole + 1
    else if is_odd whole
    then whole + 1
    else whole

-- The product is exact; that of two floats may differ from it in the last place.
unfoldable pub retry_delay_seconds : (ℕ → ℕ → ℕ) → ℕ → Option ℕ
unfolding backoff round
retry_delay_seconds uniform attempt_count =
    if ltb attempt_count 1
    then none
    else let jittered = backoff attempt_count * uniform (3 * quarter) (5 * quarter) in
      some (max 1 (min (round jittered) 60))

module _ {W : Type 0} (store : EventStore W) where
  unfoldable pub current_of : ℕ → Option EventRecord → Exec (Service W) DeliveryResult
  current_of id none = raise event_not_found
  current_of id (some current) =
      if is_terminal current.status
      then pure (acked id current.attempt_count current.status)
      else pure (retried id current.attempt_count current.status 1)

  -- `_current_result`.
  unfoldable pub current_result : ℕ → Exec (Service W) DeliveryResult
  unfolding current_of on_store
  current_result id = do current ← on_store (store.get_status id); current_of id current

  -- A transition that did not happen: another claimant owns the delivery.
  unfoldable pub stale : ℕ → EventRecord → Exec (Service W) DeliveryResult
  unfolding emit current_result
  stale id r = do emit "delivery_stale" id r.attempt_count "ownership_lost"; current_result id

  unfoldable pub after_delivered : ℕ → EventRecord → Bool → Exec (Service W) DeliveryResult
  unfolding emit stale
  after_delivered id r false = stale id r
  after_delivered id r true = do
    emit "delivered" id r.attempt_count "none"
    pure (acked id r.attempt_count EventStatus.delivered)

  unfoldable pub after_dead_letter :
      ℕ → EventRecord → DeliveryErrorClass → Bool → Exec (Service W) DeliveryResult
  unfolding emit stale reason_value
  after_dead_letter id r reason false = stale id r
  after_dead_letter id r reason true = do
    emit "dead_letter" id r.attempt_count (reason_value reason)
    pure (acked id r.attempt_count EventStatus.dead_letter)

  unfoldable pub schedule :
      ℕ → EventRecord → DeliveryErrorClass → Option ℕ → Exec (Service W) DeliveryResult
  unfolding emit reason_value
  schedule id r reason none = raise value_error
  schedule id r reason (some delay) = do
    emit "retry_scheduled" id r.attempt_count (reason_value reason)
    pure (retried id r.attempt_count EventStatus.retry_scheduled delay)

  unfoldable pub after_retry :
      ℕ → EventRecord → DeliveryErrorClass → Bool → Exec (Service W) DeliveryResult
  unfolding stale schedule retry_delay_seconds
  after_retry id r reason false s = stale id r s
  after_retry id r reason true s =
      schedule id r reason (retry_delay_seconds (s.outside.uniform s.deliveries) r.attempt_count) s

  -- The call of the sink, and the class of the failure that it raises.
  unfoldable pub deliver : EventRecord → Exec (Service W) (Option DeliveryErrorClass)
  deliver r s = (
    ok (s.outside.deliver s.deliveries),
    record s { deliveries = suc s.deliveries; delivered = s.delivered ++ r ∷ [] },
  )

  unfoldable pub after_sink :
      ℕ → ℕ → EventRecord → ℕ → Option DeliveryErrorClass → Exec (Service W) DeliveryResult
  unfolding after_delivered after_dead_letter after_retry is_retryable on_store
  after_sink maximum id r token none = do
    transitioned ← on_store (store.mark_delivered id token)
    after_delivered id r transitioned
  after_sink maximum id r token (some reason) =
      if not (is_retryable reason) || leb maximum r.attempt_count
      then (do
        transitioned ← on_store (store.mark_dead_letter id reason token)
        after_dead_letter id r reason transitioned)
      else (do
        transitioned ← on_store (store.mark_retry id reason token)
        after_retry id r reason transitioned)

  unfoldable pub run_attempt :
      ℕ → ℕ → Option EventRecord → Option ℕ → Exec (Service W) DeliveryResult
  unfolding emit deliver after_sink
  run_attempt maximum id (some r) (some token) = do
    emit "delivering" id r.attempt_count "none"
    failure ← deliver r
    after_sink maximum id r token failure
  run_attempt maximum id _ _ = raise persistence_unavailable

  unfoldable pub begin :
      ℕ → ℕ → DeliveryStart → DeliveryStartDisposition → Exec (Service W) DeliveryResult
  unfolding emit run_attempt
  begin maximum id start DeliveryStartDisposition.terminal = do
    emit "terminal_duplicate" id start.attempt_count "terminal_state"
    pure (acked id start.attempt_count start.status)
  begin maximum id start DeliveryStartDisposition.busy = do
    emit "delivery_deferred" id start.attempt_count "active_attempt"
    pure (retried id start.attempt_count start.status 1)
  begin maximum id start DeliveryStartDisposition.started =
      run_attempt maximum id start.event_record start.delivery_token

  -- `process`.
  unfoldable pub process : ℕ → ℕ → Exec (Service W) DeliveryResult
  unfolding on_store begin
  process maximum id = do
    start ← on_store (store.mark_delivery_started id maximum)
    begin maximum id start start.disposition
