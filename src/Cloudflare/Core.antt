-- ===== src/Cloudflare/Core.antt =====
-- The data of cloudflare/src/hooklane_cf/core.py: exceptions, claims and records, and the
-- classification of a downstream status.
use hooklane.Prelude.{ℕ, Bool, true, false, ◌&&◌, Option, none, some, leb, ltb, ◌==◌, if◌then◌else◌}
use hooklane.Cloudflare.Contract.{EventRequest, EventStatus}

pub data DeliveryErrorClass : Type 0 where
  timeout connection http_1xx http_3xx http_429 http_5xx http_4xx : DeliveryErrorClass

-- The exceptions of the module, and the `ValueError` of its argument checks.
pub data Error : Type 0 where
  persistence_unavailable queue_send_unavailable idempotency_conflict event_not_found : Error
  value_error : Error
  sink_failure : DeliveryErrorClass → Error

pub data DeliveryStartDisposition : Type 0 where
  started busy terminal : DeliveryStartDisposition

pub record EventRecord : Type 0 where
  pub event_id : ℕ
  pub event : EventRequest
  pub status : EventStatus
  pub attempt_count : ℕ

pub record DeliveryStart : Type 0 where
  pub disposition : DeliveryStartDisposition
  pub status : EventStatus
  pub attempt_count : ℕ
  pub event_record : Option EventRecord
  pub delivery_token : Option ℕ

pub record AcceptanceRecord : Type 0 where
  pub event_id : ℕ
  pub created : Bool
  pub status : EventStatus
  pub attempt_count : ℕ

pub record OutboxRecord : Type 0 where
  pub event_id : ℕ
  pub send_attempt_count : ℕ
  pub claim_token : ℕ

abbrev pub outbox_lease_ms : ℕ
outbox_lease_ms = 30000

unfoldable pub is_retryable : DeliveryErrorClass → Bool
is_retryable DeliveryErrorClass.timeout = true
is_retryable DeliveryErrorClass.connection = true
is_retryable DeliveryErrorClass.http_429 = true
is_retryable DeliveryErrorClass.http_5xx = true
is_retryable _ = false

unfoldable pub classify_http_status : ℕ → Option DeliveryErrorClass
classify_http_status status_code =
    if leb 200 status_code && ltb status_code 300
    then none
    else if leb 100 status_code && ltb status_code 200
    then some http_1xx
    else if leb 300 status_code && ltb status_code 400
    then some http_3xx
    else if status_code == 429
    then some http_429
    else if leb 500 status_code
    then some http_5xx
    else some http_4xx
