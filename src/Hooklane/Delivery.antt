-- ===== src/Hooklane/Delivery.antt =====
-- The delivery policies: src/hooklane/delivery/retry.py, dead_letter.py and sink.py. Delays are in
-- whole milliseconds.
pub mod Agreement
use hooklane.Prelude.{
  ℕ, ◌-◌, ◌*◌, ◌^◌, min, Bool, true, false, not, ◌&&◌, ◌||◌, Option, none, some, ltb, leb, ◌==◌,
  if◌then◌else◌,
}
use hooklane.Prelude.Outcome.{Outcome, ok, err}

pub data DeliveryErrorClass : Type 0 where
  timeout connection http_1xx http_3xx http_429 http_5xx http_4xx : DeliveryErrorClass

-- The exceptions of the runtime; `other` is any that it does not name.
pub data Failure : Type 0 where
  event_store_unavailable idempotency_conflict value_error runtime_error other : Failure
  delivery_failed : DeliveryErrorClass → Failure

-- How the POST of `httpx` ends.
pub data Posted : Type 0 where
  response : ℕ → Posted
  timed_out connect_error request_error other_error : Posted

-- The status checks at the end of `MockSinkClient.deliver`.
unfoldable pub check_status : ℕ → Option DeliveryErrorClass
check_status status_code =
    if leb 200 status_code && ltb status_code 300
    then none
    else if leb 100 status_code && ltb status_code 200
    then some DeliveryErrorClass.http_1xx
    else if leb 300 status_code && ltb status_code 400
    then some DeliveryErrorClass.http_3xx
    else if status_code == 429
    then some DeliveryErrorClass.http_429
    else if leb 500 status_code
    then some DeliveryErrorClass.http_5xx
    else if leb 400 status_code
    then some DeliveryErrorClass.http_4xx
    else none

abbrev pub raise_if : Option DeliveryErrorClass → Outcome Failure (Unit {0})
raise_if none = ok tt
raise_if (some reason) = err (Failure.delivery_failed reason)

-- `MockSinkClient.deliver`.
unfoldable pub deliver : Posted → Outcome Failure (Unit {0})
unfolding check_status
deliver (Posted.response status_code) = raise_if (check_status status_code)
deliver Posted.timed_out = err (Failure.delivery_failed DeliveryErrorClass.timeout)
deliver Posted.connect_error = err (Failure.delivery_failed DeliveryErrorClass.connection)
deliver Posted.request_error = err (Failure.delivery_failed DeliveryErrorClass.connection)
deliver Posted.other_error = err Failure.other

pub record RetryPolicy : Type 0 where
  pub base_delay_ms : ℕ
  pub maximum_delay_ms : ℕ
  pub jitter_percent : ℕ

-- `RetryPolicy.__post_init__`; `none` is a `ValueError`.
unfoldable pub retry_policy : ℕ → ℕ → ℕ → Option RetryPolicy
retry_policy base maximum jitter =
    if leb base 0
    then none
    else if ltb maximum base
    then none
    else if not (leb jitter 100)
    then none
    else some (record { base_delay_ms = base; maximum_delay_ms = maximum; jitter_percent = jitter })

unfoldable pub is_retryable : DeliveryErrorClass → Bool
is_retryable DeliveryErrorClass.timeout = true
is_retryable DeliveryErrorClass.connection = true
is_retryable DeliveryErrorClass.http_429 = true
is_retryable DeliveryErrorClass.http_5xx = true
is_retryable _ = false

-- `jittered` is the multiplication by `random_source.uniform(1 - jitter_ratio, 1 + jitter_ratio)`.
unfoldable pub delay : RetryPolicy → (ℕ → ℕ) → ℕ → Outcome Failure ℕ
delay policy jittered attempt_count =
    if ltb attempt_count 1
    then err Failure.value_error
    else ok (
        min
          (jittered
            (min (policy.base_delay_ms * 2 ^ min (attempt_count - 1) 62) policy.maximum_delay_ms))
          policy.maximum_delay_ms)

-- `DeadLetterPolicy.__post_init__`.
unfoldable pub dead_letter_policy : ℕ → Option ℕ
dead_letter_policy maximum_attempts = if ltb maximum_attempts 1 then none else some maximum_attempts

unfoldable pub should_dead_letter : ℕ → DeliveryErrorClass → ℕ → Outcome Failure Bool
unfolding is_retryable
should_dead_letter maximum_attempts reason attempt_count =
    if ltb attempt_count 1
    then err Failure.value_error
    else ok (not (is_retryable reason) || leb maximum_attempts attempt_count)
