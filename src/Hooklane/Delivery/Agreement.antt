-- ===== src/Hooklane/Delivery/Agreement.antt =====
-- The two runtimes, side by side: src/hooklane/delivery and cloudflare/src/hooklane_cf/core.py.
use hooklane.Prelude.{
  ℕ, Bool, ◌≤◌, ◌-◌, if◌then◌else◌, ◌*◌, ◌^◌, min, not, ◌||◌, false, Option, none, some, ◌≡◌, refl,
  leb, ltb, arith,
}
use hooklane.Cloudflare.Core.{classify_http_status}
use hooklane.Cloudflare.Core
use hooklane.Hooklane.Delivery.{
  DeliveryErrorClass, check_status, is_retryable, should_dead_letter, delay, RetryPolicy,
}
use hooklane.Cloudflare.Core.{EventRecord}
use hooklane.Cloudflare.Exec.{Exec, ◌>>=◌}
use hooklane.Cloudflare.Services.Setting.{EventStore, Service, on_store}
use hooklane.Cloudflare.Services.Delivery.{
  DeliveryResult, backoff, after_sink, after_dead_letter, after_retry,
}
use hooklane.Prelude.Outcome.{ok}

abbrev pub same_class : DeliveryErrorClass → Core.DeliveryErrorClass
same_class DeliveryErrorClass.timeout = Core.DeliveryErrorClass.timeout
same_class DeliveryErrorClass.connection = Core.DeliveryErrorClass.connection
same_class DeliveryErrorClass.http_1xx = Core.DeliveryErrorClass.http_1xx
same_class DeliveryErrorClass.http_3xx = Core.DeliveryErrorClass.http_3xx
same_class DeliveryErrorClass.http_429 = Core.DeliveryErrorClass.http_429
same_class DeliveryErrorClass.http_5xx = Core.DeliveryErrorClass.http_5xx
same_class DeliveryErrorClass.http_4xx = Core.DeliveryErrorClass.http_4xx

-- `RetryPolicy()`.
abbrev pub default_policy : RetryPolicy
default_policy = record { base_delay_ms = 1000; maximum_delay_ms = 60000; jitter_percent = 25 }

abbrev pub same_failure : Option DeliveryErrorClass → Option Core.DeliveryErrorClass
same_failure none = none
same_failure (some reason) = some (same_class reason)

-- The two runtimes classify every status from 100 on alike.
pub classify_agrees :
    (status_code : ℕ)
    → 100 ≤ status_code
    → classify_http_status status_code ≡ same_failure (check_status status_code)
unfolding classify_http_status check_status
classify_agrees n ge = ground arith

is_retryable_agrees :
    (reason : DeliveryErrorClass) → Core.is_retryable (same_class reason) ≡ is_retryable reason
unfolding Core.is_retryable is_retryable
is_retryable_agrees DeliveryErrorClass.timeout = refl
is_retryable_agrees DeliveryErrorClass.connection = refl
is_retryable_agrees DeliveryErrorClass.http_1xx = refl
is_retryable_agrees DeliveryErrorClass.http_3xx = refl
is_retryable_agrees DeliveryErrorClass.http_429 = refl
is_retryable_agrees DeliveryErrorClass.http_5xx = refl
is_retryable_agrees DeliveryErrorClass.http_4xx = refl

module _ {W : Type 0} (store : EventStore W) (id : ℕ) (r : EventRecord) (token : ℕ)
    (reason : Core.DeliveryErrorClass) where
  -- The Cloudflare delivery puts the event into the dead letters, or schedules a retry.
  abbrev pub dead_lettering : Exec (Service W) DeliveryResult
  dead_lettering =
      on_store (store.mark_dead_letter id reason token) >>= after_dead_letter store id r reason

  abbrev pub retrying : Exec (Service W) DeliveryResult
  retrying = on_store (store.mark_retry id reason token) >>= after_retry store id r reason

-- At a counted attempt, what the dead-letter policy decides for a failure is what the Cloudflare
-- delivery does after the same failure of its sink: the dead letters or a retry.
pub should_dead_letter_agrees :
    {W : Type 0} (store : EventStore W) (maximum_attempts id : ℕ) (r : EventRecord) (token : ℕ)
    (reason : DeliveryErrorClass)
    → 1 ≤ r.attempt_count
    → (dead : Bool) × (should_dead_letter maximum_attempts reason r.attempt_count ≡ ok dead)
      × (after_sink store maximum_attempts id r token (some (same_class reason)) ≡ (
          if dead
          then dead_lettering store id r token (same_class reason)
          else retrying store id r token (same_class reason)))
unfolding should_dead_letter after_sink
should_dead_letter_agrees store m id r token reason ge =
    let counted : ltb r.attempt_count 1 ≡ false = ground arith in
    (
      not (is_retryable reason) || leb m r.attempt_count,
      rw counted refl,
      rw (is_retryable_agrees reason) refl,
    )

-- With the default policy, and before the jitter, the delay of an attempt is the backoff of the
-- Cloudflare delivery, in milliseconds.
pub delay_agrees :
    (attempt_count : ℕ)
    → 1 ≤ attempt_count
    → delay default_policy (λ b. b) attempt_count ≡ ok (1000 * backoff attempt_count)
unfolding delay backoff
delay_agrees n ge =
    let counted : ltb n 1 ≡ false = ground arith in
    let same : min (min (1000 * 2 ^ min (n - 1) 62) 60000) 60000
        ≡ 1000 * min (2 ^ min (n - 1) 62) 60 =
      omega arith in
    rw counted (rw same refl)
