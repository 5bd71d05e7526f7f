-- ===== src/Cloudflare/Services/Consumer.antt =====
-- `Default.queue` and `Default.scheduled` of cloudflare/src/worker.py, over any `EventStore`.
pub mod Acks
use hooklane.Prelude.{ℕ, Option, none, some, List, [], ◌∷◌}
use hooklane.Prelude.Outcome.{Outcome, ok, err}
use hooklane.Cloudflare.Core.{Error, persistence_unavailable, event_not_found, value_error}
use hooklane.Cloudflare.Exec.{Exec, pure, raise, attempt, ◌>>=◌}
use hooklane.Cloudflare.Services.Setting.{EventStore, Service}
use hooklane.Cloudflare.Services.Acceptance.{repair}
use hooklane.Cloudflare.Services.Delivery.{DeliveryDisposition, DeliveryResult, process}

-- What the consumer calls on a message: `ack()`, `retry()` or `retry({"delaySeconds": …})`.
pub data Reply : Type 0 where
  acknowledge : Reply
  retry_later : Option ℕ → Reply

abbrev pub reply_of : DeliveryDisposition → Option ℕ → Reply
reply_of DeliveryDisposition.ack delay = acknowledge
reply_of DeliveryDisposition.retry delay = retry_later delay

module _ {W : Type 0} (store : EventStore W) where
  -- The exceptions that the loop does not catch end it.
  unfoldable pub decide : Outcome Error DeliveryResult → Exec (Service W) Reply
  decide (ok result) = pure (reply_of result.disposition result.retry_delay_seconds)
  decide (err persistence_unavailable) = pure (retry_later none)
  decide (err event_not_found) = pure (retry_later none)
  decide (err e) = raise e

  -- One round; `none` is a body without an event id.
  unfoldable pub handle : ℕ → Option ℕ → Exec (Service W) Reply
  unfolding decide
  handle maximum none = raise value_error
  handle maximum (some id) = do result ← attempt (process store maximum id); decide result

  -- The replies that were given, also where an exception ends the loop, and how it ended.
  unfoldable pub queue :
      ℕ → List (Option ℕ) → Service W → List Reply × (Outcome Error (Unit {0}) × Service W)
  unfolding handle
  queue maximum [] s = ([], (ok tt, s))
  queue maximum (message ∷ messages) s =
      let (handled, s') = handle maximum message s in
      let rest = queue maximum messages s' in
      elim handled [ ok reply ↦ (reply ∷ rest.0, rest.1) | err e ↦ ([], (err e, s')) ]

  unfoldable pub scheduled : ℕ → Exec (Service W) (ℕ × ℕ)
  scheduled token = repair store 100 token
