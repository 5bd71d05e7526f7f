-- ===== src/Hooklane/Worker.antt =====
-- `EventWorker` of src/hooklane/worker/service.py, over any `WorkerQueue`.
pub mod Rounds
pub mod Results
pub mod Transitions
use hooklane.Prelude.{
  ℕ, suc, ◌+◌, String, Bool, true, false, Option, none, some, List, [], ◌∷◌, ◌++◌, if◌then◌else◌,
}
use hooklane.Prelude.Outcome.{Outcome, ok, err}
use hooklane.Cloudflare.Contract.{EventRequest}
use hooklane.Run.{Run, pure, raise, attempt, ◌>>=◌, ◌>>◌}
use hooklane.Hooklane.Redis.Values.{ℤ, StreamId}
use hooklane.Hooklane.Delivery.{
  DeliveryErrorClass, Failure, event_store_unavailable, delivery_failed, RetryPolicy, is_retryable,
  delay, should_dead_letter,
}

pub record QueuedEvent : Type 0 where
  pub stream_id : StreamId
  pub event_id : ℕ
  pub event : EventRequest
  pub accepted_at_ms : ℤ

pub data WorkerResult : Type 0 where
  no_message delivered failed_pending retry_scheduled dead_lettered : WorkerResult

-- The `WorkerQueue` protocol, over the state `Q` of a queue; a queue that is no
-- `QueueMetricsRefresher` has no `refresh_queue_metrics`.
pub record WorkerQueue (Q : Type 0) : Type 0 where
  pub ensure_consumer_group : String → Run Failure Q (Unit {0})
  pub read_next : String → String → Run Failure Q (Option QueuedEvent)
  pub claim_stale_pending : String → String → ℕ → Run Failure Q (Option QueuedEvent)
  pub release_due_retry : String → ℕ → Run Failure Q Bool
  pub mark_delivery_started : QueuedEvent → Run Failure Q ℕ
  pub mark_delivered : QueuedEvent → String → Run Failure Q (Unit {0})
  pub schedule_retry : QueuedEvent → ℕ → DeliveryErrorClass → Run Failure Q (Unit {0})
  pub move_to_dead_letter : QueuedEvent → String → DeliveryErrorClass → Run Failure Q (Unit {0})
  pub refresh_queue_metrics : Option (String → Run Failure Q Bool)

-- The fields of an `EventWorker` that stay as they are; `dead_letter_policy` is its maximum.
pub record Settings : Type 0 where
  pub group_name : String
  pub consumer_name : String
  pub retry_policy : Option RetryPolicy
  pub dead_letter_policy : Option ℕ
  pub pending_idle_ms : ℕ

-- What is observed of a delivery: its reason is a class, or a word of the worker's.
pub data Reason : Type 0 where
  uncoded redis_error internal_error : Reason
  failure_class : DeliveryErrorClass → Reason

pub data Observed : Type 0 where
  delivery_started delivery_completed delivery_failed_event retry_scheduled_event : Observed
  dead_lettered_event : Observed

pub record Observation : Type 0 where
  pub observed : Observed
  pub event_id : ℕ
  pub attempt : ℕ
  pub reason : Reason

-- What the worker does not control: the clock at each of its readings, how each call of the sink
-- ends, and the multiplication by a random number for the delay after each call.
pub record Outside : Type 0 where
  pub clock_ms : ℕ → ℕ
  pub deliver : ℕ → Outcome Failure (Unit {0})
  pub jittered : ℕ → ℕ → ℕ

pub record Worker (Q : Type 0) : Type 0 where
  pub queue : Q
  pub outside : Outside
  pub readings : ℕ
  pub deliveries : ℕ
  pub observations : List Observation

module _ {Q : Type 0} where
  unfoldable pub on_queue : {A : Type 0} → Run Failure Q A → Run Failure (Worker Q) A
  on_queue m w = let (r, q) = m w.queue in (r, record w { queue = q })

  -- `int(self._clock() * 1000)`.
  unfoldable pub clock : Run Failure (Worker Q) ℕ
  clock w = (ok (w.outside.clock_ms w.readings), record w { readings = suc w.readings })

  unfoldable pub observe : Observed → QueuedEvent → ℕ → Reason → Run Failure (Worker Q) (Unit {0})
  observe observed e n reason w = (
    ok tt,
    record w {
      observations =
          w.observations
          ++ record { observed = observed; event_id = e.event_id; attempt = n; reason = reason }
            ∷ [];
    },
  )

  -- The call of the sink; its exceptions are a value for the handlers.
  unfoldable pub deliver : Run Failure (Worker Q) (Outcome Failure (Unit {0}))
  deliver w = (ok (w.outside.deliver w.deliveries), record w { deliveries = suc w.deliveries })

  -- `except EventStoreUnavailable`: the failure is observed and raised again.
  unfoldable pub transitioned :
      QueuedEvent → ℕ → Outcome Failure (Unit {0}) → Run Failure (Worker Q) (Unit {0})
  unfolding observe
  transitioned e n (ok done) = pure tt
  transitioned e n (err event_store_unavailable) = do
    observe delivery_failed_event e n redis_error
    raise Failure.event_store_unavailable
  transitioned e n (err failure) = raise failure

module _ {Q : Type 0} (queue : WorkerQueue Q) (settings : Settings) where
  -- `_refresh_queue_metrics`, and the result of the round after it.
  unfoldable pub refresh : Option (String → Run Failure Q Bool) → Run Failure (Worker Q) (Unit {0})
  unfolding on_queue
  refresh none = pure tt
  refresh (some refresh_queue_metrics) = do
    refreshed ← on_queue (refresh_queue_metrics settings.group_name)
    pure tt

  unfoldable pub finish :
      Observed → QueuedEvent → ℕ → Reason → WorkerResult → Run Failure (Worker Q) WorkerResult
  unfolding observe refresh
  finish observed e n reason result = do
    observe observed e n reason
    refresh queue.refresh_queue_metrics
    pure result

  unfoldable pub dead_letter :
      QueuedEvent → ℕ → DeliveryErrorClass → Run Failure (Worker Q) WorkerResult
  unfolding on_queue transitioned finish
  dead_letter e n reason = do
    moved ← attempt (on_queue (queue.move_to_dead_letter e settings.group_name reason))
    transitioned e n moved
    finish dead_lettered_event e n (failure_class reason) dead_lettered

  -- `delay_seconds` may raise, and the retry is due that much after the clock.
  unfoldable pub retry_after :
      QueuedEvent → ℕ → DeliveryErrorClass → Outcome Failure ℕ → Run Failure (Worker Q) WorkerResult
  unfolding on_queue clock transitioned finish
  retry_after e n reason (err failure) = raise failure
  retry_after e n reason (ok delay_ms) = do
    now ← clock
    scheduled ← attempt (on_queue (queue.schedule_retry e (now + delay_ms) reason))
    transitioned e n scheduled
    finish retry_scheduled_event e n (failure_class reason) retry_scheduled

  unfoldable pub leave_pending :
      QueuedEvent → ℕ → DeliveryErrorClass → Run Failure (Worker Q) WorkerResult
  unfolding finish
  leave_pending e n reason = finish delivery_failed_event e n (failure_class reason) failed_pending

  -- The second `if` of the handler.
  unfoldable pub retry_or_leave :
      Option RetryPolicy
      → QueuedEvent
      → ℕ
      → DeliveryErrorClass
      → Run Failure (Worker Q) WorkerResult
  unfolding retry_after leave_pending delay is_retryable
  retry_or_leave none e n reason w = leave_pending e n reason w
  retry_or_leave (some policy) e n reason w =
      if is_retryable reason
      then retry_after e n reason (delay policy (w.outside.jittered w.deliveries) n) w
      else leave_pending e n reason w

  -- The first one, on what `should_dead_letter` answers.
  unfoldable pub dead_letter_or :
      Outcome Failure Bool
      → QueuedEvent
      → ℕ
      → DeliveryErrorClass
      → Run Failure (Worker Q) WorkerResult
  unfolding dead_letter retry_or_leave
  dead_letter_or (err failure) e n reason = raise failure
  dead_letter_or (ok true) e n reason = dead_letter e n reason
  dead_letter_or (ok false) e n reason = retry_or_leave settings.retry_policy e n reason

  unfoldable pub handle_failure :
      Option ℕ → QueuedEvent → ℕ → DeliveryErrorClass → Run Failure (Worker Q) WorkerResult
  unfolding dead_letter_or should_dead_letter
  handle_failure none e n reason = dead_letter_or (ok false) e n reason
  handle_failure (some maximum) e n reason =
      dead_letter_or (should_dead_letter maximum reason n) e n reason

  unfoldable pub complete : QueuedEvent → ℕ → Run Failure (Worker Q) WorkerResult
  unfolding on_queue transitioned finish
  complete e n = do
    marked ← attempt (on_queue (queue.mark_delivered e settings.group_name))
    transitioned e n marked
    finish delivery_completed e n uncoded delivered

  unfoldable pub after_sink :
      QueuedEvent → ℕ → Outcome Failure (Unit {0}) → Run Failure (Worker Q) WorkerResult
  unfolding complete handle_failure observe
  after_sink e n (ok done) = complete e n
  after_sink e n (err (delivery_failed reason)) =
      handle_failure settings.dead_letter_policy e n reason
  after_sink e n (err failure) = do observe delivery_failed_event e n internal_error; raise failure

  unfoldable pub process : Option QueuedEvent → Run Failure (Worker Q) WorkerResult
  unfolding refresh on_queue observe deliver after_sink
  process none = do refresh queue.refresh_queue_metrics; pure no_message
  process (some e) = do
    n ← on_queue (queue.mark_delivery_started e)
    observe delivery_started e n uncoded
    outcome ← deliver
    after_sink e n outcome

  unfoldable pub next : Option QueuedEvent → Run Failure (Worker Q) (Option QueuedEvent)
  unfolding on_queue
  next none = on_queue (queue.read_next settings.group_name settings.consumer_name)
  next (some e) = pure (some e)

  -- `run_once`.
  unfoldable pub run_once : Run Failure (Worker Q) WorkerResult
  unfolding on_queue clock next process
  run_once = do
    on_queue (queue.ensure_consumer_group settings.group_name)
    now ← clock
    released ← on_queue (queue.release_due_retry settings.group_name now)
    stale ← on_queue (
        queue.claim_stale_pending settings.group_name settings.consumer_name
          settings.pending_idle_ms)
    e ← next stale
    process e
