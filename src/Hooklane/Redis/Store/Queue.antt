-- ===== src/Hooklane/Redis/Store/Queue.antt =====
-- The methods of `RedisEventStore` (src/hooklane/queue/events.py) that the worker calls.
use hooklane.Prelude.{
  ℕ, String, ◌==◌, Bool, false, Option, none, some, List, [], ◌∷◌, if◌then◌else◌,
}
use hooklane.Prelude.Outcome.{Outcome, ok, err}
use hooklane.Run.{Run, pure, raise, ◌>>=◌, ◌>>◌}
use hooklane.Hooklane.Delivery.{DeliveryErrorClass, Failure, value_error}
use hooklane.Hooklane.Redis.Values.{ℤ, pos, negsuc, StreamId, QuarantineReason, Value, Key}
use hooklane.Hooklane.Redis.Script.{
  RedisError, busy_group, Message, xrange, xreadgroup, xgroup_create, Redis, eval,
}
use hooklane.Hooklane.Redis.Scripts.Delivery
use hooklane.Hooklane.Redis.Scripts.Retry
use hooklane.Hooklane.Redis.Scripts.Recovery
use hooklane.Hooklane.Redis.Scripts.Recovery.{Disposition}
use hooklane.Hooklane.Redis.Client.{
  Libraries, queued_event, Operation, Note, Client, sent, note, unavailable, guarded,
}
use hooklane.Hooklane.Worker.{QueuedEvent, WorkerQueue}

module _ {R : Type 0} (libraries : Libraries) (redis : Redis R) where
  unfoldable pub group_ready : Outcome RedisError (Unit {0}) → Run Failure (Client R) (Unit {0})
  unfolding unavailable
  group_ready (ok done) = pure tt
  group_ready (err busy_group) = pure tt
  group_ready (err e) = unavailable Operation.ensure_consumer_group none

  unfoldable pub ensure_consumer_group : String → Run Failure (Client R) (Unit {0})
  unfolding sent group_ready
  ensure_consumer_group group_name = do
    outcome ← sent (redis.exec (xgroup_create Key.stream_key group_name))
    group_ready outcome

  unfoldable pub quarantine_malformed_message :
      Value → String → QuarantineReason → Run Failure (Client R) (Unit {0})
  unfolding guarded note eval Recovery.quarantine_message
  quarantine_malformed_message stream_id group_name reason_code = do
    quarantine_id ←
        guarded Operation.quarantine_message none
          (eval redis (Recovery.quarantine_message stream_id group_name reason_code))
    note (Note.queue_quarantine reason_code)

  -- A message that is read as an event, or is put into quarantine.
  unfoldable pub event_or_quarantine :
      String → StreamId → Option QueuedEvent → Run Failure (Client R) (Option QueuedEvent)
  unfolding quarantine_malformed_message
  event_or_quarantine group_name stream_id (some event) = pure (some event)
  event_or_quarantine group_name stream_id none = do
    quarantine_malformed_message (Value.id stream_id) group_name QuarantineReason.invalid_message
    pure none

  unfoldable pub read_message :
      String → Option Message → Run Failure (Client R) (Option QueuedEvent)
  unfolding event_or_quarantine
  read_message group_name none = pure none
  read_message group_name (some message) =
      event_or_quarantine group_name message.0 (queued_event libraries message)

  unfoldable pub read_next : String → String → Run Failure (Client R) (Option QueuedEvent)
  unfolding guarded read_message
  read_next group_name consumer_name = do
    records ←
        guarded Operation.read_next none
          (redis.exec (xreadgroup Key.stream_key group_name consumer_name))
    read_message group_name records

  unfoldable pub claimed_message :
      String → Disposition → List Message → Run Failure (Client R) (Option QueuedEvent)
  unfolding event_or_quarantine quarantine_malformed_message unavailable
  claimed_message group_name Disposition.delivery (message ∷ []) =
      event_or_quarantine group_name message.0 (queued_event libraries message)
  claimed_message group_name disposition (message ∷ []) = do
    quarantine_malformed_message (Value.id (message.0)) group_name
        QuarantineReason.invariant_violation
    pure none
  claimed_message group_name disposition messages = unavailable Operation.claim_pending none

  unfoldable pub read_claimed :
      String → Option (StreamId × Disposition) → Run Failure (Client R) (Option QueuedEvent)
  unfolding guarded claimed_message
  read_claimed group_name none = pure none
  read_claimed group_name (some (stream_id, disposition)) = do
    messages ←
        guarded Operation.claim_pending none
          (redis.exec (xrange Key.stream_key (Value.id stream_id)))
    claimed_message group_name disposition messages

  unfoldable pub claim_stale_pending :
      String → String → ℤ → Run Failure (Client R) (Option QueuedEvent)
  unfolding guarded read_claimed eval Recovery.claim_stale_pending
  claim_stale_pending group_name consumer_name (negsuc n) = raise value_error
  claim_stale_pending group_name consumer_name (pos min_idle_ms) = do
    claim_result ←
        guarded Operation.claim_pending none
          (eval redis (Recovery.claim_stale_pending group_name consumer_name min_idle_ms))
    read_claimed group_name claim_result

  unfoldable pub mark_delivery_started : QueuedEvent → Run Failure (Client R) ℤ
  unfolding guarded eval Delivery.start_delivery
  mark_delivery_started e =
      guarded Operation.mark_delivery_started (some e.event_id)
        (eval redis (Delivery.start_delivery (Value.uuid e.event_id) (Value.id e.stream_id)))

  unfoldable pub mark_delivered : QueuedEvent → String → Run Failure (Client R) (Unit {0})
  unfolding guarded eval Delivery.complete_delivery
  mark_delivered e group_name = do
    acknowledged ← guarded Operation.mark_delivered (some e.event_id) (
        eval redis
          (Delivery.complete_delivery (Value.uuid e.event_id) (Value.id e.stream_id) group_name))
    pure tt

  unfoldable pub schedule_retry :
      QueuedEvent → ℕ → DeliveryErrorClass → Run Failure (Client R) (Unit {0})
  unfolding guarded eval Retry.schedule_retry
  schedule_retry e due_at_ms error_class = do
    scheduled ← guarded Operation.schedule_retry (some e.event_id) (
        eval redis (
          Retry.schedule_retry (Value.uuid e.event_id) (Value.id e.stream_id)
            (Value.class error_class) due_at_ms (Value.uuid e.event_id)))
    pure tt

  unfoldable pub released_one : ℕ → Run Failure (Client R) Bool
  unfolding note
  released_one released =
      if released == 2
      then (do note (Note.queue_quarantine QuarantineReason.invariant_violation); pure false)
      else pure (released == 1)

  unfoldable pub release_due_retry : String → ℕ → Run Failure (Client R) Bool
  unfolding guarded eval released_one Retry.release_due_retry
  release_due_retry group_name now_ms = do
    released ←
        guarded Operation.release_retry none
          (eval redis (Retry.release_due_retry (libraries.tonumber_at_least_one) group_name now_ms))
    released_one released

  unfoldable pub move_to_dead_letter :
      QueuedEvent → String → DeliveryErrorClass → Run Failure (Client R) (Unit {0})
  unfolding guarded eval Delivery.move_to_dead_letter
  move_to_dead_letter e group_name error_class = do
    moved ← guarded Operation.dead_letter (some e.event_id) (
        eval redis (
          Delivery.move_to_dead_letter (Value.uuid e.event_id) (Value.id e.stream_id) group_name
            (Value.class error_class) (libraries.tonumber_at_least_one)))
    pure tt

  -- The attempt that the worker counts; its policies take every number below 1 the same way.
  abbrev attempt_number : ℤ → ℕ
  attempt_number (pos n) = n
  attempt_number (negsuc n) = 0

  -- The store as the queue of a worker. `refresh_queue_metrics` is a parameter: any calls of the server,
  -- with any effect, after a transition.
  unfoldable pub redis_queue : (String → Run Failure (Client R) Bool) → WorkerQueue (Client R)
  unfolding ensure_consumer_group read_next claim_stale_pending release_due_retry
      mark_delivery_started mark_delivered schedule_retry move_to_dead_letter
  redis_queue refresh_queue_metrics = record {
    ensure_consumer_group = ensure_consumer_group;
    read_next = read_next;
    claim_stale_pending = λ group consumer idle. claim_stale_pending group consumer (pos idle);
    release_due_retry = release_due_retry;
    mark_delivery_started = λ e. mark_delivery_started e >>= λ n. pure (attempt_number n);
    mark_delivered = mark_delivered;
    schedule_retry = schedule_retry;
    move_to_dead_letter = move_to_dead_letter;
    refresh_queue_metrics = some refresh_queue_metrics;
  }
