-- ===== src/Hooklane/Redis/Store.antt =====
-- `RedisEventStore` of src/hooklane/queue/events.py: what its methods make of the replies.
pub mod Queue
pub mod Accepted
pub mod Failures
pub mod Facts
pub mod Rounds
use hooklane.Prelude.{
  ℕ, String, ◌==◌, Bool, true, false, ◌||◌, Option, none, some, List, [], ◌∷◌, if◌then◌else◌,
}
use hooklane.Prelude.Outcome.{Outcome, ok, err}
use hooklane.Cloudflare.Contract.{EventStatus, EventRequest, JsonValue, Fields}
use hooklane.Run.{Run, pure, raise, ◌>>=◌, ◌>>◌}
use hooklane.Hooklane.Delivery.{
  DeliveryErrorClass, Failure, event_store_unavailable, idempotency_conflict, value_error,
}
use hooklane.Hooklane.Redis.Values.{ℤ, pos, negsuc, StreamId, QuarantineReason, Value, Field, Key}
use hooklane.Hooklane.Redis.Script.{
  RedisError, busy_group, Message, Command, Reply, hgetall, xrange, xreadgroup, xgroup_create,
  Redis, Script, eval,
}
use hooklane.Hooklane.Redis.Lua.{field_value}
use hooklane.Hooklane.Redis.Scripts.Enqueue.{Decision}
use hooklane.Hooklane.Redis.Scripts.Enqueue
use hooklane.Hooklane.Redis.Scripts.Delivery
use hooklane.Hooklane.Redis.Scripts.Retry
use hooklane.Hooklane.Redis.Scripts.Recovery
use hooklane.Hooklane.Redis.Scripts.Recovery.{Disposition}
use hooklane.Hooklane.Redis.Client.{
  Libraries, ◌then_read◌, uuid_of, int_of, status_of, queued_event, Operation, Note, Network,
  Client, sent, time_ms, note, unavailable, or_unavailable, guarded,
}
use hooklane.Hooklane.Worker.{QueuedEvent, WorkerQueue}

pub record EventStatusRecord : Type 0 where
  pub event_id : ℕ
  pub status : EventStatus
  pub attempt_count : ℤ

module _ (libraries : Libraries) where
  -- `_request_fingerprint`, with the object of `model_dump`.
  unfoldable pub request_fingerprint : EventRequest → Value
  request_fingerprint event = Value.plain (
      libraries.sha256_hexdigest (
        libraries.dumps (
          Fields.field event_type_name (JsonValue.text event.event_type)
            (Fields.field payload_name (JsonValue.object event.payload) Fields.end))))
    where
      event_type_name : List ℕ
      event_type_name = 0x65 ∷ 0x76 ∷ 0x65 ∷ 0x6e ∷ 0x74 ∷ 0x5f ∷ 0x74 ∷ 0x79 ∷ 0x70 ∷ 0x65 ∷ []

      payload_name : List ℕ
      payload_name = 0x70 ∷ 0x61 ∷ 0x79 ∷ 0x6c ∷ 0x6f ∷ 0x61 ∷ 0x64 ∷ []

  -- The checks of `get_status` on its count: not negative, and the record of this event.
  unfoldable pub checked_record : ℕ → ℕ → EventStatus → ℤ → Option EventStatusRecord
  checked_record event_id stored status (pos n) =
      if stored == event_id
      then some (record { event_id = stored; status = status; attempt_count = pos n })
      else none
  checked_record event_id stored status (negsuc n) = none

  -- The dict of a status hash; `none` is an exception, or a record that is refused.
  unfoldable pub status_record : ℕ → List (Field × Value) → Option EventStatusRecord
  unfolding checked_record
  status_record event_id fields = field_value Field.event_id fields then_read λ stored_event_id.
      uuid_of libraries stored_event_id then_read λ stored.
      field_value Field.status fields then_read λ stored_status.
      status_of stored_status then_read λ status.
      field_value Field.attempt_count fields then_read λ stored_count.
      int_of libraries stored_count then_read λ count. checked_record event_id stored status count

module _ {R : Type 0} (libraries : Libraries) (redis : Redis R) where
  unfoldable pub enqueue : ℕ → EventRequest → Run Failure (Client R) (Unit {0})
  unfolding time_ms guarded eval Enqueue.enqueue
  enqueue event_id event = do
    now ← time_ms
    stream_id ← guarded Operation.enqueue (some event_id) (
        eval redis (
          Enqueue.enqueue (Value.uuid event_id) (Value.plain event.event_type)
            (Value.plain (libraries.dumps event.payload)) (Value.int (pos now))))
    pure tt

  -- What the decision and the id of a reply make of it.
  unfoldable pub decided_id : ℕ → Decision × Value → Run Failure (Client R) ℕ
  unfolding unavailable
  decided_id event_id (Decision.conflict, stored) = raise idempotency_conflict
  decided_id event_id (decision, stored) = elim (uuid_of libraries stored) [
    | none ↦ unavailable Operation.enqueue_idempotent (some event_id)
    | some id ↦ pure id
  ]

  unfoldable pub enqueue_idempotent : ℕ → EventRequest → List ℕ → Run Failure (Client R) ℕ
  unfolding time_ms guarded eval decided_id request_fingerprint Enqueue.enqueue_idempotent
  enqueue_idempotent event_id event idempotency_key = do
    now ← time_ms
    result ← guarded Operation.enqueue_idempotent (some event_id) (
        eval redis (
          Enqueue.enqueue_idempotent (libraries.sha256_hexdigest idempotency_key)
            (Value.uuid event_id) (Value.plain event.event_type)
            (Value.plain (libraries.dumps event.payload)) (request_fingerprint libraries event)
            (Value.int (pos now))))
    decided_id event_id result

  unfoldable pub validated :
      ℕ → Option EventStatusRecord → Run Failure (Client R) (Option EventStatusRecord)
  unfolding unavailable
  validated event_id none = unavailable Operation.get_status (some event_id)
  validated event_id (some found) = pure (some found)

  unfoldable pub found_status :
      ℕ → List (Field × Value) → Run Failure (Client R) (Option EventStatusRecord)
  unfolding validated status_record
  found_status event_id [] = pure none
  found_status event_id (entry ∷ fields) =
      validated event_id (status_record libraries event_id (entry ∷ fields))

  unfoldable pub get_status : ℕ → Run Failure (Client R) (Option EventStatusRecord)
  unfolding guarded found_status
  get_status event_id = do
    raw_record ←
        guarded Operation.get_status (some event_id)
          (redis.exec (hgetall (Key.status_key (Value.uuid event_id))))
    found_status event_id raw_record
