-- ===== src/Hooklane/Redis/Scripts/Retry.antt =====
-- `_SCHEDULE_RETRY_SCRIPT` and `_RELEASE_DUE_RETRY_SCRIPT` of src/hooklane/queue/events.py.
use hooklane.Prelude.{
  ℕ, String, Bool, true, false, not, ◌&&◌, Option, none, some, List, [], ◌∷◌, ◌==◌, if◌then◌else◌,
}
use hooklane.Cloudflare.Contract.{EventStatus}
use hooklane.Hooklane.Redis.Values.{StreamId, QuarantineReason, Value, Field, Key}
use hooklane.Hooklane.Redis.Script.{
  Message, type_of, hget, hset, hdel, xadd, xack, xpending, xrange, zadd, zrem, zrangebyscore,
  Script, done, fail, redis_call, ◌>>=◌, ◌>>◌,
}
use hooklane.Hooklane.Redis.Lua.{
  is_none_or_zset, is_none_kind, is_hash, is_stream, is_value, is_uuid, is_attempted, is_stream_id,
  field_value,
}

abbrev pub retry_fields : Value → List (Field × Value)
retry_fields error_class =
    (Field.status, Value.word EventStatus.retry_scheduled)
    ∷ (Field.last_error_class, error_class)
    ∷ []

unfoldable pub schedule_retry : Value → Value → Value → ℕ → Value → Script ℕ
schedule_retry event stream_id error_class due_at_ms member = do
  status_type ← redis_call (type_of (Key.status_key event))
  retry_type ← redis_call (type_of Key.retry_schedule_key)
  if not (is_hash status_type)
      then fail "ERR event status has incompatible type"
      else if not (is_none_or_zset retry_type)
      then fail "ERR retry schedule has incompatible type"
      else do
        current ← redis_call (hget (Key.status_key event) Field.stream_id)
        if not (is_value current stream_id)
            then fail "ERR event status does not match stream message"
            else do
              redis_call (hset (Key.status_key event) (retry_fields error_class))
              redis_call (zadd Key.retry_schedule_key due_at_ms member)
              done 1

abbrev pub violation_fields : List (Field × Value)
violation_fields =
    (Field.status, Value.word EventStatus.dead_letter)
    ∷ (Field.last_error_class, Value.reason QuarantineReason.invariant_violation)
    ∷ []

module _ (tonumber : List ℕ → Bool) (event : Value) where
  -- `safe_status` of `remove_invalid_record`, for a status of the type `hash`.
  unfoldable pub safe_status : Script Bool
  safe_status = do
    event_id ← redis_call (hget (Key.status_key event) Field.event_id)
    if not (is_value event_id event) then done false else do
      attempt_count ← redis_call (hget (Key.status_key event) Field.attempt_count)
      stream_id ← redis_call (hget (Key.status_key event) Field.stream_id)
      status ← redis_call (hget (Key.status_key event) Field.status)
      done (
          is_value status (Value.word EventStatus.retry_scheduled)
          && is_attempted tonumber attempt_count
          && is_stream_id stream_id)

  unfoldable pub safe_status_of : Bool → Script Bool
  unfolding safe_status
  safe_status_of true = safe_status
  safe_status_of false = done false

  unfoldable pub mark_invalid : Bool → Script (Unit {0})
  mark_invalid true = redis_call (hset (Key.status_key event) violation_fields)
  mark_invalid false = done tt

  unfoldable pub remove_invalid_record : Script ℕ
  unfolding safe_status_of mark_invalid
  remove_invalid_record = do
    status_type ← redis_call (type_of (Key.status_key event))
    safe ← safe_status_of (is_hash status_type && is_uuid event)
    mark_invalid safe
    redis_call (zrem Key.retry_schedule_key event)
    done 2

  module _ (group_name : String) where
    -- The message is added again under a new id, and the old one is acknowledged.
    unfoldable pub requeue : Value → List (Field × Value) → Script ℕ
    requeue stream_id fields = do
      new_stream_id ← redis_call (xadd Key.stream_key fields)
      acknowledged ← redis_call (xack Key.stream_key group_name stream_id)
      if not (acknowledged == 1)
          then fail "ERR scheduled stream message was not acknowledged"
          else do
            redis_call (
                hset (Key.status_key event) (
                  (Field.status, Value.word EventStatus.queued)
                  ∷ (Field.stream_id, Value.id new_stream_id)
                  ∷ []))
            redis_call (hdel (Key.status_key event) Field.last_error_class)
            redis_call (zrem Key.retry_schedule_key event)
            done 1

    -- From `if #pending ~= 1 or #message ~= 1`.
    unfoldable pub release_message : Value → List StreamId → List Message → Script ℕ
    unfolding requeue remove_invalid_record
    release_message stream_id (i ∷ []) ((found, fields) ∷ []) =
        if not (is_value (field_value Field.event_id fields) event)
        then remove_invalid_record
        else requeue stream_id fields
    release_message stream_id _ _ = remove_invalid_record

    -- From `local stream_id`.
    unfoldable pub release_scheduled : Option Value → Script ℕ
    unfolding release_message remove_invalid_record
    release_scheduled none = remove_invalid_record
    release_scheduled (some stream_id) =
        if not (is_stream_id (some stream_id)) then remove_invalid_record else do
          pending ← redis_call (xpending Key.stream_key group_name stream_id)
          message ← redis_call (xrange Key.stream_key stream_id)
          release_message stream_id pending message

    -- From `local status_key`.
    unfoldable pub release_event : Script ℕ
    unfolding release_scheduled remove_invalid_record
    release_event = do
      status_type ← redis_call (type_of (Key.status_key event))
      if not (is_hash status_type && is_uuid event) then remove_invalid_record else do
        event_id ← redis_call (hget (Key.status_key event) Field.event_id)
        if not (is_value event_id event) then remove_invalid_record else do
          status ← redis_call (hget (Key.status_key event) Field.status)
          if not (is_value status (Value.word EventStatus.retry_scheduled))
              then remove_invalid_record
              else do
                stream_id ← redis_call (hget (Key.status_key event) Field.stream_id)
                release_scheduled stream_id

-- The due event, of a `zrangebyscore` with a limit of 1.
unfoldable pub release_first : (List ℕ → Bool) → String → List Value → Script ℕ
unfolding release_event
release_first tonumber group_name [] = done 0
release_first tonumber group_name (event ∷ events) = release_event tonumber event group_name

unfoldable pub release_due_retry : (List ℕ → Bool) → String → ℕ → Script ℕ
unfolding release_first
release_due_retry tonumber group_name now_ms = do
  stream_type ← redis_call (type_of Key.stream_key)
  retry_type ← redis_call (type_of Key.retry_schedule_key)
  if not (is_stream stream_type)
      then fail "ERR event stream has incompatible type"
      else if is_none_kind retry_type
      then done 0
      else if not (is_none_or_zset retry_type)
      then fail "ERR retry schedule has incompatible type"
      else do
        events ← redis_call (zrangebyscore Key.retry_schedule_key now_ms)
        release_first tonumber group_name events
