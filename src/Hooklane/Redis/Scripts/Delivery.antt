-- ===== src/Hooklane/Redis/Scripts/Delivery.antt =====
-- `_START_DELIVERY_SCRIPT`, `_COMPLETE_DELIVERY_SCRIPT` and `_MOVE_TO_DEAD_LETTER_SCRIPT` of
-- src/hooklane/queue/events.py.
use hooklane.Prelude.{
  ℕ, String, Bool, not, Option, none, some, List, [], ◌∷◌, ◌++◌, ◌==◌, if◌then◌else◌,
}
use hooklane.Cloudflare.Contract.{EventStatus}
use hooklane.Hooklane.Redis.Values.{ℤ, StreamId, Value, Field, Key}
use hooklane.Hooklane.Redis.Script.{
  Message, type_of, hget, hset, hincrby, xadd, xack, xpending, xrange, zrem, Script, done, fail,
  redis_call, ◌>>=◌, ◌>>◌,
}
use hooklane.Hooklane.Redis.Lua.{
  is_none_or_stream, is_none_or_zset, is_hash, is_stream, is_value, at_least_one, last_value,
}

unfoldable pub start_delivery : Value → Value → Script ℤ
start_delivery event stream_id = do
  current ← redis_call (hget (Key.status_key event) Field.stream_id)
  if not (is_value current stream_id)
      then fail "ERR event status does not match stream message"
      else do
        redis_call
            (hset (Key.status_key event) ((Field.status, Value.word EventStatus.delivering) ∷ []))
        redis_call (hincrby (Key.status_key event) Field.attempt_count)

-- The acknowledgement of a message that belongs to the event, and the status after it.
unfoldable pub acknowledge_and_mark : Value → Value → String → Script ℕ
acknowledge_and_mark event stream_id group_name = do
  acknowledged ← redis_call (xack Key.stream_key group_name stream_id)
  if not (acknowledged == 1) then fail "ERR stream message was not pending" else do
    redis_call (hset (Key.status_key event) ((Field.status, Value.word EventStatus.delivered) ∷ []))
    done acknowledged

unfoldable pub complete_delivery : Value → Value → String → Script ℕ
unfolding acknowledge_and_mark
complete_delivery event stream_id group_name = do
  current ← redis_call (hget (Key.status_key event) Field.stream_id)
  if not (is_value current stream_id)
      then fail "ERR event status does not match stream message"
      else acknowledge_and_mark event stream_id group_name

-- The fields of a dead letter: those of the message, and three more.
abbrev pub dead_letter_fields : List (Field × Value) → Value → Value → Value → List (Field × Value)
dead_letter_fields fields error_class attempt_count stream_id =
    fields
    ++ (Field.error_class, error_class)
      ∷ (Field.attempt_count, attempt_count)
      ∷ (Field.source_stream_id, stream_id)
      ∷ []

abbrev pub terminal_fields : Value → StreamId → List (Field × Value)
terminal_fields error_class dead_letter_id =
    (Field.status, Value.word EventStatus.dead_letter)
    ∷ (Field.last_error_class, error_class)
    ∷ (Field.dead_letter_stream_id, Value.id dead_letter_id)
    ∷ []

module _ (event : Value) (stream_id : Value) (group_name : String) (error_class : Value) where
  -- The writes, once the event and its message are known to belong together.
  unfoldable pub dead_letter : Value → Value → List (Field × Value) → Script StreamId
  dead_letter event_id attempt_count fields = do
    dead_letter_id ←
        redis_call
          (xadd Key.dead_letter_key (dead_letter_fields fields error_class attempt_count stream_id))
    acknowledged ← redis_call (xack Key.stream_key group_name stream_id)
    if not (acknowledged == 1)
        then fail "ERR dead-lettered stream message was not acknowledged"
        else do
          redis_call (hset (Key.status_key event) (terminal_fields error_class dead_letter_id))
          redis_call (zrem Key.retry_schedule_key event_id)
          done dead_letter_id

  -- From `if #pending ~= 1 or #message ~= 1`.
  unfoldable pub dead_letter_message :
      Value → Value → List StreamId → List Message → Script StreamId
  unfolding dead_letter
  dead_letter_message event_id attempt_count (i ∷ []) ((found, fields) ∷ []) =
      if not (is_value (last_value none Field.event_id fields) event_id)
      then fail "ERR stream message has a different event ID"
      else dead_letter event_id attempt_count fields
  dead_letter_message event_id attempt_count _ _ = fail "ERR stream message is not pending"

  -- From `if not event_id or not attempt_number or attempt_number < 1`.
  unfoldable pub dead_letter_event : (List ℕ → Bool) → Option Value → Option Value → Script StreamId
  unfolding dead_letter_message
  dead_letter_event tonumber (some event_id) (some attempt_count) =
      if not (at_least_one tonumber attempt_count)
      then fail "ERR event status is incomplete"
      else do
        pending ← redis_call (xpending Key.stream_key group_name stream_id)
        message ← redis_call (xrange Key.stream_key stream_id)
        dead_letter_message event_id attempt_count pending message
  dead_letter_event tonumber _ _ = fail "ERR event status is incomplete"

  unfoldable pub move_to_dead_letter : (List ℕ → Bool) → Script StreamId
  unfolding dead_letter_event
  move_to_dead_letter tonumber = do
    status_type ← redis_call (type_of (Key.status_key event))
    stream_type ← redis_call (type_of Key.stream_key)
    dead_letter_type ← redis_call (type_of Key.dead_letter_key)
    retry_type ← redis_call (type_of Key.retry_schedule_key)
    if not (is_hash status_type)
        then fail "ERR event status has incompatible type"
        else if not (is_stream stream_type)
        then fail "ERR event stream has incompatible type"
        else if not (is_none_or_stream dead_letter_type)
        then fail "ERR dead-letter stream has incompatible type"
        else if not (is_none_or_zset retry_type)
        then fail "ERR retry schedule has incompatible type"
        else do
          current ← redis_call (hget (Key.status_key event) Field.stream_id)
          if not (is_value current stream_id)
              then fail "ERR event status does not match stream message"
              else do
                status ← redis_call (hget (Key.status_key event) Field.status)
                if not (is_value status (Value.word EventStatus.delivering))
                    then fail "ERR event is not being delivered"
                    else do
                      event_id ← redis_call (hget (Key.status_key event) Field.event_id)
                      attempt_count ← redis_call (hget (Key.status_key event) Field.attempt_count)
                      dead_letter_event tonumber event_id attempt_count
