-- ===== src/Hooklane/Redis/Scripts/Enqueue.antt =====
-- `_ENQUEUE_SCRIPT` and `_IDEMPOTENT_ENQUEUE_SCRIPT` of src/hooklane/queue/events.py.
use hooklane.Prelude.{ℕ, not, Option, some, List, [], ◌∷◌, same, if◌then◌else◌}
use hooklane.Cloudflare.Contract.{EventStatus}
use hooklane.Hooklane.Redis.Values.{pos, StreamId, Value, Field, Key, value_eq}
use hooklane.Hooklane.Redis.Script.{
  type_of, hget, hset, xadd, Script, done, fail, redis_call, ◌>>=◌, ◌>>◌,
}
use hooklane.Hooklane.Redis.Lua.{is_none_or_stream, is_none_or_hash, is_none_kind, is_hash}

-- The message of an event, and its first status.
abbrev pub message_fields : Value → Value → Value → Value → List (Field × Value)
message_fields event_id event_type payload accepted_at_ms =
    (Field.event_id, event_id)
    ∷ (Field.event_type, event_type)
    ∷ (Field.payload, payload)
    ∷ (Field.accepted_at_ms, accepted_at_ms)
    ∷ []

abbrev pub status_fields : Value → StreamId → List (Field × Value)
status_fields event_id stream_id =
    (Field.event_id, event_id)
    ∷ (Field.status, Value.word EventStatus.queued)
    ∷ (Field.attempt_count, Value.int (pos 0))
    ∷ (Field.stream_id, Value.id stream_id)
    ∷ []

abbrev pub record_fields : Value → Value → List (Field × Value)
record_fields event_id fingerprint =
    (Field.event_id, event_id) ∷ (Field.fingerprint, fingerprint) ∷ []

-- The writes for a new event.
unfoldable pub add : Value → Value → Value → Value → Script StreamId
add event_id event_type payload accepted_at_ms = do
  stream_id ←
      redis_call (xadd Key.stream_key (message_fields event_id event_type payload accepted_at_ms))
  redis_call (hset (Key.status_key event_id) (status_fields event_id stream_id))
  done stream_id

unfoldable pub enqueue : Value → Value → Value → Value → Script StreamId
unfolding add
enqueue event_id event_type payload accepted_at_ms = do
  stream_type ← redis_call (type_of Key.stream_key)
  status_type ← redis_call (type_of (Key.status_key event_id))
  if not (is_none_or_stream stream_type)
      then fail "ERR event stream has incompatible type"
      else if not (is_none_kind status_type)
      then fail "ERR event status already exists"
      else add event_id event_type payload accepted_at_ms

pub data Decision : Type 0 where
  created reused conflict : Decision

-- What an idempotency record of the type `hash` decides.
unfoldable pub decide : Value → Option Value → Option Value → Script (Decision × Value)
decide fingerprint (some stored) (some event_id) =
    if same stored fingerprint
    then done (Decision.reused, event_id)
    else done (Decision.conflict, event_id)
decide fingerprint _ _ = fail "ERR idempotency record is incomplete"

unfoldable pub decide_recorded : List ℕ → Value → Script (Decision × Value)
unfolding decide
decide_recorded digest fingerprint = do
  existing_fingerprint ← redis_call (hget (Key.idempotency_key digest) Field.fingerprint)
  existing_event_id ← redis_call (hget (Key.idempotency_key digest) Field.event_id)
  decide fingerprint existing_fingerprint existing_event_id

unfoldable pub create : List ℕ → Value → Value → Value → Value → Value → Script (Decision × Value)
create digest event_id event_type payload fingerprint accepted_at_ms = do
  stream_id ←
      redis_call (xadd Key.stream_key (message_fields event_id event_type payload accepted_at_ms))
  redis_call (hset (Key.status_key event_id) (status_fields event_id stream_id))
  redis_call (hset (Key.idempotency_key digest) (record_fields event_id fingerprint))
  done (Decision.created, event_id)

unfoldable pub enqueue_idempotent :
    List ℕ → Value → Value → Value → Value → Value → Script (Decision × Value)
unfolding decide_recorded create
enqueue_idempotent digest event_id event_type payload fingerprint accepted_at_ms = do
  stream_type ← redis_call (type_of Key.stream_key)
  status_type ← redis_call (type_of (Key.status_key event_id))
  idempotency_type ← redis_call (type_of (Key.idempotency_key digest))
  if not (is_none_or_stream stream_type)
      then fail "ERR event stream has incompatible type"
      else if not (is_none_or_hash idempotency_type)
      then fail "ERR idempotency record has incompatible type"
      else if is_hash idempotency_type
      then decide_recorded digest fingerprint
      else if not (is_none_kind status_type)
      then fail "ERR event status already exists"
      else create digest event_id event_type payload fingerprint accepted_at_ms
