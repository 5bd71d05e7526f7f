-- ===== src/Hooklane/Redis/Scripts/Recovery.antt =====
-- `_CLAIM_STALE_PENDING_SCRIPT` and `_QUARANTINE_MESSAGE_SCRIPT` of src/hooklane/queue/events.py.
use hooklane.Prelude.{
  ℕ, String, Bool, false, not, ◌||◌, Option, none, some, List, [], ◌∷◌, ◌==◌, if◌then◌else◌,
}
use hooklane.Cloudflare.Contract.{EventStatus}
use hooklane.Hooklane.Redis.Values.{StreamId, QuarantineReason, Value, Field, Key}
use hooklane.Hooklane.Redis.Script.{
  Message, type_of, hget, hset, xadd, xack, xpending, xpending_idle, xrange, xclaim, Script, done,
  fail, redis_call, ◌>>=◌, ◌>>◌,
}
use hooklane.Hooklane.Redis.Lua.{
  is_none_or_stream, is_hash, is_stream, is_value, is_uuid, field_value,
}

pub data Disposition : Type 0 where
  delivery retry_scheduled invariant_violation : Disposition

abbrev pub status_disposition : Option Value → Disposition
status_disposition status =
    if is_value status (Value.word EventStatus.retry_scheduled)
    then Disposition.retry_scheduled
    else if is_value status (Value.word EventStatus.queued)
        || is_value status (Value.word EventStatus.delivering)
    then Disposition.delivery
    else Disposition.invariant_violation

-- `pending_disposition`, with its first check in the last clause.
unfoldable pub disposition_of : Value → Value → Script Disposition
disposition_of event stream_id = do
  status_type ← redis_call (type_of (Key.status_key event))
  if not (is_hash status_type) then done Disposition.invariant_violation else do
    event_id ← redis_call (hget (Key.status_key event) Field.event_id)
    if not (is_value event_id event) then done Disposition.invariant_violation else do
      current ← redis_call (hget (Key.status_key event) Field.stream_id)
      if not (is_value current stream_id) then done Disposition.invariant_violation else do
        status ← redis_call (hget (Key.status_key event) Field.status)
        done (status_disposition status)

unfoldable pub pending_disposition : Option Value → Value → Script Disposition
unfolding disposition_of
pending_disposition none stream_id = done Disposition.invariant_violation
pending_disposition (some event) stream_id =
    if not (is_uuid event)
    then done Disposition.invariant_violation
    else disposition_of event stream_id

module _ (group_name consumer_name : String) (min_idle_ms : ℕ) where
  -- A reply of `xclaim`; the loop goes on where nothing was claimed.
  unfoldable pub claimed_or :
      StreamId
      → Disposition
      → List StreamId
      → Script (Option (StreamId × Disposition))
      → Script (Option (StreamId × Disposition))
  claimed_or stream_id disposition (i ∷ []) next = done (some (stream_id, disposition))
  claimed_or stream_id disposition _ next = next

  unfoldable pub claim_unless_scheduled :
      StreamId
      → Disposition
      → Script (Option (StreamId × Disposition))
      → Script (Option (StreamId × Disposition))
  unfolding claimed_or
  claim_unless_scheduled stream_id Disposition.retry_scheduled next = next
  claim_unless_scheduled stream_id disposition next = do
    claimed ←
        redis_call (xclaim Key.stream_key group_name consumer_name min_idle_ms (Value.id stream_id))
    claimed_or stream_id disposition claimed next

  unfoldable pub claim_message :
      StreamId
      → List Message
      → Script (Option (StreamId × Disposition))
      → Script (Option (StreamId × Disposition))
  unfolding claim_unless_scheduled pending_disposition
  claim_message stream_id ((found, fields) ∷ []) next = do
    disposition ← pending_disposition (field_value Field.event_id fields) (Value.id stream_id)
    claim_unless_scheduled stream_id disposition next
  claim_message stream_id _ next = next

  -- The loop over what is pending.
  unfoldable pub claim_first : List StreamId → Script (Option (StreamId × Disposition))
  unfolding claim_message
  claim_first [] = done none
  claim_first (stream_id ∷ pending) = do
    message ← redis_call (xrange Key.stream_key (Value.id stream_id))
    claim_message stream_id message (claim_first pending)

  unfoldable pub claim_stale_pending : Script (Option (StreamId × Disposition))
  unfolding claim_first
  claim_stale_pending = do
    stream_type ← redis_call (type_of Key.stream_key)
    if not (is_stream stream_type) then fail "ERR event stream has incompatible type" else do
      pending ← redis_call (xpending_idle Key.stream_key group_name min_idle_ms 100)
      claim_first pending

-- `quarantine_fields`.
abbrev pub quarantine_fields : Value → QuarantineReason → Option Value → List (Field × Value)
quarantine_fields stream_id reason_code none =
    (Field.source_stream_id, stream_id) ∷ (Field.reason_code, Value.reason reason_code) ∷ []
quarantine_fields stream_id reason_code (some event) =
    (Field.source_stream_id, stream_id)
    ∷ (Field.reason_code, Value.reason reason_code)
    ∷ (if is_uuid event then (Field.event_id, event) ∷ [] else [])

module _ (stream_id : Value) (group_name : String) (reason_code : QuarantineReason) where
  unfoldable pub safe_event : Value → Script Bool
  safe_event event = do
    status_type ← redis_call (type_of (Key.status_key event))
    if not (is_hash status_type) then done false else do
      event_id ← redis_call (hget (Key.status_key event) Field.event_id)
      if not (is_value event_id event) then done false else do
        current ← redis_call (hget (Key.status_key event) Field.stream_id)
        if not (is_value current stream_id) then done false else do
          status ← redis_call (hget (Key.status_key event) Field.status)
          done (
              is_value status (Value.word EventStatus.queued)
              || is_value status (Value.word EventStatus.delivering))

  -- `safe_status`, of the event whose status may be changed: `none` for no such event.
  unfoldable pub safe_status : Option Value → Script (Option Value)
  unfolding safe_event
  safe_status none = done none
  safe_status (some event) =
      if not (is_uuid event)
      then done none
      else do safe ← safe_event event; done (if safe then some event else none)

  unfoldable pub mark_quarantined : Option Value → Script (Unit {0})
  mark_quarantined none = done tt
  mark_quarantined (some event) = redis_call (
      hset (Key.status_key event) (
        (Field.status, Value.word EventStatus.dead_letter)
        ∷ (Field.last_error_class, Value.reason reason_code)
        ∷ []))

  -- From `if #pending ~= 1 or #message ~= 1`.
  unfoldable pub isolate : List StreamId → List Message → Script StreamId
  unfolding safe_status mark_quarantined
  isolate (i ∷ []) ((found, fields) ∷ []) = do
    safe ← safe_status (field_value Field.event_id fields)
    quarantine_id ← redis_call (
        xadd Key.quarantine_key
          (quarantine_fields stream_id reason_code (field_value Field.event_id fields)))
    acknowledged ← redis_call (xack Key.stream_key group_name stream_id)
    if not (acknowledged == 1)
        then fail "ERR malformed stream message was not acknowledged"
        else do mark_quarantined safe; done quarantine_id
  isolate _ _ = fail "ERR malformed stream message is not pending"

  unfoldable pub quarantine_message : Script StreamId
  unfolding isolate
  quarantine_message = do
    stream_type ← redis_call (type_of Key.stream_key)
    quarantine_type ← redis_call (type_of Key.quarantine_key)
    if not (is_stream stream_type)
        then fail "ERR event stream has incompatible type"
        else if not (is_none_or_stream quarantine_type)
        then fail "ERR quarantine stream has incompatible type"
        else do
          pending ← redis_call (xpending Key.stream_key group_name stream_id)
          message ← redis_call (xrange Key.stream_key stream_id)
          isolate pending message
