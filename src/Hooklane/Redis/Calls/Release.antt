-- ===== src/Hooklane/Redis/Calls/Release.antt =====
-- What `_RELEASE_DUE_RETRY_SCRIPT` of src/hooklane/queue/events.py does.
use hooklane.Prelude.{ℕ, String, ◌≡◌, not, ◌&&◌, Bool, true, false, some, List, [], ◌∷◌}
use hooklane.Prelude.Outcome.{Outcome, ok, err}
use hooklane.Cloudflare.Contract.{EventStatus}
use hooklane.Hooklane.Redis.Values.{Key, value_eq, Value, Field, StreamId}
use hooklane.Hooklane.Redis.Script.{RedisError, xpending, xrange, Message, Redis}
use hooklane.Hooklane.Redis.Lua.{
  is_value, is_none_or_zset, is_hash, is_uuid, is_stream_id, field_value,
}
use hooklane.Hooklane.Redis.Db.{
  Bytes, hash, kind_of, lookup, set_fields, drop_field, hash_or_absent, append, drop_pending,
  with_group, entries_at,
}
use hooklane.Hooklane.Redis.Db.Commands.{Db, read_id, apply}
use hooklane.Hooklane.Redis.Calls.Due.{is_due}
use hooklane.Hooklane.Redis.Calls.DeadLetter.{without}
use hooklane.Hooklane.Redis.Calls.StillPending.{IsPending}

abbrev requeued_fields : StreamId → List (Field × Value)
requeued_fields i =
    (Field.status, Value.word EventStatus.queued) ∷ (Field.stream_id, Value.id i) ∷ []

-- What `XPENDING` and `XRANGE` answer fits the event: one pending message, of the event.
abbrev pub fits : Value → List StreamId → List Message → Bool
fits event (p ∷ []) ((found, message) ∷ []) = is_value (field_value Field.event_id message) event
fits event pending messages = false

-- Why the record of an event does not fit.
pub data Unfit (bytes : Bytes) (group_name : String) (event : Value) (db : Db) : Type 0 where
  no_status :
      is_hash (kind_of (db.stored (Key.status_key event))) && is_uuid event ≡ false
      → Unfit bytes group_name event db
  other_event :
      (fields : List (Field × Value))
      → db.stored (Key.status_key event) ≡ hash fields
      → is_value (lookup Field.event_id fields) event ≡ false
      → Unfit bytes group_name event db
  not_waiting :
      (fields : List (Field × Value))
      → db.stored (Key.status_key event) ≡ hash fields
      → is_value (lookup Field.status fields) (Value.word EventStatus.retry_scheduled) ≡ false
      → Unfit bytes group_name event db
  no_stream_id :
      (fields : List (Field × Value))
      → db.stored (Key.status_key event) ≡ hash fields
      → is_stream_id (lookup Field.stream_id fields) ≡ false
      → Unfit bytes group_name event db
  not_held :
      (fields : List (Field × Value)) (v : Value) (pending : List StreamId)
      (messages : List Message)
      → db.stored (Key.status_key event) ≡ hash fields
      → lookup Field.stream_id fields ≡ some v
      → (apply bytes db.now_ms (xpending Key.stream_key group_name v) (db.stored Key.stream_key)).0
        ≡ ok pending
      → (apply bytes db.now_ms (xrange Key.stream_key v) (db.stored Key.stream_key)).0 ≡ ok messages
      → fits event pending messages ≡ false
      → Unfit bytes group_name event db

-- How a release can end, with the server before and after it. The record of an event that is removed,
-- and what an error leaves, are not described.
pub data Released (bytes : Bytes) (group_name : String) (now_ms : ℕ) (db : Db)
    : Outcome RedisError ℕ → Db → Type 0 where
  was_idle : Released bytes group_name now_ms db (ok 0) db
  was_removed :
      (event : Value) {db' : Db}
      → is_due now_ms event (db.stored Key.retry_schedule_key) ≡ true
      → Unfit bytes group_name event db
      → db'.stored Key.stream_key ≡ db.stored Key.stream_key
      → db'.stored Key.retry_schedule_key ≡ without event (db.stored Key.retry_schedule_key)
      → Released bytes group_name now_ms db (ok 2) db'
  was_released :
      (event v : Value) (i found : StreamId) (fields message : List (Field × Value))
      (m : IsPending i group_name (db.stored Key.stream_key)) {db' : Db}
      → is_due now_ms event (db.stored Key.retry_schedule_key) ≡ true
      → db.stored (Key.status_key event) ≡ hash fields
      → lookup Field.status fields ≡ some (Value.word EventStatus.retry_scheduled)
      → lookup Field.stream_id fields ≡ some v
      → read_id bytes v ≡ some i
      → entries_at i m.entries_of.entries ≡ (found, message) ∷ []
      → field_value Field.event_id message ≡ some event
      → db'.stored Key.stream_key
        ≡ with_group
            (append db.now_ms message m.entries_of)
            m.group
            (drop_pending i m.group.pending)
      → db'.stored (Key.status_key event)
        ≡ hash_or_absent (
            drop_field Field.last_error_class
              (set_fields (requeued_fields (append db.now_ms message m.entries_of).last_id) fields))
      → db'.stored Key.retry_schedule_key ≡ without event (db.stored Key.retry_schedule_key)
      → Released bytes group_name now_ms db (ok 1) db'
  was_refused : (e : RedisError) → Released bytes group_name now_ms db (err e) db

module _ (bytes : Bytes) (tonumber : List ℕ → Bool) (g : String) (now_ms : ℕ) (db : Db)
    (schedule : not (is_none_or_zset (kind_of (db.stored Key.retry_schedule_key))) ≡ false)
    (event : Value)
    (is_event_due : is_due now_ms event (db.stored Key.retry_schedule_key) ≡ true) where
  abbrev Post : Outcome RedisError ℕ → Db → Type 0
  Post = Released bytes g now_ms db
