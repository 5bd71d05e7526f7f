-- ===== src/Hooklane/Redis/Calls/Schedule.antt =====
-- What `_SCHEDULE_RETRY_SCRIPT` of src/hooklane/queue/events.py does.
use hooklane.Prelude.{ℕ, not, ◌≡◌, refl, some, List, [], ◌∷◌, same_refl, arith, false}
use hooklane.Prelude.Outcome.{Outcome, ok, err}
use hooklane.Hooklane.Redis.Values.{Key, key_eq, Value, Field, StreamId}
use hooklane.Hooklane.Redis.Script.{RedisError, zadd}
use hooklane.Hooklane.Redis.Lua.{is_none_or_zset, is_hash}
use hooklane.Hooklane.Redis.Scripts.Retry.{retry_fields, schedule_retry}
use hooklane.Hooklane.Redis.Db.{
  Bytes, Stored, absent, hash, stream, zset, other_value, kind_of, lookup, set_fields, drop_member,
}
use hooklane.Hooklane.Redis.Db.Commands.{Db, apply}
use hooklane.Hooklane.Redis.Db.Logic.{
  Ends, Ends-done, Ends-fail, Ends-if, Ends-ok, Ends-read, Ends-type, hget_value,
}

abbrev pub with_member : Value → ℕ → Stored → Stored
with_member v score (zset members) = zset ((v, score) ∷ drop_member v members)
with_member v score s = zset ((v, score) ∷ [])

-- How the scheduling of a retry can end, with the server before and after it.
pub data Scheduled (event : Value) (i : StreamId) (error_class : Value) (due_at_ms : ℕ) (db : Db)
    : Outcome RedisError ℕ → Db → Type 0 where
  was_scheduled :
      (fields : List (Field × Value)) {db' : Db}
      → db.stored (Key.status_key event) ≡ hash fields
      → lookup Field.stream_id fields ≡ some (Value.id i)
      → db'.stored (Key.status_key event) ≡ hash (set_fields (retry_fields error_class) fields)
      → db'.stored Key.retry_schedule_key
        ≡ with_member event due_at_ms (db.stored Key.retry_schedule_key)
      → Scheduled event i error_class due_at_ms db (ok 1) db'
  was_refused : (e : RedisError) → Scheduled event i error_class due_at_ms db (err e) db

zadd_member :
    (bytes : Bytes) (now : ℕ) (s : Stored) (v : Value) (score : ℕ)
    → not (is_none_or_zset (kind_of s)) ≡ false
    → apply bytes now (zadd Key.retry_schedule_key score v) s ≡ (ok tt, with_member v score s)
unfolding apply
zadd_member bytes now absent v score h = refl
zadd_member bytes now (zset members) v score h = refl
zadd_member bytes now (hash fields) v score h = absurd (ground arith)
zadd_member bytes now (stream t) v score h = absurd (ground arith)
zadd_member bytes now other_value v score h = absurd (ground arith)

-- The scheduling of a retry: it asks only that the status names the message, and then sets the status,
-- its error class and the due time of the event. A refusal changes nothing.
pub schedule_retry-Ends :
    (bytes : Bytes) (event : Value) (i : StreamId) (error_class : Value) (due_at_ms : ℕ) (db : Db)
    → Ends bytes
        (Scheduled event i error_class due_at_ms db)
        (schedule_retry event (Value.id i) error_class due_at_ms event)
        db
unfolding schedule_retry apply key_eq
schedule_retry-Ends bytes event i error_class due_at_ms db = Ends-type (
    Ends-type (
      Ends-if (not (is_hash (kind_of (db.stored (Key.status_key event)))))
        (λ a. Ends-fail (was_refused _))
        λ status_hash.
          Ends-if _ (λ a. Ends-fail (was_refused _))
            λ schedule.
              Ends-read tt
                (λ current h.
                  Ends-if _ (λ a. Ends-fail (was_refused _))
                    λ a.
                      let (fields, s, l) =
                        hget_value bytes db.now_ms (Key.status_key event) Field.stream_id _
                          (Value.id i) current h a in
                      Ends-ok {s = hash (set_fields (retry_fields error_class) fields)} (rw s refl)
                        (Ends-ok
                          (zadd_member bytes db.now_ms (db.stored Key.retry_schedule_key) event
                            due_at_ms schedule)
                          (Ends-done (
                            was_scheduled fields s l (rw (same_refl (Key.status_key event)) refl)
                              refl))))
                (λ e h. was_refused e)))
