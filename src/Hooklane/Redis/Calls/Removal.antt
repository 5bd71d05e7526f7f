-- ===== src/Hooklane/Redis/Calls/Removal.antt =====
-- What `remove_invalid_record` of src/hooklane/queue/events.py does, and stream ids that Redis reads.
use mathlib.Core.Path.{subst}
use hooklane.Prelude.{
  ℕ, String, ◌≡◌, refl, sym, ap, not, ◌&&◌, Bool, true, false, some, List, [], inl, inr,
  Option-cases, arith,
}
use hooklane.Prelude.Outcome.{Outcome, ok, err}
use hooklane.Hooklane.Redis.Values.{Key, key_eq, value_eq, Value, StreamId}
use hooklane.Hooklane.Redis.Script.{
  RedisError, wrong_type, xpending, xrange, xack, zrem, call, done, ◌>>=◌, Script,
}
use hooklane.Hooklane.Redis.Lua.{is_value, is_none_or_zset, is_hash, is_uuid}
use hooklane.Hooklane.Redis.Scripts.Retry.{
  safe_status, safe_status_of, mark_invalid, violation_fields, remove_invalid_record,
}
use hooklane.Hooklane.Redis.Db.{
  Bytes, Stored, absent, hash, stream, zset, other_value, kind_of, set_fields, Stream,
}
use hooklane.Hooklane.Redis.Db.Commands.{Db, read_id, apply}
use hooklane.Hooklane.Redis.Db.Binds.{Ends-bind}
use hooklane.Hooklane.Redis.Db.Logic.{
  Ends, Ends-done, Ends-if, Ends-ok, Ends-same_err, Ends-read, Ends-type,
}
use hooklane.Hooklane.Redis.Calls.DeadLetter.{without, zrem_member}

-- A part that only reads.
abbrev Reads : {A : Type 0} → Db → Outcome RedisError A → Db → Type 0
Reads db o db' = db' ≡ db

-- Only the status of the event may have changed, and not if there was an error.
data Marks (event : Value) (db : Db) : Outcome RedisError (Unit {0}) → Db → Type 0 where
  was_marked :
      {db' : Db}
      → db'.stored Key.stream_key ≡ db.stored Key.stream_key
      → db'.stored Key.retry_schedule_key ≡ db.stored Key.retry_schedule_key
      → db'.now_ms ≡ db.now_ms
      → Marks event db (ok tt) db'
  was_unmarked : (e : RedisError) → Marks event db (err e) db

module _ (bytes : Bytes) (tonumber : List ℕ → Bool) (event : Value) (db : Db) where
  safe_status_of-Ends : (b : Bool) → Ends bytes (Reads db) (safe_status_of tonumber event b) db
  unfolding safe_status_of safe_status
  safe_status_of-Ends false = Ends-done refl
  safe_status_of-Ends true =
      Ends-read tt
        (λ event_id h.
          Ends-if (not (is_value event_id event)) (λ a. Ends-done refl)
            λ a.
              Ends-read tt
                (λ attempts h.
                  Ends-read tt (λ i h. Ends-read tt (λ status h. Ends-done refl) (λ e h. refl))
                    (λ e h. refl))
                (λ e h. refl))
        (λ e h. refl)

  mark-Ends :
      (s : Stored)
      → db.stored (Key.status_key event) ≡ s
      → Ends bytes (Marks event db) (mark_invalid tonumber event true) db
  unfolding mark_invalid apply key_eq
  mark-Ends absent h =
      Ends-ok {s = hash (set_fields violation_fields [])} (rw h refl)
        (Ends-done (was_marked refl refl refl))
  mark-Ends (hash fields) h =
      Ends-ok {s = hash (set_fields violation_fields fields)} (rw h refl)
        (Ends-done (was_marked refl refl refl))
  mark-Ends (stream t) h = Ends-same_err {e = wrong_type} (rw h refl) (was_unmarked wrong_type)
  mark-Ends (zset members) h = Ends-same_err {e = wrong_type} (rw h refl) (was_unmarked wrong_type)
  mark-Ends other_value h = Ends-same_err {e = wrong_type} (rw h refl) (was_unmarked wrong_type)

  mark_invalid-Ends : (b : Bool) → Ends bytes (Marks event db) (mark_invalid tonumber event b) db
  unfolding mark_invalid
  mark_invalid-Ends true = mark-Ends _ refl
  mark_invalid-Ends false = Ends-done (was_marked refl refl refl)

-- How the removal of a record that does not fit ends: the schedule forgets it, and the stream of events
-- is as it was.
unfoldable pub Removed : Value → Db → Outcome RedisError ℕ → Db → Type 0
Removed event db (ok n) db' =
    (n ≡ 2)
    × (db'.stored Key.stream_key ≡ db.stored Key.stream_key)
    × (db'.stored Key.retry_schedule_key ≡ without event (db.stored Key.retry_schedule_key))
Removed event db (err e) db' = db' ≡ db

module _ (bytes : Bytes) (tonumber : List ℕ → Bool) (event : Value) (db : Db) where
  forget-Ends :
      not (is_none_or_zset (kind_of (db.stored Key.retry_schedule_key))) ≡ false
      → (o : Outcome RedisError (Unit {0})) (db' : Db) → Marks event db o db'
      → o ≡ ok tt
      → Ends bytes (Removed event db) (call (zrem Key.retry_schedule_key event) λ r. done 2) db'
  unfolding Removed apply key_eq
  forget-Ends schedule o db' (was_marked same_stream same_retries same_time) h =
      Ends-ok
        (zrem_member bytes db'.now_ms (db'.stored Key.retry_schedule_key) event
          (rw same_retries schedule))
        (Ends-done (refl, same_stream, ap (without event) same_retries))
  forget-Ends schedule o db' (was_unmarked e) h = absurd (cc)

  pub remove_invalid_record-Ends :
      not (is_none_or_zset (kind_of (db.stored Key.retry_schedule_key))) ≡ false
      → Ends bytes (Removed event db) (remove_invalid_record tonumber event) db
  unfolding remove_invalid_record Removed
  remove_invalid_record-Ends schedule = Ends-type (
      Ends-bind bytes (Reads db) (Removed event db) _ marked_and_forgotten db
        (safe_status_of-Ends bytes tonumber event db
          (is_hash (kind_of (db.stored (Key.status_key event))) && is_uuid event))
        (λ safe db₁ same_db.
          subst (λ x. Ends bytes (Removed event db) (marked_and_forgotten safe) x) (sym same_db)
            (Ends-bind bytes (Marks event db) (Removed event db) _ (λ marked. forgotten) db
              (mark_invalid-Ends bytes tonumber event db safe)
              (λ marked db₂ m. forget-Ends schedule _ db₂ m refl) (λ e db₂ m. marks_err e db₂ m)))
        (λ e db₁ same_db. same_db))
    where
      forgotten : Script ℕ
      forgotten = call (zrem Key.retry_schedule_key event) λ r. done 2

      marked_and_forgotten : Bool → Script ℕ
      marked_and_forgotten safe = mark_invalid tonumber event safe >>= λ marked. forgotten

      marks_err : (e : RedisError) (db₂ : Db) → Marks event db (err e) db₂ → db₂ ≡ db
      marks_err e db₂ (was_unmarked why) = refl

-- A stream id as Redis reads it.
module _ (bytes : Bytes) (now : ℕ) (g : String) (v : Value) where
  pub xpending-reads :
      (s : Stored) (pending : List StreamId)
      → (apply bytes now (xpending Key.stream_key g v) s).0 ≡ ok pending
      → (i : StreamId) × (read_id bytes v ≡ some i)
  unfolding apply
  xpending-reads (stream t) pending h = elim (Option-cases (read_id bytes v)) [
    | inl e ↦ absurd (ground arith)
    | inr found ↦ found
  ]
  xpending-reads absent pending h = absurd (cc)
  xpending-reads (hash fields) pending h = absurd (cc)
  xpending-reads (zset members) pending h = absurd (cc)
  xpending-reads other_value pending h = absurd (cc)

  pub xpending-id :
      (i : StreamId)
      → read_id bytes v ≡ some i
      → (s : Stored)
      → apply bytes now (xpending Key.stream_key g v) s
        ≡ apply bytes now (xpending Key.stream_key g (Value.id i)) s
  unfolding apply
  xpending-id i e (stream t) = ground arith
  xpending-id i e absent = refl
  xpending-id i e (hash fields) = refl
  xpending-id i e (zset members) = refl
  xpending-id i e other_value = refl

  pub xack-id :
      (i : StreamId)
      → read_id bytes v ≡ some i
      → (t : Stream)
      → apply bytes now (xack Key.stream_key g v) (stream t)
        ≡ apply bytes now (xack Key.stream_key g (Value.id i)) (stream t)
  unfolding apply
  xack-id i e t = ground arith

  pub xrange-id :
      (i : StreamId)
      → read_id bytes v ≡ some i
      → (s : Stored)
      → apply bytes now (xrange Key.stream_key v) s
        ≡ apply bytes now (xrange Key.stream_key (Value.id i)) s
  unfolding apply
  xrange-id i e (stream t) = ground arith
  xrange-id i e absent = refl
  xrange-id i e (hash fields) = refl
  xrange-id i e (zset members) = refl
  xrange-id i e other_value = refl
