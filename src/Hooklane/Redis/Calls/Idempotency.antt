-- ===== src/Hooklane/Redis/Calls/Idempotency.antt =====
-- The idempotency records of src/hooklane/queue/events.py.
use hooklane.Prelude.{
  ◌≡◌, ◌≢◌, refl, ◌∙◌, ap, not, false, true, Bool, Option, none, some, List, ℕ, same, same_eq,
  same_apart, same_refl, arith,
}
use hooklane.Prelude.Outcome.{Outcome, ok, err}
use hooklane.Hooklane.Redis.Values.{Key, key_eq, field_eq, value_eq, Value, Field}
use hooklane.Hooklane.Redis.Script.{RedisError, Redis, eval}
use hooklane.Hooklane.Redis.Lua.{is_none_or_stream, is_none_or_hash, is_none_kind, is_hash}
use hooklane.Hooklane.Redis.Scripts.Enqueue.{
  Decision, decide, decide_recorded, create, enqueue_idempotent, message_fields, status_fields,
  record_fields,
}
use hooklane.Hooklane.Redis.Db.{
  Bytes, Stored, absent, hash, stream, zset, other_value, kind_of, lookup, Stream, append,
  set_field, set_fields,
}
use hooklane.Hooklane.Redis.Db.Commands.{Db, IsDocumented, apply}
use hooklane.Hooklane.Redis.Db.Simulation.{eval-Agrees}
use hooklane.Hooklane.Redis.Db.Logic.{
  Ends, Ends-done, Ends-fail, Ends-if, Ends-ok, Ends-type, Ends-hget, is_hash-cases, none_of,
  stream_of, add_message,
}

-- The stream of events with one message more.
abbrev pub extended : Db → List (Field × Value) → Stream
extended db fields = append db.now_ms fields (stream_of (db.stored Key.stream_key))

-- Why the script refuses: the stream or the record is of another type, the record misses one of its
-- fields, or there is no record and the proposed event has a status.
pub data Refusal (digest : List ℕ) (event : Value) (db : Db) : Type 0 where
  no_stream :
      is_none_or_stream (kind_of (db.stored Key.stream_key)) ≡ false → Refusal digest event db
  no_record :
      is_none_or_hash (kind_of (db.stored (Key.idempotency_key digest))) ≡ false
      → Refusal digest event db
  no_fingerprint :
      (fields : List (Field × Value))
      → db.stored (Key.idempotency_key digest) ≡ hash fields
      → lookup Field.fingerprint fields ≡ none
      → Refusal digest event db
  no_event_id :
      (fields : List (Field × Value))
      → db.stored (Key.idempotency_key digest) ≡ hash fields
      → lookup Field.event_id fields ≡ none
      → Refusal digest event db
  has_status :
      db.stored (Key.idempotency_key digest) ≡ absent
      → db.stored (Key.status_key event) ≢ absent
      → Refusal digest event db

-- How the script can end, with the server before and after it.
pub data Decided (digest : List ℕ) (event event_type payload fingerprint accepted_at_ms : Value)
    (db : Db) : Outcome RedisError (Decision × Value) → Db → Type 0 where
  -- A new event: its message, its status and the record are there.
  was_created :
      {db' : Db}
      → db.stored (Key.idempotency_key digest) ≡ absent
      → db.stored (Key.status_key event) ≡ absent
      → db'.stored Key.stream_key
        ≡ stream (extended db (message_fields event event_type payload accepted_at_ms))
      → db'.stored (Key.status_key event)
        ≡ hash (
            status_fields event
              (extended db (message_fields event event_type payload accepted_at_ms)).last_id)
      → db'.stored (Key.idempotency_key digest) ≡ hash (record_fields event fingerprint)
      → Decided digest event event_type payload fingerprint accepted_at_ms db
          (ok (Decision.created, event))
          db'
  -- The record is of the same request.
  was_reused :
      (fields : List (Field × Value)) (first : Value)
      → db.stored (Key.idempotency_key digest) ≡ hash fields
      → lookup Field.fingerprint fields ≡ some fingerprint
      → lookup Field.event_id fields ≡ some first
      → Decided digest event event_type payload fingerprint accepted_at_ms db
          (ok (Decision.reused, first))
          db
  -- The record is of another one.
  was_conflict :
      (fields : List (Field × Value)) (other first : Value)
      → db.stored (Key.idempotency_key digest) ≡ hash fields
      → lookup Field.fingerprint fields ≡ some other
      → other ≢ fingerprint
      → lookup Field.event_id fields ≡ some first
      → Decided digest event event_type payload fingerprint accepted_at_ms db
          (ok (Decision.conflict, first))
          db
  was_refused :
      (e : RedisError)
      → Refusal digest event db
      → Decided digest event event_type payload fingerprint accepted_at_ms db (err e) db

module _ (bytes : Bytes) (digest : List ℕ)
    (event event_type payload fingerprint accepted_at_ms : Value) (db : Db) where
  abbrev Post : Outcome RedisError (Decision × Value) → Db → Type 0
  Post = Decided digest event event_type payload fingerprint accepted_at_ms db

  decide-Ends :
      (fields : List (Field × Value))
      → db.stored (Key.idempotency_key digest) ≡ hash fields
      → (stored first : Option Value) → lookup Field.fingerprint fields ≡ stored
      → lookup Field.event_id fields ≡ first
      → Ends bytes Post (decide fingerprint stored first) db
  unfolding decide
  decide-Ends fields h (some u) (some v) hu hv =
      Ends-if (same u fingerprint)
        (λ e. Ends-done (was_reused fields v h (hu ∙ ap some (same_eq e)) hv))
        (λ e. Ends-done (was_conflict fields u v h hu (same_apart e) hv))
  decide-Ends fields h none _ hu hv = Ends-fail (was_refused _ (no_fingerprint fields h hu))
  decide-Ends fields h (some u) none hu hv = Ends-fail (was_refused _ (no_event_id fields h hv))

  decide_recorded-Ends :
      (fields : List (Field × Value))
      → db.stored (Key.idempotency_key digest) ≡ hash fields
      → Ends bytes Post (decide_recorded digest fingerprint) db
  unfolding decide_recorded
  decide_recorded-Ends fields h =
      Ends-hget fields h (Ends-hget fields h (decide-Ends fields h _ _ refl refl))

  create-Ends :
      not (is_none_or_stream (kind_of (db.stored Key.stream_key))) ≡ false
      → db.stored (Key.status_key event) ≡ absent
      → db.stored (Key.idempotency_key digest) ≡ absent
      → Ends bytes Post (create digest event event_type payload fingerprint accepted_at_ms) db
  unfolding create apply key_eq set_fields set_field field_eq
  create-Ends h status_free record_free =
      let fields = message_fields event event_type payload accepted_at_ms in
      let i = (extended db fields).last_id in
      Ends-ok (add_message bytes db.now_ms Key.stream_key (db.stored Key.stream_key) h fields) (
        Ends-ok {s = hash (status_fields event i)} (rw status_free refl) (
          Ends-ok {s = hash (record_fields event fingerprint)} (rw record_free refl) (
            Ends-done (
              was_created record_free status_free refl (rw (same_refl (Key.status_key event)) refl)
                (rw (same_refl (Key.idempotency_key digest)) refl)))))

  absent_of :
      (s : Stored)
      → not (is_none_or_hash (kind_of s)) ≡ false
      → is_hash (kind_of s) ≡ false
      → s ≡ absent
  absent_of absent h k = refl
  absent_of (hash fields) h k = absurd (ground arith)
  absent_of (stream t) h k = absurd (ground arith)
  absent_of (zset members) h k = absurd (ground arith)
  absent_of other_value h k = absurd (ground arith)

  refuted : {b : Bool} → not b ≡ true → b ≡ false
  refuted {b} h = ground arith

  taken : (s : Stored) → s ≡ absent → not (is_none_kind (kind_of s)) ≡ true → ⊥
  taken s free h = absurd (cc (rw free at h))

  pub enqueue_idempotent-Ends :
      Ends bytes Post
        (enqueue_idempotent digest event event_type payload fingerprint accepted_at_ms)
        db
  unfolding enqueue_idempotent
  enqueue_idempotent-Ends = Ends-type (
      Ends-type (
        Ends-type (
          Ends-if (not (is_none_or_stream (kind_of (db.stored Key.stream_key))))
            (λ a. Ends-fail (was_refused _ (no_stream (refuted a))))
            λ a.
              Ends-if (not (is_none_or_hash (kind_of (db.stored (Key.idempotency_key digest)))))
                (λ b. Ends-fail (was_refused _ (no_record (refuted b))))
                λ b.
                  Ends-if _
                    (λ c. let (fields, h) = is_hash-cases _ c in decide_recorded-Ends fields h)
                    λ c.
                      Ends-if (not (is_none_kind (kind_of (db.stored (Key.status_key event)))))
                        (λ e.
                          Ends-fail
                            (was_refused _ (has_status (absent_of _ b c) (λ free. taken _ free e))))
                        λ e. create-Ends a (none_of _ e) (absent_of _ b c))))

pub enqueue_idempotent-Decided :
    {R : Type 0} {bytes : Bytes} {redis : Redis R} (d : IsDocumented bytes redis) (digest : List ℕ)
    (event event_type payload fingerprint accepted_at_ms : Value) (r : R)
    → let result =
        eval redis
          (enqueue_idempotent digest event event_type payload fingerprint accepted_at_ms)
          r in
      Decided digest event event_type payload fingerprint accepted_at_ms
        (d.view r)
        result.0
        (d.view result.1)
enqueue_idempotent-Decided {bytes} d digest event event_type payload fingerprint accepted_at_ms r =
    let m = enqueue_idempotent digest event event_type payload fingerprint accepted_at_ms in
    let agrees = eval-Agrees d m r in
    let ends =
      enqueue_idempotent-Ends bytes digest event event_type payload fingerprint accepted_at_ms
        (d.view r) in
    rw agrees.0 (rw agrees.1 ends.at)
