-- ===== src/Hooklane/Redis/Calls/DeadLetter.antt =====
-- What `_MOVE_TO_DEAD_LETTER_SCRIPT` of src/hooklane/queue/events.py does.
use hooklane.Prelude.{
  ℕ, String, ◌≡◌, refl, ap, not, Bool, true, false, Option, none, some, List, [], ◌∷◌, same_eq,
  same_refl, arith,
}
use hooklane.Prelude.Outcome.{Outcome, ok, err}
use hooklane.Cloudflare.Contract.{EventStatus}
use hooklane.Hooklane.Redis.Values.{Key, key_eq, field_eq, value_eq, Value, Field, StreamId}
use hooklane.Hooklane.Redis.Script.{RedisError, Message, xpending, xrange, zrem, Redis, eval}
use hooklane.Hooklane.Redis.Lua.{
  is_stream, is_value, at_least_one, last_value, is_none_or_stream, is_none_or_zset,
}
use hooklane.Hooklane.Redis.Scripts.Delivery.{
  dead_letter_fields, terminal_fields, dead_letter, dead_letter_message, dead_letter_event,
  move_to_dead_letter,
}
use hooklane.Hooklane.Redis.Db.{
  Bytes, Stored, absent, hash, stream, zset, other_value, kind_of, lookup, set_fields, append,
  drop_pending, with_group, drop_member, zset_or_absent, Stream, entries_at,
}
use hooklane.Hooklane.Redis.Db.Commands.{Db, IsDocumented, apply}
use hooklane.Hooklane.Redis.Db.Simulation.{eval-Agrees}
use hooklane.Hooklane.Redis.Db.Logic.{
  Ends, Ends-done, Ends-fail, Ends-if, Ends-ok, Ends-read, Ends-type, Ends-hget, is_hash-cases,
  stream_of, add_message,
}
use hooklane.Hooklane.Redis.Calls.StillPending.{
  IsPending, xpending-IsPending, xack-IsPending, xrange-entries_at,
}

abbrev pub without : Value → Stored → Stored
without v (zset members) = zset_or_absent (drop_member v members)
without v s = s

-- The dead letters with the one of a message added.
abbrev pub letters_after : Db → StreamId → Value → Value → List (Field × Value) → Stream
letters_after db i error_class attempts message =
    append db.now_ms (dead_letter_fields message error_class attempts (Value.id i))
      (stream_of (db.stored Key.dead_letter_key))

-- A message that is pending for a group, and the event whose delivery it is.
pub record Delivering (event : Value) (i : StreamId) (group_name : String) (db : Db)
    (event_id attempts : Value) : Type 0 where
  pub fields : List (Field × Value)
  pub has_status : db.stored (Key.status_key event) ≡ hash fields
  pub names_message : lookup Field.stream_id fields ≡ some (Value.id i)
  pub is_delivering : lookup Field.status fields ≡ some (Value.word EventStatus.delivering)
  pub has_event_id : lookup Field.event_id fields ≡ some event_id
  pub has_attempts : lookup Field.attempt_count fields ≡ some attempts

module _ (bytes : Bytes) (now : ℕ) where
  pub zrem_member :
      (s : Stored) (v : Value)
      → not (is_none_or_zset (kind_of s)) ≡ false
      → apply bytes now (zrem Key.retry_schedule_key v) s ≡ (ok tt, without v s)
  unfolding apply
  zrem_member absent v h = refl
  zrem_member (zset members) v h = refl
  zrem_member (hash fields) v h = absurd (ground arith)
  zrem_member (stream t) v h = absurd (ground arith)
  zrem_member other_value v h = absurd (ground arith)

pub undo_not : {b : Bool} → not b ≡ false → b ≡ true
undo_not {b} h = ground arith

pub is_value-some :
    (found : Option Value) (v : Value) → not (is_value found v) ≡ false → found ≡ some v
is_value-some none v h = absurd (ground arith)
is_value-some (some u) v h = ap some (same_eq (undo_not h))

module _ (event : Value) (i : StreamId) (group_name : String) (error_class : Value)
    (tonumber : List ℕ → Bool) (db : Db) where
  -- How a move can end, with the server before and after it.
  pub data DeadLettered : Outcome RedisError StreamId → Db → Type 0 where
    was_moved :
        {event_id attempts : Value} (e : Delivering event i group_name db event_id attempts)
        (m : IsPending i group_name (db.stored Key.stream_key)) (found : StreamId)
        (message : List (Field × Value)) {db' : Db}
        → entries_at i m.entries_of.entries ≡ (found, message) ∷ []
        → at_least_one tonumber attempts ≡ true
        → last_value none Field.event_id message ≡ some event_id
        → db'.stored Key.dead_letter_key ≡ stream (letters_after db i error_class attempts message)
        → db'.stored Key.stream_key
          ≡ with_group m.entries_of m.group (drop_pending i m.group.pending)
        → db'.stored (Key.status_key event)
          ≡ hash (
              set_fields
                (terminal_fields error_class
                  (letters_after db i error_class attempts message).last_id)
                e.fields)
        → db'.stored Key.retry_schedule_key ≡ without event_id (db.stored Key.retry_schedule_key)
        → DeadLettered (ok (letters_after db i error_class attempts message).last_id) db'
    was_refused : (e : RedisError) → DeadLettered (err e) db

  module _ (bytes : Bytes)
      (no_other : not (is_none_or_stream (kind_of (db.stored Key.dead_letter_key))) ≡ false)
      (schedule : not (is_none_or_zset (kind_of (db.stored Key.retry_schedule_key))) ≡ false) where
    dead_letter-Ends :
        {event_id attempts : Value} (e : Delivering event i group_name db event_id attempts)
        (m : IsPending i group_name (db.stored Key.stream_key)) (found : StreamId)
        (message : List (Field × Value))
        → entries_at i m.entries_of.entries ≡ (found, message) ∷ []
        → at_least_one tonumber attempts ≡ true
        → last_value none Field.event_id message ≡ some event_id
        → Ends bytes DeadLettered
            (dead_letter event (Value.id i) group_name error_class event_id attempts message)
            db
    unfolding dead_letter apply key_eq
    dead_letter-Ends {event_id} {attempts} e m found message stands counted named =
        let fields = dead_letter_fields message error_class attempts (Value.id i) in
        let s = append db.now_ms fields (stream_of (db.stored Key.dead_letter_key)) in
        Ends-ok
          (add_message bytes db.now_ms Key.dead_letter_key (db.stored Key.dead_letter_key) no_other
            fields)
          (Ends-ok (xack-IsPending bytes db.now_ms i group_name (db.stored Key.stream_key) m) (
            Ends-ok {s = hash (set_fields (terminal_fields error_class s.last_id) e.fields)}
              (rw e.has_status refl)
              (Ends-ok
                (zrem_member bytes db.now_ms (db.stored Key.retry_schedule_key) event_id schedule)
                (Ends-done (
                  was_moved e m found message stands counted named refl refl
                    (rw (same_refl (Key.status_key event)) refl) refl)))))

    dead_letter_message-Ends :
        {event_id attempts : Value} (e : Delivering event i group_name db event_id attempts)
        → at_least_one tonumber attempts ≡ true
        → (pending : List StreamId)
        → (apply bytes db.now_ms
            (xpending Key.stream_key group_name (Value.id i))
            (db.stored Key.stream_key)).0
          ≡ ok pending
        → (messages : List Message)
        → (apply bytes db.now_ms (xrange Key.stream_key (Value.id i)) (db.stored Key.stream_key)).0
          ≡ ok messages
        → Ends bytes DeadLettered
            (dead_letter_message event
              (Value.id i)
              group_name
              error_class
              event_id
              attempts
              pending
              messages)
            db
    unfolding dead_letter_message
    dead_letter_message-Ends {event_id} e counted (p ∷ []) h ((found, message) ∷ []) hm =
        let m = xpending-IsPending bytes db.now_ms i group_name _ p [] h in
        Ends-if _ (λ a. Ends-fail (was_refused _))
          λ a.
            dead_letter-Ends e m found message
              (xrange-entries_at bytes db.now_ms i group_name _ m.entries_of _ m.has_stream hm)
              counted (is_value-some (last_value none Field.event_id message) event_id a)
    dead_letter_message-Ends e counted _ h _ hm = Ends-fail (was_refused _)

    dead_letter_event-Ends :
        (fields : List (Field × Value))
        → db.stored (Key.status_key event) ≡ hash fields
        → lookup Field.stream_id fields ≡ some (Value.id i)
        → lookup Field.status fields ≡ some (Value.word EventStatus.delivering)
        → (event_id attempts : Option Value) → lookup Field.event_id fields ≡ event_id
        → lookup Field.attempt_count fields ≡ attempts
        → Ends bytes DeadLettered
            (dead_letter_event event (Value.id i) group_name error_class tonumber event_id attempts)
            db
    unfolding dead_letter_event
    dead_letter_event-Ends fields h l s (some event_id) (some attempts) he ha =
        Ends-if _ (λ a. Ends-fail (was_refused _))
          λ a.
            Ends-read tt
              (λ pending hp.
                Ends-read tt
                  (λ messages hm.
                    dead_letter_message-Ends
                      (record {
                        fields = fields;
                        has_status = h;
                        names_message = l;
                        is_delivering = s;
                        has_event_id = he;
                        has_attempts = ha;
                      })
                      (undo_not a) pending hp messages hm)
                  (λ e hm. was_refused e))
              (λ e hp. was_refused e)
    dead_letter_event-Ends fields h l s _ _ he ha = Ends-fail (was_refused _)

  move_to_dead_letter-Ends :
      (bytes : Bytes)
      → Ends bytes DeadLettered
          (move_to_dead_letter event (Value.id i) group_name error_class tonumber)
          db
  unfolding move_to_dead_letter
  move_to_dead_letter-Ends bytes = Ends-type (
      Ends-type (
        Ends-type (
          Ends-type (
            Ends-if _ (λ a. Ends-fail (was_refused _))
              λ status_hash.
                Ends-if (not (is_stream (kind_of (db.stored Key.stream_key))))
                  (λ a. Ends-fail (was_refused _))
                  λ events_stream.
                    Ends-if _ (λ a. Ends-fail (was_refused _))
                      λ no_other.
                        Ends-if _ (λ a. Ends-fail (was_refused _))
                          λ schedule.
                            let (fields, h) = is_hash-cases _ (undo_not status_hash) in
                            Ends-hget fields h (
                              Ends-if _ (λ a. Ends-fail (was_refused _))
                                λ named. Ends-hget fields h (
                                  Ends-if _ (λ a. Ends-fail (was_refused _))
                                    λ delivering. Ends-hget fields h (
                                      Ends-hget fields h (
                                        dead_letter_event-Ends bytes no_other schedule fields h
                                          (is_value-some _ _ named) (is_value-some _ _ delivering) _
                                          _ refl refl))))))))

pub move_to_dead_letter-DeadLettered :
    {R : Type 0} {bytes : Bytes} {redis : Redis R} (d : IsDocumented bytes redis) (event : Value)
    (i : StreamId) (group_name : String) (error_class : Value) (tonumber : List ℕ → Bool) (r : R)
    → let result =
        eval redis (move_to_dead_letter event (Value.id i) group_name error_class tonumber) r in
      DeadLettered event i group_name error_class tonumber (d.view r) result.0 (d.view result.1)
move_to_dead_letter-DeadLettered {bytes} d event i group_name error_class tonumber r =
    let m = move_to_dead_letter event (Value.id i) group_name error_class tonumber in
    let agrees = eval-Agrees d m r in
    let ends = move_to_dead_letter-Ends event i group_name error_class tonumber (d.view r) bytes in
    rw agrees.0 (rw agrees.1 ends.at)
