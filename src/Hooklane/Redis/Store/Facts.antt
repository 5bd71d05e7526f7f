-- ===== src/Hooklane/Redis/Store/Facts.antt =====
-- What a completion, a retry and a dead letter of src/hooklane/queue/events.py mean for the status of
-- the event, its message and the schedule.
use hooklane.Prelude.{ℕ, String, ◌≡◌, refl, ◌∙◌, some, List, [], ◌∷◌, ◌++◌}
use hooklane.Prelude.Outcome.{Outcome, ok, err}
use hooklane.Cloudflare.Contract.{EventStatus}
use hooklane.Hooklane.Redis.Values.{Key, field_eq, Value, Field, StreamId}
use hooklane.Hooklane.Redis.Script.{RedisError, Message}
use hooklane.Hooklane.Redis.Scripts.Delivery.{dead_letter_fields}
use hooklane.Hooklane.Redis.Db.{
  Stored, hash, stream, zset, Stream, Group, lookup, set_fields, find_group, pending_at,
  drop_pending, with_group,
}
use hooklane.Hooklane.Redis.Db.Commands.{Db}
use hooklane.Hooklane.Redis.Db.Lookups.{
  lookup-set_field, lookup_other, pending_at-drop_pending, find_group-set_group,
}
use hooklane.Hooklane.Redis.Calls.Complete.{Completed, complete_delivery-Completed}
use hooklane.Hooklane.Redis.Calls.Complete
use hooklane.Hooklane.Redis.Calls.DeadLetter.{DeadLettered, move_to_dead_letter-DeadLettered}
use hooklane.Hooklane.Redis.Calls.DeadLetter
use hooklane.Hooklane.Redis.Calls.Schedule.{Scheduled, with_member, schedule_retry-Ends}
use hooklane.Hooklane.Redis.Calls.Schedule
use hooklane.Hooklane.Worker.{QueuedEvent, WorkerResult}

-- The status of an event.
pub record HasStatus (event_id : ℕ) (status : EventStatus) (db : Db) : Type 0 where
  fields : List (Field × Value)
  stands : db.stored (Key.status_key (Value.uuid event_id)) ≡ hash fields
  has_status : lookup Field.status fields ≡ some (Value.word status)

-- A message that is not pending for the group.
pub record IsAcknowledged (group_name : String) (i : StreamId) (db : Db) : Type 0 where
  messages : Stream
  group : Group
  has_stream : db.stored Key.stream_key ≡ stream messages
  has_group : find_group group_name messages.groups ≡ some group
  is_free : pending_at i group.pending ≡ []

-- An event that is due at some time.
pub record IsScheduled (event_id : ℕ) (db : Db) : Type 0 where
  due_at_ms : ℕ
  others : List (Value × ℕ)
  is_scheduled : db.stored Key.retry_schedule_key ≡ zset ((Value.uuid event_id, due_at_ms) ∷ others)

-- A message whose fields end the dead letters, with the id that it had.
pub record IsDeadLetter (i : StreamId) (db : Db) : Type 0 where
  letters : Stream
  earlier : List Message
  letter_id : StreamId
  message : List (Field × Value)
  error_class : Value
  attempts : Value
  has_letters : db.stored Key.dead_letter_key ≡ stream letters
  is_last :
      letters.entries
      ≡ earlier ++ (letter_id, dead_letter_fields message error_class attempts (Value.id i)) ∷ []

-- What a result of a round means on the server.
abbrev pub Done : String → WorkerResult → QueuedEvent → Db → Type 0
Done g WorkerResult.delivered e db =
    HasStatus e.event_id EventStatus.delivered db × IsAcknowledged g e.stream_id db
Done g WorkerResult.retry_scheduled e db =
    HasStatus e.event_id EventStatus.retry_scheduled db × IsScheduled e.event_id db
Done g WorkerResult.dead_lettered e db =
    HasStatus e.event_id EventStatus.dead_letter db
    × IsAcknowledged g e.stream_id db
    × IsDeadLetter e.stream_id db
Done g _ e db = Unit

abbrev pub When : {A : Type 0} → Outcome RedisError A → Type 0 → Type 0
When (ok a) P = P
When (err e) P = Unit

acknowledged :
    (g : String) (i : StreamId) (db : Db) (s : Stream) (group : Group)
    → find_group g s.groups ≡ some group
    → db.stored Key.stream_key ≡ with_group s group (drop_pending i group.pending)
    → IsAcknowledged g i db
acknowledged g i db s group h e = record {
  messages = _;
  group = record group { pending = drop_pending i group.pending };
  has_stream = e;
  has_group = find_group-set_group g group _ s.groups h;
  is_free = pending_at-drop_pending i group.pending;
}

module _ (g : String) (e : QueuedEvent) where
  pub completion-Done :
      {db db' : Db} {o : Outcome RedisError ℕ}
      → Completed (Value.uuid e.event_id) e.stream_id g db o db'
      → When o (Done g WorkerResult.delivered e db')
  completion-Done (Complete.was_completed fields s group {db'} a b c found pending added marked) = (
    record { fields = _; stands = marked; has_status = lookup-set_field Field.status _ fields },
    acknowledged g e.stream_id db' s group found added,
  )
  completion-Done (Complete.was_refused why) = tt

  pub scheduling-Done :
      {db db' : Db} {o : Outcome RedisError ℕ} {c : Value} {due : ℕ}
      → Scheduled (Value.uuid e.event_id) e.stream_id c due db o db'
      → When o (Done g WorkerResult.retry_scheduled e db')
  unfolding set_fields field_eq
  scheduling-Done {db} {due} (Schedule.was_scheduled fields a b marked added) = (
    record {
      fields = _;
      stands = marked;
      has_status =
          lookup_other Field.status Field.last_error_class _ _ refl
          ∙ lookup-set_field Field.status _ fields;
    },
    member (db.stored Key.retry_schedule_key) added,
  )
    where
      member :
          {db' : Db} (s : Stored)
          → db'.stored Key.retry_schedule_key ≡ with_member (Value.uuid e.event_id) due s
          → IsScheduled e.event_id db'
      member (zset members) h = record { due_at_ms = due; others = _; is_scheduled = h }
      member Stored.absent h = record { due_at_ms = due; others = _; is_scheduled = h }
      member (hash fs) h = record { due_at_ms = due; others = _; is_scheduled = h }
      member (stream t) h = record { due_at_ms = due; others = _; is_scheduled = h }
      member Stored.other_value h = record { due_at_ms = due; others = _; is_scheduled = h }
  scheduling-Done (Schedule.was_refused why) = tt

  pub move-Done :
      {db db' : Db} {o : Outcome RedisError StreamId} {c : Value} {tonumber : _}
      → DeadLettered (Value.uuid e.event_id) e.stream_id g c tonumber db o db'
      → When o (Done g WorkerResult.dead_lettered e db')
  unfolding set_fields field_eq
  move-Done
        (DeadLetter.was_moved {attempts} delivering pending found message {db'} stands counted named
          added free marked out) =
      (
        record {
          fields = _;
          stands = marked;
          has_status =
              lookup_other Field.status Field.dead_letter_stream_id _ _ refl
              ∙ lookup_other Field.status Field.last_error_class _ _ refl
              ∙ lookup-set_field Field.status _ delivering.fields;
        },
        acknowledged g e.stream_id db' pending.entries_of pending.group pending.has_group free,
        record {
          letters = _;
          earlier = _;
          letter_id = _;
          message = message;
          error_class = _;
          attempts = attempts;
          has_letters = added;
          is_last = refl;
        },
      )
  move-Done (DeadLetter.was_refused why) = tt
