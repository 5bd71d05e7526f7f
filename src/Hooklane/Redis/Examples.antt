-- ===== src/Hooklane/Redis/Examples.antt =====
-- The scripts and methods of the Redis event store at concrete inputs.
use native.Mathlib.Decide.{ℕ_discrete}
use hooklane.Prelude.{
  ℕ, String, Bool, false, Option, none, some, List, [], ◌∷◌, ◌≡◌, refl, same, if◌then◌else◌,
}
use hooklane.Prelude.Equality.{string_eq}
use hooklane.Hooklane.Delivery.{Failure}
use hooklane.Prelude.Outcome.{Outcome, ok, err}
use hooklane.Run.{Run, ◌>>=◌}
use hooklane.Cloudflare.Contract.{
  event_request, event_type_is_valid, EventStatus, EventRequest, JsonValue, Fields,
}
use hooklane.Hooklane.Delivery.{DeliveryErrorClass}
use hooklane.Hooklane.Redis.Values.{
  ℤ, StreamId, Value, Field, Key, key_eq, value_eq, field_eq, stream_id_eq,
}
use hooklane.Hooklane.Redis.Script.{RedisError, error_reply, Redis, eval}
use hooklane.Hooklane.Redis.Lua.{field_value, is_uuid}
use hooklane.Hooklane.Redis.Scripts.Enqueue
use hooklane.Hooklane.Redis.Scripts.Enqueue.{Decision}
use hooklane.Hooklane.Redis.Scripts.Delivery
use hooklane.Hooklane.Redis.Scripts.Retry
use hooklane.Hooklane.Redis.Db.{
  Stored, Stream, Bytes, lookup, find_group, pending_at, drop_pending, set_fields, set_group,
  entries_at, drop_member,
}
use hooklane.Hooklane.Redis.Db.Commands.{Db, IsDocumented, apply, db_redis}
use hooklane.Hooklane.Redis.Calls.{Call, call_start_delivery, call_release_due_retry, perform_all}
use hooklane.Hooklane.Redis.Calls.Again.{decision_of, idempotent_again}
use hooklane.Hooklane.Redis.Calls.Complete.{Completed, complete_delivery-Completed}
use hooklane.Hooklane.Redis.Client.{queued_event, Libraries, Network, Client}
use hooklane.Hooklane.Redis.Store
use hooklane.Hooklane.Redis.Store.Accepted.{get_status-enqueue}
use hooklane.Hooklane.Redis.Store.Failures.{FailsOnlyBy, IsFailure, redis_queue-FailsOnlyBy}
use hooklane.Hooklane.Redis.Store.Queue
use hooklane.Hooklane.Redis.Store.Rounds.{ReachedRound, run_once-Done}
use hooklane.Hooklane.Worker.Rounds.{Round}
use hooklane.Hooklane.Worker.{WorkerResult, Settings, Worker, run_once}

abbrev bytes : Bytes
bytes = record { read_id = λ t. none; before = λ u v. false }

abbrev redis : Redis Db
redis = db_redis bytes

abbrev documented : IsDocumented bytes redis
documented = record { view = λ r. r; replies = λ c r. refl; leaves = λ c r. refl }

abbrev no_number : List ℕ → Bool
no_number t = false

abbrev libraries : Libraries
libraries = record {
  spelling = λ v. [];
  tonumber_at_least_one = no_number;
  parse_uuid = λ t. none;
  parse_int = λ t. none;
  loads = λ t. some (JsonValue.object Fields.end);
  dumps = λ fields. 0x7b ∷ 0x7d ∷ [];
  sha256_hexdigest = λ t. t;
}

abbrev empty : Db
empty = record { stored = λ k. Stored.absent; now_ms = 1000 }

abbrev client : Client Db
client = record {
  server = empty;
  others = λ n r. r;
  network = λ n. Network.answered;
  clock_ms = λ n. 1000;
  calls = 0;
  notes = [];
}

abbrev sample_request : EventRequest
sample_request = record { event_type = 0x61 ∷ []; payload = Fields.end }

abbrev word_a : Value
word_a = Value.plain (0x61 ∷ [])

-- A run whose result is known.
paired : {A B : Type 0} (x : A × B) (a : A) → x.0 ≡ a → x ≡ (a, x.1)
paired x a h i = (h i, x.1)

abbrev created_run : Outcome RedisError (Decision × Value) × Db
created_run =
    eval redis
      (Enqueue.enqueue_idempotent (0x6b ∷ []) (Value.uuid 7) word_a word_a word_a
        (Value.int (ℤ.pos 1000)))
      empty

abbrev first_id : StreamId
first_id = record { ms = 1000; seq = 0 }

-- A delivery starts, and the retries are looked at.
abbrev calls : List Call
calls =
    call_start_delivery (Value.uuid 7) (Value.id first_id)
    ∷ call_release_due_retry "workers" 2000
    ∷ []

idempotent_again_example :
    (eval redis
      (Enqueue.enqueue_idempotent
        (0x6b ∷ [])
        (Value.uuid 8)
        word_a
        word_a
        word_a
        (Value.int (ℤ.pos 2000)))
      (perform_all redis no_number calls created_run.1)).0
    ≡ ok (decision_of (same word_a word_a), Value.uuid 7)
unfolding eval Enqueue.enqueue_idempotent Enqueue.create Enqueue.decide_recorded db_redis apply
    key_eq ℕ_discrete
idempotent_again_example =
    idempotent_again documented no_number (0x6b ∷ []) (Value.uuid 7) word_a word_a word_a
      (Value.int (ℤ.pos 1000)) empty created_run.1
      (paired created_run (ok (Decision.created, Value.uuid 7)) refl) calls (Value.uuid 8) word_a
      word_a word_a (Value.int (ℤ.pos 2000))

-- An event whose message is pending, and whose second delivery goes on.
abbrev status_of_event : List (Field × Value)
status_of_event =
    (Field.event_id, Value.uuid 7)
    ∷ (Field.status, Value.word EventStatus.delivering)
    ∷ (Field.attempt_count, Value.int (ℤ.pos 2))
    ∷ (Field.stream_id, Value.id first_id)
    ∷ []

abbrev events : Stream
events = record {
  entries =
      (first_id, Enqueue.message_fields (Value.uuid 7) word_a word_a (Value.int (ℤ.pos 1000))) ∷ [];
  last_id = first_id;
  groups =
      record {
        name = "workers";
        last_delivered = first_id;
        pending = record { pending_id = first_id; owner = "w1"; delivered_at_ms = 1200 } ∷ [];
      }
      ∷ [];
}

abbrev held : Key → Stored
held Key.stream_key = Stored.stream events
held (Key.status_key v) =
    if same v (Value.uuid 7) then Stored.hash status_of_event else Stored.absent
held _ = Stored.absent

abbrev delivering : Db
delivering = record { stored = held; now_ms = 1500 }

abbrev completed_run : Outcome RedisError ℕ × Db
completed_run =
    eval redis (Delivery.complete_delivery (Value.uuid 7) (Value.id first_id) "workers") delivering

complete_delivery-Completed_example :
    Completed (Value.uuid 7) first_id "workers" delivering completed_run.0 completed_run.1
complete_delivery-Completed_example =
    complete_delivery-Completed documented (Value.uuid 7) first_id "workers" delivering

abbrev moved_run : Outcome RedisError StreamId × Db
moved_run =
    eval redis
      (Delivery.move_to_dead_letter (Value.uuid 7) (Value.id first_id) "workers"
        (Value.class DeliveryErrorClass.http_4xx) no_number)
      delivering

abbrev waiting : Db
waiting =
    (eval redis
      (Retry.schedule_retry (Value.uuid 7) (Value.id first_id)
        (Value.class DeliveryErrorClass.timeout) 1600 (Value.uuid 7))
      delivering).1

abbrev released_run : Outcome RedisError ℕ × Db
released_run = eval redis (Retry.release_due_retry no_number "workers" 1700) waiting

get_status-enqueue_example :
    (Store.get_status libraries redis 7 (Store.enqueue libraries redis 7 sample_request client).1).0
    ≡ ok (some (record { event_id = 7; status = EventStatus.queued; attempt_count = ℤ.pos 0 }))
unfolding Store.enqueue eval Enqueue.enqueue Enqueue.add db_redis apply key_eq ◌>>=◌ ℕ_discrete
get_status-enqueue_example =
    get_status-enqueue documented libraries 7 sample_request client
      (Store.enqueue libraries redis 7 sample_request client).1
      (paired (Store.enqueue libraries redis 7 sample_request client) (ok tt) refl) refl (λ r. refl)

abbrev unrefreshed : String → Run Failure (Client Db) Bool
unrefreshed group_name c = (ok false, c)

redis_queue-FailsOnlyBy_example :
    FailsOnlyBy IsFailure (Queue.redis_queue libraries redis unrefreshed)
redis_queue-FailsOnlyBy_example = redis_queue-FailsOnlyBy libraries redis unrefreshed

-- What a worker does with a message that another worker has completed.
abbrev status_in : Stored → Option Value
status_in (Stored.hash fields) = field_value Field.status fields
status_in _ = none

abbrev status_after : Db → Option Value
status_after db = status_in (db.stored (Key.status_key (Value.uuid 7)))

abbrev started_again : Outcome RedisError ℤ × Db
started_again =
    eval redis (Delivery.start_delivery (Value.uuid 7) (Value.id first_id)) completed_run.1

abbrev scheduled_again : Outcome RedisError ℕ × Db
scheduled_again =
    eval redis
      (Retry.schedule_retry (Value.uuid 7) (Value.id first_id)
        (Value.class DeliveryErrorClass.timeout) 1600 (Value.uuid 7))
      completed_run.1

-- A start by the other worker makes a delivered event one that is being delivered, and its completion
-- is refused; a retry of it ends as a dead letter.
delivered_is_not_final :
    (status_after completed_run.1 ≡ some (Value.word EventStatus.delivered))
    × (status_after started_again.1 ≡ some (Value.word EventStatus.delivering))
    × ((eval redis
          (Delivery.complete_delivery (Value.uuid 7) (Value.id first_id) "workers")
          started_again.1).0
        ≡ err (error_reply "ERR stream message was not pending"))
    × (status_after
          (eval redis (Retry.release_due_retry no_number "workers" 1700) scheduled_again.1).1
        ≡ some (Value.word EventStatus.dead_letter))
unfolding eval Delivery.complete_delivery Delivery.start_delivery Retry.schedule_retry
    Retry.release_due_retry db_redis apply key_eq ℕ_discrete value_eq field_eq stream_id_eq
    string_eq lookup find_group pending_at drop_pending set_fields set_group is_uuid entries_at
    drop_member
delivered_is_not_final = (refl, refl, refl, refl)

-- A worker that delivers the event.
abbrev settings : Settings
settings = record {
  group_name = "workers";
  consumer_name = "w1";
  retry_policy = none;
  dead_letter_policy = none;
  pending_idle_ms = 60000;
}

abbrev worker : Worker (Client Db)
worker = record {
  queue = (Store.enqueue libraries redis 7 sample_request client).1;
  outside = record { clock_ms = λ n. 5000; deliver = λ n. ok tt; jittered = λ n b. b };
  readings = 0;
  deliveries = 0;
  observations = [];
}

abbrev round : Outcome Failure WorkerResult × Worker (Client Db)
round = run_once (Queue.redis_queue libraries redis unrefreshed) settings worker

run_once-Done_example :
    (found : Round
      (Queue.redis_queue libraries redis unrefreshed)
      settings
      worker
      round.1
      WorkerResult.delivered)
    × ReachedRound documented libraries unrefreshed "workers" found.found WorkerResult.delivered
        round.1.queue
unfolding eval run_once ◌>>=◌ Queue.redis_queue Store.enqueue db_redis key_eq ℕ_discrete find_group
    string_eq queued_event field_eq event_request event_type_is_valid lookup set_fields value_eq
    set_group pending_at drop_pending stream_id_eq
run_once-Done_example =
    run_once-Done documented libraries unrefreshed settings worker round.1 WorkerResult.delivered
      (paired round (ok WorkerResult.delivered) refl)
