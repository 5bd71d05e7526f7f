-- ===== src/Hooklane/Redis/Store/Failures.antt =====
-- How the methods of src/hooklane/queue/events.py fail that the worker calls.
use hooklane.Prelude.{ℕ, suc, Bool, String, ◌≡◌, refl, Option, none, some, List, [], ◌∷◌, ◌++◌}
use hooklane.Prelude.Outcome.{Outcome, ok, err}
use hooklane.Run.{Run, ◌>>=◌}
use hooklane.Run.Raises.{Fails, Raises, Raises-pure, Raises-bind, Raises-if}
use hooklane.Hooklane.Delivery.{DeliveryErrorClass, Failure, event_store_unavailable, other}
use hooklane.Hooklane.Redis.Values.{StreamId, QuarantineReason, Value}
use hooklane.Hooklane.Redis.Script.{
  RedisError, wrong_type, no_group, busy_group, not_an_integer, invalid_id, connection_error,
  error_reply, Message, Redis,
}
use hooklane.Hooklane.Redis.Scripts.Recovery.{Disposition}
use hooklane.Hooklane.Redis.Client.{
  Libraries, Operation, Note, Network, Client, raised, sent, note, unavailable, or_unavailable,
  guarded,
}
use hooklane.Hooklane.Redis.Store.Queue.{
  group_ready, ensure_consumer_group, quarantine_malformed_message, event_or_quarantine,
  read_message, read_next, claimed_message, read_claimed, claim_stale_pending,
  mark_delivery_started, mark_delivered, schedule_retry, released_one, release_due_retry,
  move_to_dead_letter, redis_queue,
}
use hooklane.Hooklane.Worker.{QueuedEvent, WorkerQueue}

-- `EventStoreUnavailable`, noted last as a failure of Redis; or another exception, of the last call, whose
-- reply could not be read.
pub data IsFailure {R : Type 0} : Failure → Client R → Type 0 where
  was_unavailable :
      (earlier : List Note) (operation : Operation) (event_id : Option ℕ) {c : Client R}
      → c.notes ≡ earlier ++ Note.redis_failure operation event_id ∷ []
      → IsFailure event_store_unavailable c
  was_unreadable :
      (last : ℕ) {c : Client R}
      → c.calls ≡ suc last
      → c.network last ≡ Network.reply_unreadable
      → IsFailure other c

module _ {R A : Type 0} where
  unavailable-Raises :
      (operation : Operation) (event_id : Option ℕ)
      → Raises IsFailure (unavailable {R = R} {A = A} operation event_id)
  unfolding unavailable note ◌>>=◌
  unavailable-Raises operation event_id = record {
    at = λ c. was_unavailable c.notes operation event_id refl;
  }

  or_unavailable-Raises :
      (operation : Operation) (event_id : Option ℕ) (outcome : Outcome RedisError A)
      → Raises IsFailure (or_unavailable {R = R} operation event_id outcome)
  unfolding or_unavailable
  or_unavailable-Raises operation event_id (ok a) = Raises-pure a
  or_unavailable-Raises operation event_id (err e) = unavailable-Raises operation event_id

  sent-Raises : (m : Run RedisError R A) → Raises IsFailure (sent m)
  unfolding sent
  sent-Raises m = record { at = λ c. unread c (c.network c.calls) refl _ _ }
    where
      unread :
          (c : Client R) (n : Network)
          → c.network c.calls ≡ n
          → (o : Outcome RedisError A) (r : R)
          → Fails IsFailure (raised n o, record c { server = r; calls = suc c.calls })
      unread c Network.answered e o r = tt
      unread c Network.request_lost e o r = tt
      unread c Network.reply_lost e o r = tt
      unread c Network.reply_unreadable e o r = was_unreadable c.calls refl e

  guarded-Raises :
      (operation : Operation) (event_id : Option ℕ) (m : Run RedisError R A)
      → Raises IsFailure (guarded operation event_id m)
  unfolding guarded
  guarded-Raises operation event_id m =
      Raises-bind (sent-Raises m) (or_unavailable-Raises operation event_id)

note-Raises : {R : Type 0} (n : Note) → Raises IsFailure (note {R = R} n)
unfolding note
note-Raises n = record { at = λ c. tt }

module _ {R : Type 0} (libraries : Libraries) (redis : Redis R) where
  ensure_consumer_group-Raises :
      (group_name : String) → Raises IsFailure (ensure_consumer_group libraries redis group_name)
  unfolding ensure_consumer_group group_ready
  ensure_consumer_group-Raises group_name = Raises-bind (sent-Raises _) ready
    where
      ready :
          (outcome : Outcome RedisError (Unit {0}))
          → Raises IsFailure (group_ready libraries redis outcome)
      ready (ok done) = Raises-pure tt
      ready (err busy_group) = Raises-pure tt
      ready (err wrong_type) = unavailable-Raises _ _
      ready (err no_group) = unavailable-Raises _ _
      ready (err not_an_integer) = unavailable-Raises _ _
      ready (err invalid_id) = unavailable-Raises _ _
      ready (err connection_error) = unavailable-Raises _ _
      ready (err (error_reply why)) = unavailable-Raises _ _

  quarantine-Raises :
      (stream_id : Value) (group_name : String) (why : QuarantineReason)
      → Raises IsFailure (quarantine_malformed_message libraries redis stream_id group_name why)
  unfolding quarantine_malformed_message
  quarantine-Raises stream_id group_name why =
      Raises-bind (guarded-Raises _ _ _) λ id. note-Raises _

  event_or_quarantine-Raises :
      (group_name : String) (i : StreamId) (found : Option QueuedEvent)
      → Raises IsFailure (event_or_quarantine libraries redis group_name i found)
  unfolding event_or_quarantine
  event_or_quarantine-Raises group_name i (some e) = Raises-pure _
  event_or_quarantine-Raises group_name i none =
      Raises-bind (quarantine-Raises _ _ _) λ done. Raises-pure none

  read_message-Raises :
      (group_name : String) (found : Option Message)
      → Raises IsFailure (read_message libraries redis group_name found)
  unfolding read_message
  read_message-Raises group_name none = Raises-pure none
  read_message-Raises group_name (some m) = event_or_quarantine-Raises group_name _ _

  claimed_message-Raises :
      (group_name : String) (disposition : Disposition) (messages : List Message)
      → Raises IsFailure (claimed_message libraries redis group_name disposition messages)
  unfolding claimed_message
  claimed_message-Raises g Disposition.delivery (m ∷ []) = event_or_quarantine-Raises g _ _
  claimed_message-Raises g disposition (m ∷ []) =
      Raises-bind (quarantine-Raises _ _ _) λ done. Raises-pure none
  claimed_message-Raises g disposition messages = unavailable-Raises _ _

  read_claimed-Raises :
      (group_name : String) (claimed : Option (StreamId × Disposition))
      → Raises IsFailure (read_claimed libraries redis group_name claimed)
  unfolding read_claimed
  read_claimed-Raises g none = Raises-pure none
  read_claimed-Raises g (some (i, disposition)) =
      Raises-bind (guarded-Raises _ _ _) (claimed_message-Raises g disposition)

  released_one-Raises : (n : ℕ) → Raises IsFailure (released_one libraries redis n)
  unfolding released_one
  released_one-Raises n =
      Raises-if _ (Raises-bind (note-Raises _) λ done. Raises-pure _) (Raises-pure _)

-- Each operation of a queue but the refresh of its metrics fails in one way only.
pub record FailsOnlyBy {Q : Type 0} (P : Failure → Q → Type 0) (queue : WorkerQueue Q)
    : Type 0 where
  pub on_group : (g : String) → Raises P (queue.ensure_consumer_group g)
  pub on_read : (g consumer : String) → Raises P (queue.read_next g consumer)
  pub on_claim :
      (g consumer : String) (idle : ℕ) → Raises P (queue.claim_stale_pending g consumer idle)
  pub on_release : (g : String) (now : ℕ) → Raises P (queue.release_due_retry g now)
  pub on_start : (e : QueuedEvent) → Raises P (queue.mark_delivery_started e)
  pub on_delivered : (e : QueuedEvent) (g : String) → Raises P (queue.mark_delivered e g)
  pub on_retry :
      (e : QueuedEvent) (due : ℕ) (why : DeliveryErrorClass)
      → Raises P (queue.schedule_retry e due why)
  pub on_dead_letter :
      (e : QueuedEvent) (g : String) (why : DeliveryErrorClass)
      → Raises P (queue.move_to_dead_letter e g why)

-- Over any server, documented or not, any network and any other clients: the transitions and the reads
-- that the worker calls, all but the refresh of the metrics, raise only `EventStoreUnavailable`, and the
-- last note of the store is then that failure, or an exception for a reply that could not be read, of
-- their last call. Malformed messages, unknown dispositions and error replies raise nothing else.
pub redis_queue-FailsOnlyBy :
    {R : Type 0} (libraries : Libraries) (redis : Redis R)
    (refresh : String → Run Failure (Client R) Bool)
    → FailsOnlyBy IsFailure (redis_queue libraries redis refresh)
unfolding redis_queue read_next claim_stale_pending release_due_retry mark_delivery_started
    mark_delivered schedule_retry move_to_dead_letter
redis_queue-FailsOnlyBy libraries redis refresh = record {
  on_group = λ g. ensure_consumer_group-Raises libraries redis g;
  on_read =
      λ g consumer. Raises-bind (guarded-Raises _ _ _) (read_message-Raises libraries redis g);
  on_claim =
      λ g consumer idle. Raises-bind (guarded-Raises _ _ _) (read_claimed-Raises libraries redis g);
  on_release = λ g now. Raises-bind (guarded-Raises _ _ _) (released_one-Raises libraries redis);
  on_start = λ e. Raises-bind (guarded-Raises _ _ _) λ n. Raises-pure _;
  on_delivered = λ e g. Raises-bind (guarded-Raises _ _ _) λ n. Raises-pure tt;
  on_retry = λ e due why. Raises-bind (guarded-Raises _ _ _) λ n. Raises-pure tt;
  on_dead_letter = λ e g why. Raises-bind (guarded-Raises _ _ _) λ n. Raises-pure tt;
}
