-- ===== src/Hooklane/Redis/Store/Rounds.antt =====
-- Rounds of the worker over the Redis store: `EventWorker.run_once` of src/hooklane/worker/service.py
-- with `RedisEventStore` of src/hooklane/queue/events.py.
use hooklane.Prelude.{Bool, ℕ, String, Option, none, some, ◌≡◌}
use hooklane.Prelude.Outcome.{Outcome, ok, err}
use hooklane.Run.{Run}
use hooklane.Hooklane.Delivery.{Failure}
use hooklane.Run.Ensures.{Ensures-pure, Ensures-bind}
use hooklane.Hooklane.Redis.Values.{field_eq, Value, StreamId}
use hooklane.Hooklane.Redis.Script.{RedisError, Redis, eval}
use hooklane.Hooklane.Redis.Scripts.Retry
use hooklane.Hooklane.Redis.Db.{Bytes}
use hooklane.Hooklane.Redis.Db.Commands.{Db, IsDocumented}
use hooklane.Hooklane.Redis.Db.Simulation.{eval-Agrees}
use hooklane.Hooklane.Redis.Calls.Complete.{complete_delivery-Completed}
use hooklane.Hooklane.Redis.Calls.DeadLetter.{move_to_dead_letter-DeadLettered}
use hooklane.Hooklane.Redis.Calls.Schedule.{Scheduled, schedule_retry-Ends}
use hooklane.Hooklane.Redis.Client.{Libraries, Client}
use hooklane.Hooklane.Redis.Client.Answers.{Answered, guarded-Ensures}
use hooklane.Hooklane.Redis.Store.Queue.{
  mark_delivered, schedule_retry, move_to_dead_letter, redis_queue,
}
use hooklane.Hooklane.Worker.{
  QueuedEvent, WorkerResult, Settings, Worker, WorkerQueue, process, run_once,
}
use hooklane.Hooklane.Worker.Rounds.{Round, run_once-Round, without_event}
use hooklane.Hooklane.Worker.Transitions.{Transitions, Settled, process-Settled}
use hooklane.Hooklane.Redis.Store.Facts.{Done, When, completion-Done, scheduling-Done, move-Done}

module _ {R : Type 0} {bytes : Bytes} {redis : Redis R} (d : IsDocumented bytes redis)
    (libraries : Libraries) (refresh_queue_metrics : String → Run Failure (Client R) Bool) where
  -- What a result means for a client.
  abbrev DoneAt : String → WorkerResult → QueuedEvent → Client R → Type 0
  DoneAt g result e c = Done g result e (d.view c.server)

  answered :
      {A : Type 0} (P : Db → Type 0) (o : Outcome RedisError A) (r : R)
      → When o (P (d.view r))
      → Answered (λ a r. P (d.view r)) o r
  answered P (ok a) r h = h
  answered P (err e) r h = tt

  scheduled :
      (event : Value) (i : StreamId) (c : Value) (due : ℕ) (r : R)
      → let result = eval redis (Retry.schedule_retry event (Value.id i) c due event) r in
        Scheduled event i c due (d.view r) result.0 (d.view result.1)
  scheduled event i c due r =
      let agrees = eval-Agrees d (Retry.schedule_retry event (Value.id i) c due event) r in
      let ends = schedule_retry-Ends bytes event i c due (d.view r) in
      rw agrees.0 (rw agrees.1 ends.at)

  redis_queue-Transitions :
      (g : String) → Transitions (redis_queue libraries redis refresh_queue_metrics) g (DoneAt g)
  unfolding redis_queue mark_delivered schedule_retry move_to_dead_letter
  redis_queue-Transitions g = record {
    delivers = λ e.
        Ensures-bind {Q = λ a c. DoneAt g WorkerResult.delivered e c} _ _
          (guarded-Ensures (λ a r. Done g WorkerResult.delivered e (d.view r)) _
            (λ r. answered (Done g WorkerResult.delivered e) _ _ (
              completion-Done g e
                (complete_delivery-Completed d (Value.uuid e.event_id) e.stream_id g r)))
            _ _)
          λ a. Ensures-pure tt (λ c p. p);
    retries = λ e due why.
        Ensures-bind {Q = λ a c. DoneAt g WorkerResult.retry_scheduled e c} _ _
          (guarded-Ensures (λ a r. Done g WorkerResult.retry_scheduled e (d.view r)) _
            (λ r. answered (Done g WorkerResult.retry_scheduled e) _ _ (
              scheduling-Done g e
                (scheduled (Value.uuid e.event_id) e.stream_id (Value.class why) due r)))
            _ _)
          λ a. Ensures-pure tt (λ c p. p);
    dead_letters = λ e why.
        Ensures-bind {Q = λ a c. DoneAt g WorkerResult.dead_lettered e c} _ _
          (guarded-Ensures (λ a r. Done g WorkerResult.dead_lettered e (d.view r)) _
            (λ r. answered (Done g WorkerResult.dead_lettered e) _ _ (
              move-Done g e (
                move_to_dead_letter-DeadLettered d (Value.uuid e.event_id) e.stream_id g
                  (Value.class why) _ r)))
            _ _)
          λ a. Ensures-pure tt (λ c p. p);
  }

  -- What a result says of the event of the round: the client at the last call before the refresh.
  abbrev pub Reached : String → QueuedEvent → WorkerResult → Client R → Type 0
  Reached g e WorkerResult.no_message c' = ⊥
  Reached g e WorkerResult.failed_pending c' = Unit
  Reached g e WorkerResult.delivered c' =
      (c : Client R) × Done g WorkerResult.delivered e (d.view c.server)
      × (c' ≡ (refresh_queue_metrics g c).1)
  Reached g e WorkerResult.retry_scheduled c' =
      (c : Client R) × Done g WorkerResult.retry_scheduled e (d.view c.server)
      × (c' ≡ (refresh_queue_metrics g c).1)
  Reached g e WorkerResult.dead_lettered c' =
      (c : Client R) × Done g WorkerResult.dead_lettered e (d.view c.server)
      × (c' ≡ (refresh_queue_metrics g c).1)

  abbrev pub ReachedRound : String → Option QueuedEvent → WorkerResult → Client R → Type 0
  ReachedRound g none result c' = result ≡ WorkerResult.no_message
  ReachedRound g (some e) result c' = Reached g e result c'

  module _ (settings : Settings) where
    abbrev store : WorkerQueue (Client R)
    store = redis_queue libraries redis refresh_queue_metrics

    reached :
        (e : QueuedEvent) (result : WorkerResult) (w' : Worker (Client R))
        → Settled store settings
            (DoneAt settings.group_name)
            (redis_queue-Transitions settings.group_name)
            e
            result
            w'
        → Reached settings.group_name e result w'.queue
    unfolding redis_queue
    reached e WorkerResult.delivered w' h = h
    reached e WorkerResult.retry_scheduled w' h = h
    reached e WorkerResult.dead_lettered w' h = h
    reached e WorkerResult.no_message w' h = h
    reached e WorkerResult.failed_pending w' h = tt

    process-Reached :
        (found : Option QueuedEvent) (before w' : Worker (Client R)) (result : WorkerResult)
        → process store settings found before ≡ (ok result, w')
        → ReachedRound settings.group_name found result w'.queue
    process-Reached none before w' result h = without_event store settings before w' result h
    process-Reached (some e) before w' result h =
        let settled =
          process-Settled store settings (DoneAt settings.group_name)
            (redis_queue-Transitions settings.group_name) e in
        reached e result w' (rw h at (settled.at before tt))

-- A round of the worker over the Redis store, on any documented server, any network, with any other
-- clients and whatever the refresh of the metrics does: a round that returns has no message exactly if it
-- found no event, and else the last call of the store before the refresh has made its result true of the
-- event that it found. For `delivered` that event has the status delivered, and its message is not pending
-- for the group. For `retry_scheduled` it has the status retry_scheduled, and is in the retry schedule.
-- For `dead_lettered` it has the status dead_letter, its message is not pending for the group, and the
-- dead letters end with a message of its stream id.
pub run_once-Done :
    {R : Type 0} {bytes : Bytes} {redis : Redis R} (d : IsDocumented bytes redis)
    (libraries : Libraries) (refresh_queue_metrics : String → Run Failure (Client R) Bool)
    (settings : Settings) (w w' : Worker (Client R)) (result : WorkerResult)
    → run_once (redis_queue libraries redis refresh_queue_metrics) settings w ≡ (ok result, w')
    → (round : Round (redis_queue libraries redis refresh_queue_metrics) settings w w' result)
      × ReachedRound d libraries refresh_queue_metrics settings.group_name round.found result
          w'.queue
run_once-Done {redis} d libraries refresh settings w w' result runs =
    let round = run_once-Round (redis_queue libraries redis refresh) settings w w' result runs in
    (
      round,
      process-Reached d libraries refresh settings round.found round.before w' result
          round.processed,
    )
