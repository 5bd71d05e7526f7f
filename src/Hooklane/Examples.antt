-- ===== src/Hooklane/Examples.antt =====
-- The theorems about the Redis runtime at concrete inputs.
use hooklane.Prelude.{
  ℕ, suc, ◌*◌, ◌≤◌, ◌==◌, Bool, if◌then◌else◌, true, false, Option, none, some, List, [], ◌∷◌, ◌≡◌,
  ◌↔◌, refl, arith,
}
use hooklane.Prelude.Outcome.{ok, err}
use hooklane.Cloudflare.Contract.{Fields, EventStatus}
use hooklane.Cloudflare.Core
use hooklane.Cloudflare.Core.{EventRecord}
use hooklane.Cloudflare.Services.Setting.{EventStore}
use hooklane.Cloudflare.Services.Delivery.{backoff, after_sink}
use hooklane.Run.{Run, ◌>>=◌}
use hooklane.Hooklane.Delivery.{
  deliver, DeliveryErrorClass, Failure, delivery_failed, check_status, should_dead_letter, delay,
}
use hooklane.Hooklane.Delivery.Agreement.{
  same_failure, default_policy, classify_agrees, should_dead_letter_agrees, dead_lettering,
  retrying, delay_agrees,
}
use hooklane.Hooklane.Runtime.{ServiceHealth, WorkerRuntime, service_health, begin_work, run_once}
use hooklane.Hooklane.Runtime.Drain.{
  HealthCall, perform_all, drained_is_idle, shutdown_takes_no_work, run_once_balances,
}
use hooklane.Hooklane.Shutdown.{request, request_times, request_once}
use hooklane.Hooklane.MockSink.{MockSinkMode, has_receipt, accept_delivery, accepted_has_receipt}
use hooklane.Hooklane.Config.{
  UrlParse, text_http, parse_downstream_url, IsDownstream, parse_downstream_url-accepts,
}
use hooklane.Hooklane.Redis.Values.{ℤ}
use hooklane.Hooklane.Worker
use hooklane.Hooklane.Worker.{
  QueuedEvent, WorkerResult, WorkerQueue, Settings, Outside, Worker, next, transitioned,
}
use hooklane.Hooklane.Worker.Results.{ExplainedRound, run_once-Explained}
use hooklane.Hooklane.Worker.Rounds.{Round}

classify_agrees_example : Core.classify_http_status 429 ≡ same_failure (check_status 429)
classify_agrees_example = classify_agrees 429 (omega arith)

-- A store in which every transition happens.
abbrev every_transition : EventStore (Unit {0})
every_transition = record {
  accept = λ id event key fingerprint w. (err Core.value_error, w);
  get_status = λ id w. (ok none, w);
  claim_outbox = λ limit token lease w. (ok [], w);
  mark_dispatched = λ id token w. (ok true, w);
  release_outbox_claim = λ id token w. (ok tt, w);
  mark_delivery_started = λ id maximum w. (err Core.value_error, w);
  mark_delivered = λ id token w. (ok true, w);
  mark_retry = λ id reason token w. (ok true, w);
  mark_dead_letter = λ id reason token w. (ok true, w);
}

abbrev fourth_attempt : EventRecord
fourth_attempt = record {
  event_id = 7;
  event = record { event_type = 0x61 ∷ []; payload = Fields.end };
  status = EventStatus.delivering;
  attempt_count = 4;
}

should_dead_letter_agrees_example :
    (dead : Bool) × (should_dead_letter 5 DeliveryErrorClass.http_5xx 4 ≡ ok dead)
    × (after_sink every_transition 5 7 fourth_attempt 9 (some Core.DeliveryErrorClass.http_5xx) ≡ (
        if dead
        then dead_lettering every_transition 7 fourth_attempt 9 Core.DeliveryErrorClass.http_5xx
        else retrying every_transition 7 fourth_attempt 9 Core.DeliveryErrorClass.http_5xx))
should_dead_letter_agrees_example =
    should_dead_letter_agrees every_transition 5 7 fourth_attempt 9 DeliveryErrorClass.http_5xx
      (omega arith)

delay_agrees_example : delay default_policy (λ b. b) 7 ≡ ok (1000 * backoff 7)
delay_agrees_example = delay_agrees 7 (omega arith)

-- A service that starts, takes two pieces of work and finishes one.
calls : List HealthCall
calls =
    HealthCall.call_mark_started true
    ∷ HealthCall.call_begin_work
    ∷ HealthCall.call_begin_work
    ∷ HealthCall.call_finish_work
    ∷ []

drained_is_idle_example :
    (perform_all calls (service_health false false)).drained
    ≡ ((perform_all calls (service_health false false)).in_flight == 0)
drained_is_idle_example = drained_is_idle false false calls

-- A service with one piece of work that shuts down.
abbrev closing : ServiceHealth
closing = record {
  started = true;
  dependency_ready = true;
  shutting_down = true;
  in_flight = 1;
  drained = false;
}

shutdown_takes_no_work_example :
    ((begin_work (perform_all calls closing)).0 ≡ false)
    × ((perform_all calls closing).in_flight ≤ 1)
shutdown_takes_no_work_example = shutdown_takes_no_work calls closing refl

abbrev runtime : WorkerRuntime ℕ
runtime = record {
  worker = 0;
  health = record {
    started = true;
    dependency_ready = true;
    shutting_down = false;
    in_flight = 0;
    drained = true;
  };
}

-- A run that raises.
abbrev failing_run : Run Failure (WorkerRuntime ℕ) ℕ
failing_run r = (err Failure.event_store_unavailable, record r { worker = suc r.worker })

run_once_balances_example : (run_once failing_run runtime).1.health.in_flight ≡ 0
run_once_balances_example = run_once_balances failing_run runtime (λ t. refl)

-- A queue with one event, whose second attempt starts.
abbrev queued_event : QueuedEvent
queued_event = record {
  stream_id = record { ms = 1000; seq = 0 };
  event_id = 7;
  event = record { event_type = 0x61 ∷ []; payload = Fields.end };
  accepted_at_ms = ℤ.pos 1000;
}

abbrev queue : WorkerQueue ℕ
queue = record {
  ensure_consumer_group = λ group q. (ok tt, q);
  read_next = λ group consumer q. (ok (some queued_event), q);
  claim_stale_pending = λ group consumer idle q. (ok none, q);
  release_due_retry = λ group now q. (ok false, q);
  mark_delivery_started = λ e q. (ok 2, q);
  mark_delivered = λ e group q. (ok tt, suc q);
  schedule_retry = λ e due reason q. (ok tt, suc q);
  move_to_dead_letter = λ e group reason q. (ok tt, suc q);
  refresh_queue_metrics = none;
}

abbrev settings : Settings
settings = record {
  group_name = "hooklane-workers";
  consumer_name = "worker-1";
  retry_policy = some default_policy;
  dead_letter_policy = some 5;
  pending_idle_ms = 60000;
}

abbrev worker : Worker ℕ
worker = record {
  queue = 0;
  outside = record {
    clock_ms = λ n. 5000;
    deliver = λ n. err (delivery_failed DeliveryErrorClass.http_5xx);
    jittered = λ n b. b;
  };
  readings = 0;
  deliveries = 0;
  observations = [];
}

event_retried :
    Worker.run_once queue settings worker
    ≡ (ok WorkerResult.retry_scheduled, (Worker.run_once queue settings worker).1)
unfolding Worker.run_once next transitioned ◌>>=◌
event_retried = refl

run_once-Explained_example :
    (round : Round queue settings worker
      (Worker.run_once queue settings worker).1
      WorkerResult.retry_scheduled)
    × ExplainedRound queue 5 worker
        (Worker.run_once queue settings worker).1
        WorkerResult.retry_scheduled
        round.before
        round.found
run_once-Explained_example =
    run_once-Explained queue settings 5 default_policy refl refl worker
      (Worker.run_once queue settings worker).1 WorkerResult.retry_scheduled event_retried

-- Two signals at a coordinator whose callback counts.
abbrev counting : Option (Run Failure ℕ (Unit {0}))
counting = some (λ n. (ok tt, suc n))

request_once_example :
    request_times counting 2 (record { requested = false; state = 0 })
    ≡ (request counting (record { requested = false; state = 0 })).1
unfolding request
request_once_example = request_once counting 1 (record { requested = false; state = 0 }) refl

accepted_has_receipt_example :
    has_receipt 7 (accept_delivery MockSinkMode.delay 4999 7 (6 ∷ [])).receipts ≡ true
unfolding accept_delivery deliver check_status
accepted_has_receipt_example = accepted_has_receipt MockSinkMode.delay 4999 5000 7 (6 ∷ []) refl

-- Every URL is `http://a`.
abbrev urls : UrlParse
urls = record {
  urlsplit = λ value. some (record {
    scheme = text_http;
    netloc = 0x61 ∷ [];
    hostname = some (0x61 ∷ []);
    username = none;
    password = none;
    query = [];
    fragment = [];
  });
  urlunsplit = λ scheme netloc. netloc;
}

parse_downstream_url-accepts_example :
    (parse_downstream_url urls (0x61 ∷ [])
      ≡ some (record { value = 0x61 ∷ []; origin = 0x61 ∷ [] }))
    ↔ IsDownstream urls (0x61 ∷ []) (record { value = 0x61 ∷ []; origin = 0x61 ∷ [] })
parse_downstream_url-accepts_example =
    parse_downstream_url-accepts urls (0x61 ∷ []) (record { value = 0x61 ∷ []; origin = 0x61 ∷ [] })
