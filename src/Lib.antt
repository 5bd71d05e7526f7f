-- ===== src/Lib.antt =====
-- Hooklane, webhook delivery with idempotent acceptance and at-least-once delivery: its Cloudflare
-- runtime, of cloudflare/src, and the store and worker of its Redis runtime, of src/hooklane.
--
-- The program. `POST /v1/events` (`AcceptanceService.accept` of hooklane_cf/core.py) has a D1 database
-- store an event, its payload in chunks and an order to dispatch it (`D1EventStore.accept` of
-- hooklane_cf/d1.py, one batch), then sends the id to a Queue and marks the order as sent. A cron job
-- (`repair`) claims the orders that stayed pending and sends their ids again. The Queue consumer
-- (`Default.queue` of worker.py) runs `DeliveryService.process` for each id: it claims the event under
-- a token and a lease, calls the sink, and ends the attempt by a compare-and-set under the token, as
-- delivered, to be retried, or dead-lettered. A message is acknowledged or retried by the result.
--
-- The files.
--   Prelude               shared names; Booleans, lists, results
--   Run                   coroutines: state passing with exceptions, postconditions (Ensures, Raises), and
--                         what ran first (Returns)
--   Cloudflare/Contract   contract.py: the request, the statuses; Chunks: `payload_json_chunks`, with
--                         Python's UTF-8 codec written out
--   Cloudflare/Core       core.py: exceptions, claims, records, classification of a status
--   Cloudflare/Exec       coroutines with the exceptions of core.py
--   Cloudflare/D1         d1.py: Tables are the tables of the migrations, World is the database with
--                         the fault switches of the store, and Accept, Payload, Outbox and Delivery
--                         are its methods, with one definition for each SQL statement. Invariant is
--                         the contract of the tables, Keeps the rules by which methods keep
--                         it, History whole sequences of calls, Transitions what single transitions do,
--                         Accepted what `accept` has stored, Store the store as an `EventStore`
--   Cloudflare/Services   core.py and worker.py: the services over any `EventStore` (Setting,
--                         Acceptance, Delivery), what they rely on (Laws), the consumer (Consumer),
--                         and the services over the D1 store (OverD1)
--   Cloudflare/Sink       worker.py: `FixedMockSink.deliver`
--   Cloudflare/Examples   a concrete database, and the theorems at it
--   Hooklane/Delivery     src/hooklane/delivery: the classes of failures, `MockSinkClient.deliver`,
--                         `RetryPolicy`, `DeadLetterPolicy`; Agreement compares them with core.py
--   Hooklane/Worker       src/hooklane/worker/service.py: `EventWorker.run_once` over any `WorkerQueue`
--   Hooklane/Redis        src/hooklane/queue/events.py, `RedisEventStore`. Values are the strings and keys
--                         it keeps, Script the Redis commands and scripts as trees of commands, Lua the
--                         tests of the scripts, Scripts the nine scripts, Client a client and its
--                         network, Store the methods. Db is what Redis documents of the commands: its
--                         Commands say what each one answers and leaves, Simulation, Avoids, Streams and
--                         Logic are the rules of proof for scripts. Calls are scripts in sequence
--   Hooklane/Runtime      src/hooklane/runtime.py and worker/runtime.py: `ServiceHealth`, `WorkerRuntime`
--   Hooklane/Shutdown     src/hooklane/runtime.py: `ShutdownCoordinator`
--   Hooklane/MockSink     src/hooklane/mock_sink/app.py: receipts and the delivery route
--   Hooklane/Config       src/hooklane/runtime_config.py: the checks of URLs, over `urllib.parse`
--   Hooklane/Examples     the theorems about the Redis runtime at concrete inputs; those about the store
--                         are in Hooklane/Redis/Examples
--
-- The worker of the Redis runtime. `EventWorker.run_once` takes one event from the queue, calls the
-- sink, and completes the event, schedules a retry or moves it to the dead letters, by the two
-- policies; Worker/Rounds takes a round apart. `WorkerRuntime` runs it only while the service is ready, and counts it as work in flight.
--
-- The Redis store. Each change is one Lua script, which Redis runs as a whole, but does not undo when a
-- command in it fails. A script is a tree of commands, each with the scripts that follow its replies, and
-- is run on any server. What is assumed of the server (`IsDocumented`) is that it can be seen as a `Db`,
-- keys with values, on which each command does what Redis documents of it; the theorems are about that
-- view. A client's call may be lost before or after the server acted, or end in an exception that is no
-- `RedisError`, and other clients act before it. `refresh_queue_metrics` is a parameter of the queue, with
-- any effect. A
-- string is kept by what it spells: `plain` is any other string, on which the tests of Lua are written
-- out, and Python's `UUID`, `int` and `json` are parameters. Keys are kept by their part after the
-- namespace. 64-bit limits of stream ids and counters are not modelled.
--
-- What is a parameter. `Env` and `Outside` fix, for each call, what the program does not control: the
-- clock, `uuid4`, how a call of the database, the Queue or the sink ends, `random.uniform`, `json.dumps` and
-- `json.loads`, and what other clients have done to the tables since the last call. A call of the
-- database may fail before or after it took effect. The theorems ask of other clients that they keep
-- to the contract of the tables (`Rely`): deliveries, repairs and requests that run at the same time
-- are such clients of each other. The SQL statements are modelled by what SQLite documents of them:
-- one statement, and one batch, is atomic.
--
-- Numbers are natural numbers: ids, hashes, tokens and milliseconds. The delays of `RetryPolicy`, which
-- are floats of seconds, are whole milliseconds, and its random factor is a parameter. The jitter of the
-- Cloudflare delivery is a number in units of 2 ** -53, its product with the backoff is exact, and `round`
-- is written out. Texts are lists of code points, and bytes are numbers below 256. Loops are structural.
-- The loop that cuts a payload into chunks runs on fuel, the number of bytes of the text, since each round that goes on moves forward by a byte.
--
-- Not modelled: the HTTP routes and the regression scenarios of worker.py, the trace of trace.py; `ping`
-- and `refresh_queue_metrics` of the Redis store, the API, the readers of the environment and the observability of src/hooklane; the
-- scripts, charts and infrastructure.
pub mod Prelude
pub mod Run
pub mod Cloudflare
pub mod Hooklane
