-- ===== src/Cloudflare/Sink.antt =====
-- `FixedMockSink.deliver` of cloudflare/src/worker.py, from how its `fetch` ends.
use hooklane.Prelude.{ℕ, Option, some}
use hooklane.Cloudflare.Core.{DeliveryErrorClass, classify_http_status}

pub data Fetched : Type 0 where
  responded : ℕ → Fetched
  timed_out failed : Fetched

-- The class of the `SinkFailure` that is raised, if one is.
unfoldable pub sink_deliver : Fetched → Option DeliveryErrorClass
unfolding classify_http_status
sink_deliver (Fetched.responded status_code) = classify_http_status status_code
sink_deliver Fetched.timed_out = some DeliveryErrorClass.timeout
sink_deliver Fetched.failed = some DeliveryErrorClass.connection
