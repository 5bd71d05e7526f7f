-- ===== src/Hooklane/Redis/Client.antt =====
-- The client of src/hooklane/queue/events.py: how a call of the server may end, what other clients do
-- before it, and the parameters for the libraries that read and print texts.
pub mod Answers
use hooklane.Prelude.{ℕ, suc, Option, none, some, List, [], ◌∷◌, ◌++◌, Bool}
use hooklane.Prelude.Outcome.{Outcome, ok, err}
use hooklane.Cloudflare.Contract.{EventStatus, JsonValue, Fields, event_request}
use hooklane.Run.{Run, pure, raise, ◌>>=◌, ◌>>◌}
use hooklane.Hooklane.Delivery.{Failure, event_store_unavailable, other}
use hooklane.Hooklane.Redis.Values.{ℤ, QuarantineReason, Value, Field}
use hooklane.Hooklane.Redis.Script.{RedisError, connection_error, Message}
use hooklane.Hooklane.Redis.Lua.{last_value}
use hooklane.Hooklane.Worker.{QueuedEvent}

-- `json`, `hashlib`, `UUID` and `int` on texts, and Lua's `tonumber(text) >= 1`. `spelling` is the
-- text that a value spells; `none` is a `ValueError`; `dumps` prints an object with sorted keys.
pub record Libraries : Type 0 where
  pub spelling : Value → List ℕ
  pub tonumber_at_least_one : List ℕ → Bool
  pub parse_uuid : List ℕ → Option ℕ
  pub parse_int : List ℕ → Option ℤ
  pub loads : List ℕ → Option JsonValue
  pub dumps : Fields → List ℕ
  pub sha256_hexdigest : List ℕ → List ℕ

abbrev pub spelled : Libraries → Value → List ℕ
spelled libraries (Value.plain t) = t
spelled libraries v = libraries.spelling v

-- `UUID(text)`, `int(text)` and `EventStatus(text)`.
abbrev pub uuid_of : Libraries → Value → Option ℕ
uuid_of libraries (Value.uuid n) = some n
uuid_of libraries v = libraries.parse_uuid (spelled libraries v)

abbrev pub int_of : Libraries → Value → Option ℤ
int_of libraries (Value.int n) = some n
int_of libraries v = libraries.parse_int (spelled libraries v)

abbrev pub status_of : Value → Option EventStatus
status_of (Value.word status) = some status
status_of v = none

-- A chain of reads that may raise a `KeyError` or a `ValueError`.
infixl 5 ◌then_read◌
abbrev pub ◌then_read◌ : {A B : Type 0} → Option A → (A → Option B) → Option B
none then_read f = none
(some a) then_read f = f a

-- The event that a message carries; `fields` is the dict of its list.
unfoldable pub queued_event : Libraries → Message → Option QueuedEvent
queued_event libraries (stream_id, fields) =
    last_value none Field.payload fields then_read λ payload.
    libraries.loads (spelled libraries payload) then_read λ json.
    last_value none Field.event_type fields then_read λ event_type.
    event_request (spelled libraries event_type) json then_read λ event.
    last_value none Field.event_id fields then_read λ event_id.
    uuid_of libraries event_id then_read λ id.
    last_value none Field.accepted_at_ms fields then_read λ accepted_at_ms.
    int_of libraries accepted_at_ms then_read λ accepted.
    some (record { stream_id = stream_id; event_id = id; event = event; accepted_at_ms = accepted })

pub data Operation : Type 0 where
  enqueue enqueue_idempotent get_status ping ensure_consumer_group : Operation
  quarantine_message read_next claim_pending mark_delivery_started : Operation
  mark_delivered schedule_retry release_retry dead_letter : Operation

-- What is counted and logged.
pub data Note : Type 0 where
  redis_failure : Operation → Option ℕ → Note
  queue_quarantine : QuarantineReason → Note

-- How a call ends: with its reply, with a lost connection before or after the server acted, or with a
-- reply that the client library or the method cannot take, which raises no `RedisError`.
pub data Network : Type 0 where
  answered request_lost reply_lost reply_unreadable : Network

-- A server as one client sees it; `others` is what other clients do before each call.
pub record Client (R : Type 0) : Type 0 where
  pub server : R
  pub others : ℕ → R → R
  pub network : ℕ → Network
  pub clock_ms : ℕ → ℕ
  pub calls : ℕ
  pub notes : List Note

-- What is raised past the handlers for `RedisError`.
abbrev pub raised :
    {A : Type 0} → Network → Outcome RedisError A → Outcome Failure (Outcome RedisError A)
raised Network.answered outcome = ok outcome
raised Network.request_lost outcome = ok outcome
raised Network.reply_lost outcome = ok outcome
raised Network.reply_unreadable outcome = err other

module _ {R A : Type 0} where
  abbrev pub ended : Network → Run RedisError R A → R → Outcome RedisError A × R
  ended Network.answered m r = m r
  ended Network.request_lost m r = (err connection_error, r)
  ended Network.reply_lost m r = (err connection_error, (m r).1)
  ended Network.reply_unreadable m r = m r

  -- A call of the server, whose error is a value for the handlers.
  unfoldable pub sent : Run RedisError R A → Run Failure (Client R) (Outcome RedisError A)
  sent m c =
      let (outcome, r) = ended (c.network c.calls) m (c.others c.calls c.server) in
      (raised (c.network c.calls) outcome, record c { server = r; calls = suc c.calls })

module _ {R : Type 0} where
  -- `int(time.time() * 1000)`.
  unfoldable pub time_ms : Run Failure (Client R) ℕ
  time_ms c = (ok (c.clock_ms c.calls), c)

  unfoldable pub note : Note → Run Failure (Client R) (Unit {0})
  note n c = (ok tt, record c { notes = c.notes ++ n ∷ [] })

  -- `_record_redis_failure`, and `raise EventStoreUnavailable`.
  unfoldable pub unavailable : {A : Type 0} → Operation → Option ℕ → Run Failure (Client R) A
  unfolding note
  unavailable operation event_id = do
    note (Note.redis_failure operation event_id)
    raise event_store_unavailable

  -- `except RedisError`.
  unfoldable pub or_unavailable :
      {A : Type 0} → Operation → Option ℕ → Outcome RedisError A → Run Failure (Client R) A
  unfolding unavailable
  or_unavailable operation event_id (ok a) = pure a
  or_unavailable operation event_id (err e) = unavailable operation event_id

  unfoldable pub guarded :
      {A : Type 0} → Operation → Option ℕ → Run RedisError R A → Run Failure (Client R) A
  unfolding sent or_unavailable
  guarded operation event_id m = do outcome ← sent m; or_unavailable operation event_id outcome
