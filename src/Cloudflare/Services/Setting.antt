-- ===== src/Cloudflare/Services/Setting.antt =====
-- The collaborators of the services: `EventStore`, `QueueProducer`, `DeliverySink` and `Trace` of
-- cloudflare/src/hooklane_cf/core.py, and the producer of cloudflare/src/worker.py.
use hooklane.Prelude.{ℕ, suc, String, Bool, false, Option, List, [], ◌∷◌, ◌++◌, if◌then◌else◌}
use hooklane.Prelude.Outcome.{Outcome, ok, err}
use hooklane.Cloudflare.Contract.{EventRequest}
use hooklane.Cloudflare.Core.{
  DeliveryErrorClass, Error, queue_send_unavailable, DeliveryStart, EventRecord, AcceptanceRecord,
  OutboxRecord,
}
use hooklane.Cloudflare.Exec.{Exec}

-- The `EventStore` protocol, over the state `W` of a store.
pub record EventStore (W : Type 0) : Type 0 where
  pub accept : ℕ → EventRequest → Option ℕ → ℕ → Exec W AcceptanceRecord
  pub get_status : ℕ → Exec W (Option EventRecord)
  pub claim_outbox : ℕ → ℕ → ℕ → Exec W (List OutboxRecord)
  pub mark_dispatched : ℕ → Option ℕ → Exec W Bool
  pub release_outbox_claim : ℕ → ℕ → Exec W (Unit {0})
  pub mark_delivery_started : ℕ → ℕ → Exec W DeliveryStart
  pub mark_delivered : ℕ → ℕ → Exec W Bool
  pub mark_retry : ℕ → DeliveryErrorClass → ℕ → Exec W Bool
  pub mark_dead_letter : ℕ → DeliveryErrorClass → ℕ → Exec W Bool

pub record TraceEntry : Type 0 where
  pub transition : String
  pub event_id : ℕ
  pub attempt : ℕ
  pub reason : String

-- A call of the Queue binding is confirmed, or raises with or without the message in the Queue.
pub data Sent : Type 0 where
  confirmed lost unconfirmed : Sent

-- What the services do not control: how each send ends, how each delivery ends, and
-- `random.uniform(low, high)` after each delivery, on numbers in units of 2 ** -53.
pub record Outside : Type 0 where
  pub send : ℕ → Sent
  pub deliver : ℕ → Option DeliveryErrorClass
  pub uniform : ℕ → ℕ → ℕ → ℕ

-- The state of a service: its store, the messages in the Queue, the records that the sink was
-- sent, the trace, and the number of sends and deliveries so far.
pub record Service (W : Type 0) : Type 0 where
  pub store : W
  pub outside : Outside
  pub fail_send : Bool
  pub sends : ℕ
  pub deliveries : ℕ
  pub messages : List ℕ
  pub delivered : List EventRecord
  pub trace : List TraceEntry

abbrev pub place : Sent → ℕ → List ℕ → List ℕ
place Sent.lost id messages = messages
place _ id messages = messages ++ id ∷ []

abbrev pub confirmation : Sent → Outcome Error (Unit {0})
confirmation Sent.confirmed = ok tt
confirmation _ = err queue_send_unavailable

module _ {W : Type 0} where
  -- A call of the store, whose state is a part of the service's.
  unfoldable pub on_store : {A : Type 0} → Exec W A → Exec (Service W) A
  on_store m s = let (r, w) = m s.store in (r, record s { store = w })

  unfoldable pub emit : String → ℕ → ℕ → String → Exec (Service W) (Unit {0})
  emit transition id attempt reason s = (
    ok tt,
    record s {
      trace =
          s.trace
          ++ record { transition = transition; event_id = id; attempt = attempt; reason = reason }
            ∷ [];
    },
  )

  -- `CloudflareQueueProducer.send`.
  unfoldable pub send : ℕ → Exec (Service W) (Unit {0})
  send id s =
      if s.fail_send then (err queue_send_unavailable, record s { fail_send = false }) else (
        confirmation (s.outside.send s.sends),
        record s { sends = suc s.sends; messages = place (s.outside.send s.sends) id s.messages },
      )
