-- ===== src/Cloudflare/Services/Consumer/Acks.antt =====
-- Which messages the consumer of cloudflare/src/worker.py acknowledges.
use hooklane.Prelude.{ℕ, ◌≤◌, Option, some, true, ◌≡◌, refl}
use mathlib.Core.Path.{subst}
use hooklane.Prelude.Outcome.{Outcome, ok, err}
use hooklane.Cloudflare.Contract.{EventStatus}
use hooklane.Cloudflare.Core.{
  Error, persistence_unavailable, queue_send_unavailable, idempotency_conflict, event_not_found,
  value_error, sink_failure,
}
use hooklane.Cloudflare.Exec.{◌>>=◌}
use hooklane.Run.Ensures.{Holds}
use hooklane.Cloudflare.D1.Tables.{is_terminal}
use hooklane.Cloudflare.D1.World.{World}
use hooklane.Cloudflare.D1.Invariant.{IsWellFormed}
use hooklane.Cloudflare.D1.Keeps.{Rely}
use hooklane.Cloudflare.D1.Transitions.{HasStatus}
use hooklane.Cloudflare.D1.Transitions.Sound.{IsSound}
use hooklane.Cloudflare.D1.Store.{d1_store, WorldHasStatus, d1_store-EventStoreLaws}
use hooklane.Cloudflare.Services.Setting.{Service}
use hooklane.Cloudflare.Services.Delivery.{DeliveryDisposition, DeliveryResult, process}
use hooklane.Cloudflare.Services.Delivery.Ack.{process-AckIsRight}
use hooklane.Cloudflare.Services.Consumer.{acknowledge, reply_of, decide, handle}

-- The event has a status that ends its delivery.
pub record IsOver (id : ℕ) (w : World) : Type 0 where
  pub status : EventStatus
  pub has_status : HasStatus id status w.tables
  pub is_over : is_terminal status ≡ true

acknowledges :
    (disposition : DeliveryDisposition) (delay : Option ℕ)
    → reply_of disposition delay ≡ acknowledge
    → disposition ≡ DeliveryDisposition.ack
acknowledges DeliveryDisposition.ack delay h = refl
acknowledges DeliveryDisposition.retry delay h = absurd (cc)

decide-IsOver :
    (id : ℕ) (outcome : Outcome Error DeliveryResult) (s s' : Service World)
    → Holds
        (λ (result : DeliveryResult) (t : Service World).
          result.disposition ≡ DeliveryDisposition.ack
          → HasStatus id result.status t.store.tables × (is_terminal result.status ≡ true))
        (outcome, s)
    → decide d1_store outcome s ≡ (ok acknowledge, s')
    → IsOver id s'.store
unfolding decide
decide-IsOver id (ok result) s s' right e =
    let acks : reply_of result.disposition result.retry_delay_seconds ≡ acknowledge = cc in
    let same : s ≡ s' = cc in
    let over = right (acknowledges result.disposition result.retry_delay_seconds acks) in
    subst (λ (t : Service World). IsOver id t.store) same
      (record { status = result.status; has_status = over.0; is_over = over.1 })
decide-IsOver id (err persistence_unavailable) s s' right e = absurd (cc)
decide-IsOver id (err event_not_found) s s' right e = absurd (cc)
decide-IsOver id (err queue_send_unavailable) s s' right e = absurd (cc)
decide-IsOver id (err idempotency_conflict) s s' right e = absurd (cc)
decide-IsOver id (err value_error) s s' right e = absurd (cc)
decide-IsOver id (err (sink_failure reason)) s s' right e = absurd (cc)

-- The consumer acknowledges a message of the Queue only when its event is delivered or dead-lettered.
-- Over well-formed tables, with others that keep to the contract and with at most `maximum` attempts
-- allowed: where one round of the loop ends in an acknowledgement, the table has the event with a
-- terminal status.
pub handle_acks :
    (maximum limit id : ℕ)
    → limit ≤ maximum
    → (s s' : Service World) → IsWellFormed maximum s.store.tables
    → Rely maximum s.store.env
    → handle d1_store limit (some id) s ≡ (ok acknowledge, s')
    → IsOver id s'.store
unfolding handle ◌>>=◌
handle_acks maximum limit id fits s s' well rely runs =
    let e =
      process-AckIsRight d1_store limit (IsSound maximum) WorldHasStatus
        (d1_store-EventStoreLaws maximum limit fits) id in
    let (outcome, t) = process d1_store limit id s in
    decide-IsOver id outcome t s' (e.at s (record { tables = well; rely = rely })) runs
