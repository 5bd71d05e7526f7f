-- ===== src/Cloudflare/D1/History.antt =====
-- Sequences of operations of one client of the database, while others work on it too: whatever is
-- called, in whatever order, whatever fails on the way.
use hooklane.Prelude.{ℕ, ◌≤◌, Option, List, [], ◌∷◌, ◌≡◌, All}
use hooklane.Cloudflare.Contract.{EventRequest}
use hooklane.Cloudflare.Core.{DeliveryErrorClass}
use hooklane.Cloudflare.D1.World.{World}
use hooklane.Cloudflare.D1.Accept.{accept}
use hooklane.Cloudflare.D1.Payload.{get_status}
use hooklane.Cloudflare.D1.Outbox.{
  claim_outbox, mark_dispatched, release_outbox_claim, get_outbox_state,
}
use hooklane.Cloudflare.D1.Delivery.{
  mark_delivery_started, mark_delivered, mark_retry, mark_dead_letter,
}
use hooklane.Cloudflare.D1.Invariant.{IsWellFormed, Evolves, Allowed, Allowed-refl, Allowed-trans}
use hooklane.Cloudflare.D1.Keeps.{Rely}
use hooklane.Cloudflare.D1.Keeps.Operations.{
  accept-Keeps, get_status-Keeps, claim_outbox-Keeps, mark_dispatched-Keeps,
  release_outbox_claim-Keeps, get_outbox_state-Keeps, mark_delivery_started-Keeps,
  mark_delivered-Keeps, mark_retry-Keeps, mark_dead_letter-Keeps,
}

-- A call of a public method of `D1EventStore`, with its arguments.
pub data Operation : Type 0 where
  op_accept : ℕ → EventRequest → Option ℕ → ℕ → Operation
  op_get_status : ℕ → Operation
  op_claim_outbox : ℕ → ℕ → ℕ → Operation
  op_mark_dispatched : ℕ → Option ℕ → Operation
  op_release_outbox_claim : ℕ → ℕ → Operation
  op_mark_delivery_started : ℕ → ℕ → Operation
  op_mark_delivered : ℕ → ℕ → Operation
  op_mark_retry : ℕ → DeliveryErrorClass → ℕ → Operation
  op_mark_dead_letter : ℕ → DeliveryErrorClass → ℕ → Operation
  op_get_outbox_state : ℕ → Operation

-- The world after the call, whether it returned or raised.
unfoldable pub perform : Operation → World → World
perform (op_accept id event key fingerprint) w = (accept id event key fingerprint w).1
perform (op_get_status id) w = (get_status id w).1
perform (op_claim_outbox limit token lease) w = (claim_outbox limit token lease w).1
perform (op_mark_dispatched id claim) w = (mark_dispatched id claim w).1
perform (op_release_outbox_claim id token) w = (release_outbox_claim id token w).1
perform (op_mark_delivery_started id limit) w = (mark_delivery_started id limit w).1
perform (op_mark_delivered id token) w = (mark_delivered id token w).1
perform (op_mark_retry id reason token) w = (mark_retry id reason token w).1
perform (op_mark_dead_letter id reason token) w = (mark_dead_letter id reason token w).1
perform (op_get_outbox_state id) w = (get_outbox_state id w).1

unfoldable pub perform_all : List Operation → World → World
perform_all [] w = w
perform_all (op ∷ ops) w = perform_all ops (perform op w)

-- Deliveries start with at most `maximum` attempts allowed.
abbrev pub IsWithin : ℕ → Operation → Type 0
IsWithin maximum (op_mark_delivery_started id limit) = limit ≤ maximum
IsWithin maximum _ = Unit

module _ (maximum : ℕ) where
  abbrev pub PerformAllowed : Operation → World → Type 0
  PerformAllowed op w =
      Allowed maximum w.tables (perform op w).tables × ((perform op w).env ≡ w.env)

  pub perform-Allowed :
      (op : Operation) (w : World) → IsWithin maximum op → Rely maximum w.env → PerformAllowed op w
  unfolding perform
  perform-Allowed (op_accept id event key fingerprint) w h rely =
      let k = accept-Keeps maximum id event key fingerprint in (k.at w rely, k.env w)
  perform-Allowed (op_get_status id) w h rely =
      let k = get_status-Keeps maximum id in (k.at w rely, k.env w)
  perform-Allowed (op_claim_outbox limit token lease) w h rely =
      let k = claim_outbox-Keeps maximum limit token lease in (k.at w rely, k.env w)
  perform-Allowed (op_mark_dispatched id claim) w h rely =
      let k = mark_dispatched-Keeps maximum id claim in (k.at w rely, k.env w)
  perform-Allowed (op_release_outbox_claim id token) w h rely =
      let k = release_outbox_claim-Keeps maximum id token in (k.at w rely, k.env w)
  perform-Allowed (op_mark_delivery_started id limit) w h rely =
      let k = mark_delivery_started-Keeps maximum id limit h in (k.at w rely, k.env w)
  perform-Allowed (op_mark_delivered id token) w h rely =
      let k = mark_delivered-Keeps maximum id token in (k.at w rely, k.env w)
  perform-Allowed (op_mark_retry id reason token) w h rely =
      let k = mark_retry-Keeps maximum id reason token in (k.at w rely, k.env w)
  perform-Allowed (op_mark_dead_letter id reason token) w h rely =
      let k = mark_dead_letter-Keeps maximum id reason token in (k.at w rely, k.env w)
  perform-Allowed (op_get_outbox_state id) w h rely =
      let k = get_outbox_state-Keeps maximum id in (k.at w rely, k.env w)

  perform_all-Allowed :
      (ops : List Operation) (w : World)
      → All (IsWithin maximum) ops
      → Rely maximum w.env
      → Allowed maximum w.tables (perform_all ops w).tables
  unfolding perform_all
  perform_all-Allowed [] w h rely = Allowed-refl maximum w.tables
  perform_all-Allowed (op ∷ ops) w h rely =
      let k = perform-Allowed op w h.0 rely in
      Allowed-trans maximum w.tables (perform op w).tables (perform_all ops (perform op w)).tables
        (k.0) (perform_all-Allowed ops (perform op w) h.1 (rw (k.1) rely))

-- Whatever operations a client calls, in whatever order, whether they return or raise, with at most
-- `maximum` attempts allowed to a delivery, and whatever else happens to the database in between as
-- long as it keeps to the contract: well-formed tables stay well-formed. Ids and keys stay unique,
-- every event has its row of the outbox, a row has a token and a lease exactly while it is being
-- delivered, and no row has more than `maximum` attempts.
pub perform_all-IsWellFormed :
    (maximum : ℕ) (ops : List Operation) (w : World)
    → All (IsWithin maximum) ops
    → Rely maximum w.env
    → IsWellFormed maximum w.tables
    → IsWellFormed maximum (perform_all ops w).tables
perform_all-IsWellFormed maximum ops w h rely = (perform_all-Allowed maximum ops w h rely).keeps

-- Whatever operations a client calls, in whatever order, whether they return or raise, with at most
-- `maximum` attempts allowed to a delivery, and whatever else happens to the database in between as
-- long as it keeps to the contract: well-formed tables only evolve. No row is deleted, the request of
-- an event never changes, its attempts are never taken back, a delivered or dead-lettered event stays
-- exactly as it is, no event is queued again, and an outbox row that was sent stays sent.
pub perform_all-Evolves :
    (maximum : ℕ) (ops : List Operation) (w : World)
    → All (IsWithin maximum) ops
    → Rely maximum w.env
    → IsWellFormed maximum w.tables
    → Evolves w.tables (perform_all ops w).tables
perform_all-Evolves maximum ops w h rely = (perform_all-Allowed maximum ops w h rely).evolves
