-- ===== src/Hooklane/Redis/Calls.antt =====
-- The scripts of src/hooklane/queue/events.py as calls that a client makes, with what it passes.
pub mod Avoids
pub mod Idempotency
pub mod DeadLetter
pub mod Complete
pub mod Removal
pub mod Due
pub mod Release
pub mod StillPending
pub mod Schedule
pub mod Again
use hooklane.Prelude.{ℕ, String, Bool, List, [], ◌∷◌}
use hooklane.Prelude.Outcome.{Outcome}
use hooklane.Run.{Run}
use hooklane.Hooklane.Redis.Values.{ℤ, StreamId, QuarantineReason, Value}
use hooklane.Hooklane.Redis.Script.{RedisError, Redis, Script, eval}
use hooklane.Hooklane.Redis.Scripts.Enqueue
use hooklane.Hooklane.Redis.Scripts.Delivery
use hooklane.Hooklane.Redis.Scripts.Retry
use hooklane.Hooklane.Redis.Scripts.Recovery

-- `call_enqueue_idempotent` is with the digest of its key, and the fingerprint of its request.
pub data Call : Type 0 where
  call_enqueue : Value → Value → Value → Value → Call
  call_enqueue_idempotent : List ℕ → Value → Value → Value → Value → Value → Call
  call_start_delivery : Value → Value → Call
  call_complete_delivery : Value → Value → String → Call
  call_schedule_retry : Value → Value → Value → ℕ → Value → Call
  call_release_due_retry : String → ℕ → Call
  call_claim_stale_pending : String → String → ℕ → Call
  call_quarantine_message : Value → String → QuarantineReason → Call
  call_move_to_dead_letter : Value → Value → String → Value → Call

module _ {R : Type 0} (redis : Redis R) (tonumber : List ℕ → Bool) where
  abbrev discarded : {A : Type 0} → Outcome RedisError A × R → R
  discarded (outcome, r) = r

  -- What a call leaves.
  unfoldable pub perform : Call → R → R
  unfolding eval
  perform (call_enqueue e t p a) r = discarded (eval redis (Enqueue.enqueue e t p a) r)
  perform (call_enqueue_idempotent d e t p f a) r =
      discarded (eval redis (Enqueue.enqueue_idempotent d e t p f a) r)
  perform (call_start_delivery e i) r = discarded (eval redis (Delivery.start_delivery e i) r)
  perform (call_complete_delivery e i g) r =
      discarded (eval redis (Delivery.complete_delivery e i g) r)
  perform (call_schedule_retry e i c due v) r =
      discarded (eval redis (Retry.schedule_retry e i c due v) r)
  perform (call_release_due_retry g now) r =
      discarded (eval redis (Retry.release_due_retry tonumber g now) r)
  perform (call_claim_stale_pending g c idle) r =
      discarded (eval redis (Recovery.claim_stale_pending g c idle) r)
  perform (call_quarantine_message i g why) r =
      discarded (eval redis (Recovery.quarantine_message i g why) r)
  perform (call_move_to_dead_letter e i g c) r =
      discarded (eval redis (Delivery.move_to_dead_letter e i g c tonumber) r)

  unfoldable pub perform_all : List Call → R → R
  unfolding perform
  perform_all [] r = r
  perform_all (c ∷ calls) r = perform_all calls (perform c r)
