-- ===== src/Hooklane/Redis/Calls/Avoids.antt =====
-- The scripts of src/hooklane/queue/events.py that never write an idempotency record.
use hooklane.Prelude.{
  ℕ, ◌≡◌, same, String, Bool, true, false, Option, none, some, List, [], ◌∷◌, refl,
}
use hooklane.Hooklane.Redis.Values.{Key, key_eq, Value, Field, StreamId, QuarantineReason}
use hooklane.Hooklane.Redis.Script.{Script, Message}
use hooklane.Hooklane.Redis.Scripts.Enqueue
use hooklane.Hooklane.Redis.Scripts.Delivery
use hooklane.Hooklane.Redis.Scripts.Retry
use hooklane.Hooklane.Redis.Scripts.Recovery
use hooklane.Hooklane.Redis.Scripts.Recovery.{Disposition}
use hooklane.Hooklane.Redis.Db.Avoids.{
  Avoids, Avoids-done, Avoids-fail, Avoids-read, Avoids-write, Avoids-if, Avoids-bind, avoids_rules,
}

module _ (digest : List ℕ) where
  abbrev Kept : {A : Type 0} → Script A → Type 0
  Kept m = Avoids (Key.idempotency_key digest) m

  pub enqueue-Avoids : (e t p a : Value) → Kept (Enqueue.enqueue e t p a)
  unfolding Enqueue.enqueue Enqueue.add key_eq
  enqueue-Avoids e t p a = search avoids_rules depth 12

  pub start_delivery-Avoids : (e i : Value) → Kept (Delivery.start_delivery e i)
  unfolding Delivery.start_delivery key_eq
  start_delivery-Avoids e i = search avoids_rules depth 12

  pub complete_delivery-Avoids :
      (e i : Value) (g : String) → Kept (Delivery.complete_delivery e i g)
  unfolding Delivery.complete_delivery Delivery.acknowledge_and_mark key_eq
  complete_delivery-Avoids e i g = search avoids_rules depth 12

  pub schedule_retry-Avoids :
      (e i c : Value) (due : ℕ) (v : Value) → Kept (Retry.schedule_retry e i c due v)
  unfolding Retry.schedule_retry key_eq
  schedule_retry-Avoids e i c due v = search avoids_rules depth 14

  module _ (event i : Value) (g : String) (c : Value) where
    dead_letter-Avoids :
        (e n : Value) (fields : List (Field × Value))
        → Kept (Delivery.dead_letter event i g c e n fields)
    unfolding Delivery.dead_letter key_eq
    dead_letter-Avoids e n fields = search avoids_rules depth 12

    dead_letter_message-Avoids :
        (e n : Value) (pending : List StreamId) (messages : List Message)
        → Kept (Delivery.dead_letter_message event i g c e n pending messages)
    unfolding Delivery.dead_letter_message
    dead_letter_message-Avoids e n (p ∷ []) ((found, fields) ∷ []) =
        Avoids-if _ Avoids-fail (dead_letter-Avoids e n fields)
    dead_letter_message-Avoids e n _ _ = Avoids-fail

    dead_letter_event-Avoids :
        (tonumber : _) (e n : Option Value)
        → Kept (Delivery.dead_letter_event event i g c tonumber e n)
    unfolding Delivery.dead_letter_event
    dead_letter_event-Avoids tonumber (some e) (some n) =
        search (avoids_rules, dead_letter_message-Avoids) depth 9
    dead_letter_event-Avoids tonumber _ _ = Avoids-fail

    pub move_to_dead_letter-Avoids :
        (tonumber : _) → Kept (Delivery.move_to_dead_letter event i g c tonumber)
    unfolding Delivery.move_to_dead_letter
    move_to_dead_letter-Avoids tonumber = search (avoids_rules, dead_letter_event-Avoids) depth 20

  module _ (tonumber : List ℕ → Bool) (event : Value) where
    safe_status-Avoids : Kept (Retry.safe_status tonumber event)
    unfolding Retry.safe_status
    safe_status-Avoids = search avoids_rules depth 12

    safe_status_of-Avoids : (b : Bool) → Kept (Retry.safe_status_of tonumber event b)
    unfolding Retry.safe_status_of
    safe_status_of-Avoids true = safe_status-Avoids
    safe_status_of-Avoids false = Avoids-done

    mark_invalid-Avoids : (b : Bool) → Kept (Retry.mark_invalid tonumber event b)
    unfolding Retry.mark_invalid key_eq
    mark_invalid-Avoids true = search avoids_rules
    mark_invalid-Avoids false = Avoids-done

    remove_invalid_record-Avoids : Kept (Retry.remove_invalid_record tonumber event)
    unfolding Retry.remove_invalid_record key_eq
    remove_invalid_record-Avoids = Avoids-read tt λ status_type.
        Avoids-bind (safe_status_of-Avoids _) λ safe.
          Avoids-bind (mark_invalid-Avoids safe) λ marked. Avoids-write refl λ removed. Avoids-done

    module _ (g : String) where
      requeue-Avoids :
          (i : Value) (fields : List (Field × Value))
          → Kept (Retry.requeue tonumber event g i fields)
      unfolding Retry.requeue key_eq
      requeue-Avoids i fields = search avoids_rules depth 14

      release_message-Avoids :
          (i : Value) (pending : List StreamId) (messages : List Message)
          → Kept (Retry.release_message tonumber event g i pending messages)
      unfolding Retry.release_message
      release_message-Avoids i (p ∷ []) ((found, fields) ∷ []) =
          Avoids-if _ remove_invalid_record-Avoids (requeue-Avoids i fields)
      release_message-Avoids i _ _ = remove_invalid_record-Avoids

      release_scheduled-Avoids :
          (i : Option Value) → Kept (Retry.release_scheduled tonumber event g i)
      unfolding Retry.release_scheduled
      release_scheduled-Avoids none = remove_invalid_record-Avoids
      release_scheduled-Avoids (some i) =
          search (avoids_rules, remove_invalid_record-Avoids, release_message-Avoids) depth 9

      release_event-Avoids : Kept (Retry.release_event tonumber event g)
      unfolding Retry.release_event
      release_event-Avoids =
          search (avoids_rules, remove_invalid_record-Avoids, release_scheduled-Avoids) depth 14

  release_first-Avoids :
      (tonumber : _) (g : String) (events : List Value)
      → Kept (Retry.release_first tonumber g events)
  unfolding Retry.release_first
  release_first-Avoids tonumber g [] = Avoids-done
  release_first-Avoids tonumber g (event ∷ events) = release_event-Avoids tonumber event g

  pub release_due_retry-Avoids :
      (tonumber : _) (g : String) (now : ℕ) → Kept (Retry.release_due_retry tonumber g now)
  unfolding Retry.release_due_retry
  release_due_retry-Avoids tonumber g now = search (avoids_rules, release_first-Avoids) depth 14

  pending_disposition-Avoids :
      (e : Option Value) (i : Value) → Kept (Recovery.pending_disposition e i)
  unfolding Recovery.pending_disposition Recovery.disposition_of
  pending_disposition-Avoids none i = Avoids-done
  pending_disposition-Avoids (some e) i = search avoids_rules depth 16

  module _ (g consumer : String) (idle : ℕ) where
    claimed_or-Avoids :
        (i : StreamId) (d : Disposition) (claimed : List StreamId) (next : _)
        → Kept next
        → Kept (Recovery.claimed_or g consumer idle i d claimed next)
    unfolding Recovery.claimed_or
    claimed_or-Avoids i d (j ∷ []) next h = Avoids-done
    claimed_or-Avoids i d _ next h = h

    claim_unless_scheduled-Avoids :
        (i : StreamId) (d : Disposition) (next : _)
        → Kept next
        → Kept (Recovery.claim_unless_scheduled g consumer idle i d next)
    unfolding Recovery.claim_unless_scheduled key_eq
    claim_unless_scheduled-Avoids i Disposition.retry_scheduled next h = h
    claim_unless_scheduled-Avoids i d next h = search (avoids_rules, claimed_or-Avoids) depth 9

    claim_message-Avoids :
        (i : StreamId) (messages : List Message) (next : _)
        → Kept next
        → Kept (Recovery.claim_message g consumer idle i messages next)
    unfolding Recovery.claim_message
    claim_message-Avoids i ((found, fields) ∷ []) next h =
        Avoids-bind (pending_disposition-Avoids _ _) λ d. claim_unless_scheduled-Avoids i d next h
    claim_message-Avoids i _ next h = h

    claim_first-Avoids :
        (pending : List StreamId) → Kept (Recovery.claim_first g consumer idle pending)
    unfolding Recovery.claim_first
    claim_first-Avoids [] = Avoids-done
    claim_first-Avoids (i ∷ pending) =
        Avoids-read tt λ messages. claim_message-Avoids i messages _ (claim_first-Avoids pending)

    pub claim_stale_pending-Avoids : Kept (Recovery.claim_stale_pending g consumer idle)
    unfolding Recovery.claim_stale_pending
    claim_stale_pending-Avoids = search (avoids_rules, claim_first-Avoids) depth 9

  module _ (i : Value) (g : String) (why : QuarantineReason) where
    safe_event-Avoids : (e : Value) → Kept (Recovery.safe_event i g why e)
    unfolding Recovery.safe_event
    safe_event-Avoids e = search avoids_rules depth 16

    quarantine_safe_status-Avoids : (e : Option Value) → Kept (Recovery.safe_status i g why e)
    unfolding Recovery.safe_status
    quarantine_safe_status-Avoids none = Avoids-done
    quarantine_safe_status-Avoids (some e) =
        Avoids-if _ Avoids-done (Avoids-bind (safe_event-Avoids e) λ safe. Avoids-done)

    mark_quarantined-Avoids : (e : Option Value) → Kept (Recovery.mark_quarantined i g why e)
    unfolding Recovery.mark_quarantined key_eq
    mark_quarantined-Avoids none = Avoids-done
    mark_quarantined-Avoids (some e) = search avoids_rules

    isolate-Avoids :
        (pending : List StreamId) (messages : List Message)
        → Kept (Recovery.isolate i g why pending messages)
    unfolding Recovery.isolate key_eq
    isolate-Avoids (p ∷ []) ((found, fields) ∷ []) =
        Avoids-bind (quarantine_safe_status-Avoids _) λ safe. Avoids-write refl λ quarantine_id.
          Avoids-write refl λ acknowledged.
            Avoids-if _ Avoids-fail (Avoids-bind (mark_quarantined-Avoids safe) λ done. Avoids-done)
    isolate-Avoids _ _ = Avoids-fail

    pub quarantine_message-Avoids : Kept (Recovery.quarantine_message i g why)
    unfolding Recovery.quarantine_message
    quarantine_message-Avoids = search (avoids_rules, isolate-Avoids) depth 16

module _ (digest : List ℕ) where
  decide-Avoids :
      (fingerprint : Value) (stored first : Option Value)
      → Kept digest (Enqueue.decide fingerprint stored first)
  unfolding Enqueue.decide
  decide-Avoids fingerprint (some u) (some v) = Avoids-if _ Avoids-done Avoids-done
  decide-Avoids fingerprint _ _ = Avoids-fail

-- The idempotent enqueue, for a record of another key.
pub enqueue_idempotent-Avoids :
    (digest other : List ℕ) (event event_type payload fingerprint accepted_at_ms : Value)
    → same (Key.idempotency_key digest) (Key.idempotency_key other) ≡ false
    → Kept digest
        (Enqueue.enqueue_idempotent other event event_type payload fingerprint accepted_at_ms)
unfolding Enqueue.enqueue_idempotent Enqueue.decide_recorded Enqueue.create key_eq
enqueue_idempotent-Avoids digest other event event_type payload fingerprint accepted_at_ms h =
    search (avoids_rules, decide-Avoids) depth 16
