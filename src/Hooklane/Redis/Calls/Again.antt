-- ===== src/Hooklane/Redis/Calls/Again.antt =====
-- A request that is made again, after any calls of any clients.
use mathlib.Core.Path.{subst}
use hooklane.Prelude.{
  ℕ, ◌≡◌, refl, ◌∙◌, ap, not, Bool, true, false, inl, inr, List, [], ◌∷◌, same, same_eq, Bool-cases,
  arith,
}
use hooklane.Prelude.Outcome.{Outcome, ok}
use hooklane.Hooklane.Redis.Values.{Key, key_eq, field_eq, value_eq, Value, Field}
use hooklane.Hooklane.Redis.Script.{Kind, RedisError, Redis, Script, eval}
use hooklane.Hooklane.Redis.Lua.{is_stream, is_none_or_stream, is_none_or_hash, is_hash}
use hooklane.Hooklane.Redis.Scripts.Enqueue.{
  Decision, decide, decide_recorded, enqueue_idempotent, record_fields,
}
use hooklane.Hooklane.Redis.Db.{Bytes, hash, lookup, kind_of}
use hooklane.Hooklane.Redis.Db.Commands.{Db, IsDocumented}
use hooklane.Hooklane.Redis.Db.Simulation.{eval-Agrees}
use hooklane.Hooklane.Redis.Db.Avoids.{Avoids, stays}
use hooklane.Hooklane.Redis.Db.Logic.{Ends, Ends-done, Ends-if, Ends-type, Ends-hget}
use hooklane.Hooklane.Redis.Db.Streams.{stays_stream}
use hooklane.Hooklane.Redis.Calls.Idempotency.{
  Decided, was_created, was_reused, was_conflict, was_refused, enqueue_idempotent-Decided,
}
use hooklane.Hooklane.Redis.Calls.Avoids.{
  enqueue-Avoids, enqueue_idempotent-Avoids, start_delivery-Avoids, complete_delivery-Avoids,
  schedule_retry-Avoids, release_due_retry-Avoids, claim_stale_pending-Avoids,
  quarantine_message-Avoids, move_to_dead_letter-Avoids,
}
use hooklane.Hooklane.Redis.Calls.{
  call_enqueue, call_enqueue_idempotent, call_start_delivery, call_complete_delivery,
  call_schedule_retry, call_release_due_retry, call_claim_stale_pending, call_quarantine_message,
  call_move_to_dead_letter, Call, perform, perform_all,
}

digest_of : Key → List ℕ
digest_of (Key.idempotency_key digest) = digest
digest_of _ = []

module _ (digest : List ℕ) (fields : List (Field × Value)) where
  -- The record stands, and so does the stream of events.
  record Recorded (db : Db) : Type 0 where
    stands : db.stored (Key.idempotency_key digest) ≡ hash fields
    has_stream : is_stream (kind_of (db.stored Key.stream_key)) ≡ true

  module _ {R : Type 0} {bytes : Bytes} {redis : Redis R} (d : IsDocumented bytes redis) where
    eval-Recorded :
        {A : Type 0} (m : Script A)
        → Avoids (Key.idempotency_key digest) m
        → (r : R) → Recorded (d.view r)
        → Recorded (d.view (eval redis m r).1)
    eval-Recorded m h r p = rw (eval-Agrees d m r).1 (record {
      stands = stays bytes (Key.idempotency_key digest) m h (d.view r) ∙ p.stands;
      has_stream = stays_stream bytes Key.stream_key m (d.view r) p.has_stream;
    })

    module _ (event event_type payload fingerprint accepted_at_ms : Value) where
      -- A decision for this very key.
      Decided-stands :
          {o : _} {db db' : Db}
          → Decided digest event event_type payload fingerprint accepted_at_ms db o db'
          → db.stored (Key.idempotency_key digest) ≡ hash fields
          → db'.stored (Key.idempotency_key digest) ≡ hash fields
      Decided-stands (was_created no_record no_status added status recorded) h = absurd (cc)
      Decided-stands (was_reused old first a b c) h = h
      Decided-stands (was_conflict old other first a b c e) h = h
      Decided-stands (was_refused e why) h = h

      -- The state after the idempotent enqueue with a key.
      abbrev after_enqueue : List ℕ → R → Db
      after_enqueue key r =
          d.view
            (eval redis (enqueue_idempotent key event event_type payload fingerprint accepted_at_ms)
              r).1

      same_key-Recorded : (r : R) → Recorded (d.view r) → Recorded (after_enqueue digest r)
      same_key-Recorded r p =
          let m = enqueue_idempotent digest event event_type payload fingerprint accepted_at_ms in
          record {
            stands =
                Decided-stands
                  (enqueue_idempotent-Decided d digest event event_type payload fingerprint
                    accepted_at_ms r)
                  p.stands;
            has_stream =
                rw (eval-Agrees d m r).1
                  (stays_stream bytes Key.stream_key m (d.view r) p.has_stream);
          }

      enqueue_idempotent-Recorded :
          (other : List ℕ) (r : R) → Recorded (d.view r) → Recorded (after_enqueue other r)
      unfolding digest_of
      enqueue_idempotent-Recorded other r p =
          elim (Bool-cases (same (Key.idempotency_key digest) (Key.idempotency_key other))) [
            | inl e ↦
                subst (λ key. Recorded (after_enqueue key r)) (ap digest_of (same_eq e))
                  (same_key-Recorded r p)
            | inr e ↦
                eval-Recorded _
                  (enqueue_idempotent-Avoids digest other event event_type payload fingerprint
                    accepted_at_ms e)
                  r p
          ]

    module _ (tonumber : List ℕ → Bool) where
      perform-Recorded :
          (c : Call) (r : R) → Recorded (d.view r) → Recorded (d.view (perform redis tonumber c r))
      unfolding perform
      perform-Recorded (call_enqueue e t p a) r h =
          eval-Recorded _ (enqueue-Avoids digest e t p a) r h
      perform-Recorded (call_enqueue_idempotent o e t p f a) r h =
          enqueue_idempotent-Recorded e t p f a o r h
      perform-Recorded (call_start_delivery e i) r h =
          eval-Recorded _ (start_delivery-Avoids digest e i) r h
      perform-Recorded (call_complete_delivery e i g) r h =
          eval-Recorded _ (complete_delivery-Avoids digest e i g) r h
      perform-Recorded (call_schedule_retry e i c due v) r h =
          eval-Recorded _ (schedule_retry-Avoids digest e i c due v) r h
      perform-Recorded (call_release_due_retry g now) r h =
          eval-Recorded _ (release_due_retry-Avoids digest tonumber g now) r h
      perform-Recorded (call_claim_stale_pending g c idle) r h =
          eval-Recorded _ (claim_stale_pending-Avoids digest g c idle) r h
      perform-Recorded (call_quarantine_message i g why) r h =
          eval-Recorded _ (quarantine_message-Avoids digest i g why) r h
      perform-Recorded (call_move_to_dead_letter e i g c) r h =
          eval-Recorded _ (move_to_dead_letter-Avoids digest e i g c tonumber) r h

      perform_all-Recorded :
          (calls : List Call) (r : R)
          → Recorded (d.view r)
          → Recorded (d.view (perform_all redis tonumber calls r))
      unfolding perform_all
      perform_all-Recorded [] r h = h
      perform_all-Recorded (c ∷ calls) r h =
          perform_all-Recorded calls (perform redis tonumber c r) (perform-Recorded c r h)

stream_fits : (k : Kind) → is_stream k ≡ true → not (is_none_or_stream k) ≡ true → ⊥
stream_fits k h n = ground arith

hash_fits : (k : Kind) → k ≡ Kind.hash_kind → not (is_none_or_hash k) ≡ true → ⊥
hash_fits k h n = ground arith

hash_is_hash : (k : Kind) → k ≡ Kind.hash_kind → is_hash k ≡ false → ⊥
hash_is_hash k h n = ground arith

-- The decision on a later request, by whether the fingerprints are the same.
abbrev pub decision_of : Bool → Decision
decision_of true = Decision.reused
decision_of false = Decision.conflict

abbrev answer : Decision × Value → Outcome RedisError (Decision × Value)
answer a = ok a

decision_of-is :
    (b c : Bool) (event : Value) → b ≡ c → answer (decision_of c, event) ≡ ok (decision_of b, event)
decision_of-is b c event h = rw h refl

module _ (digest : List ℕ) (event fingerprint : Value) where
  -- A request with the digest of a record.
  repeated_request :
      (bytes : Bytes) (later event_type payload print accepted_at_ms : Value) (db : Db)
      → Recorded digest (record_fields event fingerprint) db
      → Ends bytes
          (λ o db'. o ≡ ok (decision_of (same fingerprint print), event))
          (enqueue_idempotent digest later event_type payload print accepted_at_ms)
          db
  unfolding enqueue_idempotent decide_recorded decide lookup field_eq
  repeated_request bytes later event_type payload print accepted_at_ms db p = Ends-type (
      Ends-type (
        Ends-type (
          Ends-if _ (λ a. absurd (stream_fits _ p.has_stream a))
            λ a.
              Ends-if _ (λ b. absurd (hash_fits _ (ap kind_of p.stands) b))
                λ b.
                  Ends-if _
                    (λ c. Ends-hget _ p.stands (
                      Ends-hget _ p.stands (
                        Ends-if _ (λ e. Ends-done (decision_of-is _ true event e))
                          (λ e. Ends-done (decision_of-is _ false event e)))))
                    λ c. absurd (hash_is_hash _ (ap kind_of p.stands) c))))

  created-Recorded :
      (event_type payload accepted_at_ms : Value) (db db' : Db) (o : _)
      → Decided digest event event_type payload fingerprint accepted_at_ms db o db'
      → o ≡ ok (Decision.created, event)
      → Recorded digest (record_fields event fingerprint) db'
  created-Recorded t p a db db' o (was_created no_record no_status added status recorded) h =
      record { stands = recorded; has_stream = rw added refl }
  created-Recorded t p a db db' o (was_reused old first x y z) h = absurd (cc)
  created-Recorded t p a db db' o (was_conflict old other first x y z w) h = absurd (cc)
  created-Recorded t p a db db' o (was_refused e why) h = absurd (cc)

-- On any documented server: once a request with an idempotency key was created as an event, then after
-- any scripts of any clients a request with that key, whatever id is proposed for it, is answered with
-- the id of the first one: as reused if its fingerprint is that of the first request, and else as a
-- conflict.
pub idempotent_again :
    {R : Type 0} {bytes : Bytes} {redis : Redis R} (d : IsDocumented bytes redis)
    (tonumber : List ℕ → Bool) (digest : List ℕ)
    (event event_type payload fingerprint accepted_at_ms : Value) (r r' : R)
    → eval redis (enqueue_idempotent digest event event_type payload fingerprint accepted_at_ms) r
      ≡ (ok (Decision.created, event), r')
    → (calls : List Call) (later later_type later_payload print later_at_ms : Value)
    → (eval redis
        (enqueue_idempotent digest later later_type later_payload print later_at_ms)
        (perform_all redis tonumber calls r')).0
      ≡ ok (decision_of (same fingerprint print), event)
idempotent_again {bytes} d tonumber digest event event_type payload fingerprint accepted_at_ms r r'
      runs calls later later_type later_payload print later_at_ms =
    let decided =
      enqueue_idempotent-Decided d digest event event_type payload fingerprint accepted_at_ms r in
    let recorded =
      created-Recorded digest event fingerprint event_type payload accepted_at_ms (d.view r)
        (d.view r') _ (rw runs at decided) refl in
    let kept =
      perform_all-Recorded digest (record_fields event fingerprint) d tonumber calls r' recorded in
    let m = enqueue_idempotent digest later later_type later_payload print later_at_ms in
    let ends =
      repeated_request digest event fingerprint bytes later later_type later_payload print
        later_at_ms _ kept in
    (eval-Agrees d m (perform_all _ tonumber calls r')).0 ∙ ends.at
