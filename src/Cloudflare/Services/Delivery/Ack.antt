-- ===== src/Cloudflare/Services/Delivery/Ack.antt =====
-- When `DeliveryService.process` in cloudflare/src/hooklane_cf/core.py lets a Queue message go.
use hooklane.Prelude.{ℕ, String, Bool, true, false, not, ◌||◌, Option, none, some, ◌≡◌, refl, leb}
use hooklane.Prelude.Outcome.{Outcome, ok, err}
use hooklane.Cloudflare.Contract.{EventStatus}
use hooklane.Cloudflare.Core.{
  Error, DeliveryErrorClass, DeliveryStart, DeliveryStartDisposition, EventRecord, is_retryable,
}
use hooklane.Cloudflare.D1.Tables.{is_terminal}
use hooklane.Cloudflare.Exec.{Exec, ◌>>=◌}
use hooklane.Run.Ensures.{Holds, Ensures, Ensures-pure, Ensures-raise, Ensures-if, Ensures-bind}
use hooklane.Cloudflare.Services.Setting.{EventStore, Service, on_store, emit}
use hooklane.Cloudflare.Services.Laws.{EventStoreLaws, StartStands, StatusStands}
use hooklane.Cloudflare.Services.Delivery.{
  ack, DeliveryResult, current_of, current_result, stale, after_delivered, after_dead_letter,
  schedule, after_retry, deliver, after_sink, run_attempt, begin, process,
}

module _ {W : Type 0} (store : EventStore W) (limit : ℕ) (Sound : W → Type 0)
    (Stands : ℕ → EventStatus → W → Type 0) (laws : EventStoreLaws store limit Sound Stands) where
  abbrev IsSoundHere : Service W → Type 0
  IsSoundHere s = Sound s.store

  -- An acknowledgement of the event is right.
  abbrev pub AckIsRight : ℕ → DeliveryResult → Service W → Type 0
  AckIsRight id result s =
      result.disposition ≡ ack
      → Stands id result.status s.store × (is_terminal result.status ≡ true)

  -- The trace is not part of the store.
  Ensures-emit :
      (P : W → Type 0) (Q : DeliveryResult → Service W → Type 0) (t : String) (id n : ℕ)
      (r : String) (k : Exec (Service W) DeliveryResult)
      → Ensures (λ s. P s.store) Q k
      → Ensures (λ s. P s.store) Q (emit t id n r >>= λ _. k)
  unfolding emit ◌>>=◌
  Ensures-emit P Q t id n r k h = record { at = λ s p. h.at _ p }

  Holds-on_store :
      {A : Type 0} (Q : A → W → Type 0) (s : Service W) (r : Outcome Error A × W)
      → Holds Q r
      → Holds (λ a (s' : Service W). Q a s'.store) (r.0, record s { store = r.1 })
  Holds-on_store Q s (ok a, w) h = h
  Holds-on_store Q s (err e, w) h = tt

  Ensures-on_store :
      {A : Type 0} {Q : A → W → Type 0} (m : Exec W A)
      → Ensures Sound Q m
      → Ensures IsSoundHere (λ a s. Q a s.store) (on_store m)
  unfolding on_store
  Ensures-on_store {Q} m h = record { at = λ s p. Holds-on_store Q s (m s.store) (h.at s.store p) }

  current_of-AckIsRight :
      (id : ℕ) (found : Option EventRecord)
      → Ensures
          (λ s. StatusStands Stands id found s.store)
          (AckIsRight id)
          (current_of store id found)
  unfolding current_of
  current_of-AckIsRight id none = Ensures-raise _
  current_of-AckIsRight id (some r) =
      Ensures-if (is_terminal r.status) _ _ (λ ends. Ensures-pure _ (λ s h a. (h ends, ends)))
        (λ lives. Ensures-pure _ (λ s h a. absurd (cc)))

  stale-AckIsRight :
      (id : ℕ) (r : EventRecord) → Ensures IsSoundHere (AckIsRight id) (stale store id r)
  unfolding stale current_result
  stale-AckIsRight id r = Ensures-emit Sound (AckIsRight id) _ _ _ _ _ (
      Ensures-bind _ _ (Ensures-on_store (store.get_status id) (laws.status id))
        (current_of-AckIsRight id))

  abbrev Moved : ℕ → EventStatus → Bool → W → Type 0
  Moved id status moved w = Sound w × (moved ≡ true → Stands id status w)

  after_delivered-AckIsRight :
      (id : ℕ) (r : EventRecord) (moved : Bool)
      → Ensures
          (λ s. Moved id EventStatus.delivered moved s.store)
          (AckIsRight id)
          (after_delivered store id r moved)
  unfolding after_delivered
  after_delivered-AckIsRight id r false = record { at = λ s p. (stale-AckIsRight id r).at s p.0 }
  after_delivered-AckIsRight id r true =
      Ensures-emit (Moved id EventStatus.delivered true) (AckIsRight id) _ _ _ _ _
        (Ensures-pure _ (λ s p a. (p.1 refl, refl)))

  after_dead_letter-AckIsRight :
      (id : ℕ) (r : EventRecord) (reason : DeliveryErrorClass) (moved : Bool)
      → Ensures
          (λ s. Moved id EventStatus.dead_letter moved s.store)
          (AckIsRight id)
          (after_dead_letter store id r reason moved)
  unfolding after_dead_letter
  after_dead_letter-AckIsRight id r reason false = record {
    at = λ s p. (stale-AckIsRight id r).at s p.0;
  }
  after_dead_letter-AckIsRight id r reason true =
      Ensures-emit (Moved id EventStatus.dead_letter true) (AckIsRight id) _ _ _ _ _
        (Ensures-pure _ (λ s p a. (p.1 refl, refl)))

  schedule-AckIsRight :
      (id : ℕ) (r : EventRecord) (reason : DeliveryErrorClass) (delay : Option ℕ)
      → Ensures IsSoundHere (AckIsRight id) (schedule store id r reason delay)
  unfolding schedule
  schedule-AckIsRight id r reason none = Ensures-raise _
  schedule-AckIsRight id r reason (some delay) =
      Ensures-emit Sound (AckIsRight id) _ _ _ _ _ (Ensures-pure _ (λ s p a. absurd (cc)))

  after_retry-AckIsRight :
      (id : ℕ) (r : EventRecord) (reason : DeliveryErrorClass) (moved : Bool)
      → Ensures
          (λ s. Moved id EventStatus.retry_scheduled moved s.store)
          (AckIsRight id)
          (after_retry store id r reason moved)
  unfolding after_retry
  after_retry-AckIsRight id r reason false = record { at = λ s p. (stale-AckIsRight id r).at s p.0 }
  after_retry-AckIsRight id r reason true = record {
    at = λ s p. (schedule-AckIsRight id r reason _).at s p.0;
  }

  after_sink-AckIsRight :
      (id : ℕ) (r : EventRecord) (token : ℕ) (failure : Option DeliveryErrorClass)
      → Ensures IsSoundHere (AckIsRight id) (after_sink store limit id r token failure)
  unfolding after_sink
  after_sink-AckIsRight id r token none =
      Ensures-bind _ _ (Ensures-on_store (store.mark_delivered id token) (laws.delivered id token))
        (after_delivered-AckIsRight id r)
  after_sink-AckIsRight id r token (some reason) =
      Ensures-if (not (is_retryable reason) || leb limit r.attempt_count) _ _
        (λ ends.
          Ensures-bind _ _
            (Ensures-on_store (store.mark_dead_letter id reason token)
              (laws.dead_letter id reason token))
            (after_dead_letter-AckIsRight id r reason))
        (λ again.
          Ensures-bind _ _
            (Ensures-on_store (store.mark_retry id reason token) (laws.retry id reason token))
            (after_retry-AckIsRight id r reason))

  run_attempt-AckIsRight :
      (id : ℕ) (r : Option EventRecord) (token : Option ℕ)
      → Ensures IsSoundHere (AckIsRight id) (run_attempt store limit id r token)
  unfolding run_attempt deliver
  run_attempt-AckIsRight id (some r) (some token) = Ensures-emit Sound (AckIsRight id) _ _ _ _ _ (
      Ensures-bind {Q = λ a s. IsSoundHere s} _ _ (record { at = λ s p. p })
        (after_sink-AckIsRight id r token))
  run_attempt-AckIsRight id (some r) none = Ensures-raise _
  run_attempt-AckIsRight id none token = Ensures-raise _

  begin-AckIsRight :
      (id : ℕ) (d : DeliveryStart) (disposition : DeliveryStartDisposition)
      → d.disposition ≡ disposition
      → Ensures
          (λ s. Sound s.store × StartStands Stands id d s.store)
          (AckIsRight id)
          (begin store limit id d disposition)
  unfolding begin
  begin-AckIsRight id d DeliveryStartDisposition.terminal e =
      Ensures-emit (λ w. Sound w × StartStands Stands id d w) (AckIsRight id) _ _ _ _ _
        (Ensures-pure _ (λ s p a. p.1 e))
  begin-AckIsRight id d DeliveryStartDisposition.busy e =
      Ensures-emit (λ w. Sound w × StartStands Stands id d w) (AckIsRight id) _ _ _ _ _
        (Ensures-pure _ (λ s p a. absurd (cc)))
  begin-AckIsRight id d DeliveryStartDisposition.started e = record {
    at = λ s p. (run_attempt-AckIsRight id d.event_record d.delivery_token).at s p.0;
  }

  pub process-AckIsRight : (id : ℕ) → Ensures IsSoundHere (AckIsRight id) (process store limit id)
  unfolding process
  process-AckIsRight id =
      Ensures-bind _ _ (Ensures-on_store (store.mark_delivery_started id limit) (laws.start id))
        (λ d. begin-AckIsRight id d d.disposition refl)
