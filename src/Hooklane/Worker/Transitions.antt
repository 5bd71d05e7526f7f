-- ===== src/Hooklane/Worker/Transitions.antt =====
-- What the queue has made of the event when `EventWorker.run_once` of src/hooklane/worker/service.py
-- returns.
use hooklane.Prelude.{
  ℕ, String, Bool, true, false, Option, none, some, ◌≡◌, refl, Bool-cases, inl, inr,
}
use hooklane.Prelude.Outcome.{Outcome, ok, err}
use hooklane.Run.{Run, attempt, ◌>>=◌}
use hooklane.Run.Ensures.{Holds, Ensures, Ensures-pure, Ensures-raise, Ensures-bind, Ensures-state}
use hooklane.Hooklane.Delivery.{
  DeliveryErrorClass, Failure, event_store_unavailable, idempotency_conflict, value_error,
  runtime_error, other, delivery_failed, RetryPolicy, is_retryable, delay, should_dead_letter,
}
use hooklane.Hooklane.Worker.{
  QueuedEvent, WorkerResult, WorkerQueue, Settings, Reason, Observed, Worker, on_queue, observe,
  transitioned, refresh, finish, dead_letter, retry_after, leave_pending, retry_or_leave,
  dead_letter_or, handle_failure, complete, after_sink, process,
}

-- What a queue promises of an event after each of its three transitions.
pub record Transitions {Q : Type 0} (queue : WorkerQueue Q) (group_name : String)
    (Done : WorkerResult → QueuedEvent → Q → Type 0) : Type 0 where
  pub delivers :
      (e : QueuedEvent)
      → Ensures
          (λ q. Unit)
          (λ a q. Done WorkerResult.delivered e q)
          (queue.mark_delivered e group_name)
  pub retries :
      (e : QueuedEvent) (due : ℕ) (why : DeliveryErrorClass)
      → Ensures
          (λ q. Unit)
          (λ a q. Done WorkerResult.retry_scheduled e q)
          (queue.schedule_retry e due why)
  pub dead_letters :
      (e : QueuedEvent) (why : DeliveryErrorClass)
      → Ensures
          (λ q. Unit)
          (λ a q. Done WorkerResult.dead_lettered e q)
          (queue.move_to_dead_letter e group_name why)

-- The queue `q'` is `q` after the refresh of the metrics, if there is one.
abbrev pub Refreshed : {Q : Type 0} → String → Option (String → Run Failure Q Bool) → Q → Q → Type 0
Refreshed group_name none q q' = q' ≡ q
Refreshed group_name (some m) q q' = q' ≡ (m group_name q).1

module _ {Q : Type 0} (queue : WorkerQueue Q) (settings : Settings)
    (Done : WorkerResult → QueuedEvent → Q → Type 0)
    (transitions : Transitions queue settings.group_name Done) where
  -- What has been done to the event, before the metrics were refreshed.
  abbrev After : WorkerResult → QueuedEvent → Worker Q → Type 0
  After result e w =
      (q : Q) × Done result e q
      × Refreshed settings.group_name queue.refresh_queue_metrics q w.queue

  -- What a result says of the event of the round.
  abbrev pub Settled : QueuedEvent → WorkerResult → Worker Q → Type 0
  Settled e WorkerResult.no_message w = ⊥
  Settled e WorkerResult.failed_pending w = Unit
  Settled e WorkerResult.delivered w = After WorkerResult.delivered e w
  Settled e WorkerResult.retry_scheduled w = After WorkerResult.retry_scheduled e w
  Settled e WorkerResult.dead_lettered w = After WorkerResult.dead_lettered e w

  module _ (result : WorkerResult) (e : QueuedEvent)
      (settles : (w : Worker Q) → After result e w → Settled e result w) where
    observe-keeps :
        (observed : Observed) (n : ℕ) (reason : Reason)
        → Ensures
            (λ (w : Worker Q). Done result e w.queue)
            (λ a w. Done result e w.queue)
            (observe observed e n reason)
    unfolding observe
    observe-keeps observed n reason = Ensures-state _ (λ w p. p)

    refresh-After :
        (m : Option (String → Run Failure Q Bool))
        → Ensures
            (λ w. Done result e w.queue)
            (λ a w. (q : Q) × Done result e q × Refreshed settings.group_name m q w.queue)
            (refresh queue settings m)
    unfolding refresh on_queue
    refresh-After none = Ensures-pure tt (λ w p. (w.queue, p, refl))
    refresh-After (some m) =
        Ensures-bind
          {Q = λ b w. (q : Q) × Done result e q × (w.queue ≡ (m settings.group_name q).1)} _ _
          (Ensures-state _ (λ w p. (w.queue, p, refl))) λ b. Ensures-pure tt (λ w p. p)

    finish-Settled :
        (observed : Observed) (n : ℕ) (reason : Reason)
        → Ensures
            (λ w. Done result e w.queue)
            (Settled e)
            (finish queue settings observed e n reason result)
    unfolding finish
    finish-Settled observed n reason = Ensures-bind _ _ (observe-keeps observed n reason) λ a.
        Ensures-bind _ _ (refresh-After queue.refresh_queue_metrics)
          λ b. Ensures-pure result settles

  -- A transition of the queue, and its result.
  Moved : WorkerResult → QueuedEvent → Outcome Failure (Unit {0}) → Worker Q → Type 0
  Moved result e (ok done) w = Done result e w.queue
  Moved result e (err failure) w = Unit

  module _ (result : WorkerResult) (e : QueuedEvent)
      (settles : (w : Worker Q) → After result e w → Settled e result w) where
    attempt-Moved :
        (m : Run Failure Q (Unit {0}))
        → Ensures (λ q. Unit) (λ a q. Done result e q) m
        → Ensures (λ w. Unit) (Moved result e) (attempt (on_queue m))
    unfolding on_queue Moved
    attempt-Moved m h = record { at = λ w p. go w (m w.queue) (h.at w.queue tt) }
      where
        go :
            (w : Worker Q) (r : Outcome Failure (Unit {0}) × Q)
            → Holds (λ a q. Done result e q) r
            → Moved result e r.0 (record w { queue = r.1 })
        go w (ok done, q) h = h
        go w (err failure, q) h = tt

    transitioned-Moved :
        (n : ℕ) (moved : Outcome Failure (Unit {0}))
        → Ensures (Moved result e moved) (λ a w. Done result e w.queue) (transitioned e n moved)
    unfolding transitioned Moved
    transitioned-Moved n (ok done) = Ensures-pure tt (λ w p. p)
    transitioned-Moved n (err event_store_unavailable) =
        Ensures-bind {Q = λ a w. Unit} _ _ (Ensures-state _ (λ w p. tt)) (λ a. Ensures-raise _)
    transitioned-Moved n (err idempotency_conflict) = Ensures-raise _
    transitioned-Moved n (err value_error) = Ensures-raise _
    transitioned-Moved n (err runtime_error) = Ensures-raise _
    transitioned-Moved n (err other) = Ensures-raise _
    transitioned-Moved n (err (delivery_failed reason)) = Ensures-raise _

    moved-Settled :
        (m : Run Failure Q (Unit {0})) (observed : Observed) (n : ℕ) (reason : Reason)
        → Ensures (λ q. Unit) (λ a q. Done result e q) m
        → Ensures
            (λ w. Unit)
            (Settled e)
            (attempt (on_queue m) >>= λ moved.
              transitioned e n moved >>= λ done. finish queue settings observed e n reason result)
    moved-Settled m observed n reason h = Ensures-bind _ _ (attempt-Moved m h) λ moved.
        Ensures-bind _ _ (transitioned-Moved n moved)
          λ done. finish-Settled result e settles observed n reason

  -- A part of the round that only has to return.
  free : {A : Type 0} (m : Run Failure (Worker Q) A) → Ensures (λ w. Unit) (λ a w. Unit) m
  free m = Ensures-state m (λ w p. tt)

  module _ (e : QueuedEvent) (n : ℕ) where
    leave_pending-Settled :
        (why : DeliveryErrorClass)
        → Ensures (λ w. Unit) (Settled e) (leave_pending queue settings e n why)
    unfolding leave_pending finish
    leave_pending-Settled why =
        Ensures-bind _ _ (free _) λ a. Ensures-bind _ _ (free _) λ b. Ensures-pure _ (λ w p. tt)

    retry_after-Settled :
        (why : DeliveryErrorClass) (delayed : Outcome Failure ℕ)
        → Ensures (λ w. Unit) (Settled e) (retry_after queue settings e n why delayed)
    unfolding retry_after
    retry_after-Settled why (err failure) = Ensures-raise _
    retry_after-Settled why (ok delay_ms) = Ensures-bind _ _ (free _) λ now.
        moved-Settled WorkerResult.retry_scheduled e (λ w h. h) _ _ n _
          (transitions.retries e _ why)

    retry_or_leave-Settled :
        (policy : Option RetryPolicy) (why : DeliveryErrorClass)
        → Ensures (λ w. Unit) (Settled e) (retry_or_leave queue settings policy e n why)
    unfolding retry_or_leave
    retry_or_leave-Settled none why = leave_pending-Settled why
    retry_or_leave-Settled (some policy) why = record {
      at = λ w p. elim (Bool-cases (is_retryable why)) [
        | inl h ↦
            rw h
              ((retry_after-Settled why (delay policy (w.outside.jittered w.deliveries) n)).at w p)
        | inr h ↦ rw h ((leave_pending-Settled why).at w p)
      ];
    }

    dead_letter_or-Settled :
        (answer : Outcome Failure Bool) (why : DeliveryErrorClass)
        → Ensures (λ w. Unit) (Settled e) (dead_letter_or queue settings answer e n why)
    unfolding dead_letter_or dead_letter
    dead_letter_or-Settled (err failure) why = Ensures-raise _
    dead_letter_or-Settled (ok true) why =
        moved-Settled WorkerResult.dead_lettered e (λ w h. h) _ _ n _
          (transitions.dead_letters e why)
    dead_letter_or-Settled (ok false) why = retry_or_leave-Settled settings.retry_policy why

    handle_failure-Settled :
        (policy : Option ℕ) (why : DeliveryErrorClass)
        → Ensures (λ w. Unit) (Settled e) (handle_failure queue settings policy e n why)
    unfolding handle_failure
    handle_failure-Settled none why = dead_letter_or-Settled (ok false) why
    handle_failure-Settled (some maximum) why =
        dead_letter_or-Settled (should_dead_letter maximum why n) why

    after_sink-Settled :
        (outcome : Outcome Failure (Unit {0}))
        → Ensures (λ w. Unit) (Settled e) (after_sink queue settings e n outcome)
    unfolding after_sink complete
    after_sink-Settled (ok done) =
        moved-Settled WorkerResult.delivered e (λ w h. h) _ _ n _ (transitions.delivers e)
    after_sink-Settled (err (delivery_failed why)) =
        handle_failure-Settled settings.dead_letter_policy why
    after_sink-Settled (err event_store_unavailable) =
        Ensures-bind _ _ (free _) (λ a. Ensures-raise _)
    after_sink-Settled (err idempotency_conflict) = Ensures-bind _ _ (free _) (λ a. Ensures-raise _)
    after_sink-Settled (err value_error) = Ensures-bind _ _ (free _) (λ a. Ensures-raise _)
    after_sink-Settled (err runtime_error) = Ensures-bind _ _ (free _) (λ a. Ensures-raise _)
    after_sink-Settled (err other) = Ensures-bind _ _ (free _) (λ a. Ensures-raise _)

  pub process-Settled :
      (e : QueuedEvent) → Ensures (λ w. Unit) (Settled e) (process queue settings (some e))
  unfolding process
  process-Settled e = Ensures-bind _ _ (free _) λ n.
      Ensures-bind _ _ (free _)
        λ a. Ensures-bind _ _ (free _) λ outcome. after_sink-Settled e n outcome
