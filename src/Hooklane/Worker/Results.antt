-- ===== src/Hooklane/Worker/Results.antt =====
-- What the results of `EventWorker.run_once` in src/hooklane/worker/service.py stand for.
use hooklane.Prelude.{
  ℕ, suc, ◌≤◌, ◌<◌, String, Bool, true, false, Option, none, some, ◌≡◌, refl, ap, ltb, arith,
  Bool-cases, ◌∙◌, sym, ◌⊎◌, inl, inr,
}
use hooklane.Prelude.Outcome.{Outcome, ok, err}
use hooklane.Run.{Run, attempt, ◌>>=◌}
use hooklane.Run.Returns.{bind-Returned}
use hooklane.Run.Ensures.{Ensures, Ensures-pure, Ensures-raise, Ensures-bind, Ensures-state}
use hooklane.Hooklane.Delivery.{
  DeliveryErrorClass, Failure, delivery_failed, event_store_unavailable, idempotency_conflict,
  value_error, runtime_error, other, RetryPolicy, is_retryable, should_dead_letter,
}
use hooklane.Hooklane.Worker.Rounds.{Round, run_once-Round, on_queue-answer}
use hooklane.Hooklane.Worker.{
  QueuedEvent, WorkerResult, WorkerQueue, Settings, Reason, Observed, Outside, Worker, on_queue,
  clock, observe, deliver, transitioned, refresh, finish, dead_letter, retry_after, retry_or_leave,
  dead_letter_or, handle_failure, complete, after_sink, process, run_once,
}

-- A result for an event at its attempt `n`, after `d` calls of the sink and `k` in the end, with at most
-- `maximum` attempts.
abbrev pub Explained : ℕ → Outside → ℕ → ℕ → WorkerResult → ℕ → Type 0
Explained maximum o d n WorkerResult.no_message k = ⊥
Explained maximum o d n WorkerResult.delivered k = (k ≡ suc d) × (o.deliver d ≡ ok tt)
Explained maximum o d n WorkerResult.failed_pending k = ⊥
Explained maximum o d n WorkerResult.retry_scheduled k =
    (reason : DeliveryErrorClass) × (k ≡ suc d)
    × (o.deliver d ≡ err (delivery_failed reason))
    × (is_retryable reason ≡ true)
    × (1 ≤ n)
    × (n < maximum)
Explained maximum o d n WorkerResult.dead_lettered k =
    (reason : DeliveryErrorClass) × (k ≡ suc d)
    × (o.deliver d ≡ err (delivery_failed reason))
    × (1 ≤ n)
    × ((is_retryable reason ≡ false) ⊎ (maximum ≤ n))

-- A round that found no event called no sink; for an event, the queue has counted the attempt.
abbrev pub ExplainedRound :
    {Q : Type 0}
    → WorkerQueue Q
    → ℕ
    → Worker Q
    → Worker Q
    → WorkerResult
    → Worker Q
    → Option QueuedEvent
    → Type 0
ExplainedRound queue maximum w w' result before none =
    (result ≡ WorkerResult.no_message) × (w'.deliveries ≡ w.deliveries)
ExplainedRound {Q} queue maximum w w' result before (some e) =
    (n : ℕ) × (q : Q) × (queue.mark_delivery_started e before.queue ≡ (ok n, q))
    × Explained maximum w.outside w.deliveries n result w'.deliveries

module _ {Q : Type 0} (queue : WorkerQueue Q) (settings : Settings) (maximum : ℕ)
    (policy : RetryPolicy) (dead_letters : settings.dead_letter_policy ≡ some maximum)
    (retries : settings.retry_policy ≡ some policy) (o : Outside) (d : ℕ) where
  abbrev Frames : ℕ → Worker Q → Type 0
  Frames k w = (w.outside ≡ o) × (w.deliveries ≡ k)

  abbrev Post : ℕ → WorkerResult → Worker Q → Type 0
  Post n result w = Explained maximum o d n result w.deliveries

  on_queue-Frames :
      {A : Type 0} (k : ℕ) (m : Run Failure Q A)
      → Ensures (Frames k) (λ a w. Frames k w) (on_queue m)
  unfolding on_queue
  on_queue-Frames k m = Ensures-state _ (λ w p. p)

  try_queue-Frames :
      {A : Type 0} (k : ℕ) (m : Run Failure Q A)
      → Ensures (Frames k) (λ a w. Frames k w) (attempt (on_queue m))
  unfolding on_queue
  try_queue-Frames k m = Ensures-state _ (λ w p. p)

  observe-Frames :
      (k : ℕ) (observed : Observed) (e : QueuedEvent) (n : ℕ) (reason : Reason)
      → Ensures (Frames k) (λ a w. Frames k w) (observe observed e n reason)
  unfolding observe
  observe-Frames k observed e n reason = Ensures-state _ (λ w p. p)

  clock-Frames : (k : ℕ) → Ensures (Frames k) (λ a w. Frames k w) clock
  unfolding clock
  clock-Frames k = Ensures-state _ (λ w p. p)

  refresh-Frames :
      (k : ℕ) (m : Option (String → Run Failure Q Bool))
      → Ensures (Frames k) (λ a w. Frames k w) (refresh queue settings m)
  unfolding refresh
  refresh-Frames k none = Ensures-pure tt (λ w p. p)
  refresh-Frames k (some m) =
      Ensures-bind _ _ (on_queue-Frames k (m settings.group_name)) (λ b. Ensures-pure tt (λ w p. p))

  transitioned-Frames :
      (k : ℕ) (e : QueuedEvent) (n : ℕ) (outcome : Outcome Failure (Unit {0}))
      → Ensures (Frames k) (λ a w. Frames k w) (transitioned e n outcome)
  unfolding transitioned
  transitioned-Frames k e n (ok done) = Ensures-pure tt (λ w p. p)
  transitioned-Frames k e n (err event_store_unavailable) =
      Ensures-bind _ _ (observe-Frames k _ e n _) (λ a. Ensures-raise _)
  transitioned-Frames k e n (err idempotency_conflict) = Ensures-raise _
  transitioned-Frames k e n (err value_error) = Ensures-raise _
  transitioned-Frames k e n (err runtime_error) = Ensures-raise _
  transitioned-Frames k e n (err other) = Ensures-raise _
  transitioned-Frames k e n (err (delivery_failed reason)) = Ensures-raise _

  finish-Post :
      (k : ℕ) (observed : Observed) (e : QueuedEvent) (n : ℕ) (reason : Reason)
      (result : WorkerResult)
      → Explained maximum o d n result k
      → Ensures (Frames k) (Post n) (finish queue settings observed e n reason result)
  unfolding finish
  finish-Post k observed e n reason result x =
      Ensures-bind _ _ (observe-Frames k observed e n reason) λ a.
        Ensures-bind _ _ (refresh-Frames k queue.refresh_queue_metrics)
          λ b. Ensures-pure result (λ w p. rw (p.1) x)

  -- A transition of the queue, and its result.
  moved-Post :
      (k : ℕ) (m : Run Failure Q (Unit {0})) (observed : Observed) (e : QueuedEvent) (n : ℕ)
      (reason : Reason) (result : WorkerResult)
      → Explained maximum o d n result k
      → Ensures (Frames k) (Post n) (
          attempt (on_queue m) >>= λ moved.
          transitioned e n moved >>= λ done. finish queue settings observed e n reason result)
  moved-Post k m observed e n reason result x = Ensures-bind _ _ (try_queue-Frames k m) λ moved.
      Ensures-bind _ _ (transitioned-Frames k e n moved)
        λ done. finish-Post k observed e n reason result x

  retry_after-Post :
      (e : QueuedEvent) (n : ℕ) (reason : DeliveryErrorClass) (delayed : Outcome Failure ℕ)
      → Explained maximum o d n WorkerResult.retry_scheduled (suc d)
      → Ensures (Frames (suc d)) (Post n) (retry_after queue settings e n reason delayed)
  unfolding retry_after
  retry_after-Post e n reason (err failure) x = Ensures-raise _
  retry_after-Post e n reason (ok delay_ms) x =
      Ensures-bind _ _ (clock-Frames (suc d)) λ now. moved-Post (suc d) _ _ e n _ _ x

  -- A failure that the dead-letter policy lets go on is retryable, and not the last.
  goes_on :
      (n : ℕ) (reason : DeliveryErrorClass)
      → should_dead_letter maximum reason n ≡ ok false
      → (is_retryable reason ≡ true) × (1 ≤ n) × (n < maximum)
  unfolding should_dead_letter
  goes_on n reason h = elim (Bool-cases (ltb n 1)) [
    | inl bad ↦ absurd (cc (rw bad at h))
    | inr good ↦ elim (Bool-cases (is_retryable reason)) [
      | inl retried ↦ (retried, ground arith, ground arith)
      | inr dropped ↦ absurd (ground arith)
    ]
  ]

  -- What it takes as final is at its last attempt, or not retryable.
  is_final :
      (n : ℕ) (reason : DeliveryErrorClass)
      → should_dead_letter maximum reason n ≡ ok true
      → (1 ≤ n) × ((is_retryable reason ≡ false) ⊎ (maximum ≤ n))
  unfolding should_dead_letter
  is_final n reason h = elim (Bool-cases (ltb n 1)) [
    | inl bad ↦ absurd (cc (rw bad at h))
    | inr good ↦ elim (Bool-cases (is_retryable reason)) [
      | inl retried ↦ (ground arith, inr (ground arith))
      | inr dropped ↦ (ground arith, inl dropped)
    ]
  ]

  dead_letter_or-Post :
      (e : QueuedEvent) (n : ℕ) (reason : DeliveryErrorClass) (answer : Outcome Failure Bool)
      → should_dead_letter maximum reason n ≡ answer
      → o.deliver d ≡ err (delivery_failed reason)
      → Ensures (Frames (suc d)) (Post n) (dead_letter_or queue settings answer e n reason)
  unfolding dead_letter_or dead_letter retry_or_leave
  dead_letter_or-Post e n reason (err failure) h f = Ensures-raise _
  dead_letter_or-Post e n reason (ok true) h f =
      moved-Post (suc d) _ _ e n _ _
        (let (counted, last) = is_final n reason h in (reason, refl, f, counted, last))
  dead_letter_or-Post e n reason (ok false) h f =
      let (again, counted, early) = goes_on n reason h in
      rw retries (record {
        at = λ w p.
            rw again
              ((retry_after-Post e n reason _ (reason, refl, f, again, counted, early)).at w p);
      })

  after_sink-Post :
      (e : QueuedEvent) (n : ℕ) (outcome : Outcome Failure (Unit {0}))
      → o.deliver d ≡ outcome
      → Ensures (Frames (suc d)) (Post n) (after_sink queue settings e n outcome)
  unfolding after_sink complete handle_failure
  after_sink-Post e n (ok done) h = moved-Post (suc d) _ _ e n _ _ (refl, h)
  after_sink-Post e n (err (delivery_failed reason)) h =
      rw dead_letters (dead_letter_or-Post e n reason (should_dead_letter maximum reason n) refl h)
  after_sink-Post e n (err event_store_unavailable) h =
      Ensures-bind _ _ (observe-Frames (suc d) _ e n _) (λ a. Ensures-raise _)
  after_sink-Post e n (err idempotency_conflict) h =
      Ensures-bind _ _ (observe-Frames (suc d) _ e n _) (λ a. Ensures-raise _)
  after_sink-Post e n (err value_error) h =
      Ensures-bind _ _ (observe-Frames (suc d) _ e n _) (λ a. Ensures-raise _)
  after_sink-Post e n (err runtime_error) h =
      Ensures-bind _ _ (observe-Frames (suc d) _ e n _) (λ a. Ensures-raise _)
  after_sink-Post e n (err other) h =
      Ensures-bind _ _ (observe-Frames (suc d) _ e n _) (λ a. Ensures-raise _)

  Delivered : Outcome Failure (Unit {0}) → Worker Q → Type 0
  Delivered outcome w = Frames (suc d) w × (o.deliver d ≡ outcome)

  deliver-Delivered : Ensures (Frames d) Delivered deliver
  unfolding deliver Delivered
  deliver-Delivered = record {
    at = λ w p.
        let count : suc w.deliveries ≡ suc d = ap suc (p.1) in
        let same : o.deliver d ≡ w.outside.deliver w.deliveries = rw (p.0) (rw (p.1) refl) in
        ((p.0, count), same);
  }

  attempt-Post :
      (e : QueuedEvent) (n : ℕ)
      → Ensures (Frames d) (Post n) (
          observe Observed.delivery_started e n Reason.uncoded >>= λ started.
          deliver >>= λ outcome. after_sink queue settings e n outcome)
  unfolding Delivered
  attempt-Post e n = Ensures-bind _ _ (observe-Frames d _ e n _) λ a.
      Ensures-bind _ _ deliver-Delivered
        λ outcome. record { at = λ w p. (after_sink-Post e n outcome p.1).at w p.0 }

  process-Explained :
      (w before w' : Worker Q) (result : WorkerResult) (found : Option QueuedEvent)
      → w.outside ≡ o
      → w.deliveries ≡ d
      → Frames d before
      → process queue settings found before ≡ (ok result, w')
      → ExplainedRound queue maximum w w' result before found
  unfolding process
  process-Explained w before w' result none ho hd frames h =
      let r = bind-Returned _ _ before h in
      let kept = rw r.first at ((refresh-Frames d queue.refresh_queue_metrics).at before frames) in
      (
        ap (λ x. value_of x.0) (sym r.second),
        ap (λ x. x.1.deliveries) (sym r.second) ∙ kept.1 ∙ sym hd,
      )
    where
      value_of : Outcome Failure WorkerResult → WorkerResult
      value_of (ok x) = x
      value_of (err why) = result
  process-Explained w before w' result (some e) ho hd frames h =
      let r = bind-Returned _ _ before h in
      let kept =
        rw r.first at ((on_queue-Frames d (queue.mark_delivery_started e)).at before frames) in
      (
        r.value,
        r.state.queue,
        on_queue-answer (queue.mark_delivery_started e) before r.state _ r.first,
        rw ho (rw hd (rw r.second at ((attempt-Post e r.value).at r.state kept))),
      )

-- With both policies, as the worker process sets them, and over any queue: a round that returns is
-- explained by what it found. Without an event it is `no_message` and calls no sink. For an event whose
-- attempt n the queue counted, the sink was called once: it accepted the event for `delivered`; for
-- `dead_lettered` it failed, and the failure is not retryable or n has reached the maximum; for
-- `retry_scheduled` it failed in a retryable way and n is below the maximum. No event is left pending.
pub run_once-Explained :
    {Q : Type 0} (queue : WorkerQueue Q) (settings : Settings) (maximum : ℕ) (policy : RetryPolicy)
    → settings.dead_letter_policy ≡ some maximum
    → settings.retry_policy ≡ some policy
    → (w w' : Worker Q) (result : WorkerResult) → run_once queue settings w ≡ (ok result, w')
    → (round : Round queue settings w w' result) × ExplainedRound queue maximum w w' result
        round.before round.found
run_once-Explained queue settings maximum policy dead_letters retries w w' result runs =
    let round = run_once-Round queue settings w w' result runs in
    (
      round,
      process-Explained queue settings maximum policy dead_letters retries w.outside w.deliveries w
          round.before w' result round.found refl refl (round.same_outside, round.same_deliveries)
          round.processed,
    )
