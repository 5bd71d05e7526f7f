-- ===== src/Hooklane/Worker/Rounds.antt =====
-- The parts of a round of `EventWorker.run_once` in src/hooklane/worker/service.py.
use hooklane.Prelude.{ℕ, Option, none, some, ◌≡◌, ap, ◌∙◌, sym}
use hooklane.Prelude.Outcome.{Outcome, ok, err}
use hooklane.Run.{Run}
use hooklane.Run.Returns.{bind-Returned}
use hooklane.Hooklane.Delivery.{Failure}
use hooklane.Hooklane.Worker.{
  QueuedEvent, WorkerResult, WorkerQueue, Settings, Worker, on_queue, clock, next, process,
  run_once,
}

-- What a round found, claimed or read, and how it went on from there: `before` is the worker when it
-- starts to process, with the clock and the sink of `w`.
pub record Round {Q : Type 0} (queue : WorkerQueue Q) (settings : Settings) (w w' : Worker Q)
    (result : WorkerResult) : Type 0 where
  pub claimed : Option QueuedEvent
  pub claiming : Worker Q
  pub found : Option QueuedEvent
  pub before : Worker Q
  pub received : next queue settings claimed claiming ≡ (ok found, before)
  pub processed : process queue settings found before ≡ (ok result, w')
  pub same_outside : before.outside ≡ w.outside
  pub same_deliveries : before.deliveries ≡ w.deliveries

module _ {Q : Type 0} where
  -- A worker with the sink of another one, as far as it was called.
  abbrev Alike : Worker Q → Worker Q → Type 0
  Alike w v = (v.outside ≡ w.outside) × (v.deliveries ≡ w.deliveries)

  on_queue-Alike :
      {A : Type 0} (m : Run Failure Q A) (w v : Worker Q) (o : Outcome Failure A)
      → on_queue m w ≡ (o, v)
      → Alike w v
  unfolding on_queue
  on_queue-Alike m w v o h = (ap (λ x. x.1.outside) (sym h), ap (λ x. x.1.deliveries) (sym h))

  clock-Alike : (w v : Worker Q) (o : Outcome Failure ℕ) → clock w ≡ (o, v) → Alike w v
  unfolding clock
  clock-Alike w v o h = (ap (λ x. x.1.outside) (sym h), ap (λ x. x.1.deliveries) (sym h))

  next-Alike :
      (queue : WorkerQueue Q) (settings : Settings) (claimed : Option QueuedEvent) (w v : Worker Q)
      (o : Outcome Failure (Option QueuedEvent))
      → next queue settings claimed w ≡ (o, v)
      → Alike w v
  unfolding next
  next-Alike queue settings none w v o h =
      on_queue-Alike (queue.read_next settings.group_name settings.consumer_name) w v o h
  next-Alike queue settings (some e) w v o h =
      (ap (λ x. x.1.outside) (sym h), ap (λ x. x.1.deliveries) (sym h))

  -- What the queue answered to a call of the worker.
  pub on_queue-answer :
      {A : Type 0} (m : Run Failure Q A) (w v : Worker Q) (o : Outcome Failure A)
      → on_queue m w ≡ (o, v)
      → m w.queue ≡ (o, v.queue)
  unfolding on_queue
  on_queue-answer m w v o h = ap (λ x. (x.0, x.1.queue)) h

  -- Without an event the result is `no_message`.
  pub without_event :
      (queue : WorkerQueue Q) (settings : Settings) (before w' : Worker Q) (result : WorkerResult)
      → process queue settings none before ≡ (ok result, w')
      → result ≡ WorkerResult.no_message
  unfolding process
  without_event queue settings before w' result h =
      ap (λ x. value_of x.0) (sym (bind-Returned _ _ before h).second)
    where
      value_of : Outcome Failure WorkerResult → WorkerResult
      value_of (ok x) = x
      value_of (err why) = result

  pub run_once-Round :
      (queue : WorkerQueue Q) (settings : Settings) (w w' : Worker Q) (result : WorkerResult)
      → run_once queue settings w ≡ (ok result, w')
      → Round queue settings w w' result
  unfolding run_once
  run_once-Round queue settings w w' result runs =
      let a = bind-Returned _ _ w runs in
      let b = bind-Returned _ _ a.state a.second in
      let c = bind-Returned _ _ b.state b.second in
      let d = bind-Returned _ _ c.state c.second in
      let e = bind-Returned _ _ d.state d.second in
      let ha =
        on_queue-Alike (queue.ensure_consumer_group settings.group_name) w a.state _ a.first in
      let hb = clock-Alike a.state b.state _ b.first in
      let hc =
        on_queue-Alike (queue.release_due_retry settings.group_name b.value) b.state c.state _
          c.first in
      let hd =
        on_queue-Alike
          (queue.claim_stale_pending settings.group_name settings.consumer_name
            settings.pending_idle_ms)
          c.state d.state _ d.first in
      let he = next-Alike queue settings d.value d.state e.state _ e.first in
      record {
        claimed = d.value;
        claiming = d.state;
        found = e.value;
        before = e.state;
        received = e.first;
        processed = e.second;
        same_outside = he.0 ∙ hd.0 ∙ hc.0 ∙ hb.0 ∙ ha.0;
        same_deliveries = he.1 ∙ hd.1 ∙ hc.1 ∙ hb.1 ∙ ha.1;
      }
