-- ===== src/Hooklane/Runtime.antt =====
-- `ServiceHealth` of src/hooklane/runtime.py and `WorkerRuntime` of src/hooklane/worker/runtime.py.
pub mod Drain
use hooklane.Prelude.{
  ℕ, ◌+◌, ◌-◌, Bool, true, false, not, ◌&&◌, Option, none, some, List, [], ◌∷◌, ltb, ◌==◌, any,
  if◌then◌else◌,
}
use hooklane.Prelude.Outcome.{Outcome, ok, err}
use hooklane.Run.{Run, pure, raise, attempt, ◌>>=◌, ◌>>◌}
use hooklane.Hooklane.Delivery.{Failure, event_store_unavailable}

pub record ServiceHealth : Type 0 where
  pub started : Bool
  pub dependency_ready : Bool
  pub shutting_down : Bool
  pub in_flight : ℕ
  pub drained : Bool

-- `ServiceHealth(started=…, dependency_ready=…)`.
unfoldable pub service_health : Bool → Bool → ServiceHealth
service_health started dependency_ready = record {
  started = started;
  dependency_ready = dependency_ready;
  shutting_down = false;
  in_flight = 0;
  drained = true;
}

unfoldable pub ready : ServiceHealth → Bool
ready h = h.started && h.dependency_ready && not h.shutting_down

unfoldable pub mark_started : Bool → ServiceHealth → ServiceHealth
mark_started dependency_ready h = record h { started = true; dependency_ready = dependency_ready }

unfoldable pub set_dependency_ready : Bool → ServiceHealth → ServiceHealth
set_dependency_ready is_ready h = record h { dependency_ready = is_ready }

unfoldable pub begin_work : ServiceHealth → Bool × ServiceHealth
unfolding ready
begin_work h =
    if ready h
    then (true, record h { in_flight = h.in_flight + 1; drained = false })
    else (false, h)

unfoldable pub finish_work : ServiceHealth → Outcome Failure (Unit {0}) × ServiceHealth
finish_work h = if ltb h.in_flight 1 then (err Failure.runtime_error, h) else (
  ok tt,
  record h {
    in_flight = h.in_flight - 1;
    drained = if h.in_flight - 1 == 0 then true else h.drained;
  },
)

unfoldable pub begin_shutdown : ServiceHealth → ServiceHealth
begin_shutdown h = record h { shutting_down = true }

-- `wait_for_drain`, from the states that the wait sees before its timeout.
unfoldable pub wait_for_drain : List ServiceHealth → Bool
wait_for_drain seen = any (λ h. h.drained) seen

-- A worker runtime: the state of its worker, and its health.
pub record WorkerRuntime (S : Type 0) : Type 0 where
  pub worker : S
  pub health : ServiceHealth

module _ {S : Type 0} where
  unfoldable pub report_startup :
      Outcome Failure (Unit {0}) → WorkerRuntime S → Outcome Failure Bool × WorkerRuntime S
  unfolding mark_started
  report_startup (ok done) r = (ok true, record r { health = mark_started true r.health })
  report_startup (err event_store_unavailable) r =
      (ok false, record r { health = mark_started false r.health })
  report_startup (err failure) r = (err failure, r)

  -- `startup`, on a worker whose queue has the method `ensure_consumer_group`.
  unfoldable pub startup : Run Failure S (Unit {0}) → Run Failure (WorkerRuntime S) Bool
  unfolding report_startup
  startup ensure_consumer_group r =
      let (outcome, s) = ensure_consumer_group r.worker in
      report_startup outcome (record r { worker = s })

  -- The `finally` of `run_once`: an exception of its own takes the place of the outcome.
  unfoldable pub finish_run :
      {A : Type 0}
      → Outcome Failure A
      → WorkerRuntime S
      → Outcome Failure (Option A) × WorkerRuntime S
  unfolding finish_work
  finish_run outcome r =
      let (finished, h) = finish_work r.health in
      elim finished [
        | err failure ↦ (err failure, record r { health = h })
        | ok done ↦ elim outcome [
          | ok result ↦ (ok (some result), record r { health = h })
          | err failure ↦ (err failure, record r { health = h })
        ]
      ]

  unfoldable pub run_begun :
      {A : Type 0}
      → Run Failure (WorkerRuntime S) A
      → Bool
      → Run Failure (WorkerRuntime S) (Option A)
  unfolding finish_run
  run_begun run false r = (ok none, r)
  run_begun run true r = let (outcome, r') = run r in finish_run outcome r'

  -- `run_once`; the worker's run may meet other calls on the health, so it is on the whole state.
  unfoldable pub run_once :
      {A : Type 0} → Run Failure (WorkerRuntime S) A → Run Failure (WorkerRuntime S) (Option A)
  unfolding begin_work run_begun
  run_once run r =
      let (begun, h) = begin_work r.health in run_begun run begun (record r { health = h })
