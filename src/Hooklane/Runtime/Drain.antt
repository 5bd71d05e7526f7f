-- ===== src/Hooklane/Runtime/Drain.antt =====
-- When a service of src/hooklane/runtime.py takes work, and when it has drained.
use hooklane.Prelude.{ℕ, ◌+◌, ◌≤◌, Bool, true, false, List, [], ◌∷◌, ◌≡◌, refl, ◌∙◌, ◌==◌, arith}
use hooklane.Prelude.Outcome.{Outcome, ok, err}
use hooklane.Run.{Run}
use hooklane.Hooklane.Delivery.{Failure}
use hooklane.Hooklane.Runtime.{
  ServiceHealth, WorkerRuntime, service_health, ready, mark_started, set_dependency_ready,
  begin_work, finish_work, begin_shutdown, finish_run, run_begun, run_once,
}

-- A call of a method of `ServiceHealth`, by whichever task.
pub data HealthCall : Type 0 where
  call_mark_started call_set_dependency_ready : Bool → HealthCall
  call_begin_work call_finish_work call_begin_shutdown : HealthCall

unfoldable pub perform : HealthCall → ServiceHealth → ServiceHealth
perform (HealthCall.call_mark_started b) h = mark_started b h
perform (HealthCall.call_set_dependency_ready b) h = set_dependency_ready b h
perform HealthCall.call_begin_work h = (begin_work h).1
perform HealthCall.call_finish_work h = (finish_work h).1
perform HealthCall.call_begin_shutdown h = begin_shutdown h

unfoldable pub perform_all : List HealthCall → ServiceHealth → ServiceHealth
unfolding perform
perform_all [] h = h
perform_all (call ∷ calls) h = perform_all calls (perform call h)

abbrev pub IsConsistent : ServiceHealth → Type 0
IsConsistent h = h.drained ≡ (h.in_flight == 0)

perform-IsConsistent :
    (call : HealthCall) (h : ServiceHealth) → IsConsistent h → IsConsistent (perform call h)
unfolding perform mark_started set_dependency_ready begin_work finish_work begin_shutdown
perform-IsConsistent (HealthCall.call_mark_started b) h c = c
perform-IsConsistent (HealthCall.call_set_dependency_ready b) h c = c
perform-IsConsistent HealthCall.call_begin_work h c = ground arith
perform-IsConsistent HealthCall.call_finish_work h c = ground arith
perform-IsConsistent HealthCall.call_begin_shutdown h c = c

perform_all-IsConsistent :
    (calls : List HealthCall) (h : ServiceHealth)
    → IsConsistent h
    → IsConsistent (perform_all calls h)
unfolding perform_all
perform_all-IsConsistent [] h c = c
perform_all-IsConsistent (call ∷ calls) h c =
    perform_all-IsConsistent calls (perform call h) (perform-IsConsistent call h c)

-- Whatever calls are made on a new service, in whatever order: it counts as drained exactly while no
-- work is in flight.
pub drained_is_idle :
    (started dependency_ready : Bool) (calls : List HealthCall)
    → let h = perform_all calls (service_health started dependency_ready) in
      h.drained ≡ (h.in_flight == 0)
unfolding service_health
drained_is_idle started dependency_ready calls = perform_all-IsConsistent calls _ refl

shut_down_step :
    (call : HealthCall) (h : ServiceHealth)
    → h.shutting_down ≡ true
    → ((perform call h).shutting_down ≡ true) × ((perform call h).in_flight ≤ h.in_flight)
unfolding perform mark_started set_dependency_ready begin_work finish_work begin_shutdown ready
shut_down_step (HealthCall.call_mark_started b) h s = (s, omega arith)
shut_down_step (HealthCall.call_set_dependency_ready b) h s = (s, omega arith)
shut_down_step HealthCall.call_begin_work h s = (ground arith, ground arith)
shut_down_step HealthCall.call_finish_work h s = (ground arith, ground arith)
shut_down_step HealthCall.call_begin_shutdown h s = (refl, omega arith)

-- Once the shutdown has begun, no call begins work any more: whatever calls are made, in whatever
-- order, the work in flight only goes down, and the next `begin_work` is refused.
pub shutdown_takes_no_work :
    (calls : List HealthCall) (h : ServiceHealth)
    → h.shutting_down ≡ true
    → let h' = perform_all calls h in ((begin_work h').0 ≡ false) × (h'.in_flight ≤ h.in_flight)
unfolding perform_all begin_work ready
shutdown_takes_no_work [] h s = (ground arith, omega arith)
shutdown_takes_no_work (call ∷ calls) h s =
    let k = shut_down_step call h s in
    let rest = shutdown_takes_no_work calls (perform call h) k.0 in (rest.0, omega arith)

finish_run-in_flight :
    {S A : Type 0} (outcome : Outcome Failure A) (n : ℕ) (r : WorkerRuntime S)
    → r.health.in_flight ≡ n + 1
    → (finish_run outcome r).1.health.in_flight ≡ n
unfolding finish_run finish_work
finish_run-in_flight (ok result) n r e = ground arith
finish_run-in_flight (err failure) n r e = ground arith

counted : Bool → ℕ → ℕ
counted true n = n + 1
counted false n = n

begin_work-in_flight :
    (h : ServiceHealth) → (begin_work h).1.in_flight ≡ counted (begin_work h).0 h.in_flight
unfolding begin_work counted
begin_work-in_flight h = ground arith

run_begun-in_flight :
    {S A : Type 0} (run : Run Failure (WorkerRuntime S) A) (begun : Bool) (n : ℕ)
    (r : WorkerRuntime S)
    → ((t : WorkerRuntime S) → (run t).1.health.in_flight ≡ t.health.in_flight)
    → r.health.in_flight ≡ counted begun n
    → (run_begun run begun r).1.health.in_flight ≡ n
unfolding run_begun counted
run_begun-in_flight run false n r keeps e = e
run_begun-in_flight run true n r keeps e = finish_run-in_flight (run r).0 n (run r).1 (keeps r ∙ e)

-- A run of the worker that leaves the work in flight as it found it is counted while it runs and not
-- after it: whether it is refused, returns or raises, `run_once` leaves the work in flight as it was.
pub run_once_balances :
    {S A : Type 0} (run : Run Failure (WorkerRuntime S) A) (r : WorkerRuntime S)
    → ((t : WorkerRuntime S) → (run t).1.health.in_flight ≡ t.health.in_flight)
    → (run_once run r).1.health.in_flight ≡ r.health.in_flight
unfolding run_once
run_once_balances run r keeps =
    let (begun, h) = begin_work r.health in
    run_begun-in_flight run begun r.health.in_flight (record r { health = h }) keeps
      (begin_work-in_flight r.health)
