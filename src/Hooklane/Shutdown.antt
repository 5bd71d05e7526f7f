-- ===== src/Hooklane/Shutdown.antt =====
-- `ShutdownCoordinator` of src/hooklane/runtime.py.
use hooklane.Prelude.{
  ℕ, zero, suc, Bool, true, false, Option, none, some, ◌≡◌, refl, ◌∙◌, ap, Bool-cases, inl, inr,
  if◌then◌else◌,
}
use hooklane.Prelude.Outcome.{Outcome, ok, err}
use hooklane.Run.{Run}

-- The coordinator, and the state that its callback works on.
pub record ShutdownCoordinator (S : Type 0) : Type 0 where
  pub requested : Bool
  pub state : S

-- A callback may raise; what it has done stays done.
abbrev pub call : {E S : Type 0} → Option (Run E S (Unit {0})) → Run E S (Unit {0})
call none s = (ok tt, s)
call (some on_shutdown) s = on_shutdown s

-- `self._event.set()`, if the callback returned.
abbrev pub set :
    {E S : Type 0} → Outcome E (Unit {0}) × S → Outcome E (Unit {0}) × ShutdownCoordinator S
set (ok done, s) = (ok tt, record { requested = true; state = s })
set (err e, s) = (err e, record { requested = false; state = s })

module _ {E S : Type 0} (on_shutdown : Option (Run E S (Unit {0}))) where
  unfoldable pub request : Run E (ShutdownCoordinator S) (Unit {0})
  request c = if c.requested then (ok tt, c) else set (call on_shutdown c.state)

  -- Signals that arrive one after the other; the loop goes on when a handler raises.
  unfoldable pub request_times : ℕ → ShutdownCoordinator S → ShutdownCoordinator S
  unfolding request
  request_times zero c = c
  request_times (suc n) c = request_times n (request c).1

  -- After a request that returned, another one does nothing.
  request_twice :
      (c : ShutdownCoordinator S)
      → (request c).0 ≡ ok tt
      → request (request c).1 ≡ (ok tt, (request c).1)
  unfolding request
  request_twice c h = elim (Bool-cases c.requested) [
    | inl e ↦ rw (e, request) refl
    | inr e ↦ rw (e, request) (done (call on_shutdown c.state) (rw (e, request) at h))
  ]
    where
      done :
          (r : Outcome E (Unit {0}) × S)
          → (set r).0 ≡ ok tt
          → (if (set r).1.requested
              then (ok tt, (set r).1)
              else set (call on_shutdown (set r).1.state))
            ≡ (ok tt, (set r).1)
      done (ok u, s) k = refl
      done (err e, s) k = absurd (cc)

-- However many signals arrive, they do what the first one did, if its callback did not raise: the
-- callback is called once.
pub request_once :
    {E S : Type 0} (on_shutdown : Option (Run E S (Unit {0}))) (n : ℕ) (c : ShutdownCoordinator S)
    → (request on_shutdown c).0 ≡ ok tt
    → request_times on_shutdown (suc n) c ≡ (request on_shutdown c).1
unfolding request_times
request_once on_shutdown zero c h = refl
request_once on_shutdown (suc n) c h =
    let twice = request_twice on_shutdown c h in
    request_once on_shutdown n (request on_shutdown c).1 (ap (λ x. x.0) twice) ∙ ap (λ x. x.1) twice
