-- ===== src/Cloudflare/Services/Acceptance/Counts.antt =====
-- The counts of `AcceptanceService.repair` in cloudflare/src/hooklane_cf/core.py, and its trace.
use hooklane.Prelude.{
  ℕ, suc, ◌+◌, String, Bool, true, false, List, [], ◌∷◌, ◌++◌, ◌≡◌, ◌∙◌, length, same, arith,
  Bool-cases, inl, inr, if◌then◌else◌,
}
use hooklane.Prelude.Outcome.{Outcome, ok, err}
use hooklane.Prelude.Equality.{string_eq}
use hooklane.Cloudflare.Core.{
  Error, persistence_unavailable, queue_send_unavailable, idempotency_conflict, event_not_found,
  value_error, sink_failure, OutboxRecord, outbox_lease_ms,
}
use hooklane.Cloudflare.Exec.{Exec, pure, attempt, ◌>>=◌}
use hooklane.Run.Ensures.{
  Ensures, Ensures-pure, Ensures-raise, Ensures-bind, Ensures-state, Ensures-weaken,
}
use hooklane.Cloudflare.Services.Setting.{EventStore, Service, TraceEntry, on_store, emit, send}
use hooklane.Cloudflare.Services.Acceptance.{
  report_repair, deferred_round, repair_sent, repair_one, repair_all, repair,
}

-- How many entries of the trace are of a transition.
unfoldable pub entries_of : String → List TraceEntry → ℕ
entries_of transition [] = 0
entries_of transition (e ∷ entries) =
    let rest = entries_of transition entries in
    if same e.transition transition then suc rest else rest

entries_of-append :
    (transition : String) (entries : List TraceEntry) (e : TraceEntry)
    → entries_of transition (entries ++ e ∷ [])
      ≡ entries_of transition entries + entries_of transition (e ∷ [])
unfolding entries_of
entries_of-append transition [] e = omega arith
entries_of-append transition (x ∷ entries) e =
    let rest = entries_of-append transition entries e in
    elim (Bool-cases (same x.transition transition)) [
      | inl h ↦ rw h (omega arith)
      | inr h ↦ rw h (omega arith)
    ]

module _ {W : Type 0} (store : EventStore W) (token : ℕ) (a b : ℕ) where
  -- The trace has an entry for each order that is counted so far.
  abbrev Traced : ℕ → ℕ → Service W → Type 0
  Traced repaired deferred s =
      (entries_of "repair_dispatched" s.trace ≡ a + repaired)
      × (entries_of "repair_deferred" s.trace ≡ b + deferred)

  -- After one more order.
  abbrev Counted : ℕ → ℕ × ℕ → Service W → Type 0
  Counted n counts s = Traced counts.0 counts.1 s × (counts.0 + counts.1 ≡ n)

  module _ (repaired deferred : ℕ) where
    abbrev One : ℕ × ℕ → Service W → Type 0
    One = Counted (repaired + deferred + 1)

    emit_dispatched :
        (id n : ℕ) (reason : String)
        → Ensures
            (Traced repaired deferred)
            (λ u s. Traced (repaired + 1) deferred s)
            (emit "repair_dispatched" id n reason)
    unfolding emit string_eq entries_of
    emit_dispatched id n reason = Ensures-state _ λ s t. (
      entries_of-append "repair_dispatched" s.trace _ ∙ (let h = t.0 in omega arith),
      entries_of-append "repair_deferred" s.trace _ ∙ (let h = t.1 in omega arith),
    )

    emit_deferred :
        (id n : ℕ) (reason : String)
        → Ensures
            (Traced repaired deferred)
            (λ u s. Traced repaired (deferred + 1) s)
            (emit "repair_deferred" id n reason)
    unfolding emit string_eq entries_of
    emit_deferred id n reason = Ensures-state _ λ s t. (
      entries_of-append "repair_dispatched" s.trace _ ∙ (let h = t.0 in omega arith),
      entries_of-append "repair_deferred" s.trace _ ∙ (let h = t.1 in omega arith),
    )

    deferred-One :
        (id n : ℕ) (reason : String)
        → Ensures
            (Traced repaired deferred)
            One
            (emit "repair_deferred" id n reason >>= λ u. pure (repaired, deferred + 1))
    deferred-One id n reason =
        Ensures-bind _ _ (emit_deferred id n reason) λ u. Ensures-pure _ (λ s t. (t, omega arith))

    report_repair-One :
        (r : OutboxRecord) (answer : Outcome Error Bool)
        → Ensures (Traced repaired deferred) One (report_repair store r repaired deferred answer)
    unfolding report_repair
    report_repair-One r (ok true) =
        Ensures-bind _ _ (emit_dispatched _ _ _) λ u. Ensures-pure _ (λ s t. (t, omega arith))
    report_repair-One r (ok false) = deferred-One _ _ _
    report_repair-One r (err persistence_unavailable) = deferred-One _ _ _
    report_repair-One r (err queue_send_unavailable) = Ensures-raise _
    report_repair-One r (err idempotency_conflict) = Ensures-raise _
    report_repair-One r (err event_not_found) = Ensures-raise _
    report_repair-One r (err value_error) = Ensures-raise _
    report_repair-One r (err (sink_failure c)) = Ensures-raise _

    deferred_round-One :
        (r : OutboxRecord) (answer : Outcome Error (Unit {0}))
        → Ensures (Traced repaired deferred) One (deferred_round store r repaired deferred answer)
    unfolding deferred_round
    deferred_round-One r (ok done) = deferred-One _ _ _
    deferred_round-One r (err persistence_unavailable) = deferred-One _ _ _
    deferred_round-One r (err queue_send_unavailable) = Ensures-raise _
    deferred_round-One r (err idempotency_conflict) = Ensures-raise _
    deferred_round-One r (err event_not_found) = Ensures-raise _
    deferred_round-One r (err value_error) = Ensures-raise _
    deferred_round-One r (err (sink_failure c)) = Ensures-raise _

    -- A call of the store, or of the Queue, leaves the trace as it is.
    called :
        {A : Type 0} (m : Exec W A)
        → Ensures
            (Traced repaired deferred)
            (λ x s. Traced repaired deferred s)
            (attempt (on_store m))
    unfolding on_store
    called m = Ensures-state _ (λ s t. t)

    send_called :
        (id : ℕ)
        → Ensures (Traced repaired deferred) (λ x s. Traced repaired deferred s) (attempt (send id))
    unfolding send
    send_called id =
        Ensures-state _ λ s t. elim (Bool-cases s.fail_send) [ inl h ↦ rw h t | inr h ↦ rw h t ]

    repair_sent-One :
        (r : OutboxRecord) (sent : Outcome Error (Unit {0}))
        → Ensures (Traced repaired deferred) One (repair_sent store token r repaired deferred sent)
    unfolding repair_sent
    repair_sent-One r (ok done) = Ensures-bind _ _ (called _) (report_repair-One r)
    repair_sent-One r (err queue_send_unavailable) =
        Ensures-bind _ _ (called _) (deferred_round-One r)
    repair_sent-One r (err persistence_unavailable) = Ensures-raise _
    repair_sent-One r (err idempotency_conflict) = Ensures-raise _
    repair_sent-One r (err event_not_found) = Ensures-raise _
    repair_sent-One r (err value_error) = Ensures-raise _
    repair_sent-One r (err (sink_failure c)) = Ensures-raise _

    repair_one-One :
        (r : OutboxRecord)
        → Ensures (Traced repaired deferred) One (repair_one store token r repaired deferred)
    unfolding repair_one
    repair_one-One r = Ensures-bind _ _ (send_called r.event_id) (repair_sent-One r)

  repair_all-Counted :
      (outboxes : List OutboxRecord) (repaired deferred : ℕ)
      → Ensures
          (Traced repaired deferred)
          (Counted (repaired + deferred + length outboxes))
          (repair_all store token outboxes repaired deferred)
  unfolding repair_all
  repair_all-Counted [] repaired deferred = Ensures-pure _ (λ s t. (t, omega arith))
  repair_all-Counted (r ∷ outboxes) repaired deferred =
      Ensures-bind _ _ (repair_one-One repaired deferred r) λ counts. record {
        at = λ s t.
            (Ensures-weaken (repair_all-Counted outboxes counts.0 counts.1)
                (λ c s' e. (e.0, let n = e.1 in let step = t.1 in omega arith))).at
              s t.0;
      }

-- A repair that returns has counted every order that it claimed exactly once, as repaired or as
-- deferred. The first count is the number of its entries `repair_dispatched` in the trace, and the
-- second one that of its entries `repair_deferred`.
pub repair_counts :
    {W : Type 0} (store : EventStore W) (limit token : ℕ) (s s' : Service W) (w : W)
    (outboxes : List OutboxRecord) (counts : ℕ × ℕ)
    → store.claim_outbox limit token outbox_lease_ms s.store ≡ (ok outboxes, w)
    → repair store limit token s ≡ (ok counts, s')
    → (counts.0 + counts.1 ≡ length outboxes)
      × (entries_of "repair_dispatched" s'.trace
          ≡ entries_of "repair_dispatched" s.trace + counts.0)
      × (entries_of "repair_deferred" s'.trace ≡ entries_of "repair_deferred" s.trace + counts.1)
unfolding repair on_store ◌>>=◌
repair_counts store limit token s s' w outboxes counts claims runs =
    let e =
      repair_all-Counted store token (entries_of "repair_dispatched" s.trace)
        (entries_of "repair_deferred" s.trace) outboxes 0 0 in
    let rest : repair_all store token outboxes 0 0 (record s { store = w }) ≡ (ok counts, s') =
      rw claims at runs in
    let total = rw rest at (e.at (record s { store = w }) (omega arith, omega arith)) in
    (let n = total.1 in omega arith, total.0.0, total.0.1)
