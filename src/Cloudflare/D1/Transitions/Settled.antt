-- ===== src/Cloudflare/D1/Transitions/Settled.antt =====
-- What the replies of the store in cloudflare/src/hooklane_cf/d1.py say of the database at the
-- moment they are given: an event that is reported as terminal is terminal in the table.
use hooklane.Prelude.{
  ℕ, String, Bool, true, false, Option, none, some, ◌≡◌, ◌≤◌, refl, leb, ltb, arith, Bool-cases,
  inl, inr, length, filter, ◌==◌,
}
use hooklane.Cloudflare.Contract.{EventStatus}
use hooklane.Cloudflare.Core.{DeliveryStart, DeliveryStartDisposition, EventRecord}
use hooklane.Run.Ensures.{
  Ensures, Ensures-pure, Ensures-raise, Ensures-if, Ensures-bind, Ensures-weaken, Holds-weaken,
  Holds-and,
}
use hooklane.Cloudflare.D1.Tables.{
  EventRow, Tables, is_terminal, is_delivering, find_event, update_where,
}
use hooklane.Cloudflare.D1.World.{World, query, now_ms, uuid4}
use hooklane.Cloudflare.D1.Payload.{select_event, load_record, load_if_found, get_status}
use hooklane.Cloudflare.D1.Delivery.{
  finish, finish_row, is_held_by, update_terminal, exhaust, exhaust_row, is_exhausted, reread,
  after_exhaust, dispose, after_start, start, mark_delivery_started,
}
use hooklane.Cloudflare.D1.Invariant.{IsUnique}
use hooklane.Cloudflare.D1.Invariant.Lookup.{passes, updated, find_event-update_where, changes_one}
use hooklane.Cloudflare.D1.Transitions.{seen, HasStatus, HasStatus-Evolves}
use hooklane.Cloudflare.D1.Transitions.Finish.{is_held_by-id}
use hooklane.Cloudflare.D1.Transitions.Sound.{
  IsSound, seen-IsWellFormed, Ensures-query, Keeps-IsSound, Holds-state,
}
use hooklane.Cloudflare.D1.Keeps.{Keeps-query}
use hooklane.Cloudflare.D1.Keeps.Statements.{start-KeepsTables, exhaust-KeepsTables}
use hooklane.Cloudflare.D1.Keeps.Operations.{load_record-Keeps}

-- A row that passed its test has the status of its change.
passed-status :
    (p : EventRow → Bool) (f : EventRow → EventRow) (status : EventStatus)
    → ((r : EventRow) → (f r).status ≡ status)
    → (o : Option EventRow) → passes p o ≡ true
    → (r : EventRow) × (updated p f o ≡ some r) × (r.status ≡ status)
passed-status p f status same none h = absurd (cc)
passed-status p f status same (some r) h = (f r, rw h, same r)

-- An UPDATE of one event that changed a row has given the event its status.
module _ (id : ℕ) (p : EventRow → Bool) (f : EventRow → EventRow) (status : EventStatus)
    (only : (r : EventRow) → p r ≡ true → r.event_id ≡ id)
    (same_id : (r : EventRow) → (f r).event_id ≡ r.event_id)
    (gives : (r : EventRow) → (f r).status ≡ status) where
  cas-HasStatus :
      (t : Tables)
      → IsUnique t.events
      → (length (filter p t.events) == 1) ≡ true
      → HasStatus id status (record t { events = update_where p f t.events })
  cas-HasStatus t unique won =
      let (r, found, has) =
        passed-status p f status gives (find_event id t.events)
          (rw (changes_one id p f only same_id t.events unique) at won) in
      record {
        row = r;
        found = rw (find_event-update_where id p f only same_id t.events) found;
        has_status = has;
      }

is_exhausted-id : (id limit : ℕ) (r : EventRow) → is_exhausted id limit r ≡ true → r.event_id ≡ id
unfolding is_exhausted
is_exhausted-id id limit r h = ground arith

-- What a start reports as terminal is terminal.
abbrev pub StartIsTrue : ℕ → DeliveryStart → World → Type 0
StartIsTrue id d w =
    d.disposition ≡ DeliveryStartDisposition.terminal
    → (HasStatus id d.status w.tables × (is_terminal d.status ≡ true))

abbrev pub Snapshot : ℕ → ℕ → Option EventRow → World → Type 0
Snapshot maximum id row w = IsSound maximum w × (find_event id w.tables.events ≡ row)

module _ (maximum : ℕ) where
  finish-HasStatus :
      (id : ℕ) (status : EventStatus) (reason : Option String) (token now : ℕ)
      → Ensures
          (IsSound maximum)
          (λ moved w. moved ≡ true → HasStatus id status w.tables)
          (query (finish id status reason token now))
  unfolding finish
  finish-HasStatus id status reason token now =
      Ensures-query (finish id status reason token now) λ w s moved.
        cas-HasStatus id (is_held_by id token) (finish_row status reason now) status
          (is_held_by-id id token) (λ r. refl) (λ r. refl) (seen w)
          (seen-IsWellFormed maximum w s).ids moved

  pub update_terminal-HasStatus :
      (id : ℕ) (status : EventStatus) (reason : Option String) (token : ℕ)
      → Ensures
          (IsSound maximum)
          (λ moved w. moved ≡ true → HasStatus id status w.tables)
          (update_terminal id status reason token)
  unfolding update_terminal
  update_terminal-HasStatus id status reason token = record {
    at = λ w s. elim (Bool-cases w.fail_delivery_transition) [
      | inl fails ↦ simp fails tt
      | inr works ↦ simp works ((finish-HasStatus id status reason token (now_ms w)).at w s)
    ];
  }

  select_event-Snapshot :
      (id : ℕ) → Ensures (IsSound maximum) (Snapshot maximum id) (query (select_event id))
  unfolding select_event
  select_event-Snapshot id =
      Ensures-query (select_event id)
        λ w s. (record { tables = seen-IsWellFormed maximum w s; rely = s.rely }, refl)

  -- What is read of a snapshot that is terminal.
  Snapshot-HasStatus :
      (id : ℕ) (r : EventRow) (w : World)
      → Snapshot maximum id (some r) w
      → HasStatus id r.status w.tables
  Snapshot-HasStatus id r w s = record { row = r; found = s.1; has_status = refl }

  reread-StartIsTrue :
      (id : ℕ) (row : Option EventRow)
      → Ensures (Snapshot maximum id row) (StartIsTrue id) (reread row)
  unfolding reread
  reread-StartIsTrue id none = Ensures-raise _
  reread-StartIsTrue id (some r) =
      Ensures-if (is_terminal r.status) _ _
        (λ ends. Ensures-pure _ (λ w s d. (Snapshot-HasStatus id r w s, ends)))
        (λ lives.
          Ensures-if (is_delivering r.status) _ _ (λ busy. Ensures-pure _ (λ w s d. absurd (cc)))
            (λ idle. Ensures-raise _))

  exhaust-HasStatus :
      (id limit now : ℕ)
      → Ensures
          (IsSound maximum)
          (λ won w.
            IsSound maximum w × (won ≡ true → HasStatus id EventStatus.dead_letter w.tables))
          (query (exhaust id limit now))
  unfolding exhaust
  exhaust-HasStatus id limit now = Ensures-query (exhaust id limit now) λ w s.
      let good = seen-IsWellFormed maximum w s in
      (
        record {
          tables = ((exhaust-KeepsTables id limit now maximum).at (seen w)).keeps good;
          rely = s.rely;
        },
        λ won.
            cas-HasStatus id (is_exhausted id limit) (exhaust_row now) EventStatus.dead_letter
              (is_exhausted-id id limit) (λ r. refl) (λ r. refl) (seen w) good.ids won,
      )

  after_exhaust-StartIsTrue :
      (id : ℕ) (r : EventRow) (won : Bool)
      → Ensures
          (λ w. IsSound maximum w × (won ≡ true → HasStatus id EventStatus.dead_letter w.tables))
          (StartIsTrue id)
          (after_exhaust id r won)
  unfolding after_exhaust
  after_exhaust-StartIsTrue id r true = Ensures-pure _ (λ w s d. (s.1 refl, refl))
  after_exhaust-StartIsTrue id r false =
      Ensures-bind _ _ (record { at = λ w s. (select_event-Snapshot id).at w s.0 })
        (reread-StartIsTrue id)

  dispose-StartIsTrue :
      (id limit now : ℕ) (row : Option EventRow)
      → Ensures (Snapshot maximum id row) (StartIsTrue id) (dispose id limit now row)
  unfolding dispose
  dispose-StartIsTrue id limit now none = Ensures-raise _
  dispose-StartIsTrue id limit now (some r) =
      Ensures-if (is_terminal r.status) _ _
        (λ ends. Ensures-pure _ (λ w s d. (Snapshot-HasStatus id r w s, ends)))
        (λ lives.
          Ensures-if (is_delivering r.status) _ _ (λ busy. Ensures-pure _ (λ w s d. absurd (cc)))
            (λ idle.
              Ensures-if (leb limit r.attempt_count) _ _
                (λ spent.
                  Ensures-bind _ _
                    (record { at = λ w s. (exhaust-HasStatus id limit now).at w s.0 })
                    (after_exhaust-StartIsTrue id r))
                (λ left. Ensures-raise _)))

  after_start-StartIsTrue :
      (id limit token now : ℕ) (row : Option EventRow)
      → Ensures (IsSound maximum) (StartIsTrue id) (after_start id limit token now row)
  unfolding after_start
  after_start-StartIsTrue id limit token now none =
      Ensures-bind _ _ (select_event-Snapshot id) (dispose-StartIsTrue id limit now)
  after_start-StartIsTrue id limit token now (some r) =
      Ensures-bind {Q = λ found w. Unit} _ _
        (Ensures-weaken (Keeps-IsSound maximum (load_record id r) (load_record-Keeps maximum id r))
          (λ found w s. tt))
        (λ found. Ensures-pure _ (λ w s d. absurd (cc)))

  -- An event that a start reports as terminal is delivered or dead-lettered in the table.
  pub mark_delivery_started-StartIsTrue :
      (id limit : ℕ)
      → limit ≤ maximum
      → Ensures (IsSound maximum) (StartIsTrue id) (mark_delivery_started id limit)
  unfolding mark_delivery_started
  mark_delivery_started-StartIsTrue id limit fits = record {
    at = λ w s. elim (Bool-cases (ltb limit 1)) [
      | inl bad ↦ simp bad tt
      | inr good ↦ simp good (
          (Ensures-bind (query (start id limit (uuid4 w) (now_ms w)))
              (after_start id limit (uuid4 w) (now_ms w))
              (Keeps-IsSound maximum _
                (Keeps-query _ (start-KeepsTables id limit (uuid4 w) (now_ms w) maximum fits)))
              (after_start-StartIsTrue id limit (uuid4 w) (now_ms w))).at
            w s)
    ];
  }

  load_record-status :
      (id : ℕ) (r : EventRow)
      → Ensures
          (λ w. Unit {0})
          (λ (found : EventRecord) w. found.status ≡ r.status)
          (load_record id r)
  unfolding load_record
  load_record-status id r =
      Ensures-bind {Q = λ a w. Unit} _ _ (record { at = λ w s. Holds-state (λ v. Unit) _ tt })
        λ text.
          Ensures-bind {Q = λ a w. Unit} _ _ (record { at = λ w s. tt })
            λ loads.
              Ensures-bind {Q = λ a w. Unit} _ _
                (record { at = λ w s. Holds-state (λ v. Unit) _ tt })
                λ payload.
                  Ensures-bind {Q = λ a w. Unit} _ _
                    (record { at = λ w s. Holds-state (λ v. Unit) _ tt })
                    λ event. Ensures-pure _ (λ w s. refl)

  -- A terminal status that is read holds in the table, also after the payload was read.
  abbrev pub StatusIsTrue : ℕ → Option EventRecord → World → Type 0
  StatusIsTrue id none w = Unit
  StatusIsTrue id (some found) w =
      is_terminal found.status ≡ true → HasStatus id found.status w.tables

  load_record-StatusIsTrue :
      (id : ℕ) (r : EventRow)
      → Ensures
          (Snapshot maximum id (some r))
          (λ found w. StatusIsTrue id (some found) w)
          (load_record id r)
  load_record-StatusIsTrue id r = record {
    at = λ w s.
        let kept = (load_record-Keeps maximum id r).at w s.0.rely in
        Holds-weaken _ _ (λ found v both ends. rw both.0 (both.1 (rw both.0 at ends)))
          (load_record id r w)
          (Holds-and _ _ (load_record id r w) ((load_record-status id r).at w tt) (
            Holds-state (λ v. is_terminal r.status ≡ true → HasStatus id r.status v.tables)
              (load_record id r w)
              (λ ends.
                HasStatus-Evolves id r.status w.tables _ ends (kept.evolves s.0.tables)
                  (Snapshot-HasStatus id r w s))));
  }

  load_if_found-StatusIsTrue :
      (id : ℕ) (row : Option EventRow)
      → Ensures (Snapshot maximum id row) (StatusIsTrue id) (load_if_found id row)
  unfolding load_if_found
  load_if_found-StatusIsTrue id none = Ensures-pure none (λ w s. tt)
  load_if_found-StatusIsTrue id (some r) =
      Ensures-bind _ _ (load_record-StatusIsTrue id r)
        (λ found. Ensures-pure (some found) (λ w s. s))

  pub get_status-StatusIsTrue :
      (id : ℕ) → Ensures (IsSound maximum) (StatusIsTrue id) (get_status id)
  unfolding get_status
  get_status-StatusIsTrue id =
      Ensures-bind _ _ (select_event-Snapshot id) (load_if_found-StatusIsTrue id)
