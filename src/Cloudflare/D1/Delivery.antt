-- ===== src/Cloudflare/D1/Delivery.antt =====
-- `mark_delivery_started`, `_update_terminal` and its callers of
-- cloudflare/src/hooklane_cf/d1.py.
use hooklane.Prelude.{
  ℕ, ◌+◌, String, Bool, true, false, ◌&&◌, ◌||◌, Option, none, some, map, ltb, leb, ◌==◌, filter,
  head?, length, if◌then◌else◌,
}
use hooklane.Cloudflare.Contract.{EventStatus}
use hooklane.Cloudflare.Core.{
  DeliveryErrorClass, persistence_unavailable, event_not_found, value_error, DeliveryStart,
  DeliveryStartDisposition, started, busy, terminal, EventRecord,
}
use hooklane.Cloudflare.D1.Tables.{
  EventRow, update_where, column_eq, is_terminal, is_waiting, is_delivering,
}
use hooklane.Cloudflare.D1.World.{Action, Statement, now_ms, uuid4, query, pure, raise, ◌>>=◌}
use hooklane.Cloudflare.D1.Payload.{load_record, select_event}

abbrev pub delivery_lease_ms : ℕ
delivery_lease_ms = 30000

-- `delivery_lease_until_ms IS NULL OR delivery_lease_until_ms <= now`.
abbrev pub lease_is_over : ℕ → Option ℕ → Bool
lease_is_over now none = true
lease_is_over now (some lease) = leb lease now

-- The WHERE clause of the claim.
unfoldable pub can_start : ℕ → ℕ → ℕ → EventRow → Bool
can_start id maximum now r =
    r.event_id == id
    && ((is_waiting r.status && ltb r.attempt_count maximum)
        || (is_delivering r.status
            && lease_is_over now r.delivery_lease_until_ms
            && leb r.attempt_count maximum))

-- The CASE of the claim: a delivery that is taken over at the maximum keeps its count.
unfoldable pub next_attempt : ℕ → EventRow → ℕ
next_attempt maximum r =
    if is_delivering r.status && ltb r.attempt_count maximum
    then r.attempt_count + 1
    else if is_delivering r.status
    then r.attempt_count
    else r.attempt_count + 1

unfoldable pub start_row : ℕ → ℕ → ℕ → EventRow → EventRow
unfolding next_attempt
start_row maximum token now r = record r {
  status = EventStatus.delivering;
  attempt_count = next_attempt maximum r;
  delivery_token = some token;
  delivery_lease_until_ms = some (now + delivery_lease_ms);
  updated_at_ms = now;
  last_reason = none;
}

-- UPDATE events … RETURNING, `first()`.
unfoldable pub start : ℕ → ℕ → ℕ → ℕ → Statement (Option EventRow)
unfolding can_start start_row
start id maximum token now t = some (
  head? (map (start_row maximum token now) (filter (can_start id maximum now) t.events)),
  record t {
    events = update_where (can_start id maximum now) (start_row maximum token now) t.events;
  },
)

abbrev pub disposed : DeliveryStartDisposition → EventRow → DeliveryStart
disposed disposition r = record {
  disposition = disposition;
  status = r.status;
  attempt_count = r.attempt_count;
  event_record = none;
  delivery_token = none;
}

abbrev pub claimed : ℕ → EventRow → EventRecord → DeliveryStart
claimed token r found = record {
  disposition = started;
  status = r.status;
  attempt_count = r.attempt_count;
  event_record = some found;
  delivery_token = some token;
}

-- The dead-letter transition of an event that has used up its attempts.
unfoldable pub is_exhausted : ℕ → ℕ → EventRow → Bool
is_exhausted id maximum r = r.event_id == id && is_waiting r.status && leb maximum r.attempt_count

abbrev pub exhaust_row : ℕ → EventRow → EventRow
exhaust_row now r = record r {
  status = EventStatus.dead_letter;
  updated_at_ms = now;
  last_reason = some "maximum_attempts";
}

unfoldable pub exhaust : ℕ → ℕ → ℕ → Statement Bool
unfolding is_exhausted
exhaust id maximum now t = some (
  length (filter (is_exhausted id maximum) t.events) == 1,
  record t { events = update_where (is_exhausted id maximum) (exhaust_row now) t.events },
)

-- The state that is read again after another claimant won.
unfoldable pub reread : Option EventRow → Action DeliveryStart
reread none = raise event_not_found
reread (some r) =
    if is_terminal r.status
    then pure (disposed terminal r)
    else if is_delivering r.status
    then pure (disposed busy r)
    else raise persistence_unavailable

unfoldable pub after_exhaust : ℕ → EventRow → Bool → Action DeliveryStart
unfolding reread select_event
after_exhaust id r true = pure (record (disposed terminal r) { status = EventStatus.dead_letter })
after_exhaust id r false = do current ← query (select_event id); reread current

-- The snapshot that is read where the claim changed no row.
unfoldable pub dispose : ℕ → ℕ → ℕ → Option EventRow → Action DeliveryStart
unfolding after_exhaust exhaust
dispose id maximum now none = raise event_not_found
dispose id maximum now (some r) =
    if is_terminal r.status
    then pure (disposed terminal r)
    else if is_delivering r.status
    then pure (disposed busy r)
    else if leb maximum r.attempt_count
    then (do won ← query (exhaust id maximum now); after_exhaust id r won)
    else raise persistence_unavailable

unfoldable pub after_start : ℕ → ℕ → ℕ → ℕ → Option EventRow → Action DeliveryStart
unfolding dispose load_record select_event
after_start id maximum token now none = do
  snapshot ← query (select_event id)
  dispose id maximum now snapshot
after_start id maximum token now (some r) = do
  found ← load_record id r
  pure (claimed token r found)

unfoldable pub mark_delivery_started : ℕ → ℕ → Action DeliveryStart
unfolding start after_start
mark_delivery_started id maximum w =
    if ltb maximum 1
    then raise value_error w
    else (do
      row ← query (start id maximum (uuid4 w) (now_ms w))
      after_start id maximum (uuid4 w) (now_ms w) row)
        w

-- The guard of `_update_terminal`.
unfoldable pub is_held_by : ℕ → ℕ → EventRow → Bool
is_held_by id token r =
    r.event_id == id && is_delivering r.status && column_eq r.delivery_token token

abbrev pub finish_row : EventStatus → Option String → ℕ → EventRow → EventRow
finish_row status reason now r = record r {
  status = status;
  updated_at_ms = now;
  last_reason = reason;
  delivery_token = none;
  delivery_lease_until_ms = none;
}

unfoldable pub finish : ℕ → EventStatus → Option String → ℕ → ℕ → Statement Bool
unfolding is_held_by
finish id status reason token now t = some (
  length (filter (is_held_by id token) t.events) == 1,
  record t { events = update_where (is_held_by id token) (finish_row status reason now) t.events },
)

unfoldable pub update_terminal : ℕ → EventStatus → Option String → ℕ → Action Bool
unfolding finish
update_terminal id status reason token w =
    if w.fail_delivery_transition
    then raise persistence_unavailable (record w { fail_delivery_transition = false })
    else query (finish id status reason token (now_ms w)) w

-- `reason.value`.
unfoldable pub reason_value : DeliveryErrorClass → String
reason_value DeliveryErrorClass.timeout = "timeout"
reason_value DeliveryErrorClass.connection = "connection_error"
reason_value DeliveryErrorClass.http_1xx = "http_1xx"
reason_value DeliveryErrorClass.http_3xx = "http_3xx"
reason_value DeliveryErrorClass.http_429 = "http_429"
reason_value DeliveryErrorClass.http_5xx = "http_5xx"
reason_value DeliveryErrorClass.http_4xx = "http_4xx"

unfoldable pub mark_delivered : ℕ → ℕ → Action Bool
unfolding update_terminal
mark_delivered id token = update_terminal id EventStatus.delivered none token

unfoldable pub mark_retry : ℕ → DeliveryErrorClass → ℕ → Action Bool
unfolding update_terminal reason_value
mark_retry id reason token =
    update_terminal id EventStatus.retry_scheduled (some (reason_value reason)) token

unfoldable pub mark_dead_letter : ℕ → DeliveryErrorClass → ℕ → Action Bool
unfolding update_terminal reason_value
mark_dead_letter id reason token =
    update_terminal id EventStatus.dead_letter (some (reason_value reason)) token
