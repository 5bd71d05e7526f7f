-- ===== src/Cloudflare/Examples.antt =====
-- One event on its way through the store and the services, step by step: the theorems at a concrete
-- database, and tests of the definitions.
mod Witnesses
mod Tests
use hooklane.Prelude.{ℕ, suc, ◌+◌, ◌*◌, false, none, some, List, [], ◌∷◌, map}
use hooklane.Cloudflare.Contract.{EventStatus, JsonValue, Fields, EventRequest}
use hooklane.Cloudflare.D1.Tables.{EventRow, OutboxRow, OutboxState, Tables}
use hooklane.Cloudflare.D1.World.{Env, World, Answer}
use hooklane.Cloudflare.D1.History.{Operation, perform_all}
use hooklane.Cloudflare.Services.Setting.{Outside, Service, Sent}

-- Call `n` is answered, at 1000 + 10 n milliseconds, with the random id 100 + n.
abbrev pub env : Env
env = record {
  tick = λ n. record {
    now_ms = 1000 + 10 * n;
    uuid = 100 + n;
    others = λ t. t;
    answer = Answer.answered;
  };
  dumps = λ fields. 0x7b ∷ 0x7d ∷ [];
  loads = λ text. some (JsonValue.object Fields.end);
  id_checked_first = false;
}

abbrev pub no_tables : Tables
no_tables = record { events = []; chunks = []; outbox = [] }

abbrev pub empty_world : World
empty_world = record {
  env = env;
  calls = 0;
  tables = no_tables;
  fail_dispatch_transition = false;
  fail_payload_chunk = false;
  fail_delivery_transition = false;
}

abbrev pub event : EventRequest
event = record { event_type = 0x61 ∷ 0x62 ∷ []; payload = Fields.end }

-- Event 7, with the key 5 and the fingerprint 50.
abbrev pub accept_seven : Operation
accept_seven = Operation.op_accept 7 event (some 5) 50

abbrev pub accepted_row : EventRow
accepted_row = record {
  event_id = 7;
  event_type = 0x61 ∷ 0x62 ∷ [];
  payload_json = [];
  status = EventStatus.queued;
  attempt_count = 0;
  request_fingerprint = 50;
  idempotency_key_hash = some 5;
  accepted_at_ms = 1000;
  updated_at_ms = 1000;
  last_reason = none;
  delivery_token = none;
  delivery_lease_until_ms = none;
}

abbrev pub outbox_row : OutboxRow
outbox_row = record {
  event_id = 7;
  state = OutboxState.pending;
  send_attempt_count = 0;
  updated_at_ms = 1000;
  last_reason = none;
  claim_token = none;
  lease_until_ms = none;
}

abbrev pub accepted_world : World
accepted_world = record empty_world {
  calls = 1;
  tables = record {
    events = accepted_row ∷ [];
    chunks = record { event_id = 7; chunk_index = 0; payload_chunk = 0x7b ∷ 0x7d ∷ [] } ∷ [];
    outbox = outbox_row ∷ [];
  };
}

-- The third call claims the delivery, with the random id 102 as its token.
abbrev pub history : List Operation
history =
    accept_seven
    ∷ Operation.op_mark_dispatched 7 none
    ∷ Operation.op_mark_delivery_started 7 3
    ∷ Operation.op_mark_delivered 7 102
    ∷ []

abbrev pub outside : Outside
outside = record { send = λ n. Sent.confirmed; deliver = λ n. none; uniform = λ n low high. low }

abbrev pub service_of : World → Service World
service_of w = record {
  store = w;
  outside = outside;
  fail_send = false;
  sends = 0;
  deliveries = 0;
  messages = [];
  delivered = [];
  trace = [];
}

-- The row of event 7 after a claim at 1020 milliseconds with the token 102.
abbrev pub claimed_row : EventRow
claimed_row = record accepted_row {
  status = EventStatus.delivering;
  attempt_count = 1;
  updated_at_ms = 1020;
  delivery_token = some 102;
  delivery_lease_until_ms = some 31020;
}

abbrev pub claimed_tables : Tables
claimed_tables = record accepted_world.tables { events = claimed_row ∷ [] }

abbrev pub claimed_world : World
claimed_world = record accepted_world { tables = claimed_tables }

-- The world after the history.
abbrev pub delivered_row : EventRow
delivered_row = record accepted_row {
  status = EventStatus.delivered;
  attempt_count = 1;
  updated_at_ms = 1040;
}

abbrev pub delivered_world : World
delivered_world = record empty_world {
  calls = 5;
  tables = record accepted_world.tables {
    events = delivered_row ∷ [];
    outbox =
        record outbox_row { state = OutboxState.sent; send_attempt_count = 1; updated_at_ms = 1010 }
        ∷ [];
  };
}
