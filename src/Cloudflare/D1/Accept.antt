-- ===== src/Cloudflare/D1/Accept.antt =====
-- `accept`, `get_status` and `_load_payload_json` of cloudflare/src/hooklane_cf/d1.py.
use hooklane.Prelude.{
  ℕ, suc, Bool, false, not, ◌&&◌, Option, none, some, List, [], ◌∷◌, ◌++◌, ◌==◌, any, filter, take,
  if◌then◌else◌,
}
use hooklane.Cloudflare.Contract.{EventStatus, EventRequest}
use hooklane.Cloudflare.Contract.Chunks.{payload_chunk_limit_bytes, payload_json_chunks}
use hooklane.Cloudflare.Core.{idempotency_conflict, AcceptanceRecord}
use hooklane.Cloudflare.D1.Tables.{
  EventRow, ChunkRow, OutboxRow, OutboxState, Tables, has_event_id, has_key_hash, event_exists,
  outbox_exists,
}
use hooklane.Cloudflare.D1.World.{
  Action, Statement, now_ms, query, pure, raise, or_unavailable, or_value_error, gets, ◌>>=◌,
}

-- A unique key is taken; NULL never conflicts.
unfoldable pub key_taken : Option ℕ → Tables → Bool
key_taken none t = false
key_taken (some key) t = any (has_key_hash key) t.events

-- INSERT INTO events … ON CONFLICT(idempotency_key_hash) DO NOTHING; a taken id is an error.
unfoldable pub insert_event : Bool → EventRow → Tables → Option Tables
unfolding key_taken
insert_event id_checked_first row t =
    let id_taken = event_exists row.event_id t in
    if key_taken row.idempotency_key_hash t && not (id_checked_first && id_taken)
    then some t
    else if id_taken
    then none
    else some (record t { events = t.events ++ row ∷ [] })

abbrev pub has_chunk : ℕ → ℕ → ChunkRow → Bool
has_chunk id index r = r.event_id == id && r.chunk_index == index

-- INSERT INTO event_payload_chunks … WHERE EXISTS … ON CONFLICT DO NOTHING; `negative` is the index
-- -1 of the fault switch, which the CHECK of the table refuses.
unfoldable pub insert_chunk : Bool → ℕ → ℕ → List ℕ → Tables → Option Tables
insert_chunk negative id index chunk t =
    if event_exists id t
    then if negative
      then none
      else if any (has_chunk id index) t.chunks
      then some t
      else some (record t {
        chunks =
            t.chunks ++ record { event_id = id; chunk_index = index; payload_chunk = chunk } ∷ [];
      })
    else some t

-- The statements of the list comprehension, from `index` on.
unfoldable pub insert_chunks : Bool → ℕ → ℕ → List (List ℕ) → Tables → Option Tables
unfolding insert_chunk
insert_chunks fails id index [] t = some t
insert_chunks fails id index (chunk ∷ chunks) t =
    elim (insert_chunk (fails && index == 0) id index chunk t) [
      | none ↦ none
      | some t' ↦ insert_chunks fails id (suc index) chunks t'
    ]

abbrev pub new_outbox_row : ℕ → ℕ → OutboxRow
new_outbox_row id now = record {
  event_id = id;
  state = OutboxState.pending;
  send_attempt_count = 0;
  updated_at_ms = now;
  last_reason = none;
  claim_token = none;
  lease_until_ms = none;
}

-- INSERT INTO outbox … WHERE EXISTS … ON CONFLICT(event_id) DO NOTHING.
unfoldable pub insert_outbox : ℕ → ℕ → Tables → Tables
insert_outbox id now t =
    if event_exists id t && not (outbox_exists id t)
    then record t { outbox = t.outbox ++ new_outbox_row id now ∷ [] }
    else t

-- The SELECT at the end of the batch, by the key if there is one.
unfoldable pub lookup : ℕ → Option ℕ → Tables → List EventRow
lookup id none t = take 1 (filter (has_event_id id) t.events)
lookup id (some key) t = take 1 (filter (has_key_hash key) t.events)

abbrev pub new_event_row : ℕ → EventRequest → Option ℕ → ℕ → ℕ → EventRow
new_event_row id event key_hash fingerprint now = record {
  event_id = id;
  event_type = event.event_type;
  payload_json = [];
  status = EventStatus.queued;
  attempt_count = 0;
  request_fingerprint = fingerprint;
  idempotency_key_hash = key_hash;
  accepted_at_ms = now;
  updated_at_ms = now;
  last_reason = none;
  delivery_token = none;
  delivery_lease_until_ms = none;
}

-- The batch: one transaction.
unfoldable pub accept_batch : Bool → Bool → EventRow → List (List ℕ) → Statement (List EventRow)
unfolding insert_event insert_chunks insert_outbox lookup
accept_batch id_checked_first fails row chunks t = elim (insert_event id_checked_first row t) [
  | none ↦ none
  | some t₁ ↦ elim (insert_chunks fails row.event_id 0 chunks t₁) [
    | none ↦ none
    | some t₂ ↦
        let t₃ = insert_outbox row.event_id row.accepted_at_ms t₂ in
        some (lookup row.event_id row.idempotency_key_hash t₃, t₃)
  ]
]

-- `len(selected) != 1` raises.
unfoldable pub only_row : List EventRow → Option EventRow
only_row (row ∷ []) = some row
only_row _ = none

-- `key_hash is not None and stored_fingerprint != fingerprint`.
unfoldable pub conflicts : Option ℕ → ℕ → EventRow → Bool
conflicts none fingerprint row = false
conflicts (some key) fingerprint row = not (row.request_fingerprint == fingerprint)

unfoldable pub accepted : ℕ → Option ℕ → ℕ → EventRow → Action AcceptanceRecord
unfolding conflicts
accepted proposed key_hash fingerprint row =
    if conflicts key_hash fingerprint row
    then raise idempotency_conflict
    else pure (record {
      event_id = row.event_id;
      created = row.event_id == proposed;
      status = row.status;
      attempt_count = row.attempt_count;
    })

unfoldable pub accept : ℕ → EventRequest → Option ℕ → ℕ → Action AcceptanceRecord
unfolding accepted only_row accept_batch
accept proposed event key_hash fingerprint = do
  w ← gets (λ w. w)
  let row = new_event_row proposed event key_hash fingerprint (now_ms w)
  chunks ←
      or_value_error (payload_json_chunks payload_chunk_limit_bytes (w.env.dumps event.payload))
  selected ← query (accept_batch w.env.id_checked_first w.fail_payload_chunk row chunks)
  stored ← or_unavailable (only_row selected)
  accepted proposed key_hash fingerprint stored
