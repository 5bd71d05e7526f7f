-- ===== src/Cloudflare/D1/Accepted.antt =====
-- What `accept` of cloudflare/src/hooklane_cf/d1.py has stored when it returns.
pub mod Batch
use hooklane.Prelude.{ℕ, Bool, true, false, Option, some, List, ◌≡◌, any, Option-cases}
use hooklane.Prelude.Outcome.{Outcome, ok}
use hooklane.Cloudflare.Contract.{EventRequest}
use hooklane.Cloudflare.Core.{AcceptanceRecord}
use hooklane.Cloudflare.Core.{Error}
use hooklane.Cloudflare.Exec.{◌>>=◌}
use hooklane.Cloudflare.Contract.{EventStatus}
use hooklane.Cloudflare.Contract.Chunks.{payload_chunk_limit_bytes, payload_json_chunks}
use hooklane.Cloudflare.D1.Accepted.Batch.{IsNew, with_event}
use hooklane.Cloudflare.D1.Tables.{EventRow, Tables, has_event_id, outbox_exists, find_event}
use hooklane.Cloudflare.D1.World.{World, Action, Statement, now_ms, or_unavailable}
use hooklane.Cloudflare.D1.Accept.{
  accept_batch, only_row, accepted, insert_event, insert_chunks, new_event_row,
}
use hooklane.Cloudflare.D1.Invariant.{IsWellFormed}
use hooklane.Cloudflare.D1.Transitions.{seen}

-- What `accept` reports, and the tables after it, for an id that is new to the tables `t`: the event is
-- added with its payload, or the key has an event already.
pub data Stored (proposed : ℕ) (event : EventRequest) (key_hash : Option ℕ) (fingerprint now : ℕ)
    (payload : List ℕ) (t : Tables) : AcceptanceRecord → Tables → Type 0 where
  was_added :
      (chunks : List (List ℕ))
      → payload_json_chunks payload_chunk_limit_bytes payload ≡ some chunks
      → Stored proposed event key_hash fingerprint now payload t
          (record {
            event_id = proposed;
            created = true;
            status = EventStatus.queued;
            attempt_count = 0;
          })
          (with_event (new_event_row proposed event key_hash fingerprint now) chunks t)
  was_found :
      (key : ℕ) (row : EventRow)
      → key_hash ≡ some key
      → find_event row.event_id t.events ≡ some row
      → row.idempotency_key_hash ≡ some key
      → row.request_fingerprint ≡ fingerprint
      → outbox_exists row.event_id t ≡ true
      → Stored proposed event key_hash fingerprint now payload t
          (record {
            event_id = row.event_id;
            created = false;
            status = row.status;
            attempt_count = row.attempt_count;
          })
          t

-- A row that a filter gives first, of rows that satisfy `P`.
record IsPicked (P : EventRow → Type 0) (p : EventRow → Bool) (r : EventRow) (rows : List EventRow)
    : Type 0 where
  passes : p r ≡ true
  first : find_event r.event_id rows ≡ some r
  satisfies : P r

abbrev returned : AcceptanceRecord → World → Outcome Error AcceptanceRecord × World
returned x u = (ok x, u)

module _ (maximum proposed : ℕ) (event : EventRequest) (key_hash : Option ℕ) (fingerprint now : ℕ)
    (payload : List ℕ) (t : Tables) (well : IsWellFormed maximum t) (new : IsNew proposed t) where
  nothing : any (has_event_id proposed) t.events ≡ true → ⊥
  nothing h = absurd (cc (h, new.no_event))

-- The parts of an `accept` that returned.
record Ran (proposed : ℕ) (event : EventRequest) (key_hash : Option ℕ) (fingerprint : ℕ)
    (w w' : World) (result : AcceptanceRecord) : Type 0 where
  chunks : List (List ℕ)
  rows : List EventRow
  after : World
  row : EventRow
  last : World
  cut : payload_json_chunks payload_chunk_limit_bytes (w.env.dumps event.payload) ≡ some chunks
  batch :
      accept_batch w.env.id_checked_first w.fail_payload_chunk
        (new_event_row proposed event key_hash fingerprint (now_ms w))
        chunks
        (seen w)
      ≡ some (rows, after.tables)
  one : only_row rows ≡ some row
  same : after ≡ last
  reported : accepted proposed key_hash fingerprint row last ≡ (ok result, w')

module _ (proposed : ℕ) (event : EventRequest) (key_hash : Option ℕ) (fingerprint : ℕ)
    (w w' : World) (result : AcceptanceRecord) where
  abbrev batch_of : List (List ℕ) → Statement (List EventRow)
  batch_of chunks =
      accept_batch w.env.id_checked_first w.fail_payload_chunk
        (new_event_row proposed event key_hash fingerprint (now_ms w)) chunks

  abbrev report : List EventRow → Action AcceptanceRecord
  report rows = or_unavailable (only_row rows) >>= accepted proposed key_hash fingerprint
