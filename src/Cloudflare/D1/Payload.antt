-- ===== src/Cloudflare/D1/Payload.antt =====
-- `_load_payload_json` and `get_status` of cloudflare/src/hooklane_cf/d1.py.
use hooklane.Prelude.{
  ℕ, Option, none, some, List, [], ◌∷◌, ◌++◌, leb, ◌==◌, filter, head?, if◌then◌else◌,
}
use hooklane.Cloudflare.Contract.{event_request}
use hooklane.Cloudflare.Core.{EventRecord}
use hooklane.Cloudflare.D1.Tables.{EventRow, ChunkRow, has_event_id}
use hooklane.Cloudflare.D1.World.{Action, Statement, query, pure, or_unavailable, gets, ◌>>=◌}

-- ORDER BY chunk_index.
unfoldable pub insert_by_index : ChunkRow → List ChunkRow → List ChunkRow
insert_by_index r [] = r ∷ []
insert_by_index r (s ∷ rows) =
    if leb r.chunk_index s.chunk_index then r ∷ s ∷ rows else s ∷ insert_by_index r rows

unfoldable pub sort_by_index : List ChunkRow → List ChunkRow
unfolding insert_by_index
sort_by_index [] = []
sort_by_index (r ∷ rows) = insert_by_index r (sort_by_index rows)

unfoldable pub select_chunks : ℕ → Statement (List ChunkRow)
unfolding sort_by_index
select_chunks id t = some (sort_by_index (filter (λ r. r.event_id == id) t.chunks), t)

-- `"".join(chunks)`.
unfoldable pub join : List ChunkRow → List ℕ
join [] = []
join (r ∷ rows) = r.payload_chunk ++ join rows

-- The chunks if there are any, else the legacy column if it is not empty.
unfoldable pub payload_text : List ℕ → List ChunkRow → Option (List ℕ)
unfolding join
payload_text [] [] = none
payload_text (c ∷ legacy) [] = some (c ∷ legacy)
payload_text legacy (r ∷ rows) = some (join (r ∷ rows))

unfoldable pub load_payload_json : ℕ → List ℕ → Action (List ℕ)
unfolding select_chunks payload_text
load_payload_json id legacy = do
  rows ← query (select_chunks id)
  or_unavailable (payload_text legacy rows)

-- The record of a row whose payload is read and validated again.
unfoldable pub load_record : ℕ → EventRow → Action EventRecord
unfolding load_payload_json
load_record id row = do
  payload_json ← load_payload_json id row.payload_json
  loads ← gets (λ w. w.env.loads)
  payload ← or_unavailable (loads payload_json)
  event ← or_unavailable (event_request row.event_type payload)
  pure (record {
    event_id = id;
    event = event;
    status = row.status;
    attempt_count = row.attempt_count;
  })

-- SELECT … FROM events WHERE event_id = id LIMIT 1.
unfoldable pub select_event : ℕ → Statement (Option EventRow)
select_event id t = some (head? (filter (has_event_id id) t.events), t)

unfoldable pub load_if_found : ℕ → Option EventRow → Action (Option EventRecord)
unfolding load_record
load_if_found id none = pure none
load_if_found id (some row) = do found ← load_record id row; pure (some found)

unfoldable pub get_status : ℕ → Action (Option EventRecord)
unfolding select_event load_if_found
get_status id = do row ← query (select_event id); load_if_found id row
