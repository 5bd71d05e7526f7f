-- ===== src/Cloudflare/D1/Tables.antt =====
-- The tables of cloudflare/migrations/0001 to 0003 as lists of rows, and what an UPDATE does to a
-- table. A `uuid4().hex` is a number, a TEXT column that holds an id is that id.
pub mod Updates
use hooklane.Prelude.{
  ℕ, String, Bool, true, false, Option, none, some, List, [], ◌∷◌, any, filter, head?, ◌==◌,
  if◌then◌else◌,
}
use hooklane.Cloudflare.Contract.{EventStatus}

pub record EventRow : Type 0 where
  pub event_id : ℕ
  pub event_type : List ℕ
  pub payload_json : List ℕ
  pub status : EventStatus
  pub attempt_count : ℕ
  pub request_fingerprint : ℕ
  pub idempotency_key_hash : Option ℕ
  pub accepted_at_ms : ℕ
  pub updated_at_ms : ℕ
  pub last_reason : Option String
  pub delivery_token : Option ℕ
  pub delivery_lease_until_ms : Option ℕ

pub record ChunkRow : Type 0 where
  pub event_id : ℕ
  pub chunk_index : ℕ
  pub payload_chunk : List ℕ

pub data OutboxState : Type 0 where
  pending sent : OutboxState

pub record OutboxRow : Type 0 where
  pub event_id : ℕ
  pub state : OutboxState
  pub send_attempt_count : ℕ
  pub updated_at_ms : ℕ
  pub last_reason : Option String
  pub claim_token : Option ℕ
  pub lease_until_ms : Option ℕ

pub record Tables : Type 0 where
  pub events : List EventRow
  pub chunks : List ChunkRow
  pub outbox : List OutboxRow

-- UPDATE … SET f WHERE p.
abbrev pub update_where {ℓ} : {A : Type ℓ} → (A → Bool) → (A → A) → List A → List A
update_where p f [] = []
update_where p f (x ∷ xs) = (if p x then f x else x) ∷ update_where p f xs

-- SQL comparisons with a column that may be NULL: a comparison with NULL is not true.
abbrev pub is_null {ℓ} : {A : Type ℓ} → Option A → Bool
is_null none = true
is_null (some a) = false

abbrev pub column_eq : Option ℕ → ℕ → Bool
column_eq none v = false
column_eq (some c) v = c == v

-- `status IN ('delivered', 'dead_letter')`.
abbrev pub is_terminal : EventStatus → Bool
is_terminal EventStatus.delivered = true
is_terminal EventStatus.dead_letter = true
is_terminal _ = false

-- `status IN ('queued', 'retry_scheduled')`.
abbrev pub is_waiting : EventStatus → Bool
is_waiting EventStatus.queued = true
is_waiting EventStatus.retry_scheduled = true
is_waiting _ = false

abbrev pub is_delivering : EventStatus → Bool
is_delivering EventStatus.delivering = true
is_delivering _ = false

abbrev pub is_pending : OutboxState → Bool
is_pending OutboxState.pending = true
is_pending OutboxState.sent = false

abbrev pub has_event_id : ℕ → EventRow → Bool
has_event_id id r = r.event_id == id

abbrev pub has_key_hash : ℕ → EventRow → Bool
has_key_hash key r = column_eq r.idempotency_key_hash key

-- `EXISTS (SELECT 1 FROM events WHERE event_id = id)`.
abbrev pub event_exists : ℕ → Tables → Bool
event_exists id t = any (has_event_id id) t.events

abbrev pub outbox_exists : ℕ → Tables → Bool
outbox_exists id t = any (λ r. r.event_id == id) t.outbox

-- The row of an id.
abbrev pub find_event : ℕ → List EventRow → Option EventRow
find_event id rows = head? (filter (has_event_id id) rows)
