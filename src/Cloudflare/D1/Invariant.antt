-- ===== src/Cloudflare/D1/Invariant.antt =====
-- The invariant of the D1 tables, and how they may change: the contract that every operation of
-- cloudflare/src/hooklane_cf/d1.py keeps, and that it relies on while others work on the tables.
pub mod Lookup
pub mod Updates
use hooklane.Prelude.{
  ℕ, ◌≤◌, Bool, true, false, not, Option, none, some, List, [], ◌∷◌, ◌≡◌, refl, sym, All, Grows,
  Grows-refl, Grows-trans, any, ◌∙◌, ◌==◌, arith,
}
use hooklane.Cloudflare.Contract.{EventStatus}
use hooklane.Cloudflare.D1.Tables.{
  EventRow, ChunkRow, OutboxRow, OutboxState, Tables, is_null, is_terminal, is_delivering,
  is_pending, has_event_id, has_key_hash, event_exists, outbox_exists,
}

-- A row of `events`: at most `maximum` attempts, and a token and a lease exactly while it is being
-- delivered.
pub record EventRowIsValid (maximum : ℕ) (r : EventRow) : Type 0 where
  pub attempts : r.attempt_count ≤ maximum
  pub token : is_null r.delivery_token ≡ not (is_delivering r.status)
  pub lease : is_null r.delivery_lease_until_ms ≡ not (is_delivering r.status)

-- A row of `outbox`: a claim has a lease, and what was sent is not claimed.
pub record OutboxRowIsValid (r : OutboxRow) : Type 0 where
  pub lease : is_null r.lease_until_ms ≡ is_null r.claim_token
  pub unclaimed : is_pending r.state ≡ false → is_null r.claim_token ≡ true

-- No id is in the list twice.
abbrev pub IsUnique : List EventRow → Type 0
IsUnique [] = Unit
IsUnique (r ∷ rows) = (any (has_event_id r.event_id) rows ≡ false) × IsUnique rows

-- A key is in the list; NULL never is.
abbrev pub has_key : Option ℕ → List EventRow → Bool
has_key none rows = false
has_key (some key) rows = any (has_key_hash key) rows

-- No key is in the list twice.
abbrev pub HasUniqueKeys : List EventRow → Type 0
HasUniqueKeys [] = Unit
HasUniqueKeys (r ∷ rows) = (has_key r.idempotency_key_hash rows ≡ false) × HasUniqueKeys rows

abbrev pub has_outbox_id : ℕ → OutboxRow → Bool
has_outbox_id id r = r.event_id == id

-- No id is in the outbox twice.
abbrev pub IsUniqueOutbox : List OutboxRow → Type 0
IsUniqueOutbox [] = Unit
IsUniqueOutbox (r ∷ rows) = (any (has_outbox_id r.event_id) rows ≡ false) × IsUniqueOutbox rows

-- Ids and keys are unique, every event has its row of the outbox (none is accepted without the order to
-- dispatch it), and each row is valid.
pub record IsWellFormed (maximum : ℕ) (t : Tables) : Type 0 where
  pub events : All (EventRowIsValid maximum) t.events
  pub outbox : All OutboxRowIsValid t.outbox
  pub ids : IsUnique t.events
  pub keys : HasUniqueKeys t.events
  pub outbox_ids : IsUniqueOutbox t.outbox
  pub has_outbox : All (λ (r : EventRow). outbox_exists r.event_id t ≡ true) t.events

-- How a row of `events` may change: its request stays, its attempts are never taken back, a
-- terminal row is final, and no row is queued again.
pub record EventStep (r s : EventRow) : Type 0 where
  pub event_id : s.event_id ≡ r.event_id
  pub event_type : s.event_type ≡ r.event_type
  pub payload_json : s.payload_json ≡ r.payload_json
  pub fingerprint : s.request_fingerprint ≡ r.request_fingerprint
  pub key_hash : s.idempotency_key_hash ≡ r.idempotency_key_hash
  pub accepted_at_ms : s.accepted_at_ms ≡ r.accepted_at_ms
  pub attempts : r.attempt_count ≤ s.attempt_count
  pub is_final : is_terminal r.status ≡ true → s ≡ r
  pub not_requeued : s.status ≡ EventStatus.queued → r.status ≡ EventStatus.queued

-- How a row of `outbox` may change: what was sent stays as it is.
pub record OutboxStep (r s : OutboxRow) : Type 0 where
  pub event_id : s.event_id ≡ r.event_id
  pub attempts : r.send_attempt_count ≤ s.send_attempt_count
  pub is_final : is_pending r.state ≡ false → s ≡ r

-- Rows are added at the end and never deleted, and each changes by its steps; the chunks of a
-- payload do not change.
pub record Evolves (t u : Tables) : Type 0 where
  pub events : Grows EventStep t.events u.events
  pub chunks : Grows (λ (c d : ChunkRow). c ≡ d) t.chunks u.chunks
  pub outbox : Grows OutboxStep t.outbox u.outbox

pub EventStep-refl : (r : EventRow) → EventStep r r
EventStep-refl r = ground arith

pub EventStep-trans : (r s u : EventRow) → EventStep r s → EventStep s u → EventStep r u
EventStep-trans r s u h k = record {
  event_id = k.event_id ∙ h.event_id;
  event_type = k.event_type ∙ h.event_type;
  payload_json = k.payload_json ∙ h.payload_json;
  fingerprint = k.fingerprint ∙ h.fingerprint;
  key_hash = k.key_hash ∙ h.key_hash;
  accepted_at_ms = k.accepted_at_ms ∙ h.accepted_at_ms;
  attempts = omega arith;
  is_final = λ e. let same = h.is_final e in k.is_final (rw same e) ∙ same;
  not_requeued = λ e. h.not_requeued (k.not_requeued e);
}

pub OutboxStep-refl : (r : OutboxRow) → OutboxStep r r
OutboxStep-refl r = ground arith

pub OutboxStep-trans : (r s u : OutboxRow) → OutboxStep r s → OutboxStep s u → OutboxStep r u
OutboxStep-trans r s u h k = record {
  event_id = k.event_id ∙ h.event_id;
  attempts = omega arith;
  is_final = λ e. let same = h.is_final e in k.is_final (rw same e) ∙ same;
}

pub Evolves-refl : (t : Tables) → Evolves t t
Evolves-refl t = record {
  events = Grows-refl EventStep EventStep-refl t.events;
  chunks = Grows-refl (λ c d. c ≡ d) (λ c. refl) t.chunks;
  outbox = Grows-refl OutboxStep OutboxStep-refl t.outbox;
}

pub Evolves-trans : (t u v : Tables) → Evolves t u → Evolves u v → Evolves t v
Evolves-trans t u v h k = record {
  events = Grows-trans EventStep EventStep-trans t.events u.events v.events h.events k.events;
  chunks =
      Grows-trans (λ c d. c ≡ d) (λ x y z p q. p ∙ q) t.chunks u.chunks v.chunks h.chunks k.chunks;
  outbox = Grows-trans OutboxStep OutboxStep-trans t.outbox u.outbox v.outbox h.outbox k.outbox;
}

-- One step by the contract: well-formed tables evolve, and stay well-formed.
pub record Allowed (maximum : ℕ) (t u : Tables) : Type 0 where
  pub evolves : IsWellFormed maximum t → Evolves t u
  pub keeps : IsWellFormed maximum t → IsWellFormed maximum u

pub Allowed-refl : (maximum : ℕ) (t : Tables) → Allowed maximum t t
Allowed-refl maximum t = record { evolves = λ w. Evolves-refl t; keeps = λ w. w }

pub Allowed-trans :
    (maximum : ℕ) (t u v : Tables) → Allowed maximum t u → Allowed maximum u v → Allowed maximum t v
Allowed-trans maximum t u v h k = record {
  evolves = λ w. Evolves-trans t u v (h.evolves w) (k.evolves (h.keeps w));
  keeps = λ w. k.keeps (h.keeps w);
}
