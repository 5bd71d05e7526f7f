-- ===== src/Cloudflare/D1/Keeps/Inserts.antt =====
-- The batch of `accept` in cloudflare/src/hooklane_cf/d1.py. Between its INSERTs the new event has
-- no row of the outbox: this file is about the first INSERT, `Batch` about the others.
use hooklane.Prelude.{
  ℕ, Bool, true, false, Option, none, some, List, [], ◌∷◌, ◌++◌, ◌≡◌, refl, All, All-map,
  All-append, Grows-refl, Grows-append, any, any-append, ◌==◌, arith, ◌⊎◌, inl, inr, if◌then◌else◌,
}
use hooklane.Cloudflare.D1.Tables.{EventRow, Tables, has_event_id, has_key_hash, outbox_exists}
use hooklane.Cloudflare.D1.Accept.{key_taken, insert_event}
use hooklane.Cloudflare.D1.Invariant.{
  EventRowIsValid, OutboxRowIsValid, IsUnique, HasUniqueKeys, has_key, IsUniqueOutbox, IsWellFormed,
  EventStep, OutboxStep, Evolves, EventStep-refl, OutboxStep-refl, Evolves-refl,
}

-- Well-formed, but for the outbox row of one event.
pub record IsOpenFor (maximum id : ℕ) (t : Tables) : Type 0 where
  pub events : All (EventRowIsValid maximum) t.events
  pub outbox : All OutboxRowIsValid t.outbox
  pub ids : IsUnique t.events
  pub keys : HasUniqueKeys t.events
  pub outbox_ids : IsUniqueOutbox t.outbox
  pub has_outbox :
      All
        (λ (r : EventRow). (r.event_id == id) ≡ false → outbox_exists r.event_id t ≡ true)
        t.events

IsUnique-append :
    (row : EventRow) (rows : List EventRow)
    → IsUnique rows
    → any (has_event_id row.event_id) rows ≡ false
    → IsUnique (rows ++ row ∷ [])
IsUnique-append row [] u h = (refl, tt)
IsUnique-append row (r ∷ rows) u h = (
  rw (any-append (has_event_id r.event_id) rows (row ∷ [])) (ground arith),
  IsUnique-append row rows u.1 (ground arith),
)

has_key-append :
    (key : Option ℕ) (rows : List EventRow) (row : EventRow)
    → has_key key (rows ++ row ∷ []) ≡ (if has_key key rows then true else has_key key (row ∷ []))
has_key-append none rows row = refl
has_key-append (some key) rows row = any-append (has_key_hash key) rows (row ∷ [])

has_key-nil : (key : Option ℕ) → has_key key [] ≡ false
has_key-nil none = refl
has_key-nil (some key) = refl

-- Two rows, of which neither holds the other's key.
keys_apart :
    (key : Option ℕ) (r row : EventRow) (rows : List EventRow)
    → row.idempotency_key_hash ≡ key
    → has_key key (r ∷ rows) ≡ false
    → (has_key key rows ≡ false) × (has_key r.idempotency_key_hash (row ∷ []) ≡ false)
keys_apart none r row rows e h = ground arith
keys_apart (some key) r row rows e h = ground arith

HasUniqueKeys-append :
    (row : EventRow) (rows : List EventRow)
    → HasUniqueKeys rows
    → has_key row.idempotency_key_hash rows ≡ false
    → HasUniqueKeys (rows ++ row ∷ [])
HasUniqueKeys-append row [] u h = (has_key-nil row.idempotency_key_hash, tt)
HasUniqueKeys-append row (r ∷ rows) u h =
    let apart = keys_apart row.idempotency_key_hash r row rows refl h in
    (
      rw (has_key-append r.idempotency_key_hash rows row) (rw (u.0) (apart.1)),
      HasUniqueKeys-append row rows u.1 apart.0,
    )

key_taken-eq-has_key : (key : Option ℕ) (t : Tables) → key_taken key t ≡ has_key key t.events
unfolding key_taken
key_taken-eq-has_key none t = refl
key_taken-eq-has_key (some key) t = refl

-- What the first INSERT did: nothing, or it put a new id and a new key at the end.
insert_event_cases :
    (first : Bool) (row : EventRow) (t u : Tables)
    → insert_event first row t ≡ some u
    → (u ≡ t)
      ⊎ ((any (has_event_id row.event_id) t.events ≡ false)
          × (has_key row.idempotency_key_hash t.events ≡ false)
          × (u ≡ record t { events = t.events ++ row ∷ [] }))
unfolding insert_event
insert_event_cases first row t u h = ground (arith, key_taken-eq-has_key row.idempotency_key_hash t)

module _ (maximum : ℕ) (row : EventRow) (valid : EventRowIsValid maximum row) where
  open_before : (t : Tables) → IsWellFormed maximum t → IsOpenFor maximum row.event_id t
  open_before t w = record {
    events = w.events;
    outbox = w.outbox;
    ids = w.ids;
    keys = w.keys;
    outbox_ids = w.outbox_ids;
    has_outbox = All-map _ _ t.events (λ r h e. h) w.has_outbox;
  }

  open_appended :
      (t : Tables)
      → IsWellFormed maximum t
      → any (has_event_id row.event_id) t.events ≡ false
      → has_key row.idempotency_key_hash t.events ≡ false
      → IsOpenFor maximum row.event_id (record t { events = t.events ++ row ∷ [] })
  open_appended t w new_id new_key = record {
    events = All-append (EventRowIsValid maximum) t.events (row ∷ []) w.events (valid, tt);
    outbox = w.outbox;
    ids = IsUnique-append row t.events w.ids new_id;
    keys = HasUniqueKeys-append row t.events w.keys new_key;
    outbox_ids = w.outbox_ids;
    has_outbox =
        All-append _ t.events (row ∷ []) (All-map _ _ t.events (λ r h e. h) w.has_outbox)
          (λ e. ground arith, tt);
  }

  pub insert_event-IsOpenFor :
      (first : Bool) (t u : Tables)
      → insert_event first row t ≡ some u
      → IsWellFormed maximum t
      → IsOpenFor maximum row.event_id u
  insert_event-IsOpenFor first t u h w = elim (insert_event_cases first row t u h) [
    | inl same ↦ rw same (open_before t w)
    | inr (new_id, new_key, e) ↦ rw e (open_appended t w new_id new_key)
  ]

pub insert_event-Evolves :
    (first : Bool) (row : EventRow) (t u : Tables) → insert_event first row t ≡ some u → Evolves t u
insert_event-Evolves first row t u h = elim (insert_event_cases first row t u h) [
  | inl same ↦ rw same (Evolves-refl t)
  | inr (new_id, new_key, e) ↦ rw e (record {
    events = Grows-append EventStep EventStep-refl t.events (row ∷ []);
    chunks = Grows-refl (λ c d. c ≡ d) (λ c. refl) t.chunks;
    outbox = Grows-refl OutboxStep OutboxStep-refl t.outbox;
  })
]
