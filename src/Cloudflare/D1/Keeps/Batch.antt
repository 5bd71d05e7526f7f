-- ===== src/Cloudflare/D1/Keeps/Batch.antt =====
-- The batch of `accept` in cloudflare/src/hooklane_cf/d1.py as one transaction.
use hooklane.Prelude.{
  ℕ, suc, Bool, true, false, not, ◌&&◌, some, List, [], ◌∷◌, ◌++◌, ◌≡◌, refl, ◌∙◌, All, All-map,
  All-append, Grows, Grows-refl, Grows-trans, Grows-append, any, any-append, ◌==◌, ==_eq, ◌⊎◌,
  All-map₂, arith, Bool-cases, Option-cases, inl, inr,
}
use hooklane.Cloudflare.D1.Tables.{
  EventRow, ChunkRow, OutboxRow, Tables, event_exists, outbox_exists, has_event_id,
}
use hooklane.Cloudflare.D1.World.{commit}
use hooklane.Cloudflare.D1.Accept.{
  insert_event, insert_chunk, insert_chunks, insert_outbox, accept_batch, new_outbox_row,
}
use hooklane.Cloudflare.D1.Invariant.{
  EventRowIsValid, OutboxRowIsValid, has_outbox_id, IsUniqueOutbox, IsWellFormed, EventStep,
  OutboxStep, Evolves, EventStep-refl, OutboxStep-refl, Evolves-refl, Evolves-trans, Allowed,
  Allowed-refl,
}
use hooklane.Cloudflare.D1.Keeps.{KeepsTables}
use hooklane.Cloudflare.D1.Keeps.Inserts.{IsOpenFor, insert_event-IsOpenFor, insert_event-Evolves}

-- Only chunks were added.
pub record AddsChunks (t u : Tables) : Type 0 where
  pub events : u.events ≡ t.events
  pub outbox : u.outbox ≡ t.outbox
  pub chunks : Grows (λ (c d : ChunkRow). c ≡ d) t.chunks u.chunks

AddsChunks-refl : (t : Tables) → AddsChunks t t
AddsChunks-refl t = record {
  events = refl;
  outbox = refl;
  chunks = Grows-refl (λ c d. c ≡ d) (λ c. refl) t.chunks;
}

AddsChunks-trans : (t u v : Tables) → AddsChunks t u → AddsChunks u v → AddsChunks t v
AddsChunks-trans t u v h k = record {
  events = k.events ∙ h.events;
  outbox = k.outbox ∙ h.outbox;
  chunks =
      Grows-trans (λ c d. c ≡ d) (λ x y z p q. p ∙ q) t.chunks u.chunks v.chunks h.chunks k.chunks;
}

insert_chunk-AddsChunks :
    (negative : Bool) (id index : ℕ) (chunk : List ℕ) (t u : Tables)
    → insert_chunk negative id index chunk t ≡ some u
    → AddsChunks t u
unfolding insert_chunk
insert_chunk-AddsChunks negative id index chunk t u h = ground (
  arith,
  AddsChunks-refl t,
  Grows-append (λ (c d : ChunkRow). c ≡ d) (λ c. refl) t.chunks
      (record { event_id = id; chunk_index = index; payload_chunk = chunk } ∷ []),
)

pub insert_chunks-AddsChunks :
    (fails : Bool) (id index : ℕ) (chunks : List (List ℕ)) (t u : Tables)
    → insert_chunks fails id index chunks t ≡ some u
    → AddsChunks t u
unfolding insert_chunks
insert_chunks-AddsChunks fails id index [] t u h = ground (arith, AddsChunks-refl t)
insert_chunks-AddsChunks fails id index (c ∷ chunks) t u h =
    elim (Option-cases (insert_chunk (fails && index == 0) id index c t)) [
      | inl failed ↦ ground arith
      | inr (v, e) ↦
          AddsChunks-trans t v u (insert_chunk-AddsChunks (fails && index == 0) id index c t v e)
            (insert_chunks-AddsChunks fails id (suc index) chunks v u (rw (e, insert_chunks) at h))
    ]

every_id_ne :
    (id : ℕ) (rows : List EventRow)
    → any (has_event_id id) rows ≡ false
    → All (λ r. (r.event_id == id) ≡ false) rows
every_id_ne id [] h = tt
every_id_ne id (r ∷ rows) h = (ground arith, every_id_ne id rows (ground arith))

IsUniqueOutbox-append :
    (row : OutboxRow) (rows : List OutboxRow)
    → IsUniqueOutbox rows
    → any (has_outbox_id row.event_id) rows ≡ false
    → IsUniqueOutbox (rows ++ row ∷ [])
IsUniqueOutbox-append row [] u h = (refl, tt)
IsUniqueOutbox-append row (r ∷ rows) u h = (
  rw (any-append (has_outbox_id r.event_id) rows (row ∷ [])) (ground arith),
  IsUniqueOutbox-append row rows u.1 (ground arith),
)

module _ (maximum id now : ℕ) where
  -- The new row serves its event, the old rows the others.
  outbox_exists-append :
      (t : Tables) (r : EventRow)
      → ((r.event_id == id) ≡ false → outbox_exists r.event_id t ≡ true)
      → outbox_exists r.event_id (record t { outbox = t.outbox ++ new_outbox_row id now ∷ [] })
        ≡ true
  outbox_exists-append t r h =
      rw (any-append (has_outbox_id r.event_id) t.outbox (new_outbox_row id now ∷ []))
        (ground (arith, h))

  outbox_appended :
      (t : Tables)
      → IsOpenFor maximum id t
      → outbox_exists id t ≡ false
      → IsWellFormed maximum (record t { outbox = t.outbox ++ new_outbox_row id now ∷ [] })
  outbox_appended t h absent = record {
    events = h.events;
    outbox =
        All-append OutboxRowIsValid t.outbox (new_outbox_row id now ∷ []) h.outbox
          (ground arith, tt);
    ids = h.ids;
    keys = h.keys;
    outbox_ids = IsUniqueOutbox-append (new_outbox_row id now) t.outbox h.outbox_ids absent;
    has_outbox = All-map _ _ t.events (λ r k. outbox_exists-append t r k) h.has_outbox;
  }

  outbox_is_there :
      (t : Tables) (r : EventRow)
      → outbox_exists id t ≡ true
      → ((r.event_id == id) ≡ false → outbox_exists r.event_id t ≡ true)
      → outbox_exists r.event_id t ≡ true
  outbox_is_there t r there h = elim (Bool-cases (r.event_id == id)) [
    | inl e ↦ rw (==_eq r.event_id id e) there
    | inr e ↦ h e
  ]

  -- The row is there already, or there is no event that wants it.
  outbox_unchanged :
      (t : Tables)
      → IsOpenFor maximum id t
      → (event_exists id t ≡ false) ⊎ (outbox_exists id t ≡ true)
      → IsWellFormed maximum t
  outbox_unchanged t h reason = record {
    events = h.events;
    outbox = h.outbox;
    ids = h.ids;
    keys = h.keys;
    outbox_ids = h.outbox_ids;
    has_outbox = elim reason [
      | inl absent ↦
          All-map₂ _ _ _ t.events (λ r ne k. k ne) (every_id_ne id t.events absent) h.has_outbox
      | inr there ↦ All-map _ _ t.events (λ r k. outbox_is_there t r there k) h.has_outbox
    ];
  }

  pub insert_outbox-IsWellFormed :
      (t : Tables) → IsOpenFor maximum id t → IsWellFormed maximum (insert_outbox id now t)
  unfolding insert_outbox
  insert_outbox-IsWellFormed t h = elim (Bool-cases (event_exists id t)) [
    | inr absent ↦ rw absent (outbox_unchanged t h (inl absent))
    | inl found ↦ elim (Bool-cases (outbox_exists id t)) [
      | inl there ↦ rw found (rw there (outbox_unchanged t h (inr there)))
      | inr missing ↦ rw found (rw missing (outbox_appended t h missing))
    ]
  ]

  pub insert_outbox-Evolves : (t : Tables) → Evolves t (insert_outbox id now t)
  unfolding insert_outbox
  insert_outbox-Evolves t = elim (Bool-cases (event_exists id t && not (outbox_exists id t))) [
    | inr kept ↦ rw kept (Evolves-refl t)
    | inl added ↦ rw added (record {
      events = Grows-refl EventStep EventStep-refl t.events;
      chunks = Grows-refl (λ c d. c ≡ d) (λ c. refl) t.chunks;
      outbox = Grows-append OutboxStep OutboxStep-refl t.outbox (new_outbox_row id now ∷ []);
    })
  ]

AddsChunks-Evolves : (t u : Tables) → AddsChunks t u → Evolves t u
AddsChunks-Evolves t u a = record {
  events = rw (a.events) (Grows-refl EventStep EventStep-refl t.events);
  chunks = a.chunks;
  outbox = rw (a.outbox) (Grows-refl OutboxStep OutboxStep-refl t.outbox);
}

AddsChunks-IsOpenFor :
    (maximum id : ℕ) (t u : Tables)
    → AddsChunks t u
    → IsOpenFor maximum id t
    → IsOpenFor maximum id u
AddsChunks-IsOpenFor maximum id t u a h = record {
  events = rw (a.events) h.events;
  outbox = rw (a.outbox) h.outbox;
  ids = rw (a.events) h.ids;
  keys = rw (a.events) h.keys;
  outbox_ids = rw (a.outbox) h.outbox_ids;
  has_outbox = rw (a.events, a.outbox) h.has_outbox;
}

module _ (maximum : ℕ) (first fails : Bool) (row : EventRow) (chunks : List (List ℕ))
    (valid : EventRowIsValid maximum row) where
  batch_finished :
      (t t₁ t₂ : Tables)
      → insert_event first row t ≡ some t₁
      → AddsChunks t₁ t₂
      → Allowed maximum t (insert_outbox row.event_id row.accepted_at_ms t₂)
  batch_finished t t₁ t₂ e a = record {
    evolves = λ w.
        Evolves-trans t t₂ _
          (Evolves-trans t t₁ t₂ (insert_event-Evolves first row t t₁ e)
            (AddsChunks-Evolves t₁ t₂ a))
          (insert_outbox-Evolves maximum row.event_id row.accepted_at_ms t₂);
    keeps = λ w. insert_outbox-IsWellFormed maximum row.event_id row.accepted_at_ms t₂ (
        AddsChunks-IsOpenFor maximum row.event_id t₁ t₂ a
          (insert_event-IsOpenFor maximum row valid first t t₁ e w));
  }

  batch_Allowed :
      (t : Tables) → Allowed maximum t (commit t (accept_batch first fails row chunks t))
  unfolding accept_batch
  batch_Allowed t = elim (Option-cases (insert_event first row t)) [
    | inl failed ↦ rw (failed, commit, accept_batch) (Allowed-refl maximum t)
    | inr (t₁, e) ↦ elim (Option-cases (insert_chunks fails row.event_id 0 chunks t₁)) [
      | inl failed ↦
          rw (e, commit, accept_batch) (rw (failed, commit, accept_batch) (Allowed-refl maximum t))
      | inr (t₂, e₂) ↦
          rw (e, commit, accept_batch)
            (rw (e₂, commit, accept_batch)
              (batch_finished t t₁ t₂ e
                (insert_chunks-AddsChunks fails row.event_id 0 chunks t₁ t₂ e₂)))
    ]
  ]

  pub accept_batch-KeepsTables : KeepsTables maximum (accept_batch first fails row chunks)
  accept_batch-KeepsTables = record { at = batch_Allowed }
