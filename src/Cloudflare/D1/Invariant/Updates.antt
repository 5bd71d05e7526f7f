-- ===== src/Cloudflare/D1/Invariant/Updates.antt =====
-- An UPDATE is allowed if each row that it touches changes by a step and stays valid.
use hooklane.Prelude.{
  ℕ, Bool, true, Option, none, some, List, [], ◌∷◌, ◌≡◌, refl, All, All-map, any, Bool-cases, inl,
  inr, Grows-refl,
}
use hooklane.Cloudflare.D1.Tables.{
  EventRow, OutboxRow, Tables, update_where, has_event_id, has_key_hash, outbox_exists,
}
use hooklane.Cloudflare.D1.Tables.Updates.{
  Grows-update_where, Grows-update_where_each, All-update_where, All-update_where_each,
  any-update_where,
}
use hooklane.Cloudflare.D1.Invariant.{
  EventRowIsValid, OutboxRowIsValid, IsUnique, HasUniqueKeys, has_key, has_outbox_id,
  IsUniqueOutbox, EventStep, OutboxStep, EventStep-refl, OutboxStep-refl, Allowed,
}

module _ (p : EventRow → Bool) (f : EventRow → EventRow)
    (step : (r : EventRow) → p r ≡ true → EventStep r (f r)) where
  has_key-update_where :
      (key : Option ℕ) (rows : List EventRow)
      → has_key key (update_where p f rows) ≡ has_key key rows
  has_key-update_where none rows = refl
  has_key-update_where (some key) rows =
      any-update_where p f (has_key_hash key) (λ r e. rw ((step r e).key_hash)) rows

  has_event_id-update_where :
      (id : ℕ) (rows : List EventRow)
      → any (has_event_id id) (update_where p f rows) ≡ any (has_event_id id) rows
  has_event_id-update_where id rows =
      any-update_where p f (has_event_id id) (λ r e. rw ((step r e).event_id)) rows

  IsUnique-update_where : (rows : List EventRow) → IsUnique rows → IsUnique (update_where p f rows)
  IsUnique-update_where [] h = tt
  IsUnique-update_where (r ∷ rows) h = elim (Bool-cases (p r)) [
    | inl e ↦ rw e (
        rw ((step r e).event_id)
          (rw has_event_id-update_where (h.0, IsUnique-update_where rows h.1)))
    | inr e ↦ rw e (rw has_event_id-update_where (h.0, IsUnique-update_where rows h.1))
  ]

  HasUniqueKeys-update_where :
      (rows : List EventRow) → HasUniqueKeys rows → HasUniqueKeys (update_where p f rows)
  HasUniqueKeys-update_where [] h = tt
  HasUniqueKeys-update_where (r ∷ rows) h = elim (Bool-cases (p r)) [
    | inl e ↦ rw e (
        rw ((step r e).key_hash)
          (rw has_key-update_where (h.0, HasUniqueKeys-update_where rows h.1)))
    | inr e ↦ rw e (rw has_key-update_where (h.0, HasUniqueKeys-update_where rows h.1))
  ]

  pub update_events-Allowed :
      (maximum : ℕ)
      → ((r : EventRow) → p r ≡ true → EventRowIsValid maximum r → EventRowIsValid maximum (f r))
      → (t : Tables) → Allowed maximum t (record t { events = update_where p f t.events })
  update_events-Allowed maximum valid t = record {
    evolves = λ w. record {
      events = Grows-update_where p f EventStep EventStep-refl step t.events;
      chunks = Grows-refl (λ c d. c ≡ d) (λ c. refl) t.chunks;
      outbox = Grows-refl OutboxStep OutboxStep-refl t.outbox;
    };
    keeps = λ h. record {
      events = All-update_where p f (EventRowIsValid maximum) valid t.events h.events;
      outbox = h.outbox;
      ids = IsUnique-update_where t.events h.ids;
      keys = HasUniqueKeys-update_where t.events h.keys;
      outbox_ids = h.outbox_ids;
      has_outbox =
          All-update_where p f (λ r. outbox_exists r.event_id t ≡ true)
            (λ r e x. rw ((step r e).event_id) x) t.events h.has_outbox;
    };
  }

module _ (p : OutboxRow → Bool) (f : OutboxRow → OutboxRow)
    (same_id : (r : OutboxRow) → (f r).event_id ≡ r.event_id) where
  has_outbox_id-update_where :
      (id : ℕ) (rows : List OutboxRow)
      → any (has_outbox_id id) (update_where p f rows) ≡ any (has_outbox_id id) rows
  has_outbox_id-update_where id rows =
      any-update_where p f (has_outbox_id id) (λ r e. rw (same_id r)) rows

  IsUniqueOutbox-update_where :
      (rows : List OutboxRow) → IsUniqueOutbox rows → IsUniqueOutbox (update_where p f rows)
  IsUniqueOutbox-update_where [] h = tt
  IsUniqueOutbox-update_where (r ∷ rows) h = elim (Bool-cases (p r)) [
    | inl e ↦
        rw e (
          rw (same_id r)
            (rw has_outbox_id-update_where (h.0, IsUniqueOutbox-update_where rows h.1)))
    | inr e ↦ rw e (rw has_outbox_id-update_where (h.0, IsUniqueOutbox-update_where rows h.1))
  ]

  -- The rows that the UPDATE touches are those of the table: their steps may rest on its invariant.
  pub update_outbox-Allowed :
      (maximum : ℕ) (t : Tables)
      → (IsUniqueOutbox t.outbox → All (λ r. p r ≡ true → OutboxStep r (f r)) t.outbox)
      → (IsUniqueOutbox t.outbox
          → All (λ r. p r ≡ true → OutboxRowIsValid r → OutboxRowIsValid (f r)) t.outbox)
      → Allowed maximum t (record t { outbox = update_where p f t.outbox })
  update_outbox-Allowed maximum t step valid = record {
    evolves = λ h. record {
      events = Grows-refl EventStep EventStep-refl t.events;
      chunks = Grows-refl (λ c d. c ≡ d) (λ c. refl) t.chunks;
      outbox = Grows-update_where_each p f OutboxStep OutboxStep-refl t.outbox (step h.outbox_ids);
    };
    keeps = λ h. record {
      events = h.events;
      outbox = All-update_where_each p f OutboxRowIsValid t.outbox (valid h.outbox_ids) h.outbox;
      ids = h.ids;
      keys = h.keys;
      outbox_ids = IsUniqueOutbox-update_where t.outbox h.outbox_ids;
      has_outbox =
          All-map (λ r. outbox_exists r.event_id t ≡ true)
            (λ r. outbox_exists r.event_id (record t { outbox = update_where p f t.outbox }) ≡ true)
            t.events (λ r e. rw (has_outbox_id-update_where r.event_id t.outbox) e) h.has_outbox;
    };
  }
