-- ===== src/Cloudflare/D1/Accepted/Batch.antt =====
-- The batch of `accept` of cloudflare/src/hooklane_cf/d1.py for an id that is new.
use mathlib.Core.Path.{subst}
use hooklane.Prelude.{
  ℕ, suc, ◌≤◌, Bool, true, false, ◌&&◌, Option, none, some, List, [], ◌∷◌, ◌++◌, ◌≡◌, refl, ap, sym,
  ◌∙◌, if◌then◌else◌, any, any-append, filter, ◌==◌, ==_refl, arith, Bool-cases, Option-cases, inl,
  inr,
}
use hooklane.Cloudflare.D1.Tables.{
  EventRow, ChunkRow, Tables, has_event_id, has_key_hash, event_exists, outbox_exists,
}
use hooklane.Cloudflare.D1.Accept.{
  key_taken, insert_event, has_chunk, insert_chunk, insert_chunks, insert_outbox, lookup,
  new_outbox_row, accept_batch,
}

-- The rows that keep the chunks of a payload, from `index` on.
abbrev pub chunk_rows : ℕ → ℕ → List (List ℕ) → List ChunkRow
chunk_rows id index [] = []
chunk_rows id index (chunk ∷ chunks) =
    record { event_id = id; chunk_index = index; payload_chunk = chunk }
    ∷ chunk_rows id (suc index) chunks

abbrev pub of_event : ℕ → ChunkRow → Bool
of_event id r = r.event_id == id

no_chunk :
    (id index : ℕ) (rows : List ChunkRow)
    → any (of_event id) rows ≡ false
    → any (has_chunk id index) rows ≡ false
no_chunk id index [] h = refl
no_chunk id index (r ∷ rows) h = elim (Bool-cases (r.event_id == id)) [
  | inl e ↦ absurd (cc (rw e at h))
  | inr e ↦ rw e (no_chunk id index rows (rw e at h))
]

append_assoc :
    {A : Type 0} (xs : List A) (y : A) (zs : List A) → (xs ++ y ∷ []) ++ zs ≡ xs ++ y ∷ zs
append_assoc [] y zs = refl
append_assoc (x ∷ xs) y zs = ap (λ l. x ∷ l) (append_assoc xs y zs)

-- No chunk of the event from `index` on.
abbrev FreeFrom : ℕ → ℕ → Tables → Type 0
FreeFrom id index t = (j : ℕ) → index ≤ j → any (has_chunk id j) t.chunks ≡ false

append_nil : {A : Type 0} (xs : List A) → xs ++ [] ≡ xs
append_nil [] = refl
append_nil (x ∷ xs) = ap (λ l. x ∷ l) (append_nil xs)

abbrev with_chunk : ℕ → ℕ → List ℕ → Tables → Tables
with_chunk id index chunk t = record t {
  chunks = t.chunks ++ record { event_id = id; chunk_index = index; payload_chunk = chunk } ∷ [];
}

insert_chunk-added :
    (negative : Bool) (id index : ℕ) (chunk : List ℕ) (t : Tables)
    → event_exists id t ≡ true
    → any (has_chunk id index) t.chunks ≡ false
    → insert_chunk negative id index chunk t
      ≡ (if negative then none else some (with_chunk id index chunk t))
unfolding insert_chunk
insert_chunk-added true id index chunk t there free = rw there refl
insert_chunk-added false id index chunk t there free = rw there (rw free refl)

later_free :
    (id index : ℕ) (chunk : List ℕ) (t : Tables)
    → FreeFrom id index t
    → FreeFrom id (suc index) (with_chunk id index chunk t)
later_free id index chunk t free j le =
    let before : any (has_chunk id j) t.chunks ≡ false = free j (omega arith) in
    let other : (index == j) ≡ false = ground arith in
    any-append (has_chunk id j) t.chunks _ ∙ rw before (rw (==_refl id) (rw other refl))

pub insert_chunks-chunk_rows :
    (fails : Bool) (id index : ℕ) (chunks : List (List ℕ)) (t t' : Tables)
    → event_exists id t ≡ true
    → FreeFrom id index t
    → insert_chunks fails id index chunks t ≡ some t'
    → t' ≡ record t { chunks = t.chunks ++ chunk_rows id index chunks }
unfolding insert_chunks
insert_chunks-chunk_rows fails id index [] t t' there free h =
    let same : t ≡ t' = cc in
    sym same ∙ ap (λ l. record t { chunks = l }) (sym (append_nil t.chunks))
insert_chunks-chunk_rows fails id index (chunk ∷ chunks) t t' there free h =
    let step =
      insert_chunk-added (fails && index == 0) id index chunk t there (free index (omega arith)) in
    let k = rw (step, insert_chunks) at h in
    elim (Bool-cases (fails && index == 0)) [
      | inl e ↦ absurd (cc (rw e at k))
      | inr e ↦
          insert_chunks-chunk_rows fails id (suc index) chunks (with_chunk id index chunk t) t'
            there (later_free id index chunk t free) (rw e at k)
          ∙ ap (λ l. record t { chunks = l }) (append_assoc t.chunks _ _)
    ]

pub filter-last :
    {A : Type 0} (p : A → Bool) (xs : List A) (x : A)
    → any p xs ≡ false
    → p x ≡ true
    → filter p (xs ++ x ∷ []) ≡ x ∷ []
filter-last p [] x h e = rw e refl
filter-last p (y ∷ xs) x h e = elim (Bool-cases (p y)) [
  | inl k ↦ absurd (cc (rw k at h))
  | inr k ↦ rw k (filter-last p xs x (rw k at h) e)
]

-- An id that the tables do not have.
pub record IsNew (id : ℕ) (t : Tables) : Type 0 where
  pub no_event : event_exists id t ≡ false
  pub no_chunks : any (of_event id) t.chunks ≡ false
  pub no_outbox : outbox_exists id t ≡ false

-- The tables with the event, the chunks of its payload, and its order to dispatch it.
abbrev pub with_event : EventRow → List (List ℕ) → Tables → Tables
with_event row chunks t = record {
  events = t.events ++ row ∷ [];
  outbox = t.outbox ++ new_outbox_row row.event_id row.accepted_at_ms ∷ [];
  chunks = t.chunks ++ chunk_rows row.event_id 0 chunks;
}

insert_chunk-absent :
    (negative : Bool) (id index : ℕ) (chunk : List ℕ) (t : Tables)
    → event_exists id t ≡ false
    → insert_chunk negative id index chunk t ≡ some t
unfolding insert_chunk
insert_chunk-absent negative id index chunk t h = rw h refl

insert_chunks-absent :
    (fails : Bool) (id index : ℕ) (chunks : List (List ℕ)) (t : Tables)
    → event_exists id t ≡ false
    → insert_chunks fails id index chunks t ≡ some t
unfolding insert_chunks
insert_chunks-absent fails id index [] t h = refl
insert_chunks-absent fails id index (chunk ∷ chunks) t h =
    let kept = insert_chunk-absent (fails && index == 0) id index chunk t h in
    rw (kept, insert_chunks) (insert_chunks-absent fails id (suc index) chunks t h)

-- What the batch did, and the rows that it selected.
pub data Did (row : EventRow) (chunks : List (List ℕ)) (t : Tables)
    : List EventRow → Tables → Type 0 where
  added : Did row chunks t (row ∷ []) (with_event row chunks t)
  found :
      (key : ℕ)
      → row.idempotency_key_hash ≡ some key
      → any (has_key_hash key) t.events ≡ true
      → Did row chunks t (lookup row.event_id (some key) t) t

key_taken-none : (t : Tables) → key_taken none t ≡ false
unfolding key_taken
key_taken-none t = refl

key_taken-some :
    (t : Tables) (key : ℕ)
    → any (has_key_hash key) t.events ≡ false
    → key_taken (some key) t ≡ false
unfolding key_taken
key_taken-some t key h = h

module _ (first fails : Bool) (row : EventRow) (chunks : List (List ℕ)) (t : Tables) where
  batch_runs :
      (u v : Tables)
      → insert_event first row t ≡ some u
      → insert_chunks fails row.event_id 0 chunks u ≡ some v
      → let t' = insert_outbox row.event_id row.accepted_at_ms v in
        accept_batch first fails row chunks t
        ≡ some (lookup row.event_id row.idempotency_key_hash t', t')
  unfolding accept_batch
  batch_runs u v h k = rw (h, accept_batch) (rw (k, accept_batch) refl)

  batch_stops :
      (u : Tables)
      → insert_event first row t ≡ some u
      → insert_chunks fails row.event_id 0 chunks u ≡ none
      → accept_batch first fails row chunks t ≡ none
  unfolding accept_batch
  batch_stops u h k = rw (h, accept_batch) (rw (k, accept_batch) refl)

  module _ (new : IsNew row.event_id t) where
    taken-key :
        (key : ℕ)
        → row.idempotency_key_hash ≡ some key
        → any (has_key_hash key) t.events ≡ true
        → insert_event first row t ≡ some t
    unfolding insert_event key_taken
    taken-key key e h = rw e (rw h (rw new.no_event (ground arith)))

    free_key :
        key_taken row.idempotency_key_hash t ≡ false
        → insert_event first row t ≡ some (record t { events = t.events ++ row ∷ [] })
    unfolding insert_event
    free_key h = rw h (rw new.no_event refl)

    outbox_kept : insert_outbox row.event_id row.accepted_at_ms t ≡ t
    unfolding insert_outbox
    outbox_kept = rw new.no_event refl

    there : any (has_event_id row.event_id) (t.events ++ row ∷ []) ≡ true
    there = any-append _ t.events _ ∙ rw new.no_event (rw (==_refl row.event_id) refl)

    outbox_added :
        insert_outbox row.event_id row.accepted_at_ms (record t {
          events = t.events ++ row ∷ [];
          chunks = t.chunks ++ chunk_rows row.event_id 0 chunks;
        })
        ≡ with_event row chunks t
    unfolding insert_outbox
    outbox_added = rw there (rw new.no_outbox refl)

    lookup-added :
        (o : Option ℕ)
        → row.idempotency_key_hash ≡ o
        → key_taken o t ≡ false
        → lookup row.event_id o (with_event row chunks t) ≡ row ∷ []
    unfolding lookup key_taken
    lookup-added none e h =
        rw
          (filter-last (has_event_id row.event_id) t.events row new.no_event (==_refl row.event_id))
          refl
    lookup-added (some key) e h =
        rw (filter-last (has_key_hash key) t.events row h (rw e (==_refl key))) refl

    batch-added :
        (rows : List EventRow) (t' : Tables)
        → key_taken row.idempotency_key_hash t ≡ false
        → accept_batch first fails row chunks t ≡ some (rows, t')
        → Did row chunks t rows t'
    batch-added rows t' h runs =
        let u : Tables = record t { events = t.events ++ row ∷ [] } in
        elim (Option-cases (insert_chunks fails row.event_id 0 chunks u)) [
          | inl e ↦ absurd (nothing (sym (batch_stops u (free_key h) e) ∙ runs))
          | inr (v, e) ↦
              let chunked =
                insert_chunks-chunk_rows fails row.event_id 0 chunks u v there
                  (λ j le. no_chunk row.event_id j t.chunks new.no_chunks) e in
              let ran = sym (batch_runs u v (free_key h) e) ∙ runs in
              let outboxed : insert_outbox row.event_id row.accepted_at_ms v
                  ≡ with_event row chunks t =
                ap (insert_outbox row.event_id row.accepted_at_ms) chunked ∙ outbox_added in
              let selected = lookup-added row.idempotency_key_hash refl h in
              subst (λ x. Did row chunks t x.0 x.1) (pair_of (rw selected at (rw outboxed at ran)))
                added
        ]
      where
        nothing : {x : List EventRow × Tables} → Option.none ≡ some x → ⊥
        nothing k = absurd (cc)

        pair_of : {x y : List EventRow × Tables} → some x ≡ some y → x ≡ y
        pair_of k = cc

    batch-found :
        (key : ℕ) (rows : List EventRow) (t' : Tables)
        → row.idempotency_key_hash ≡ some key
        → any (has_key_hash key) t.events ≡ true
        → accept_batch first fails row chunks t ≡ some (rows, t')
        → Did row chunks t rows t'
    batch-found key rows t' e h runs =
        let kept = insert_chunks-absent fails row.event_id 0 chunks t new.no_event in
        let ran = sym (batch_runs t t (taken-key key e h) kept) ∙ runs in
        subst (λ x. Did row chunks t x.0 x.1) (pair_of (rw e at (rw outbox_kept at ran)))
          (found key e h)
      where
        pair_of : {x y : List EventRow × Tables} → some x ≡ some y → x ≡ y
        pair_of k = cc

    pub batch-Did :
        (rows : List EventRow) (t' : Tables)
        → accept_batch first fails row chunks t ≡ some (rows, t')
        → Did row chunks t rows t'
    batch-Did rows t' runs = go row.idempotency_key_hash refl
      where
        go : (o : Option ℕ) → row.idempotency_key_hash ≡ o → Did row chunks t rows t'
        go none e = batch-added rows t' (rw e (key_taken-none t)) runs
        go (some key) e = elim (Bool-cases (any (has_key_hash key) t.events)) [
          | inl h ↦ batch-found key rows t' e h runs
          | inr h ↦ batch-added rows t' (rw e (key_taken-some t key h)) runs
        ]
