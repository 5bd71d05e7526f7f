-- ===== src/Cloudflare/D1/Invariant/Lookup.antt =====
-- What an UPDATE of one event does to the rows that are looked up by id, and how many rows it
-- changes.
use hooklane.Prelude.{
  ℕ, Bool, true, false, Option, none, some, List, [], ◌∷◌, ◌≡◌, ◌≢◌, refl, ap, any, filter, map,
  head?, length, ◌==◌, ==_eq, arith, Bool-cases, inl, inr, if◌then◌else◌,
}
use hooklane.Cloudflare.D1.Tables.{EventRow, update_where, has_event_id, find_event}
use hooklane.Cloudflare.D1.Invariant.{IsUnique}

-- The row that was found passes the test.
abbrev pub passes : (EventRow → Bool) → Option EventRow → Bool
passes p none = false
passes p (some r) = p r

abbrev pub updated : (EventRow → Bool) → (EventRow → EventRow) → Option EventRow → Option EventRow
updated p f none = none
updated p f (some r) = some (if p r then f r else r)

abbrev pub chosen : (EventRow → Bool) → (EventRow → EventRow) → Option EventRow → Option EventRow
chosen p f none = none
chosen p f (some r) = if p r then some (f r) else none

pub find_event-has_id :
    (id : ℕ) (rows : List EventRow) (r : EventRow) → find_event id rows ≡ some r → r.event_id ≡ id
find_event-has_id id [] r h = cc
find_event-has_id id (x ∷ rows) r h = ground (arith, find_event-has_id id rows r)

-- A test that only rows of one id pass, and a change that leaves ids alone.
module _ (id : ℕ) (p : EventRow → Bool) (f : EventRow → EventRow)
    (only : (r : EventRow) → p r ≡ true → r.event_id ≡ id)
    (same_id : (r : EventRow) → (f r).event_id ≡ r.event_id) where
  fails_elsewhere : (r : EventRow) → (r.event_id == id) ≡ false → p r ≡ false
  fails_elsewhere r h = elim (Bool-cases (p r)) [ inl e ↦ ground (arith, only r e) | inr e ↦ e ]

  pub find_event-update_where :
      (rows : List EventRow)
      → find_event id (update_where p f rows) ≡ updated p f (find_event id rows)
  find_event-update_where [] = refl
  find_event-update_where (r ∷ rows) = elim (Bool-cases (r.event_id == id)) [
    | inr other ↦ rw (fails_elsewhere r other) (rw other (find_event-update_where rows))
    | inl here ↦ elim (Bool-cases (p r)) [
      | inl e ↦
          let still : ((f r).event_id == id) ≡ true = rw (same_id r) here in
          rw e (rw still (rw here (rw e)))
      | inr e ↦ rw e (rw here (rw e))
    ]
  ]

  pub find_event-update_where_ne :
      (j : ℕ) (rows : List EventRow)
      → j ≢ id
      → find_event j (update_where p f rows) ≡ find_event j rows
  find_event-update_where_ne j [] ne = refl
  find_event-update_where_ne j (r ∷ rows) ne = elim (Bool-cases (p r)) [
    | inl e ↦ rw e (rw (same_id r) (ground (arith, only r e, find_event-update_where_ne j rows ne)))
    | inr e ↦ rw e (ground (arith, find_event-update_where_ne j rows ne))
  ]

  filter-nil : (rows : List EventRow) → any (has_event_id id) rows ≡ false → filter p rows ≡ []
  filter-nil [] h = refl
  filter-nil (r ∷ rows) h = elim (Bool-cases (r.event_id == id)) [
    | inl here ↦ cc (rw here at h)
    | inr other ↦ rw (fails_elsewhere r other) (filter-nil rows (rw other at h))
  ]

  -- RETURNING gives the changed row, if the row of the id passes the test.
  pub head-filter :
      (rows : List EventRow)
      → IsUnique rows
      → head? (map f (filter p rows)) ≡ chosen p f (find_event id rows)
  head-filter [] u = refl
  head-filter (r ∷ rows) u = elim (Bool-cases (r.event_id == id)) [
    | inr other ↦ rw (fails_elsewhere r other) (rw other (head-filter rows u.1))
    | inl here ↦ elim (Bool-cases (p r)) [
      | inl e ↦ rw e (rw here (rw e))
      | inr e ↦ rw e (rw here (rw e (rw (filter-nil rows (rw (==_eq r.event_id id here) at u.0)))))
    ]
  ]

  -- One row is changed exactly if the row of the id passes the test.
  pub changes_one :
      (rows : List EventRow)
      → IsUnique rows
      → (length (filter p rows) == 1) ≡ passes p (find_event id rows)
  changes_one [] u = refl
  changes_one (r ∷ rows) u = elim (Bool-cases (r.event_id == id)) [
    | inr other ↦ rw (fails_elsewhere r other) (rw other (changes_one rows u.1))
    | inl here ↦
        let rest = filter-nil rows (rw (==_eq r.event_id id here) at u.0) in
        elim (Bool-cases (p r)) [
          | inl e ↦ rw e (rw here (rw e (rw rest)))
          | inr e ↦ rw e (rw here (rw e (rw rest)))
        ]
  ]

  update_where-absent :
      (rows : List EventRow) → any (has_event_id id) rows ≡ false → update_where p f rows ≡ rows
  update_where-absent [] h = refl
  update_where-absent (r ∷ rows) h = elim (Bool-cases (r.event_id == id)) [
    | inl here ↦ cc (rw here at h)
    | inr other ↦
        rw (fails_elsewhere r other)
          (ap (λ (rest : List EventRow). r ∷ rest) (update_where-absent rows (rw other at h)))
  ]

  -- No row is changed if the row of the id does not pass the test.
  pub untouched :
      (rows : List EventRow)
      → IsUnique rows
      → passes p (find_event id rows) ≡ false
      → update_where p f rows ≡ rows
  untouched [] u h = refl
  untouched (r ∷ rows) u h = elim (Bool-cases (r.event_id == id)) [
    | inr other ↦
        rw (fails_elsewhere r other)
          (ap (λ (rest : List EventRow). r ∷ rest) (untouched rows u.1 (rw other at h)))
    | inl here ↦
        let refused : p r ≡ false = rw here at h in
        rw refused (
          ap (λ (rest : List EventRow). r ∷ rest)
            (update_where-absent rows (rw (==_eq r.event_id id here) at u.0)))
  ]
