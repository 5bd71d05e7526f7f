-- ===== src/Cloudflare/D1/Keeps/Claims.antt =====
-- The claim of outbox rows in `claim_outbox` of cloudflare/src/hooklane_cf/d1.py: the rows that the
-- inner SELECT lists are pending, since an id stands for one row.
use hooklane.Prelude.{
  ℕ, zero, suc, Bool, true, false, List, [], ◌∷◌, ◌≡◌, refl, ◌∙◌, All, All-map, any, filter, take,
  ◌==◌, arith, Bool-cases, inl, inr, if◌then◌else◌,
}
use hooklane.Cloudflare.D1.Tables.{OutboxRow}
use hooklane.Cloudflare.D1.Outbox.{
  claim_outbox_rows, claimable, is_listed, claim_row, insert_by_age, sort_by_age, is_claimable,
}
use hooklane.Cloudflare.D1.Invariant.{OutboxRowIsValid, OutboxStep, has_outbox_id, IsUniqueOutbox}
use hooklane.Cloudflare.D1.Invariant.Updates.{update_outbox-Allowed}
use hooklane.Cloudflare.D1.Keeps.{KeepsTables}

any-take :
    (q : OutboxRow → Bool) (n : ℕ) (rows : List OutboxRow)
    → any q (take n rows) ≡ true
    → any q rows ≡ true
any-take q zero rows h = cc
any-take q (suc n) [] h = h
any-take q (suc n) (r ∷ rows) h = ground (arith, any-take q n rows)

any-insert_by_age :
    (q : OutboxRow → Bool) (r : OutboxRow) (rows : List OutboxRow)
    → any q (insert_by_age r rows) ≡ (if q r then true else any q rows)
unfolding insert_by_age
any-insert_by_age q r [] = refl
any-insert_by_age q r (s ∷ rows) = ground (arith, any-insert_by_age q r rows)

any-sort_by_age :
    (q : OutboxRow → Bool) (rows : List OutboxRow) → any q (sort_by_age rows) ≡ any q rows
unfolding sort_by_age
any-sort_by_age q [] = refl
any-sort_by_age q (r ∷ rows) =
    any-insert_by_age q r (sort_by_age rows) ∙ (rw (any-sort_by_age q rows))

any-filter :
    (q p : OutboxRow → Bool) (rows : List OutboxRow)
    → any q (filter p rows) ≡ true
    → any q rows ≡ true
any-filter q p [] h = h
any-filter q p (r ∷ rows) h = ground (arith, any-filter q p rows)

-- No row of the list has the id.
All-ids_ne :
    (id : ℕ) (rows : List OutboxRow)
    → any (has_outbox_id id) rows ≡ false
    → All (λ r. (id == r.event_id) ≡ false) rows
All-ids_ne id [] h = tt
All-ids_ne id (r ∷ rows) h = (ground arith, All-ids_ne id rows (ground arith))

All-and :
    (P Q : OutboxRow → Type 0) (rows : List OutboxRow)
    → All P rows
    → All Q rows
    → All (λ r. P r × Q r) rows
All-and P Q [] h k = tt
All-and P Q (r ∷ rows) h k = ((h.0, k.0), All-and P Q rows h.1 k.1)

-- Where ids are unique, an id of the filtered rows belongs to a row that passes the filter.
filter_by_id :
    (p : OutboxRow → Bool) (rows : List OutboxRow)
    → IsUniqueOutbox rows
    → All (λ r. any (has_outbox_id r.event_id) (filter p rows) ≡ true → p r ≡ true) rows
filter_by_id p [] u = tt
filter_by_id p (x ∷ rows) u = (
  λ h. elim (Bool-cases (p x)) [
    | inl e ↦ e
    | inr e ↦ cc (u.0, any-filter (has_outbox_id x.event_id) p rows (rw e at h))
  ],
  All-map
      (λ r.
        ((x.event_id == r.event_id) ≡ false)
        × (any (has_outbox_id r.event_id) (filter p rows) ≡ true → p r ≡ true))
      (λ r. any (has_outbox_id r.event_id) (filter p (x ∷ rows)) ≡ true → p r ≡ true) rows
      (λ r k h. elim (Bool-cases (p x)) [
        | inl e ↦ k.1 (rw k.0 at (rw e at h))
        | inr e ↦ k.1 (rw e at h)
      ])
      (All-and _ _ rows (All-ids_ne x.event_id rows u.0) (filter_by_id p rows u.1)),
)

pub claimable_lem :
    (now limit : ℕ) (rows : List OutboxRow)
    → IsUniqueOutbox rows
    → All (λ r. is_listed (claimable now limit rows) r ≡ true → is_claimable now r ≡ true) rows
unfolding claimable
claimable_lem now limit rows u =
    All-map _ _ rows
      (λ r k h. k (
        rw any-sort_by_age at (
          any-take (has_outbox_id r.event_id) limit (sort_by_age (filter (is_claimable now) rows))
            h)))
      (filter_by_id (is_claimable now) rows u)

claim_row-OutboxStep :
    (token lease now : ℕ) (r : OutboxRow)
    → is_claimable now r ≡ true
    → OutboxStep r (claim_row token lease now r)
unfolding is_claimable
claim_row-OutboxStep token lease now r h = ground arith

claim_row-valid :
    (token lease now : ℕ) (r : OutboxRow)
    → is_claimable now r ≡ true
    → OutboxRowIsValid r
    → OutboxRowIsValid (claim_row token lease now r)
unfolding is_claimable
claim_row-valid token lease now r h v = ground arith

pub claim_outbox_rows-KeepsTables :
    (maximum limit token lease now : ℕ)
    → KeepsTables maximum (claim_outbox_rows limit token lease now)
unfolding claim_outbox_rows
claim_outbox_rows-KeepsTables maximum limit token lease now = record {
  at = λ t.
      update_outbox-Allowed (is_listed (claimable now limit t.outbox)) (claim_row token lease now)
        (λ r. refl) maximum t
        (λ u.
          All-map _ _ t.outbox (λ r k h. claim_row-OutboxStep token lease now r (k h))
            (claimable_lem now limit t.outbox u))
        (λ u.
          All-map _ _ t.outbox (λ r k h v. claim_row-valid token lease now r (k h) v)
            (claimable_lem now limit t.outbox u));
}
