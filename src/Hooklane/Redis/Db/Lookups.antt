-- ===== src/Hooklane/Redis/Db/Lookups.antt =====
-- What is found after an update of a hash or of a group of a stream.
use mathlib.Core.Path.{subst}
use hooklane.Prelude.{
  String, true, false, ◌≡◌, refl, sym, some, List, [], ◌∷◌, inl, inr, same, same_eq, same_refl,
  Bool-cases, string_eq,
}
use hooklane.Hooklane.Redis.Values.{Field, Value, StreamId, field_eq, stream_id_eq}
use hooklane.Hooklane.Redis.Db.{
  Pending, Group, lookup, set_field, find_group, set_group, pending_at, drop_pending,
}

pub lookup-set_field :
    (f : Field) (v : Value) (fields : List (Field × Value))
    → lookup f (set_field f v fields) ≡ some v
unfolding lookup set_field
lookup-set_field f v [] = rw (same_refl f) refl
lookup-set_field f v ((g, u) ∷ fields) = elim (Bool-cases (same g f)) [
  | inl e ↦ rw (e, e) refl
  | inr e ↦ rw (e, e) (lookup-set_field f v fields)
]

pub lookup_other :
    (f g : Field) (v : Value) (fields : List (Field × Value))
    → same g f ≡ false
    → lookup f (set_field g v fields) ≡ lookup f fields
unfolding lookup set_field
lookup_other f g v [] h = rw h refl
lookup_other f g v ((k, u) ∷ fields) h = elim (Bool-cases (same k g)) [
  | inl e ↦
      let k_differs : same k f ≡ false = subst (λ x. same x f ≡ false) (sym (same_eq e)) h in
      rw (e, k_differs) refl
  | inr e ↦ rw e (rw (lookup_other f g v fields h) refl)
]

pub pending_at-drop_pending :
    (i : StreamId) (pending : List Pending) → pending_at i (drop_pending i pending) ≡ []
unfolding pending_at drop_pending
pending_at-drop_pending i [] = refl
pending_at-drop_pending i (p ∷ pending) = elim (Bool-cases (same p.pending_id i)) [
  | inl e ↦ rw e (pending_at-drop_pending i pending)
  | inr e ↦ rw (e, e) (pending_at-drop_pending i pending)
]

some_eq : {k g : Group} → some k ≡ some g → k ≡ g
some_eq h = cc

found_name :
    (name : String) (g : Group) (groups : List Group)
    → find_group name groups ≡ some g
    → same g.name name ≡ true
unfolding find_group
found_name name g [] h = absurd (cc)
found_name name g (k ∷ groups) h = elim (Bool-cases (same k.name name)) [
  | inl e ↦ subst (λ x. same x.name name ≡ true) (some_eq (rw e at h)) e
  | inr e ↦ found_name name g groups (rw e at h)
]

pub find_group-set_group :
    (name : String) (g : Group) (pending : List Pending) (groups : List Group)
    → find_group name groups ≡ some g
    → find_group name (set_group (record g { pending = pending }) groups)
      ≡ some (record g { pending = pending })
unfolding find_group set_group
find_group-set_group name g pending [] h = absurd (cc)
find_group-set_group name g pending (k ∷ groups) h = elim (Bool-cases (same k.name name)) [
  | inl e ↦
      let kg : k ≡ g = some_eq (rw e at h) in
      let same_name : same k.name g.name ≡ true =
        subst (λ x. same k.name x.name ≡ true) kg (same_refl k.name) in
      let found : same g.name name ≡ true = subst (λ x. same x.name name ≡ true) kg e in
      rw (same_name, found) refl
  | inr e ↦
      let later : find_group name groups ≡ some g = rw e at h in
      let other_name : same k.name g.name ≡ false =
        subst (λ x. same k.name x ≡ false) (sym (same_eq (found_name name g groups later))) e in
      rw (other_name, e) (find_group-set_group name g pending groups later)
]
