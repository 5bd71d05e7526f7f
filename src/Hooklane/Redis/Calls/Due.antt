-- ===== src/Hooklane/Redis/Calls/Due.antt =====
-- The event that `ZRANGEBYSCORE` finds for `_RELEASE_DUE_RETRY_SCRIPT` of src/hooklane/queue/events.py.
use hooklane.Prelude.{
  ℕ, Bool, true, false, ◌&&◌, Option, none, some, List, [], ◌∷◌, ◌≡◌, refl, ◌∙◌, ap, leb, any,
  filter, same, same_refl, arith, Bool-cases, inl, inr, if◌then◌else◌,
}
use hooklane.Prelude.Outcome.{Outcome, ok}
use hooklane.Hooklane.Redis.Values.{Key, Value, value_eq}
use hooklane.Hooklane.Redis.Script.{RedisError, zrangebyscore}
use hooklane.Hooklane.Redis.Db.{
  Bytes, Stored, absent, hash, stream, zset, other_value, smaller, least, up_to, due,
}
use hooklane.Hooklane.Redis.Db.Commands.{apply}

-- The schedule has the event, at a time that is not after `now_ms`.
abbrev pub is_due : ℕ → Value → Stored → Bool
is_due now_ms event (zset members) =
    any (λ member. same member.0 event && leb member.1 now_ms) members
is_due now_ms event s = false

module _ (bytes : Bytes) (p : Value × ℕ → Bool) where
  least-any :
      (members : List (Value × ℕ)) (m : Value × ℕ)
      → least bytes members ≡ some m
      → p m ≡ true
      → any p members ≡ true
  least-any [] m h hp = absurd (cc)
  least-any (x ∷ members) m h hp = go (least-any members m) (least bytes members) refl h
    where
      go :
          (least bytes members ≡ some m → p m ≡ true → any p members ≡ true)
          → (o : Option (Value × ℕ)) → least bytes members ≡ o
          → elim o [ none ↦ some x | some n ↦ if smaller bytes n x then some n else some x ]
            ≡ some m
          → any p (x ∷ members) ≡ true
      go rest none e k = let same_x : x ≡ m = cc in rw same_x (rw hp refl)
      go rest (some n) e k = elim (Bool-cases (smaller bytes n x)) [
        | inl b ↦
            let same_n : n ≡ m = cc (rw b at k) in
            let found = rest (e ∙ ap some same_n) hp in ground (arith, found)
        | inr b ↦ let same_x : x ≡ m = cc (rw b at k) in rw same_x (rw hp refl)
      ]

any-filter :
    (p q : Value × ℕ → Bool) (members : List (Value × ℕ))
    → any p (filter q members) ≡ true
    → any (λ m. p m && q m) members ≡ true
any-filter p q [] h = h
any-filter p q (x ∷ members) h = elim (Bool-cases (q x)) [
  | inl e ↦ elim (Bool-cases (p x)) [
    | inl f ↦ rw e (rw f refl)
    | inr f ↦ rw f (any-filter p q members (rw f at (rw e at h)))
  ]
  | inr e ↦ let rest = any-filter p q members (rw e at h) in ground (arith, rest)
]

abbrev replied : List Value → Outcome RedisError (List Value)
replied events = ok events

pub zrangebyscore-is_due :
    (bytes : Bytes) (now now_ms : ℕ) (s : Stored) (event : Value) (events : List Value)
    → (apply bytes now (zrangebyscore Key.retry_schedule_key now_ms) s).0 ≡ ok (event ∷ events)
    → is_due now_ms event s ≡ true
unfolding apply
zrangebyscore-is_due bytes now now_ms (zset members) event events h =
    go (least bytes (up_to now_ms members)) refl h
  where
    go :
        (o : Option (Value × ℕ))
        → least bytes (up_to now_ms members) ≡ o
        → replied (due o) ≡ replied (event ∷ events)
        → is_due now_ms event (zset members) ≡ true
    go none e k = absurd (cc)
    go (some m) e k =
        let same_event : m.0 ≡ event = cc in
        any-filter (λ x. same x.0 event) (λ x. leb x.1 now_ms) members
          (least-any bytes (λ x. same x.0 event) (up_to now_ms members) m e
            (rw same_event (same_refl event)))
zrangebyscore-is_due bytes now now_ms absent event events h = absurd (cc)
zrangebyscore-is_due bytes now now_ms (hash fields) event events h = absurd (cc)
zrangebyscore-is_due bytes now now_ms (stream t) event events h = absurd (cc)
zrangebyscore-is_due bytes now now_ms other_value event events h = absurd (cc)
