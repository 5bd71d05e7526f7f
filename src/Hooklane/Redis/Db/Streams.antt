-- ===== src/Hooklane/Redis/Db/Streams.antt =====
-- No command of src/hooklane/queue/events.py turns a stream into anything else.
use hooklane.Prelude.{
  ℕ, String, ◌≡◌, refl, sym, ◌∙◌, ap, true, inl, inr, Option, none, some, List, [], ◌∷◌, same,
  same_eq, Bool-cases, Option-cases, arith,
}
use hooklane.Prelude.Outcome.{Outcome, ok, err}
use hooklane.Run.{continue}
use hooklane.Hooklane.Redis.Values.{Key, key_eq, field_eq, StreamId}
use hooklane.Hooklane.Redis.Script.{
  Command, type_of, hgetall, hget, hdel, hincrby, hset, xadd, xack, xpending, xpending_idle, xrange,
  zrem, xclaim, xreadgroup, xgroup_create, zadd, zrangebyscore, RedisError, Script, done, fail,
  call, eval,
}
use hooklane.Hooklane.Redis.Lua.{is_stream}
use hooklane.Hooklane.Redis.Db.{
  Bytes, Stored, absent, hash, zset, other_value, stream, Stream, Group, Pending, kind_of,
  find_group, pending_at, first_after,
}
use hooklane.Hooklane.Redis.Db.Commands.{
  Db, read_id, apply, key_of, acknowledge_pending, acknowledge, claim, db_redis,
}
use hooklane.Hooklane.Redis.Db.Simulation.{on_db}

module _ (bytes : Bytes) (now : ℕ) where
  claim-is_stream :
      (consumer : String) (idle : ℕ) (i : StreamId) (t : Stream) (g : Group)
      (pending : List Pending)
      → is_stream (kind_of (claim now consumer idle i t g pending).1) ≡ true
  unfolding claim
  claim-is_stream consumer idle i t g [] = refl
  claim-is_stream consumer idle i t g (p ∷ more) = ground arith

  acknowledge_pending-is_stream :
      (i : StreamId) (t : Stream) (g : Group) (pending : List Pending)
      → is_stream (kind_of (acknowledge_pending i t g pending).1) ≡ true
  unfolding acknowledge_pending
  acknowledge_pending-is_stream i t g [] = refl
  acknowledge_pending-is_stream i t g (p ∷ more) = refl

  acknowledge-is_stream :
      (i : StreamId) (t : Stream) (g : Option Group)
      → is_stream (kind_of (acknowledge i t g).1) ≡ true
  unfolding acknowledge
  acknowledge-is_stream i t none = refl
  acknowledge-is_stream i t (some g) = acknowledge_pending-is_stream i t g _

  apply-is_stream :
      (c : Command) (t : Stream) → is_stream (kind_of (apply bytes now c (stream t)).1) ≡ true
  unfolding apply
  apply-is_stream (type_of k) t = refl
  apply-is_stream (hgetall k) t = refl
  apply-is_stream (hget k f) t = refl
  apply-is_stream (hdel k f) t = refl
  apply-is_stream (hincrby k f) t = refl
  apply-is_stream (hset k news) t = refl
  apply-is_stream (xadd k fields) t = refl
  apply-is_stream (xack k g v) t = elim (Option-cases (read_id bytes v)) [
    | inl e ↦ ground arith
    | inr (i, e) ↦ ground (arith, acknowledge-is_stream i t (find_group g t.groups))
  ]
  apply-is_stream (xpending k g v) t = ground arith
  apply-is_stream (xpending_idle k g idle count) t = ground arith
  apply-is_stream (xrange k v) t = ground arith
  apply-is_stream (zrem k v) t = refl
  apply-is_stream (xclaim k g consumer idle v) t = elim (Option-cases (find_group g t.groups)) [
    | inl e ↦ ground arith
    | inr (h, e) ↦ elim (Option-cases (read_id bytes v)) [
      | inl n ↦ ground arith
      | inr (i, n) ↦ ground (arith, claim-is_stream consumer idle i t h (pending_at i h.pending))
    ]
  ]
  apply-is_stream (xreadgroup k g consumer) t = elim (Option-cases (find_group g t.groups)) [
    | inl e ↦ ground arith
    | inr (h, e) ↦ elim (Option-cases (first_after h.last_delivered t.entries)) [
      | inl n ↦ ground arith
      | inr (m, n) ↦ ground arith
    ]
  ]
  apply-is_stream (xgroup_create k g) t = ground arith
  apply-is_stream (zadd k score v) t = refl
  apply-is_stream (zrangebyscore k score) t = refl

is_stream-cases : (s : Stored) → is_stream (kind_of s) ≡ true → (t : Stream) × (s ≡ stream t)
is_stream-cases (stream t) h = (t, refl)
is_stream-cases absent h = absurd (ground arith)
is_stream-cases (hash fields) h = absurd (ground arith)
is_stream-cases (zset members) h = absurd (ground arith)
is_stream-cases other_value h = absurd (ground arith)

module _ (bytes : Bytes) (j : Key) where
  abbrev HasStream : Db → Type 0
  HasStream db = is_stream (kind_of (db.stored j)) ≡ true

  exec-HasStream : (c : Command) (db : Db) → HasStream db → HasStream ((db_redis bytes).exec c db).1
  unfolding db_redis
  exec-HasStream c db h = elim (Bool-cases (same j (key_of c))) [
    | inl e ↦
        let (t, s) = is_stream-cases (db.stored j) h in
        let at_key : db.stored (key_of c) ≡ stream t = ap db.stored (sym (same_eq e)) ∙ s in
        rw e (rw at_key (apply-is_stream bytes db.now_ms c t))
    | inr e ↦ rw e h
  ]

  module _ {A : Type 0} where
    continue-HasStream :
        {B : Type 0} (k : B → Script A)
        → ((b : B) (db : Db) → HasStream db → HasStream (on_db bytes (k b) db).1)
        → (x : Outcome RedisError B × Db) → HasStream x.1
        → HasStream (continue x.0 (λ b. on_db bytes (k b)) x.1).1
    continue-HasStream k h (ok b, db) e = h b db e
    continue-HasStream k h (err why, db) e = e

    pub stays_stream : (m : Script A) (db : Db) → HasStream db → HasStream (on_db bytes m db).1
    unfolding eval
    stays_stream (done a) db h = h
    stays_stream (fail why) db h = h
    stays_stream (call c k) db h =
        continue-HasStream k (λ b. stays_stream (k b)) ((db_redis bytes).exec c db)
          (exec-HasStream c db h)
