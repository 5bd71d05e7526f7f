-- ===== src/Hooklane/Redis/Db/Commands.antt =====
-- What each Redis command answers and leaves, as Redis documents it. A command works on the value at
-- one key; a server is documented when it can be seen as a `Db`.
use hooklane.Prelude.{
  ℕ, ◌-◌, String, Bool, Option, none, some, List, [], ◌∷◌, ◌≡◌, leb, same, take, filter, string_eq,
  if◌then◌else◌,
}
use hooklane.Prelude.Outcome.{Outcome, ok, err}
use hooklane.Hooklane.Redis.Values.{ℤ, StreamId, Value, Field, Key, key_eq}
use hooklane.Hooklane.Redis.Script.{
  RedisError, wrong_type, no_group, busy_group, not_an_integer, invalid_id, Command, type_of,
  hgetall, hget, hdel, hincrby, hset, xadd, xack, xpending, xpending_idle, xrange, zrem, xclaim,
  xreadgroup, xgroup_create, zadd, zrangebyscore, Redis,
}
use hooklane.Hooklane.Redis.Db.{
  Pending, Group, Stream, Stored, absent, hash, stream, zset, Bytes, Answer, kind_of, lookup,
  set_field, set_fields, hash_or_absent, drop_field, increment, no_id, empty_stream, append,
  entries_at, first_after, find_group, pending_at, drop_pending, ids, insert_pending, with_group,
  drop_member, zset_or_absent, least, up_to, due,
}

abbrev pub read_id : Bytes → Value → Option StreamId
read_id bytes (Value.id i) = some i
read_id bytes (Value.plain t) = bytes.read_id t
read_id bytes _ = none

-- Commands on a group of a stream.
unfoldable pub acknowledge_pending :
    StreamId → Stream → Group → List Pending → Outcome RedisError ℕ × Stored
acknowledge_pending i s g [] = (ok 0, stream s)
acknowledge_pending i s g (p ∷ more) = (ok 1, with_group s g (drop_pending i g.pending))

unfoldable pub acknowledge : StreamId → Stream → Option Group → Outcome RedisError ℕ × Stored
unfolding acknowledge_pending
acknowledge i s none = (ok 0, stream s)
acknowledge i s (some g) = acknowledge_pending i s g (pending_at i g.pending)

-- The reply of `XPENDING` for one id.
unfoldable pub pending_one : StreamId → Option Group → Outcome RedisError (List StreamId)
pending_one i none = err no_group
pending_one i (some g) = ok (take 1 (ids (pending_at i g.pending)))

abbrev pub is_idle : ℕ → ℕ → Pending → Bool
is_idle now idle p = leb idle (now - p.delivered_at_ms)

unfoldable pub claim :
    ℕ
    → String
    → ℕ
    → StreamId
    → Stream
    → Group
    → List Pending
    → Outcome RedisError (List StreamId) × Stored
claim now consumer idle i s g [] = (ok [], stream s)
claim now consumer idle i s g (p ∷ more) =
    if is_idle now idle p
    then elim (entries_at i s.entries) [
      | [] ↦ (ok [], with_group s g (drop_pending i g.pending))
      | e ∷ entries ↦ (
        ok (i ∷ []),
        with_group s g (
            insert_pending (record { pending_id = i; owner = consumer; delivered_at_ms = now })
              (drop_pending i g.pending)),
      )
    ]
    else (ok [], stream s)

abbrev pub deliver_next :
    ℕ
    → String
    → Stream
    → Group
    → Option (StreamId × List (Field × Value))
    → Outcome RedisError (Option (StreamId × List (Field × Value))) × Stored
deliver_next now consumer s g none = (ok none, stream s)
deliver_next now consumer s g (some (i, fields)) = (
  ok (some (i, fields)),
  with_group s (record g { last_delivered = i })
      (insert_pending (record { pending_id = i; owner = consumer; delivered_at_ms = now })
        g.pending),
)

module _ (bytes : Bytes) (now : ℕ) where
  unfoldable pub apply : (c : Command) → Stored → Answer c
  unfolding acknowledge pending_one claim
  apply (type_of k) s = (ok (kind_of s), s)
  apply (hgetall k) absent = (ok [], absent)
  apply (hgetall k) (hash fields) = (ok fields, hash fields)
  apply (hgetall k) s = (err wrong_type, s)
  apply (hget k f) absent = (ok none, absent)
  apply (hget k f) (hash fields) = (ok (lookup f fields), hash fields)
  apply (hget k f) s = (err wrong_type, s)
  apply (hdel k f) absent = (ok tt, absent)
  apply (hdel k f) (hash fields) = (ok tt, hash_or_absent (drop_field f fields))
  apply (hdel k f) s = (err wrong_type, s)
  apply (hincrby k f) absent = (ok (ℤ.pos 1), hash ((f, Value.int (ℤ.pos 1)) ∷ []))
  apply (hincrby k f) (hash fields) = elim (increment (lookup f fields)) [
    | none ↦ (err not_an_integer, hash fields)
    | some n ↦ (ok n, hash (set_field f (Value.int n) fields))
  ]
  apply (hincrby k f) s = (err wrong_type, s)
  apply (hset k news) absent = (ok tt, hash (set_fields news []))
  apply (hset k news) (hash fields) = (ok tt, hash (set_fields news fields))
  apply (hset k news) s = (err wrong_type, s)
  apply (xadd k fields) absent = let s = append now fields empty_stream in (ok s.last_id, stream s)
  apply (xadd k fields) (stream s) = let t = append now fields s in (ok t.last_id, stream t)
  apply (xadd k fields) s = (err wrong_type, s)
  apply (xack k g v) absent = (ok 0, absent)
  apply (xack k g v) (stream s) = elim (read_id bytes v) [
    | none ↦ (err invalid_id, stream s)
    | some i ↦ acknowledge i s (find_group g s.groups)
  ]
  apply (xack k g v) s = (err wrong_type, s)
  apply (xpending k g v) absent = (err no_group, absent)
  apply (xpending k g v) (stream s) = elim (read_id bytes v) [
    | none ↦ (err invalid_id, stream s)
    | some i ↦ (pending_one i (find_group g s.groups), stream s)
  ]
  apply (xpending k g v) s = (err wrong_type, s)
  apply (xpending_idle k g idle count) absent = (err no_group, absent)
  apply (xpending_idle k g idle count) (stream s) = elim (find_group g s.groups) [
    | none ↦ (err no_group, stream s)
    | some h ↦ (ok (take count (ids (filter (is_idle now idle) h.pending))), stream s)
  ]
  apply (xpending_idle k g idle count) s = (err wrong_type, s)
  apply (xrange k v) absent = (ok [], absent)
  apply (xrange k v) (stream s) = elim (read_id bytes v) [
    | none ↦ (err invalid_id, stream s)
    | some i ↦ (ok (entries_at i s.entries), stream s)
  ]
  apply (xrange k v) s = (err wrong_type, s)
  apply (zrem k v) absent = (ok tt, absent)
  apply (zrem k v) (zset members) = (ok tt, zset_or_absent (drop_member v members))
  apply (zrem k v) s = (err wrong_type, s)
  apply (xclaim k g consumer idle v) absent = (err no_group, absent)
  apply (xclaim k g consumer idle v) (stream s) = elim (find_group g s.groups) [
    | none ↦ (err no_group, stream s)
    | some h ↦ elim (read_id bytes v) [
      | none ↦ (err invalid_id, stream s)
      | some i ↦ claim now consumer idle i s h (pending_at i h.pending)
    ]
  ]
  apply (xclaim k g consumer idle v) s = (err wrong_type, s)
  apply (xreadgroup k g consumer) absent = (err no_group, absent)
  apply (xreadgroup k g consumer) (stream s) = elim (find_group g s.groups) [
    | none ↦ (err no_group, stream s)
    | some h ↦ deliver_next now consumer s h (first_after h.last_delivered s.entries)
  ]
  apply (xreadgroup k g consumer) s = (err wrong_type, s)
  apply (xgroup_create k g) absent = (
    ok tt,
    stream (record empty_stream {
      groups = record { name = g; last_delivered = no_id; pending = [] } ∷ [];
    }),
  )
  apply (xgroup_create k g) (stream s) = elim (find_group g s.groups) [
    | none ↦ (
      ok tt,
      stream (record s {
        groups = record { name = g; last_delivered = no_id; pending = [] } ∷ s.groups;
      }),
    )
    | some h ↦ (err busy_group, stream s)
  ]
  apply (xgroup_create k g) s = (err wrong_type, s)
  apply (zadd k score v) absent = (ok tt, zset ((v, score) ∷ []))
  apply (zadd k score v) (zset members) = (ok tt, zset ((v, score) ∷ drop_member v members))
  apply (zadd k score v) s = (err wrong_type, s)
  apply (zrangebyscore k score) absent = (ok [], absent)
  apply (zrangebyscore k score) (zset members) =
      (ok (due (least bytes (up_to score members))), zset members)
  apply (zrangebyscore k score) s = (err wrong_type, s)

abbrev pub key_of : Command → Key
key_of (type_of k) = k
key_of (hgetall k) = k
key_of (hget k f) = k
key_of (hdel k f) = k
key_of (hincrby k f) = k
key_of (hset k news) = k
key_of (xadd k fields) = k
key_of (xack k g v) = k
key_of (xpending k g v) = k
key_of (xpending_idle k g idle count) = k
key_of (xrange k v) = k
key_of (zrem k v) = k
key_of (xclaim k g consumer idle v) = k
key_of (xreadgroup k g consumer) = k
key_of (xgroup_create k g) = k
key_of (zadd k score v) = k
key_of (zrangebyscore k score) = k

-- The values of a server, and its clock, which stands still while a script runs.
pub record Db : Type 0 where
  pub stored : Key → Stored
  pub now_ms : ℕ

abbrev pub put : Key → Stored → Db → Db
put k s db = record db { stored = λ j. if same j k then s else db.stored j }

unfoldable pub db_redis : Bytes → Redis Db
unfolding apply
db_redis bytes = record {
  exec = λ c db.
      let (reply, s) = apply bytes db.now_ms c (db.stored (key_of c)) in
      (reply, put (key_of c) s db);
}

-- Each command of the server does what Redis documents.
pub record IsDocumented {R : Type 0} (bytes : Bytes) (redis : Redis R) : Type 0 where
  pub view : R → Db
  pub replies : (c : Command) (r : R) → (redis.exec c r).0 ≡ ((db_redis bytes).exec c (view r)).0
  pub leaves :
      (c : Command) (r : R) → view (redis.exec c r).1 ≡ ((db_redis bytes).exec c (view r)).1
