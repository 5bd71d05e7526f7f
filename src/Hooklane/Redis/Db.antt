-- ===== src/Hooklane/Redis/Db.antt =====
-- What Redis documents of the commands that src/hooklane/queue/events.py uses: a command works on
-- the value at one key. A server is documented when it can be seen as a `Db`.
pub mod Commands
pub mod Binds
pub mod Lookups
pub mod Streams
pub mod Logic
pub mod Avoids
pub mod Simulation
use hooklane.Prelude.{
  ℕ, zero, suc, ◌-◌, ◌+◌, String, Bool, true, false, not, ◌&&◌, ◌||◌, Option, none, some, List, [],
  ◌∷◌, ◌++◌, ◌≡◌, ltb, leb, ◌==◌, same, same_refl, take, filter, Option-cases, string_eq,
  if◌then◌else◌,
}
use hooklane.Prelude.Outcome.{Outcome, ok, err}
use hooklane.Hooklane.Redis.Values.{
  ℤ, pos, negsuc, StreamId, Value, Field, Key, value_eq, key_eq, field_eq, stream_id_eq,
}
use hooklane.Hooklane.Redis.Script.{
  Kind, RedisError, wrong_type, no_group, busy_group, not_an_integer, invalid_id, Message, Command,
  type_of, hgetall, hget, hdel, hincrby, hset, xadd, xack, xpending, xpending_idle, xrange, zrem,
  xclaim, xreadgroup, xgroup_create, zadd, zrangebyscore, Reply, Redis,
}

pub record Pending : Type 0 where
  pub pending_id : StreamId
  pub owner : String
  pub delivered_at_ms : ℕ

pub record Group : Type 0 where
  pub name : String
  pub last_delivered : StreamId
  pub pending : List Pending

pub record Stream : Type 0 where
  pub entries : List Message
  pub last_id : StreamId
  pub groups : List Group

pub data Stored : Type 0 where
  absent : Stored
  hash : List (Field × Value) → Stored
  stream : Stream → Stored
  zset : List (Value × ℕ) → Stored
  other_value : Stored

-- How Redis reads a stream id that is not in its canonical form, and the order of the bytes of two
-- strings.
pub record Bytes : Type 0 where
  pub read_id : List ℕ → Option StreamId
  pub before : Value → Value → Bool

abbrev pub Answer : Command → Type 0
Answer c = Outcome RedisError (Reply c) × Stored

abbrev pub kind_of : Stored → Kind
kind_of absent = Kind.no_kind
kind_of (hash fields) = Kind.hash_kind
kind_of (stream s) = Kind.stream_kind
kind_of (zset members) = Kind.zset_kind
kind_of other_value = Kind.other_kind

-- Hashes.
unfoldable pub lookup : Field → List (Field × Value) → Option Value
lookup f [] = none
lookup f ((g, v) ∷ fields) = if same g f then some v else lookup f fields

unfoldable pub set_field : Field → Value → List (Field × Value) → List (Field × Value)
set_field f v [] = (f, v) ∷ []
set_field f v ((g, u) ∷ fields) =
    if same g f then (g, v) ∷ fields else (g, u) ∷ set_field f v fields

unfoldable pub set_fields : List (Field × Value) → List (Field × Value) → List (Field × Value)
unfolding set_field
set_fields [] fields = fields
set_fields ((f, v) ∷ news) fields = set_fields news (set_field f v fields)

abbrev pub hash_or_absent : List (Field × Value) → Stored
hash_or_absent [] = absent
hash_or_absent (f ∷ fields) = hash (f ∷ fields)

unfoldable pub drop_field : Field → List (Field × Value) → List (Field × Value)
drop_field f fields = filter (λ entry. not (same entry.0 f)) fields

abbrev pub increment : Option Value → Option ℤ
increment none = some (pos 1)
increment (some (Value.int (pos n))) = some (pos (suc n))
increment (some (Value.int (negsuc zero))) = some (pos 0)
increment (some (Value.int (negsuc (suc n)))) = some (negsuc n)
increment (some v) = none

-- Streams.
abbrev pub id_before : StreamId → StreamId → Bool
id_before i j = ltb i.ms j.ms || ((i.ms == j.ms) && ltb i.seq j.seq)

-- `*`: the time of the server, or the id after the last one where that is not later.
abbrev pub new_id : ℕ → StreamId → StreamId
new_id now last =
    if ltb last.ms now
    then record { ms = now; seq = 0 }
    else record { ms = last.ms; seq = suc last.seq }

abbrev pub no_id : StreamId
no_id = record { ms = 0; seq = 0 }

abbrev pub empty_stream : Stream
empty_stream = record { entries = []; last_id = no_id; groups = [] }

abbrev pub append : ℕ → List (Field × Value) → Stream → Stream
append now fields s = record s {
  entries = s.entries ++ (new_id now s.last_id, fields) ∷ [];
  last_id = new_id now s.last_id;
}

unfoldable pub entries_at : StreamId → List Message → List Message
entries_at i entries = filter (λ e. same e.0 i) entries

abbrev pub first_after : StreamId → List Message → Option Message
first_after i [] = none
first_after i (e ∷ entries) = if id_before i e.0 then some e else first_after i entries

unfoldable pub find_group : String → List Group → Option Group
find_group g [] = none
find_group g (h ∷ groups) = if same h.name g then some h else find_group g groups

unfoldable pub set_group : Group → List Group → List Group
set_group g [] = []
set_group g (h ∷ groups) = if same h.name g.name then g ∷ groups else h ∷ set_group g groups

unfoldable pub pending_at : StreamId → List Pending → List Pending
pending_at i pending = filter (λ p. same p.pending_id i) pending

unfoldable pub drop_pending : StreamId → List Pending → List Pending
drop_pending i pending = filter (λ p. not (same p.pending_id i)) pending

abbrev pub ids : List Pending → List StreamId
ids [] = []
ids (p ∷ pending) = p.pending_id ∷ ids pending

abbrev pub insert_pending : Pending → List Pending → List Pending
insert_pending p [] = p ∷ []
insert_pending p (q ∷ pending) =
    if id_before p.pending_id q.pending_id then p ∷ q ∷ pending else q ∷ insert_pending p pending

abbrev pub with_group : Stream → Group → List Pending → Stored
with_group s g pending =
    stream (record s { groups = set_group (record g { pending = pending }) s.groups })

-- Sorted sets.
unfoldable pub drop_member : Value → List (Value × ℕ) → List (Value × ℕ)
drop_member v members = filter (λ member. not (same member.0 v)) members

abbrev pub zset_or_absent : List (Value × ℕ) → Stored
zset_or_absent [] = absent
zset_or_absent (m ∷ members) = zset (m ∷ members)

abbrev pub smaller : Bytes → Value × ℕ → Value × ℕ → Bool
smaller bytes m n = ltb m.1 n.1 || ((m.1 == n.1) && bytes.before m.0 n.0)

abbrev pub least : Bytes → List (Value × ℕ) → Option (Value × ℕ)
least bytes [] = none
least bytes (m ∷ members) = elim (least bytes members) [
  | none ↦ some m
  | some n ↦ if smaller bytes n m then some n else some m
]

abbrev pub up_to : ℕ → List (Value × ℕ) → List (Value × ℕ)
up_to now members = filter (λ member. leb member.1 now) members

abbrev pub due : Option (Value × ℕ) → List Value
due none = []
due (some (v, score)) = v ∷ []
