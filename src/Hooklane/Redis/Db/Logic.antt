-- ===== src/Hooklane/Redis/Db/Logic.antt =====
-- What a script answers and leaves, command by command.
use hooklane.Prelude.{
  ℕ, String, ◌≡◌, refl, sym, ap, ◌∙◌, Bool, true, false, ◌⊎◌, inl, inr, not, Option, none, some,
  List, same, same_eq, Bool-cases, arith, if◌then◌else◌,
}
use hooklane.Prelude.Outcome.{Outcome, ok, err}
use hooklane.Run.{continue}
use hooklane.Hooklane.Redis.Values.{Key, key_eq, Field, Value, value_eq}
use hooklane.Hooklane.Redis.Script.{
  Kind, Command, Reply, type_of, hget, xadd, RedisError, error_reply, Script, done, fail, call,
  eval,
}
use hooklane.Hooklane.Redis.Lua.{is_none_or_stream, is_hash, is_none_kind, is_value}
use hooklane.Hooklane.Redis.Db.{
  Bytes, Stored, absent, hash, stream, zset, other_value, kind_of, lookup, Stream, append,
  empty_stream,
}
use hooklane.Hooklane.Redis.Db.Commands.{Db, apply, key_of, put, db_redis}
use hooklane.Hooklane.Redis.Db.Simulation.{on_db}
use hooklane.Hooklane.Redis.Db.Avoids.{IsRead, apply-IsRead}

put_same : (k : Key) (db : Db) → put k (db.stored k) db ≡ db
put_same k db i = record db { stored = λ j. go j (Bool-cases (same j k)) i }
  where
    go :
        (j : Key)
        → (same j k ≡ true) ⊎ (same j k ≡ false)
        → (if same j k then db.stored k else db.stored j) ≡ db.stored j
    go j (inl e) = rw e (ap db.stored (sym (same_eq e)))
    go j (inr e) = rw e refl

-- A postcondition of a script at a `Db`.
pub record Ends {A : Type 0} (bytes : Bytes) (Q : Outcome RedisError A → Db → Type 0) (m : Script A)
    (db : Db) : Type 0 where
  pub at : Q (on_db bytes m db).0 (on_db bytes m db).1

module _ {A : Type 0} {bytes : Bytes} {Q : Outcome RedisError A → Db → Type 0} {db : Db} where
  pub Ends-done : {a : A} → Q (ok a) db → Ends bytes Q (done a) db
  unfolding eval
  Ends-done q = record { at = q }

  pub Ends-fail : {why : String} → Q (err (error_reply why)) db → Ends bytes Q (fail why) db
  unfolding eval
  Ends-fail q = record { at = q }

  pub Ends-if :
      (b : Bool) {m n : Script A}
      → (b ≡ true → Ends bytes Q m db)
      → (b ≡ false → Ends bytes Q n db)
      → Ends bytes Q (if b then m else n) db
  Ends-if true hm hn = hm refl
  Ends-if false hm hn = hn refl

  module _ {c : Command} {k : Reply c → Script A} where
    -- A command that answers `a` and leaves `s` at its key.
    pub Ends-ok :
        {a : Reply c} {s : Stored}
        → apply bytes db.now_ms c (db.stored (key_of c)) ≡ (ok a, s)
        → Ends bytes Q (k a) (put (key_of c) s db)
        → Ends bytes Q (call c k) db
    unfolding eval db_redis
    Ends-ok e h = record { at = rw e h.at }

    pub Ends-err :
        {e : RedisError} {s : Stored}
        → apply bytes db.now_ms c (db.stored (key_of c)) ≡ (err e, s)
        → Q (err e) (put (key_of c) s db)
        → Ends bytes Q (call c k) db
    unfolding eval db_redis
    Ends-err e q = record { at = rw e q }

    -- A command that only reads: what follows is at the same `Db`.
    pub Ends-read :
        IsRead c
        → ((a : Reply c)
            → (apply bytes db.now_ms c (db.stored (key_of c))).0 ≡ ok a
            → Ends bytes Q (k a) db)
        → ((e : RedisError)
            → (apply bytes db.now_ms c (db.stored (key_of c))).0 ≡ err e
            → Q (err e) db)
        → Ends bytes Q (call c k) db
    unfolding eval db_redis
    Ends-read r ha he = record { at = go (apply bytes db.now_ms c (db.stored (key_of c))) refl }
      where
        go :
            (x : Outcome RedisError (Reply c) × Stored)
            → apply bytes db.now_ms c (db.stored (key_of c)) ≡ x
            → Q
                (continue x.0 (λ a. on_db bytes (k a)) (put (key_of c) x.1 db)).0
                (continue x.0 (λ a. on_db bytes (k a)) (put (key_of c) x.1 db)).1
        go (ok a, s) e =
            let same_s : s ≡ db.stored (key_of c) =
              rw (ap (λ y. y.1) (sym e))
                (apply-IsRead bytes db.now_ms c r (db.stored (key_of c))) in
            rw same_s (rw (put_same (key_of c) db) (ha a (ap (λ y. y.0) e)).at)
        go (err why, s) e =
            let same_s : s ≡ db.stored (key_of c) =
              rw (ap (λ y. y.1) (sym e))
                (apply-IsRead bytes db.now_ms c r (db.stored (key_of c))) in
            rw same_s (rw (put_same (key_of c) db) (he why (ap (λ y. y.0) e)))

module _ {A : Type 0} {bytes : Bytes} {Q : Outcome RedisError A → Db → Type 0} {db : Db} where
  -- A command that turns out to change nothing.
  module _ {c : Command} {k : Reply c → Script A} where
    pub Ends-same :
        {a : Reply c}
        → apply bytes db.now_ms c (db.stored (key_of c)) ≡ (ok a, db.stored (key_of c))
        → Ends bytes Q (k a) db
        → Ends bytes Q (call c k) db
    Ends-same {a} e h = Ends-ok {k = k} {a = a} e (rw (put_same (key_of c) db) h)

    pub Ends-same_err :
        {e : RedisError}
        → apply bytes db.now_ms c (db.stored (key_of c)) ≡ (err e, db.stored (key_of c))
        → Q (err e) db
        → Ends bytes Q (call c k) db
    Ends-same_err {e} h q = Ends-err {k = k} h (rw (put_same (key_of c) db) q)

module _ {A : Type 0} {bytes : Bytes} {Q : Outcome RedisError A → Db → Type 0} {db : Db} where
  pub Ends-type :
      {key : Key} {k : Kind → Script A}
      → Ends bytes Q (k (kind_of (db.stored key))) db
      → Ends bytes Q (call (type_of key) k) db
  unfolding eval db_redis apply
  Ends-type {key} h = record { at = rw (put_same key db) h.at }

  pub Ends-hget :
      {key : Key} {f : Field} {k : Option Value → Script A} (fields : List (Field × Value))
      → db.stored key ≡ hash fields
      → Ends bytes Q (k (lookup f fields)) db
      → Ends bytes Q (call (hget key f) k) db
  unfolding apply
  Ends-hget {key} {f} {k} fields e h =
      Ends-ok {a = lookup f fields} {s = hash fields} (rw e refl) (rw unchanged h)
    where
      unchanged : put key (hash fields) db ≡ db
      unchanged = rw (sym e) (put_same key db)

-- What a kind says of a value.
pub is_hash-cases :
    (s : Stored) → is_hash (kind_of s) ≡ true → (fields : List (Field × Value)) × (s ≡ hash fields)
is_hash-cases (hash fields) h = (fields, refl)
is_hash-cases absent h = absurd (ground arith)
is_hash-cases (stream t) h = absurd (ground arith)
is_hash-cases (zset members) h = absurd (ground arith)
is_hash-cases other_value h = absurd (ground arith)

abbrev ok_of : Option Value → Outcome RedisError (Option Value)
ok_of found = ok found

-- A field with a value is a field of a hash.
pub hget_value :
    (bytes : Bytes) (now : ℕ) (key : Key) (f : Field) (s : Stored) (v : Value)
    (current : Option Value)
    → (apply bytes now (hget key f) s).0 ≡ ok current
    → not (is_value current v) ≡ false
    → (fields : List (Field × Value)) × (s ≡ hash fields) × (lookup f fields ≡ some v)
unfolding apply
hget_value bytes now key f (hash fields) v none h e = absurd (ground arith)
hget_value bytes now key f (hash fields) v (some u) h e =
    (fields, refl, lookup_is (lookup f fields) u h ∙ ap some (same_eq (not_false (same u v) e)))
  where
    lookup_is : (found : Option Value) (u : Value) → ok_of found ≡ ok_of (some u) → found ≡ some u
    lookup_is found u h = cc

    not_false : (b : Bool) → not b ≡ false → b ≡ true
    not_false b h = ground arith
hget_value bytes now key f absent v current h e = absurd (ground arith)
hget_value bytes now key f (stream t) v current h e = absurd (cc)
hget_value bytes now key f (zset members) v current h e = absurd (cc)
hget_value bytes now key f other_value v current h e = absurd (cc)

-- A message that is added to a stream, or to a new one.
abbrev pub stream_of : Stored → Stream
stream_of (stream s) = s
stream_of s = empty_stream

pub add_message :
    (bytes : Bytes) (now : ℕ) (key : Key) (s : Stored)
    → not (is_none_or_stream (kind_of s)) ≡ false
    → (fields : List (Field × Value))
    → apply bytes now (xadd key fields) s
      ≡ (ok (append now fields (stream_of s)).last_id, stream (append now fields (stream_of s)))
unfolding apply
add_message bytes now key absent h fields = refl
add_message bytes now key (stream s) h fields = refl
add_message bytes now key (hash fs) h fields = absurd (ground arith)
add_message bytes now key (zset members) h fields = absurd (ground arith)
add_message bytes now key other_value h fields = absurd (ground arith)

pub none_of : (s : Stored) → not (is_none_kind (kind_of s)) ≡ false → s ≡ absent
none_of absent h = refl
none_of (hash fields) h = absurd (ground arith)
none_of (stream t) h = absurd (ground arith)
none_of (zset members) h = absurd (ground arith)
none_of other_value h = absurd (ground arith)
