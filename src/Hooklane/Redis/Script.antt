-- ===== src/Hooklane/Redis/Script.antt =====
-- The Redis commands that src/hooklane/queue/events.py uses, and scripts as trees of commands, so
-- that one script can be run on any server. The server is a parameter.
use hooklane.Prelude.{ℕ, String, Option, List}
use hooklane.Prelude.Outcome.{ok, err}
use hooklane.Run.{Run, continue}
use hooklane.Hooklane.Redis.Values.{ℤ, StreamId, Value, Field, Key}

-- What `TYPE` answers.
pub data Kind : Type 0 where
  no_kind hash_kind stream_kind zset_kind other_kind : Kind

-- The exceptions of the client: error replies of the server, of a script, and a lost connection.
pub data RedisError : Type 0 where
  wrong_type no_group busy_group not_an_integer invalid_id connection_error : RedisError
  error_reply : String → RedisError

abbrev pub Message : Type 0
Message = StreamId × List (Field × Value)

-- `xpending` and `xrange` are over the range of one id, `xpending` with a count of 1;
-- `xpending_idle` is over all ids; `zrangebyscore` is from `-inf` with a limit of 1; `hincrby` adds
-- 1; `xreadgroup` reads one new message, and `xgroup_create` starts at 0-0 with `MKSTREAM`.
pub data Command : Type 0 where
  type_of hgetall : Key → Command
  hget hdel hincrby : Key → Field → Command
  hset xadd : Key → List (Field × Value) → Command
  xack xpending : Key → String → Value → Command
  xpending_idle : Key → String → ℕ → ℕ → Command
  xrange zrem : Key → Value → Command
  xclaim : Key → String → String → ℕ → Value → Command
  xreadgroup : Key → String → String → Command
  xgroup_create : Key → String → Command
  zadd : Key → ℕ → Value → Command
  zrangebyscore : Key → ℕ → Command

abbrev pub Reply : Command → Type 0
Reply (type_of k) = Kind
Reply (hgetall k) = List (Field × Value)
Reply (hget k f) = Option Value
Reply (hdel k f) = Unit
Reply (hincrby k f) = ℤ
Reply (hset k fields) = Unit
Reply (xadd k fields) = StreamId
Reply (xack k g i) = ℕ
Reply (xpending k g i) = List StreamId
Reply (xpending_idle k g idle count) = List StreamId
Reply (xrange k i) = List Message
Reply (zrem k v) = Unit
Reply (xclaim k g consumer idle i) = List StreamId
Reply (xreadgroup k g consumer) = Option Message
Reply (xgroup_create k g) = Unit
Reply (zadd k score v) = Unit
Reply (zrangebyscore k score) = List Value

-- A server over its state `R`.
pub record Redis (R : Type 0) : Type 0 where
  pub exec : (c : Command) → Run RedisError R (Reply c)

-- A script; `fail` is `return redis.error_reply(…)`.
pub data Script (A : Type 0) : Type 0 where
  done : A → Script A
  fail : String → Script A
  call : (c : Command) → (Reply c → Script A) → Script A

abbrev pub redis_call : (c : Command) → Script (Reply c)
redis_call c = call c done

module _ {A B : Type 0} where
  infixl 5 ◌>>=◌ ◌>>◌
  abbrev pub ◌>>=◌ : Script A → (A → Script B) → Script B
  done a >>= f = f a
  fail why >>= f = fail why
  call c k >>= f = call c (λ reply. k reply >>= f)

  abbrev pub ◌>>◌ : Script A → Script B → Script B
  m >> k = m >>= λ a. k

-- The server runs a script as a whole; an error of a command ends it, and keeps what was written.
unfoldable pub eval : {R A : Type 0} → Redis R → Script A → Run RedisError R A
eval redis (done a) r = (ok a, r)
eval redis (fail why) r = (err (error_reply why), r)
eval redis (call c k) r =
    let (reply, r') = redis.exec c r in continue reply (λ a. eval redis (k a)) r'
