-- ===== src/Hooklane/Redis/Db/Binds.antt =====
-- What a script that goes on after another one answers and leaves.
use hooklane.Prelude.{◌≡◌, refl}
use hooklane.Prelude.Outcome.{Outcome, ok, err}
use hooklane.Run.{continue}
use hooklane.Hooklane.Redis.Script.{RedisError, Script, done, fail, call, ◌>>=◌, eval}
use hooklane.Hooklane.Redis.Db.{Bytes}
use hooklane.Hooklane.Redis.Db.Commands.{Db, db_redis}
use hooklane.Hooklane.Redis.Db.Simulation.{on_db}
use hooklane.Hooklane.Redis.Db.Logic.{Ends}

module _ {A B : Type 0} (bytes : Bytes) where
  abbrev After : (Outcome RedisError A × Db) → (A → Script B) → Outcome RedisError B × Db
  After x f = continue x.0 (λ a. on_db bytes (f a)) x.1

  continue-After :
      {C : Type 0} (k : C → Script A) (f : A → Script B)
      → ((c : C) (db : Db) → on_db bytes (k c >>= f) db ≡ After (on_db bytes (k c) db) f)
      → (x : Outcome RedisError C × Db)
      → continue x.0 (λ c. on_db bytes (k c >>= f)) x.1
        ≡ After (continue x.0 (λ c. on_db bytes (k c)) x.1) f
  continue-After k f h (ok c, db) = h c db
  continue-After k f h (err e, db) = refl

  eval-After :
      (m : Script A) (f : A → Script B) (db : Db)
      → on_db bytes (m >>= f) db ≡ After (on_db bytes m db) f
  unfolding eval
  eval-After (done a) f db = refl
  eval-After (fail why) f db = refl
  eval-After (call c k) f db =
      continue-After k f (λ b. eval-After (k b) f) ((db_redis bytes).exec c db)

  module _ (P : Outcome RedisError A → Db → Type 0) (Q : Outcome RedisError B → Db → Type 0) where
    After-Ends :
        (f : A → Script B)
        → ((a : A) (db : Db) → P (ok a) db → Ends bytes Q (f a) db)
        → ((e : RedisError) (db : Db) → P (err e) db → Q (err e) db)
        → (x : Outcome RedisError A × Db) → P x.0 x.1
        → Q (After x f).0 (After x f).1
    After-Ends f hf he (ok a, db) p = (hf a db p).at
    After-Ends f hf he (err e, db) p = he e db p

    pub Ends-bind :
        (m : Script A) (f : A → Script B) (db : Db)
        → Ends bytes P m db
        → ((a : A) (db : Db) → P (ok a) db → Ends bytes Q (f a) db)
        → ((e : RedisError) (db : Db) → P (err e) db → Q (err e) db)
        → Ends bytes Q (m >>= f) db
    Ends-bind m f db h hf he = record {
      at = rw (eval-After m f db) (After-Ends f hf he (on_db bytes m db) h.at);
    }
