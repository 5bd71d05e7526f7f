-- ===== src/Hooklane/Redis/Db/Simulation.antt =====
-- A script on a documented server does what it does on the `Db` that the server is seen as.
use hooklane.Prelude.{◌≡◌, refl, sym}
use hooklane.Prelude.Outcome.{Outcome, ok, err}
use hooklane.Run.{continue}
use hooklane.Hooklane.Redis.Script.{RedisError, Redis, Script, done, fail, call, eval}
use hooklane.Hooklane.Redis.Db.{Bytes}
use hooklane.Hooklane.Redis.Db.Commands.{Db, db_redis, IsDocumented}

-- The result on the `Db`.
abbrev pub on_db : {A : Type 0} → Bytes → Script A → Db → Outcome RedisError A × Db
on_db bytes m db = eval (db_redis bytes) m db

module _ {R : Type 0} {bytes : Bytes} {redis : Redis R} (d : IsDocumented bytes redis) where
  abbrev pub Agrees : {A : Type 0} → Outcome RedisError A × R → Outcome RedisError A × Db → Type 0
  Agrees x y = (x.0 ≡ y.0) × (d.view x.1 ≡ y.1)

  module _ {A : Type 0} where
    continue-Agrees :
        {B : Type 0} (k : B → Script A)
        → ((b : B) (r : R) → Agrees (eval redis (k b) r) (on_db bytes (k b) (d.view r)))
        → (x : Outcome RedisError B × R) (y : Outcome RedisError B × Db) → Agrees x y
        → Agrees
            (continue x.0 (λ b. eval redis (k b)) x.1)
            (continue y.0 (λ b. eval (db_redis bytes) (k b)) y.1)
    continue-Agrees k h (ok b, r) y p = rw (sym p.0) (rw (sym p.1) (h b r))
    continue-Agrees k h (err e, r) y p = rw (sym p.0) (refl, p.1)

    pub eval-Agrees : (m : Script A) (r : R) → Agrees (eval redis m r) (on_db bytes m (d.view r))
    unfolding eval
    eval-Agrees (done a) r = (refl, refl)
    eval-Agrees (fail why) r = (refl, refl)
    eval-Agrees (call c k) r =
        continue-Agrees k (λ b. eval-Agrees (k b)) (redis.exec c r)
          ((db_redis bytes).exec c (d.view r)) (d.replies c r, d.leaves c r)
