-- ===== src/Hooklane/Redis/Db/Avoids.antt =====
-- A script that never writes at a key leaves what stands there.
use hooklane.Prelude.{
  String, ◌≡◌, refl, sym, ◌∙◌, ap, Bool, true, false, ◌⊎◌, inl, inr, same, same_eq, Bool-cases,
  arith, if◌then◌else◌,
}
use hooklane.Prelude.Outcome.{Outcome, ok, err}
use hooklane.Run.{continue}
use hooklane.Hooklane.Redis.Values.{Key, key_eq}
use hooklane.Hooklane.Redis.Script.{
  Command, Reply, type_of, hgetall, hget, xpending, xpending_idle, xrange, zrangebyscore,
  RedisError, Script, done, fail, call, ◌>>=◌, eval,
}
use hooklane.Hooklane.Redis.Db.{Bytes, Stored}
use hooklane.Hooklane.Redis.Db.Commands.{Db, apply, key_of, db_redis}
use hooklane.Hooklane.Redis.Db.Simulation.{on_db}

-- The commands that only read.
abbrev pub IsRead : Command → Type 0
IsRead (type_of k) = Unit
IsRead (hgetall k) = Unit
IsRead (hget k f) = Unit
IsRead (xpending k g v) = Unit
IsRead (xpending_idle k g idle count) = Unit
IsRead (xrange k v) = Unit
IsRead (zrangebyscore k score) = Unit
IsRead c = ⊥

module _ (bytes : Bytes) where
  pub apply-IsRead : (now : _) (c : Command) → IsRead c → (s : Stored) → (apply bytes now c s).1 ≡ s
  unfolding apply
  apply-IsRead now (type_of k) r s = refl
  apply-IsRead now (hgetall k) r s = ground arith
  apply-IsRead now (hget k f) r s = ground arith
  apply-IsRead now (zrangebyscore k score) r s = ground arith
  apply-IsRead now (xpending k g v) r s = ground arith
  apply-IsRead now (xpending_idle k g idle count) r s = ground arith
  apply-IsRead now (xrange k v) r s = ground arith
  apply-IsRead now c r s = absurd r

-- A command that leaves a key as it is, and a script of such commands.
abbrev pub Spares : Key → Command → Type 0
Spares j c = IsRead c ⊎ (same j (key_of c) ≡ false)

module _ {A : Type 0} (j : Key) where
  abbrev AvoidsAll : Script A → Type 0
  AvoidsAll (done a) = Unit
  AvoidsAll (fail why) = Unit
  AvoidsAll (call c k) = Spares j c × ((reply : Reply c) → AvoidsAll (k reply))

pub record Avoids {A : Type 0} (j : Key) (m : Script A) : Type 0 where
  pub spares : AvoidsAll j m

module _ {A : Type 0} {j : Key} where
  pub Avoids-done : {a : A} → Avoids j (done a)
  Avoids-done = record { spares = tt }

  pub Avoids-fail : {why : String} → Avoids {A = A} j (fail why)
  Avoids-fail = record { spares = tt }

  pub Avoids-read :
      {c : Command} {k : Reply c → Script A}
      → IsRead c
      → ((reply : Reply c) → Avoids j (k reply))
      → Avoids j (call c k)
  Avoids-read r h = record { spares = (inl r, λ reply. (h reply).spares) }

  pub Avoids-write :
      {c : Command} {k : Reply c → Script A}
      → same j (key_of c) ≡ false
      → ((reply : Reply c) → Avoids j (k reply))
      → Avoids j (call c k)
  Avoids-write e h = record { spares = (inr e, λ reply. (h reply).spares) }

  pub Avoids-if :
      (b : Bool) {m n : Script A} → Avoids j m → Avoids j n → Avoids j (if b then m else n)
  Avoids-if true hm hn = hm
  Avoids-if false hm hn = hn

module _ {A B : Type 0} {j : Key} where
  bind-AvoidsAll :
      (m : Script A) (f : A → Script B)
      → AvoidsAll j m
      → ((a : A) → Avoids j (f a))
      → AvoidsAll j (m >>= f)
  bind-AvoidsAll (done a) f hm hf = (hf a).spares
  bind-AvoidsAll (fail why) f hm hf = tt
  bind-AvoidsAll (call c k) f hm hf = (hm.0, λ reply. bind-AvoidsAll (k reply) f (hm.1 reply) hf)

  pub Avoids-bind :
      {m : Script A} {f : A → Script B}
      → Avoids j m
      → ((a : A) → Avoids j (f a))
      → Avoids j (m >>= f)
  Avoids-bind {m} {f} hm hf = record { spares = bind-AvoidsAll m f hm.spares hf }

module _ (bytes : Bytes) (j : Key) where
  exec-Spares :
      (c : Command) (db : Db) → Spares j c → ((db_redis bytes).exec c db).1.stored j ≡ db.stored j
  unfolding db_redis
  exec-Spares c db (inl r) = elim (Bool-cases (same j (key_of c))) [
    | inl e ↦
        rw e
          (apply-IsRead bytes db.now_ms c r (db.stored (key_of c)) ∙ ap db.stored (sym (same_eq e)))
    | inr e ↦ rw e refl
  ]
  exec-Spares c db (inr e) = rw e refl

  module _ {A : Type 0} where
    continue-Avoids :
        {B : Type 0} (k : B → Script A) (s : Stored)
        → ((b : B) (db : Db) → db.stored j ≡ s → (on_db bytes (k b) db).1.stored j ≡ s)
        → (x : Outcome RedisError B × Db) → x.1.stored j ≡ s
        → (continue x.0 (λ b. on_db bytes (k b)) x.1).1.stored j ≡ s
    continue-Avoids k s h (ok b, db) e = h b db e
    continue-Avoids k s h (err why, db) e = e

    eval-Avoids :
        (m : Script A)
        → AvoidsAll j m
        → (db : Db) (s : Stored) → db.stored j ≡ s
        → (on_db bytes m db).1.stored j ≡ s
    unfolding eval
    eval-Avoids (done a) h db s e = e
    eval-Avoids (fail why) h db s e = e
    eval-Avoids (call c k) h db s e =
        continue-Avoids k s (λ b next. eval-Avoids (k b) (h.1 b) next s)
          ((db_redis bytes).exec c db) (exec-Spares c db h.0 ∙ e)

    pub stays :
        (m : Script A) → Avoids j m → (db : Db) → (on_db bytes m db).1.stored j ≡ db.stored j
    stays m h db = eval-Avoids m h.spares db (db.stored j) refl

pub ruleset avoids_rules = (Avoids-done, Avoids-fail, Avoids-read, Avoids-write, Avoids-if)
