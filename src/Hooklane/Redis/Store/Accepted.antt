-- ===== src/Hooklane/Redis/Store/Accepted.antt =====
-- An accepted event can be read: `enqueue` and `get_status` of src/hooklane/queue/events.py.
use hooklane.Prelude.{ℕ, ◌≡◌, refl, sym, not, false, some, ==_refl, same_refl}
use hooklane.Prelude.Outcome.{Outcome, ok, err}
use hooklane.Run.{◌>>=◌}
use hooklane.Run.Ensures.{Ensures, Ensures-pure, Ensures-bind, Ensures-state}
use hooklane.Cloudflare.Contract.{EventStatus, EventRequest}
use hooklane.Hooklane.Redis.Values.{pos, Key, key_eq, field_eq, Value, StreamId}
use hooklane.Hooklane.Redis.Script.{hgetall, RedisError, Redis, eval}
use hooklane.Hooklane.Redis.Lua.{is_none_or_stream}
use hooklane.Hooklane.Redis.Scripts.Enqueue.{message_fields, status_fields}
use hooklane.Hooklane.Redis.Scripts.Enqueue
use hooklane.Hooklane.Redis.Db.{Bytes, absent, hash, kind_of, append, set_field, set_fields}
use hooklane.Hooklane.Redis.Db.Commands.{Db, IsDocumented, apply, db_redis}
use hooklane.Hooklane.Redis.Db.Simulation.{on_db, eval-Agrees}
use hooklane.Hooklane.Redis.Db.Logic.{
  Ends, Ends-done, Ends-fail, Ends-if, Ends-ok, Ends-type, none_of, stream_of, add_message,
}
use hooklane.Hooklane.Redis.Client.{Libraries, Network, Client, sent, or_unavailable, guarded}
use hooklane.Hooklane.Redis.Client.Answers.{Answered, guarded-Ensures}
use hooklane.Hooklane.Redis.Store.{
  EventStatusRecord, checked_record, status_record, validated, found_status, enqueue, get_status,
}

-- What the script leaves as the status of the event, or that it leaves all as it was.
abbrev Enqueued : Value → Db → Outcome RedisError StreamId → Db → Type 0
Enqueued event db (ok i) db' = db'.stored (Key.status_key event) ≡ hash (status_fields event i)
Enqueued event db (err e) db' = db' ≡ db

module _ (bytes : Bytes) (event event_type payload at_ms : Value) (db : Db) where
  add-Ends :
      not (is_none_or_stream (kind_of (db.stored Key.stream_key))) ≡ false
      → db.stored (Key.status_key event) ≡ absent
      → Ends bytes (Enqueued event db) (Enqueue.add event event_type payload at_ms) db
  unfolding Enqueue.add apply key_eq set_fields set_field field_eq
  add-Ends h free =
      let fields = message_fields event event_type payload at_ms in
      let i = (append db.now_ms fields (stream_of (db.stored Key.stream_key))).last_id in
      Ends-ok (add_message bytes db.now_ms Key.stream_key (db.stored Key.stream_key) h fields) (
        Ends-ok {s = hash (status_fields event i)} (rw free refl)
          (Ends-done (rw (same_refl (Key.status_key event)) refl)))

  enqueue-Ends : Ends bytes (Enqueued event db) (Enqueue.enqueue event event_type payload at_ms) db
  unfolding Enqueue.enqueue
  enqueue-Ends = Ends-type (
      Ends-type (
        Ends-if _ (λ a. Ends-fail refl)
          λ a. Ends-if _ (λ b. Ends-fail refl) λ b. add-Ends a (none_of _ b)))

module _ {R : Type 0} {bytes : Bytes} {redis : Redis R} (d : IsDocumented bytes redis)
    (libraries : Libraries) (event_id : ℕ) where
  -- The first status of the event stands.
  IsQueued : R → Type 0
  IsQueued r =
      (i : StreamId) × ((d.view r).stored (Key.status_key (Value.uuid event_id))
        ≡ hash (status_fields (Value.uuid event_id) i))

  script-IsQueued :
      (event_type payload at_ms : Value) (r : R)
      → let result =
          eval redis (Enqueue.enqueue (Value.uuid event_id) event_type payload at_ms) r in
        Answered (λ i. IsQueued) result.0 result.1
  unfolding IsQueued
  script-IsQueued event_type payload at_ms r =
      let event = Value.uuid event_id in
      let m = Enqueue.enqueue event event_type payload at_ms in
      go (eval redis m r) (on_db bytes m (d.view r)) (eval-Agrees d m r)
        (enqueue-Ends bytes event event_type payload at_ms (d.view r)).at
    where
      go :
          (x : Outcome RedisError StreamId × R) (y : Outcome RedisError StreamId × Db)
          → (x.0 ≡ y.0) × (d.view x.1 ≡ y.1)
          → Enqueued (Value.uuid event_id) (d.view r) y.0 y.1
          → Answered (λ i. IsQueued) x.0 x.1
      go (ok i, r') y p q = (i, rw p.1 (rw (sym p.0) at q))
      go (err e, r') y p q = tt

  enqueue-IsQueued :
      (event : EventRequest)
      → Ensures (λ c. Unit) (λ a c. IsQueued c.server) (enqueue libraries redis event_id event)
  unfolding enqueue
  enqueue-IsQueued event = Ensures-bind {Q = λ a c. Unit} _ _ (Ensures-state _ (λ c p. tt)) λ now.
      Ensures-bind {Q = λ a c. IsQueued c.server} _ _
        (guarded-Ensures (λ i. IsQueued) _ (script-IsQueued _ _ _) _ _)
        λ i. Ensures-pure tt (λ c q. q)

  abbrev first_record : EventStatusRecord
  first_record = record { event_id = event_id; status = EventStatus.queued; attempt_count = pos 0 }

  found-first :
      (i : StreamId) (c : Client R)
      → (found_status libraries redis event_id (status_fields (Value.uuid event_id) i) c).0
        ≡ ok (some first_record)
  unfolding found_status validated status_record checked_record field_eq
  found-first i c = rw (==_refl event_id) refl

  read-IsQueued :
      (r : R) (i : StreamId)
      → (d.view r).stored (Key.status_key (Value.uuid event_id))
        ≡ hash (status_fields (Value.uuid event_id) i)
      → (redis.exec (hgetall (Key.status_key (Value.uuid event_id))) r).0
        ≡ ok (status_fields (Value.uuid event_id) i)
  unfolding db_redis apply
  read-IsQueued r i stands =
      rw (d.replies (hgetall (Key.status_key (Value.uuid event_id))) r) (rw stands refl)

  get_status-IsQueued :
      (c : Client R)
      → c.network c.calls ≡ Network.answered
      → ((r : R) → c.others c.calls r ≡ r)
      → IsQueued c.server
      → (get_status libraries redis event_id c).0 ≡ ok (some first_record)
  unfolding IsQueued get_status guarded sent or_unavailable ◌>>=◌
  get_status-IsQueued c answers alone (i, stands) =
      rw answers (rw (alone c.server) (rw (read-IsQueued c.server i stands) (found-first i _)))

-- On any documented server: where `enqueue` returns, and the next call is answered before any other
-- client acts, `get_status` of the same id returns a record of that id, which is queued after no attempt.
pub get_status-enqueue :
    {R : Type 0} {bytes : Bytes} {redis : Redis R} (d : IsDocumented bytes redis)
    (libraries : Libraries) (event_id : ℕ) (event : EventRequest) (c c' : Client R)
    → enqueue libraries redis event_id event c ≡ (ok tt, c')
    → c'.network c'.calls ≡ Network.answered
    → ((r : R) → c'.others c'.calls r ≡ r)
    → (get_status libraries redis event_id c').0
      ≡ ok (
          some (record { event_id = event_id; status = EventStatus.queued; attempt_count = pos 0 }))
get_status-enqueue d libraries event_id event c c' runs answers alone =
    let queued = (enqueue-IsQueued d libraries event_id event).at c tt in
    get_status-IsQueued d libraries event_id c' answers alone (rw runs at queued)
