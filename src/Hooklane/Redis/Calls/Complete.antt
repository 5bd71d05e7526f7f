-- ===== src/Hooklane/Redis/Calls/Complete.antt =====
-- What `_COMPLETE_DELIVERY_SCRIPT` of src/hooklane/queue/events.py does.
use hooklane.Prelude.{ℕ, String, ◌≡◌, ◌≢◌, refl, Option, none, some, List, [], ◌∷◌, same_refl}
use hooklane.Prelude.Outcome.{Outcome, ok, err}
use hooklane.Cloudflare.Contract.{EventStatus}
use hooklane.Hooklane.Redis.Values.{Key, key_eq, field_eq, value_eq, Value, Field, StreamId}
use hooklane.Hooklane.Redis.Script.{RedisError, wrong_type, xack, Redis, eval}
use hooklane.Hooklane.Redis.Scripts.Delivery.{acknowledge_and_mark, complete_delivery}
use hooklane.Hooklane.Redis.Db.{
  Bytes, Stored, absent, hash, stream, zset, other_value, lookup, set_field, set_fields, Stream,
  Group, Pending, find_group, pending_at, drop_pending, with_group,
}
use hooklane.Hooklane.Redis.Db.Commands.{Db, IsDocumented, apply, acknowledge_pending, acknowledge}
use hooklane.Hooklane.Redis.Db.Simulation.{eval-Agrees}
use hooklane.Hooklane.Redis.Db.Logic.{
  Ends, Ends-done, Ends-fail, Ends-if, Ends-ok, Ends-read, Ends-same, Ends-same_err, hget_value,
}

-- How a completion can end, with the server before and after it.
pub data Completed (event : Value) (i : StreamId) (group_name : String) (db : Db)
    : Outcome RedisError ℕ → Db → Type 0 where
  -- The message was pending for the group, and stands in the status of the event.
  was_completed :
      (fields : List (Field × Value)) (s : Stream) (g : Group) {db' : Db}
      → db.stored (Key.status_key event) ≡ hash fields
      → lookup Field.stream_id fields ≡ some (Value.id i)
      → db.stored Key.stream_key ≡ stream s
      → find_group group_name s.groups ≡ some g
      → pending_at i g.pending ≢ []
      → db'.stored Key.stream_key ≡ with_group s g (drop_pending i g.pending)
      → db'.stored (Key.status_key event)
        ≡ hash (set_field Field.status (Value.word EventStatus.delivered) fields)
      → Completed event i group_name db (ok 1) db'
  was_refused : (e : RedisError) → Completed event i group_name db (err e) db

-- What `XACK` makes of the stream of events.
pub data Acked (i : StreamId) (group_name : String) (s : Stored)
    : Outcome RedisError ℕ × Stored → Type 0 where
  acked :
      (t : Stream) (g : Group)
      → s ≡ stream t
      → find_group group_name t.groups ≡ some g
      → pending_at i g.pending ≢ []
      → Acked i group_name s (ok 1, with_group t g (drop_pending i g.pending))
  was_not_pending : Acked i group_name s (ok 0, s)
  was_error : (e : RedisError) → Acked i group_name s (err e, s)

module _ (bytes : Bytes) (now : ℕ) (i : StreamId) (group_name : String) where
  acknowledge-Acked :
      (t : Stream) (g : Group) (pending : List Pending)
      → find_group group_name t.groups ≡ some g
      → pending_at i g.pending ≡ pending
      → Acked i group_name (stream t) (acknowledge_pending i t g pending)
  unfolding acknowledge_pending
  acknowledge-Acked t g [] h e = was_not_pending
  acknowledge-Acked t g (p ∷ pending) h e = acked t g refl h (λ empty. absurd (cc))

  group-Acked :
      (t : Stream) (g : Option Group)
      → find_group group_name t.groups ≡ g
      → Acked i group_name (stream t) (acknowledge i t g)
  unfolding acknowledge
  group-Acked t none h = was_not_pending
  group-Acked t (some g) h = acknowledge-Acked t g (pending_at i g.pending) h refl

  pub xack-Acked :
      (s : Stored)
      → Acked i group_name s (apply bytes now (xack Key.stream_key group_name (Value.id i)) s)
  unfolding apply
  xack-Acked absent = was_not_pending
  xack-Acked (stream t) = group-Acked t (find_group group_name t.groups) refl
  xack-Acked (hash fields) = was_error wrong_type
  xack-Acked (zset members) = was_error wrong_type
  xack-Acked other_value = was_error wrong_type

module _ (bytes : Bytes) (event : Value) (i : StreamId) (group_name : String) (db : Db) where
  abbrev Post : Outcome RedisError ℕ → Db → Type 0
  Post = Completed event i group_name db

  -- From the acknowledgement on.
  acknowledge-Ends :
      (fields : List (Field × Value))
      → db.stored (Key.status_key event) ≡ hash fields
      → lookup Field.stream_id fields ≡ some (Value.id i)
      → (x : Outcome RedisError ℕ × Stored) → Acked i group_name (db.stored Key.stream_key) x
      → apply bytes db.now_ms
          (xack Key.stream_key group_name (Value.id i))
          (db.stored Key.stream_key)
        ≡ x
      → Ends bytes Post (acknowledge_and_mark event (Value.id i) group_name) db
  unfolding acknowledge_and_mark apply key_eq set_fields
  acknowledge-Ends fields h l x (acked t g s found pending) e = Ends-ok e (
      Ends-ok {s = hash (set_field Field.status (Value.word EventStatus.delivered) fields)}
        (rw h refl)
        (Ends-done (
          was_completed fields t g h l s found pending refl
            (rw (same_refl (Key.status_key event)) refl))))
  acknowledge-Ends fields h l x was_not_pending e = Ends-same e (Ends-fail (was_refused _))
  acknowledge-Ends fields h l x (was_error why) e = Ends-same_err e (was_refused why)

  complete_delivery-Ends : Ends bytes Post (complete_delivery event (Value.id i) group_name) db
  unfolding complete_delivery
  complete_delivery-Ends =
      Ends-read tt
        (λ current h.
          Ends-if _ (λ a. Ends-fail (was_refused _))
            λ a.
              let (fields, s, l) =
                hget_value bytes db.now_ms (Key.status_key event) Field.stream_id _ (Value.id i)
                  current h a in
              acknowledge-Ends fields s l _ (xack-Acked bytes db.now_ms i group_name _) refl)
        (λ e h. was_refused e)

-- The completion on any documented server. It succeeds only where the message is pending for the group
-- and is the one that the status of the event names; then the message is pending no longer and the
-- status is delivered, with all other fields as they were. Any refusal changes nothing at all.
pub complete_delivery-Completed :
    {R : Type 0} {bytes : Bytes} {redis : Redis R} (d : IsDocumented bytes redis) (event : Value)
    (i : StreamId) (group_name : String) (r : R)
    → let result = eval redis (complete_delivery event (Value.id i) group_name) r in
      Completed event i group_name (d.view r) result.0 (d.view result.1)
complete_delivery-Completed {bytes} d event i group_name r =
    let agrees = eval-Agrees d (complete_delivery event (Value.id i) group_name) r in
    let ends = complete_delivery-Ends bytes event i group_name (d.view r) in
    rw agrees.0 (rw agrees.1 ends.at)
