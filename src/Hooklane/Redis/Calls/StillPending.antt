-- ===== src/Hooklane/Redis/Calls/StillPending.antt =====
-- A message that is pending: what `XPENDING` and `XACK` make of it in src/hooklane/queue/events.py.
use hooklane.Prelude.{ℕ, String, ◌≡◌, ◌≢◌, refl, Option, none, some, List, [], ◌∷◌}
use hooklane.Prelude.Outcome.{Outcome, ok}
use hooklane.Hooklane.Redis.Values.{Key, key_eq, field_eq, value_eq, Value, StreamId}
use hooklane.Hooklane.Redis.Script.{RedisError, Message, xack, xpending, xrange}
use hooklane.Hooklane.Redis.Db.{
  Bytes, Stored, absent, hash, stream, zset, other_value, Stream, Group, Pending, find_group,
  pending_at, drop_pending, with_group, entries_at,
}
use hooklane.Hooklane.Redis.Db.Commands.{apply, pending_one, acknowledge_pending, acknowledge}

pub record IsPending (i : StreamId) (group_name : String) (s : Stored) : Type 0 where
  pub entries_of : Stream
  pub group : Group
  pub has_stream : s ≡ stream entries_of
  pub has_group : find_group group_name entries_of.groups ≡ some group
  pub is_pending : pending_at i group.pending ≢ []

abbrev pub reply : List StreamId → Outcome RedisError (List StreamId)
reply found = ok found

module _ (bytes : Bytes) (now : ℕ) (i : StreamId) (group_name : String) where
  pending_one-IsPending :
      (t : Stream) (g : Option Group) (p : StreamId) (more : List StreamId)
      → find_group group_name t.groups ≡ g
      → pending_one i g ≡ ok (p ∷ more)
      → IsPending i group_name (stream t)
  unfolding pending_one
  pending_one-IsPending t none p more h e = absurd (cc)
  pending_one-IsPending t (some g) p more h e = record {
    entries_of = t;
    group = g;
    has_stream = refl;
    has_group = h;
    is_pending = λ empty. absurd (nothing_taken (rw empty at e));
  }
    where
      nothing_taken : reply [] ≡ reply (p ∷ more) → ⊥
      nothing_taken h = cc

  -- What `XPENDING` answers of a message that is pending.
  pub xpending-IsPending :
      (s : Stored) (p : StreamId) (more : List StreamId)
      → (apply bytes now (xpending Key.stream_key group_name (Value.id i)) s).0 ≡ ok (p ∷ more)
      → IsPending i group_name s
  unfolding apply
  xpending-IsPending (stream t) p more h =
      pending_one-IsPending t (find_group group_name t.groups) p more refl h
  xpending-IsPending absent p more h = absurd (cc)
  xpending-IsPending (hash fields) p more h = absurd (cc)
  xpending-IsPending (zset members) p more h = absurd (cc)
  xpending-IsPending other_value p more h = absurd (cc)

  acknowledge-IsPending :
      (t : Stream) (g : Group) (pending : List Pending)
      → pending ≢ []
      → acknowledge_pending i t g pending ≡ (ok 1, with_group t g (drop_pending i g.pending))
  unfolding acknowledge_pending
  acknowledge-IsPending t g [] n = absurd (n refl)
  acknowledge-IsPending t g (p ∷ pending) n = refl

  pub xack-IsPending :
      (s : Stored) (h : IsPending i group_name s)
      → apply bytes now (xack Key.stream_key group_name (Value.id i)) s
        ≡ (ok 1, with_group h.entries_of h.group (drop_pending i h.group.pending))
  unfolding apply acknowledge
  xack-IsPending s h =
      rw h.has_stream (rw h.has_group (acknowledge-IsPending h.entries_of h.group _ h.is_pending))

  -- The messages that `XRANGE` reads at an id are those of the stream.
  pub xrange-entries_at :
      (s : Stored) (t : Stream) (messages : List Message)
      → s ≡ stream t
      → (apply bytes now (xrange Key.stream_key (Value.id i)) s).0 ≡ ok messages
      → entries_at i t.entries ≡ messages
  unfolding apply
  xrange-entries_at s t messages e h = read_ok (rw e at h)
    where
      messages_read : List Message → Outcome RedisError (List Message)
      messages_read u = ok u

      read_ok : {u v : List Message} → messages_read u ≡ messages_read v → u ≡ v
      read_ok k = cc (k)
