-- ===== src/Cloudflare/D1/World.antt =====
-- What a `D1EventStore` runs in: the tables, its fault switches, and the surroundings that the
-- program does not control, which a value of `Env` fixes for each call of the database.
use hooklane.Prelude.{ℕ, suc, Bool, Option, none, some, List}
use hooklane.Prelude.Outcome.{Outcome, ok, err}
use hooklane.Cloudflare.Contract.{JsonValue, Fields}
use hooklane.Cloudflare.Core.{Error, persistence_unavailable, value_error}
pub use hooklane.Cloudflare.Exec.{pure, raise, gets, modify, ◌>>◌}
unfoldable pub use hooklane.Cloudflare.Exec.{◌>>=◌}
use hooklane.Cloudflare.Exec.{Exec}
use hooklane.Cloudflare.D1.Tables.{Tables}

-- A call of the database is answered, or raises: before the statement ran, or after it.
pub data Answer : Type 0 where
  answered request_lost reply_lost : Answer

-- One call: the clock and the random id that are read on the way to it, what other clients of the
-- database have done to the tables since the last call, and how it ends.
pub record Tick : Type 0 where
  pub now_ms : ℕ
  pub uuid : ℕ
  pub others : Tables → Tables
  pub answer : Answer

-- `dumps` and `loads` are `json.dumps` (canonical form) and `json.loads`. Where an INSERT meets
-- both a taken key and a taken id, `id_checked_first` says which of the two SQLite looks at.
pub record Env : Type 0 where
  pub tick : ℕ → Tick
  pub dumps : Fields → List ℕ
  pub loads : List ℕ → Option JsonValue
  pub id_checked_first : Bool

pub record World : Type 0 where
  pub env : Env
  pub calls : ℕ
  pub tables : Tables
  pub fail_dispatch_transition : Bool
  pub fail_payload_chunk : Bool
  pub fail_delivery_transition : Bool

abbrev pub Action : Type 0 → Type 0
Action A = Exec World A

abbrev pub now_ms : World → ℕ
now_ms w = (w.env.tick w.calls).now_ms

abbrev pub uuid4 : World → ℕ
uuid4 w = (w.env.tick w.calls).uuid

-- A statement, or a batch of them in one transaction: `none` is a violated constraint, which
-- leaves the tables as they were.
abbrev pub Statement : Type 0 → Type 0
Statement A = Tables → Option (A × Tables)

module _ {A : Type 0} where
  abbrev pub commit : Tables → Option (A × Tables) → Tables
  commit t none = t
  commit t (some (a, t')) = t'

  abbrev pub reply : Answer → Option (A × Tables) → Outcome Error A
  reply answered none = err persistence_unavailable
  reply answered (some (a, t')) = ok a
  reply _ _ = err persistence_unavailable

  abbrev pub outcome_tables : Answer → Tables → Option (A × Tables) → Tables
  outcome_tables request_lost t r = t
  outcome_tables _ t r = commit t r

  -- `await database…` under `except Exception: raise PersistenceUnavailable`.
  unfoldable pub query : Statement A → Action A
  query s w =
      let tick = w.env.tick w.calls in
      let t = tick.others w.tables in
      let r = s t in
      (
        reply tick.answer r,
        record w { calls = suc w.calls; tables = outcome_tables tick.answer t r },
      )

  -- A value that may be missing, `PersistenceUnavailable` if it is.
  abbrev pub or_unavailable : Option A → Action A
  or_unavailable none = raise persistence_unavailable
  or_unavailable (some a) = pure a

  abbrev pub or_value_error : Option A → Action A
  or_value_error none = raise value_error
  or_value_error (some a) = pure a
