-- ===== src/Cloudflare/D1/Outbox.antt =====
-- `claim_outbox`, `mark_dispatched` and `release_outbox_claim` of
-- cloudflare/src/hooklane_cf/d1.py.
use hooklane.Prelude.{
  ℕ, ◌+◌, Bool, false, ◌&&◌, ◌||◌, Option, none, some, List, [], ◌∷◌, map, ltb, leb, ◌==◌, any,
  filter, take, length, if◌then◌else◌,
}
use hooklane.Cloudflare.Core.{persistence_unavailable, OutboxRecord}
use hooklane.Cloudflare.D1.Tables.{
  OutboxRow, OutboxState, update_where, is_null, column_eq, is_pending,
}
use hooklane.Cloudflare.D1.World.{Action, Statement, now_ms, query, pure, raise, gets, ◌>>=◌}

-- `lease_until_ms <= now`.
abbrev pub has_expired : ℕ → Option ℕ → Bool
has_expired now none = false
has_expired now (some lease) = leb lease now

unfoldable pub is_claimable : ℕ → OutboxRow → Bool
is_claimable now r =
    is_pending r.state && (is_null r.claim_token || has_expired now r.lease_until_ms)

-- ORDER BY updated_at_ms, event_id.
abbrev pub comes_first : OutboxRow → OutboxRow → Bool
comes_first r s =
    ltb r.updated_at_ms s.updated_at_ms
    || (r.updated_at_ms == s.updated_at_ms && leb r.event_id s.event_id)

unfoldable pub insert_by_age : OutboxRow → List OutboxRow → List OutboxRow
insert_by_age r [] = r ∷ []
insert_by_age r (s ∷ rows) = if comes_first r s then r ∷ s ∷ rows else s ∷ insert_by_age r rows

unfoldable pub sort_by_age : List OutboxRow → List OutboxRow
unfolding insert_by_age
sort_by_age [] = []
sort_by_age (r ∷ rows) = insert_by_age r (sort_by_age rows)

-- The inner SELECT, with its LIMIT.
unfoldable pub claimable : ℕ → ℕ → List OutboxRow → List OutboxRow
unfolding sort_by_age is_claimable
claimable now limit rows = take limit (sort_by_age (filter (is_claimable now) rows))

abbrev pub is_listed : List OutboxRow → OutboxRow → Bool
is_listed rows r = any (λ s. s.event_id == r.event_id) rows

abbrev pub claim_row : ℕ → ℕ → ℕ → OutboxRow → OutboxRow
claim_row token lease now r = record r {
  claim_token = some token;
  lease_until_ms = some lease;
  updated_at_ms = now;
}

abbrev pub outbox_record : ℕ → OutboxRow → OutboxRecord
outbox_record token r = record {
  event_id = r.event_id;
  send_attempt_count = r.send_attempt_count;
  claim_token = token;
}

-- UPDATE outbox … RETURNING event_id, send_attempt_count.
unfoldable pub claim_outbox_rows : ℕ → ℕ → ℕ → ℕ → Statement (List OutboxRecord)
unfolding claimable
claim_outbox_rows limit token lease now t =
    let chosen = claimable now limit t.outbox in
    some (
      map (outbox_record token) (filter (is_listed chosen) t.outbox),
      record t { outbox = update_where (is_listed chosen) (claim_row token lease now) t.outbox },
    )

unfoldable pub claim_outbox : ℕ → ℕ → ℕ → Action (List OutboxRecord)
unfolding claim_outbox_rows
claim_outbox limit token lease_ms = do
  now ← gets now_ms
  query (claim_outbox_rows limit token (now + lease_ms) now)

-- `claim_token IS NULL`, or `claim_token = ?3`.
abbrev pub claim_fits : Option ℕ → OutboxRow → Bool
claim_fits none r = is_null r.claim_token
claim_fits (some token) r = column_eq r.claim_token token

unfoldable pub is_dispatchable : ℕ → Option ℕ → OutboxRow → Bool
is_dispatchable id claim r = r.event_id == id && is_pending r.state && claim_fits claim r

abbrev pub dispatch_row : ℕ → OutboxRow → OutboxRow
dispatch_row now r = record r {
  state = OutboxState.sent;
  send_attempt_count = r.send_attempt_count + 1;
  updated_at_ms = now;
  last_reason = none;
  claim_token = none;
  lease_until_ms = none;
}

-- The reply is `changes == 1`.
unfoldable pub dispatch : ℕ → Option ℕ → ℕ → Statement Bool
unfolding is_dispatchable
dispatch id claim now t = some (
  length (filter (is_dispatchable id claim) t.outbox) == 1,
  record t { outbox = update_where (is_dispatchable id claim) (dispatch_row now) t.outbox },
)

unfoldable pub mark_dispatched : ℕ → Option ℕ → Action Bool
unfolding dispatch
mark_dispatched id claim w =
    if w.fail_dispatch_transition
    then raise persistence_unavailable (record w { fail_dispatch_transition = false })
    else query (dispatch id claim (now_ms w)) w

unfoldable pub is_claimed_by : ℕ → ℕ → OutboxRow → Bool
is_claimed_by id token r = r.event_id == id && is_pending r.state && column_eq r.claim_token token

abbrev pub release_row : ℕ → OutboxRow → OutboxRow
release_row now r = record r {
  claim_token = none;
  lease_until_ms = none;
  updated_at_ms = now;
  last_reason = some "queue_unavailable";
}

unfoldable pub release : ℕ → ℕ → ℕ → Statement (Unit {0})
unfolding is_claimed_by
release id token now t =
    some
      (tt, record t { outbox = update_where (is_claimed_by id token) (release_row now) t.outbox })

unfoldable pub release_outbox_claim : ℕ → ℕ → Action (Unit {0})
unfolding release
release_outbox_claim id token = do now ← gets now_ms; query (release id token now)

unfoldable pub select_outbox : ℕ → Statement (List OutboxRow)
select_outbox id t = some (take 1 (filter (λ r. r.event_id == id) t.outbox), t)

unfoldable pub state_and_count : List OutboxRow → Option (OutboxState × ℕ)
state_and_count [] = none
state_and_count (r ∷ rows) = some (r.state, r.send_attempt_count)

unfoldable pub get_outbox_state : ℕ → Action (Option (OutboxState × ℕ))
unfolding select_outbox state_and_count
get_outbox_state id = do rows ← query (select_outbox id); pure (state_and_count rows)
