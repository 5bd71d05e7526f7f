-- ===== src/Cloudflare/Examples/Witnesses.antt =====
-- The theorems about the store and the services at a concrete database.
use hooklane.Prelude.{
  ℕ, ◌+◌, ◌*◌, ◌≤◌, min, true, false, none, some, [], ◌∷◌, ◌≡◌, ◌≢◌, refl, arith, All,
}
use mathlib.Core.Path.{subst}
use hooklane.Prelude.Outcome.{ok}
use hooklane.Cloudflare.Contract.{EventStatus, event_request, event_type_is_valid}
use hooklane.Cloudflare.Contract.Chunks.{encode, encode_char, lead, payload_json_chunks}
use hooklane.Cloudflare.D1.Tables.{is_terminal, find_event}
use hooklane.Cloudflare.D1.World.{World, now_ms, query, ◌>>=◌}
use hooklane.Cloudflare.D1.Accept.{accept}
use hooklane.Cloudflare.D1.Payload.{load_record, sort_by_index, join, payload_text}
use hooklane.Cloudflare.D1.Outbox.{claim_outbox, mark_dispatched}
use hooklane.Cloudflare.D1.Delivery.{
  start, next_attempt, finish, update_terminal, mark_delivery_started, mark_delivered,
}
use hooklane.Cloudflare.D1.Invariant.{IsWellFormed, Evolves, Allowed-refl}
use hooklane.Cloudflare.D1.Keeps.{Rely}
use hooklane.Cloudflare.D1.History.{
  perform, perform_all, IsWithin, perform_all-IsWellFormed, perform_all-Evolves,
}
use hooklane.Cloudflare.D1.Store.{d1_store}
use hooklane.Cloudflare.D1.Transitions.{HasStatus, seen}
use hooklane.Cloudflare.D1.Transitions.Finish.{Decided, update_terminal_decides}
use hooklane.Cloudflare.D1.Transitions.Exclusion.{start_excludes, start_fences}
use hooklane.Cloudflare.Services.Delivery.{process, acked, retry_delay_seconds, backoff}
use hooklane.Cloudflare.Services.Delivery.Backoff.{
  backoff_doubles, retry_delay_seconds-clamped, retry_delay_seconds-window,
}
use hooklane.Cloudflare.Core.{outbox_lease_ms}
use hooklane.Cloudflare.Services.Acceptance.{repair}
use hooklane.Cloudflare.Services.Acceptance.Counts.{entries_of, repair_counts}
use hooklane.Cloudflare.Services.Consumer.{handle, acknowledge}
use hooklane.Cloudflare.Services.Consumer.Acks.{IsOver, handle_acks}
use hooklane.Cloudflare.Services.OverD1.{ack_is_terminal}
use hooklane.Cloudflare.Examples.{
  env, no_tables, empty_world, accept_seven, accepted_world, history, service_of, claimed_row,
  claimed_tables, claimed_world, delivered_world,
}

env-Rely : Rely 3 env
env-Rely n t = Allowed-refl 3 t

no_tables-IsWellFormed : IsWellFormed 3 no_tables
no_tables-IsWellFormed = record {
  events = tt;
  outbox = tt;
  ids = tt;
  keys = tt;
  outbox_ids = tt;
  has_outbox = tt;
}

history-IsWithin : All (IsWithin 3) history
history-IsWithin = (tt, (tt, (omega arith, (tt, tt))))

perform_all-IsWellFormed_example : IsWellFormed 3 (perform_all history empty_world).tables
perform_all-IsWellFormed_example =
    perform_all-IsWellFormed 3 history empty_world history-IsWithin env-Rely no_tables-IsWellFormed

perform_all-Evolves_example : Evolves empty_world.tables (perform_all history empty_world).tables
perform_all-Evolves_example =
    perform_all-Evolves 3 history empty_world history-IsWithin env-Rely no_tables-IsWellFormed

history_ends : perform_all history empty_world ≡ delivered_world
unfolding perform_all perform accept ◌>>=◌ query payload_json_chunks encode encode_char lead
    mark_dispatched mark_delivery_started next_attempt load_record sort_by_index join payload_text
    event_request event_type_is_valid mark_delivered
history_ends = refl

delivered_world-IsWellFormed : IsWellFormed 3 delivered_world.tables
delivered_world-IsWellFormed =
    subst (λ (w : World). IsWellFormed 3 w.tables) history_ends perform_all-IsWellFormed_example

seven_accepted : perform_all (accept_seven ∷ []) empty_world ≡ accepted_world
unfolding perform_all perform accept ◌>>=◌ query payload_json_chunks encode encode_char lead
seven_accepted = refl

accepted_world-IsWellFormed : IsWellFormed 3 accepted_world.tables
accepted_world-IsWellFormed =
    subst (λ (w : World). IsWellFormed 3 w.tables) seven_accepted
      (perform_all-IsWellFormed 3 (accept_seven ∷ []) empty_world (tt, tt) env-Rely
        no_tables-IsWellFormed)

seven_starts : start 7 3 102 1020 accepted_world.tables ≡ some (some claimed_row, claimed_tables)
unfolding start next_attempt
seven_starts = refl

start_excludes_example : start 7 5 103 31019 claimed_tables ≡ some (none, claimed_tables)
start_excludes_example =
    start_excludes 3 3 7 102 1020 accepted_world.tables claimed_tables claimed_row (omega arith)
      accepted_world-IsWellFormed seven_starts 5 103 31019 (omega arith)

start_fences_example :
    finish 7 EventStatus.delivered none 99 2000 claimed_tables ≡ some (false, claimed_tables)
start_fences_example =
    start_fences 3 3 7 102 1020 accepted_world.tables claimed_tables claimed_row (omega arith)
      accepted_world-IsWellFormed seven_starts EventStatus.delivered none 99 2000 (omega arith)

update_terminal_decides_example :
    let (reported, w') = update_terminal 7 EventStatus.delivered none 102 claimed_world in
    Decided EventStatus.delivered none 102
      (now_ms claimed_world)
      (find_event 7 (seen claimed_world).events)
      reported
      (find_event 7 w'.tables.events)
    × ((j : ℕ) → j ≢ 7 → find_event j w'.tables.events ≡ find_event j (seen claimed_world).events)
update_terminal_decides_example =
    update_terminal_decides 7 EventStatus.delivered none 102 claimed_world refl refl (refl, tt)

seven_delivered :
    process d1_store 3 7 (service_of accepted_world)
    ≡ (ok (acked 7 1 EventStatus.delivered), (process d1_store 3 7 (service_of accepted_world)).1)
unfolding process ◌>>=◌ query mark_delivery_started next_attempt load_record sort_by_index join
    payload_text event_request event_type_is_valid mark_delivered
seven_delivered = refl

seven_handled :
    handle d1_store 3 (some 7) (service_of accepted_world)
    ≡ (ok acknowledge, (handle d1_store 3 (some 7) (service_of accepted_world)).1)
unfolding handle process ◌>>=◌ query mark_delivery_started next_attempt load_record sort_by_index
    join payload_text event_request event_type_is_valid mark_delivered
seven_handled = refl

ack_is_terminal_example :
    HasStatus 7 EventStatus.delivered
      (process d1_store 3 7 (service_of accepted_world)).1.store.tables
    × (is_terminal EventStatus.delivered ≡ true)
ack_is_terminal_example =
    ack_is_terminal 3 3 7 (omega arith) (service_of accepted_world)
      (process d1_store 3 7 (service_of accepted_world)).1 (acked 7 1 EventStatus.delivered)
      accepted_world-IsWellFormed env-Rely seven_delivered refl

retry_delay_seconds-clamped_example :
    (d : ℕ) × (retry_delay_seconds (λ low high. 0) 3 ≡ some d) × (1 ≤ d) × (d ≤ 60)
retry_delay_seconds-clamped_example = retry_delay_seconds-clamped (λ low high. 0) 3 (omega arith)

retry_delay_seconds-window_example :
    (d : ℕ) × (retry_delay_seconds (λ low high. high) 3 ≡ some d)
    × (3 * backoff 3 ≤ 4 * d + 2)
    × (4 * d ≤ 5 * backoff 3 + 2)
retry_delay_seconds-window_example =
    retry_delay_seconds-window (λ low high. high) 3 (λ low high le. (le, omega arith)) (omega arith)

backoff_doubles_example : (backoff 1 ≡ 1) × (backoff 4 ≡ min (2 * backoff 3) 60)
backoff_doubles_example = backoff_doubles 2

handle_acks_example : IsOver 7 (handle d1_store 3 (some 7) (service_of accepted_world)).1.store
handle_acks_example =
    handle_acks 3 3 7 (omega arith) (service_of accepted_world)
      (handle d1_store 3 (some 7) (service_of accepted_world)).1 accepted_world-IsWellFormed
      env-Rely seven_handled

one_claimed : d1_store.claim_outbox 100 55 outbox_lease_ms accepted_world ≡ (
  ok (record { event_id = 7; send_attempt_count = 0; claim_token = 55 } ∷ []),
  (claim_outbox 100 55 outbox_lease_ms accepted_world).1,
)
unfolding claim_outbox ◌>>=◌ query
one_claimed = refl

one_repaired :
    repair d1_store 100 55 (service_of accepted_world)
    ≡ (ok (1, 0), (repair d1_store 100 55 (service_of accepted_world)).1)
unfolding repair ◌>>=◌ query claim_outbox mark_dispatched
one_repaired = refl

repair_counts_example :
    let (counts, s') = repair d1_store 100 55 (service_of accepted_world) in
    (1 + 0 ≡ 1)
    × (entries_of "repair_dispatched" s'.trace
        ≡ entries_of "repair_dispatched" (service_of accepted_world).trace + 1)
    × (entries_of "repair_deferred" s'.trace
        ≡ entries_of "repair_deferred" (service_of accepted_world).trace + 0)
repair_counts_example =
    repair_counts d1_store 100 55 (service_of accepted_world)
      (repair d1_store 100 55 (service_of accepted_world)).1
      (claim_outbox 100 55 outbox_lease_ms accepted_world).1
      (record { event_id = 7; send_attempt_count = 0; claim_token = 55 } ∷ []) (1, 0) one_claimed
      one_repaired
