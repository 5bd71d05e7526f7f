-- ===== src/Cloudflare/D1/Store.antt =====
-- `D1EventStore` as an implementation of the `EventStore` protocol, and of its laws.
use hooklane.Prelude.{ℕ, ◌≤◌}
use hooklane.Cloudflare.Contract.{EventStatus}
use hooklane.Run.Ensures.{Ensures-and}
use hooklane.Cloudflare.Services.Setting.{EventStore}
use hooklane.Cloudflare.Services.Laws.{EventStoreLaws}
use hooklane.Cloudflare.D1.World.{World}
use hooklane.Cloudflare.D1.Accept.{accept}
use hooklane.Cloudflare.D1.Payload.{get_status}
use hooklane.Cloudflare.D1.Outbox.{claim_outbox, mark_dispatched, release_outbox_claim}
use hooklane.Cloudflare.D1.Delivery.{
  mark_delivery_started, mark_delivered, mark_retry, mark_dead_letter,
}
use hooklane.Cloudflare.D1.Keeps.Operations.{
  mark_delivery_started-Keeps, mark_delivered-Keeps, mark_retry-Keeps, mark_dead_letter-Keeps,
}
use hooklane.Cloudflare.D1.Transitions.{HasStatus}
use hooklane.Cloudflare.D1.Transitions.Sound.{IsSound, Keeps-IsSound}
use hooklane.Cloudflare.D1.Transitions.Settled.{
  update_terminal-HasStatus, mark_delivery_started-StartIsTrue, get_status-StatusIsTrue,
}

abbrev pub d1_store : EventStore World
d1_store = record {
  accept = accept;
  get_status = get_status;
  claim_outbox = claim_outbox;
  mark_dispatched = mark_dispatched;
  release_outbox_claim = release_outbox_claim;
  mark_delivery_started = mark_delivery_started;
  mark_delivered = mark_delivered;
  mark_retry = mark_retry;
  mark_dead_letter = mark_dead_letter;
}

abbrev pub WorldHasStatus : ℕ → EventStatus → World → Type 0
WorldHasStatus id status w = HasStatus id status w.tables

pub d1_store-EventStoreLaws :
    (maximum limit : ℕ)
    → limit ≤ maximum
    → EventStoreLaws d1_store limit (IsSound maximum) WorldHasStatus
unfolding mark_delivered mark_retry mark_dead_letter
d1_store-EventStoreLaws maximum limit fits = record {
  start = λ id.
      Ensures-and _ (Keeps-IsSound maximum _ (mark_delivery_started-Keeps maximum id limit fits))
        (mark_delivery_started-StartIsTrue maximum id limit fits);
  delivered = λ id token.
      Ensures-and _ (Keeps-IsSound maximum _ (mark_delivered-Keeps maximum id token))
        (update_terminal-HasStatus maximum id EventStatus.delivered _ token);
  retry = λ id reason token.
      Ensures-and _ (Keeps-IsSound maximum _ (mark_retry-Keeps maximum id reason token))
        (update_terminal-HasStatus maximum id EventStatus.retry_scheduled _ token);
  dead_letter = λ id reason token.
      Ensures-and _ (Keeps-IsSound maximum _ (mark_dead_letter-Keeps maximum id reason token))
        (update_terminal-HasStatus maximum id EventStatus.dead_letter _ token);
  status = λ id. get_status-StatusIsTrue maximum id;
}
