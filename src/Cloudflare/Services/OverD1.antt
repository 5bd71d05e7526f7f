-- ===== src/Cloudflare/Services/OverD1.antt =====
-- `DeliveryService` of cloudflare/src/hooklane_cf/core.py with the `D1EventStore` of d1.py, as
-- cloudflare/src/worker.py puts them together.
use hooklane.Prelude.{ℕ, ◌≤◌, true, ◌≡◌}
use hooklane.Prelude.Outcome.{ok}
use hooklane.Cloudflare.D1.Tables.{is_terminal}
use hooklane.Cloudflare.D1.World.{World}
use hooklane.Cloudflare.D1.Invariant.{IsWellFormed}
use hooklane.Cloudflare.D1.Keeps.{Rely}
use hooklane.Cloudflare.D1.Transitions.{HasStatus}
use hooklane.Cloudflare.D1.Transitions.Sound.{IsSound}
use hooklane.Cloudflare.D1.Store.{d1_store, WorldHasStatus, d1_store-EventStoreLaws}
use hooklane.Cloudflare.Services.Setting.{Service}
use hooklane.Cloudflare.Services.Delivery.{DeliveryResult, ack, process}
use hooklane.Cloudflare.Services.Delivery.Ack.{process-AckIsRight}

-- The consumer acknowledges a message of the Queue only when its event is delivered or dead-lettered.
-- Over well-formed tables, with others that keep to the contract and with at most `maximum` attempts
-- allowed: if `process` returns an acknowledgement, then the table has the event with the status that
-- the result names, and that status is terminal.
pub ack_is_terminal :
    (maximum limit id : ℕ)
    → limit ≤ maximum
    → (s s' : Service World) (result : DeliveryResult) → IsWellFormed maximum s.store.tables
    → Rely maximum s.store.env
    → process d1_store limit id s ≡ (ok result, s')
    → result.disposition ≡ ack
    → HasStatus id result.status s'.store.tables × (is_terminal result.status ≡ true)
ack_is_terminal maximum limit id fits s s' result well rely runs acks =
    let e =
      process-AckIsRight d1_store limit (IsSound maximum) WorldHasStatus
        (d1_store-EventStoreLaws maximum limit fits) id in
    (rw runs at (e.at s (record { tables = well; rely = rely }))) acks
