-- ===== src/Cloudflare/D1.antt =====
-- The D1 event store: cloudflare/src/hooklane_cf/d1.py over cloudflare/migrations.
pub mod Tables
pub mod World
pub mod Accept
pub mod Payload
pub mod Outbox
pub mod Delivery
pub mod Invariant
pub mod Keeps
pub mod History
pub mod Transitions
pub mod Store
pub mod Accepted
