-- ===== src/Cloudflare/Services.antt =====
-- What the services of cloudflare/src/hooklane_cf/core.py work with: the `EventStore` protocol as a
-- record of operations over a state `W`, the Queue binding, the sink, the trace.
pub mod Acceptance
pub mod Delivery
pub mod Setting
pub mod Laws
pub mod OverD1
pub mod Consumer
