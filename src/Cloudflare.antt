-- ===== src/Cloudflare.antt =====
-- The Cloudflare variant of the service: `cloudflare/src`.
pub mod Contract
pub mod Core
pub mod Exec
pub mod D1
pub mod Services
pub mod Sink
pub mod Examples
