-- ===== src/Hooklane.antt =====
-- The Redis runtime, src/hooklane: the delivery policies, the worker, and the health of a service.
pub mod Delivery
pub mod Worker
pub mod Runtime
pub mod Config
pub mod MockSink
pub mod Shutdown
pub mod Redis
mod Examples
