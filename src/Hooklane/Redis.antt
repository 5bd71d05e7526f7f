-- ===== src/Hooklane/Redis.antt =====
-- `RedisEventStore` of src/hooklane/queue/events.py, and the Redis that its scripts run in.
pub mod Values
pub mod Script
pub mod Lua
pub mod Scripts
pub mod Db
pub mod Client
pub mod Calls
pub mod Store
mod Examples
