-- ===== src/Hooklane/Redis/Scripts.antt =====
-- The Lua scripts of src/hooklane/queue/events.py, one child for each stage of an event. A script
-- takes what its method passes in `ARGV`, less the keys and the words that are always the same.
pub mod Enqueue
pub mod Delivery
pub mod Retry
pub mod Recovery
