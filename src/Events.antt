-- ===== src/Events.antt =====
-- The event scheduler of src/core/event_scheduler.c.
pub mod Queue
pub mod Anchor
