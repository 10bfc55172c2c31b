-- ===== src/Evloop.antt =====
-- evloop/: the timers of the event loop.
pub mod Timeheap
