-- ===== src/Turns.antt =====
-- The end of a turn by its timer (apps/api/src/scheduler/processors/turn-timer.processor.ts), over the
-- jobs of Timers.
pub mod Defs
pub mod Driven
pub mod Stuck
mod Tests
