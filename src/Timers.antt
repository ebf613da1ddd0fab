-- ===== src/Timers.antt =====
-- The turn timers (apps/api/src/scheduler/timer.service.ts): one delayed job per table, which the
-- next turn cancels.
pub mod Defs
pub mod Count
pub mod Single
mod Tests
