-- ===== src/Archive.antt =====
-- The archive of hands (apps/api/src/worker/processors/hand-history.processor.ts): results, counters of
-- the players, and the rake of the house.
pub mod Defs
pub mod Once
pub mod Rake
mod Tests
