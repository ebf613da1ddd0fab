-- ===== src/Lifecycle.antt =====
-- The scheduled life of a tournament (apps/api/src/tournament/tournament-cron.service.ts and
-- tournament-lifecycle.processor.ts): a job every minute that moves the statuses of the tournaments
-- by the clock, through the tournament service.
pub mod Defs
pub mod Rule
pub mod Due
pub mod Runs
mod Tests
