-- ===== src/Purge.antt =====
-- The daily purge of old replays (reapOldHandHistory of apps/api/src/cron/cron.service.ts).
pub mod Defs
pub mod Complete
mod Tests
