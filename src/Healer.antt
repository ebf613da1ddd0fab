-- ===== src/Healer.antt =====
-- The sweep of ghost money (apps/api/src/cron/cron.service.ts, autoResolveGhostMoney): buy-ins that no
-- cash-out answers are paid back after two hours.
pub mod Defs
pub mod Refunded
pub mod Listed
pub mod Unshielded
mod Tests
