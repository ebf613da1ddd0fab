-- ===== src/Reserves.antt =====
-- The proof of reserves (apps/api/src/cron/cron.service.ts, runAudit): money paid in and out against
-- wallets and chips, with the lockdown of the tables where the two differ.
pub mod Total
pub mod Defs
pub mod Gap
pub mod Drift
mod Tests
