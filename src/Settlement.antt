-- ===== src/Settlement.antt =====
-- From the tables back to the wallets: the cash-out worker
-- (apps/api/src/worker/processors/cashout.processor.ts), the cleanup of the tables at the start of
-- the server (apps/api/src/game/reconciliation.service.ts) and the removal of absent players
-- (apps/api/src/game/player-reaper.service.ts).
-- The tables live in Redis, which is a parameter with the scripts that run in it.
pub mod Defs
pub mod Cleanup
pub mod Credits
pub mod Reaper
pub mod Redelivered
pub mod Kicked
pub mod Refused
mod Tests
