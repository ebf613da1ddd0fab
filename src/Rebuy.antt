-- ===== src/Rebuy.antt =====
-- The rebuy of a seated player (apps/api/src/game/game.service.ts, rebuy): money from the wallet, chips
-- by a script of Redis.
pub mod Defs
pub mod Paid
mod Tests
