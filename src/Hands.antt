-- ===== src/Hands.antt =====
-- The hands that a player may look at (getHandHistory, getHandDetail and getMyHandHistory of
-- apps/api/src/game/game.service.ts), over the tables that Archive fills.
pub mod Defs
pub mod Privacy
pub mod Exposed
mod Tests
