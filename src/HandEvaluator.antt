-- ===== src/HandEvaluator.antt =====
-- The hand evaluator of the web client (apps/web/src/utils/handEvaluator.ts), which names the best
-- hand of the player in front of the screen.
pub mod Ranks
pub mod Five
pub mod Defs
pub mod Scored
pub mod Enumerate
pub mod Best
pub mod Kickers
mod Tests
