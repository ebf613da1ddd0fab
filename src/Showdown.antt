-- ===== src/Showdown.antt =====
-- The hand evaluator of the server (apps/api/src/game/hand-evaluator.service.ts): the combinations,
-- the best hand of each game, and the raw scores handed to the showdown script. The library
-- `poker-evaluator` is the parameter `eval_hand`; of its answer the code reads the value and the name.
pub mod Defs
pub mod Choose
pub mod Best
pub mod Scores
mod Tests
