-- ===== src/Deck.antt =====
-- The deck and its shuffle (libs/shared/src/shuffle.ts). Node's `crypto.randomInt` is a parameter:
-- `random_int n min max` is the answer to the call in the round with the number n, and `IsRandomInt`
-- its documented range.
pub mod Defs
pub mod Shuffle
mod Tests
