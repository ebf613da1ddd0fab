-- ===== src/Hands/Exposed.antt =====
-- The cards of the winners in the detail of a hand.
use cardgames.Prelude.{List}
use cardgames.Archive.Defs.{Archive}
