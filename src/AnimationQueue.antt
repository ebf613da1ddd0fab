-- ===== src/AnimationQueue.antt =====
-- The animation queue of the web client (apps/web/src/hooks/useAnimationQueue.ts) with its catch-up
-- protocol: bursts of events play faster, and longer bursts drop what is not essential.
pub mod Defs
pub mod Played
pub mod Drain
pub mod Stale
mod Tests
