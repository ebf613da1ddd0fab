-- ===== src/Replay.antt =====
-- The hand replayer of the web client (apps/web/src/hooks/useHandReplayer.ts): the table shown at a
-- place of an action log, and the controls that move the place.
pub mod Defs
pub mod Derive
pub mod Control
pub mod Playback
mod Tests
