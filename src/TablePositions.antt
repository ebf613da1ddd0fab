-- ===== src/TablePositions.antt =====
-- Where the web client draws the seats of a table (apps/web/src/hooks/useTablePositions.ts).
pub mod Defs
pub mod Rotation
