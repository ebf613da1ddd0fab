-- ===== src/BankConfig.antt =====
-- The bank account that players pay to (apps/api/src/config/config.service.ts), and the history of
-- its changes.
pub mod Defs
pub mod Restore
mod Tests
