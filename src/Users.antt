-- ===== src/Users.antt =====
-- The users (apps/api/src/user/user.service.ts), with the tiers of libs/shared/src/user.ts.
pub mod Defs
pub mod Service
pub mod Tiers
pub mod Shown
pub mod Guards
mod Tests
