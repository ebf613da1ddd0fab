-- ===== src/Tournament.antt =====
-- Tournaments (apps/api/src/tournament/tournament.service.ts, with the models Tournament and
-- TournamentEntry of libs/shared/prisma/schema.prisma). `Hall` is the part of the database that the
-- service reads and writes: the store of the wallets, the tournaments, and their entries.
pub mod Defs
pub mod Admin
pub mod Register
pub mod Unregister
pub mod Admit
pub mod Sound
pub mod Tally
pub mod Leave
pub mod Once
pub mod Status
mod Tests
pub mod Catalog
pub mod Accepted
pub mod Accepts
