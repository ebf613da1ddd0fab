-- ===== src/History.antt =====
-- The wallets and the tournaments together: any sequence of the calls that the controllers and the
-- workers make of the two services (apps/api/src/wallet/wallet.service.ts,
-- apps/api/src/tournament/tournament.service.ts and tournament-cron.service.ts).
pub mod Defs
pub mod Orderly
mod Tests
