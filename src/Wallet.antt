-- ===== src/Wallet.antt =====
-- The wallet service (apps/api/src/wallet/wallet.service.ts): its operations in Base, Requests,
-- Admin and CashOut, and what is proved of them in the other children.
pub mod Base
pub mod Requests
pub mod Admin
pub mod CashOut
pub mod Ledger
pub mod Posting
pub mod Sound
pub mod Process
pub mod Effects
pub mod Refund
pub mod Session
pub mod RoundTrip
mod Tests
pub mod Balance
