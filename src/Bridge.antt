-- ===== src/Bridge.antt =====
-- src/smart-contracts/use-cases/bridge/guardian/vaa.ts: fetching what the guardians signed, and
-- submitting it to the chain that it is for.
pub mod Dedup
pub mod Retry
pub mod Payload
pub mod Run
pub mod Solana
pub mod Kalvora
mod Examples
