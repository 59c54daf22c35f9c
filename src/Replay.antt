-- ===== src/Replay.antt =====
-- src/replay: deterministic replay of historical markets.
pub mod Causality
pub mod Clock
pub mod Complement
pub mod Fees
pub mod Fills
pub mod Ledger
pub mod Portfolio
pub mod Resolution
pub mod Synchronizer
pub mod Walkforward
