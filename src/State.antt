-- ===== src/State.antt =====
-- src/state: what the strategies read.
pub mod PolyHistory
