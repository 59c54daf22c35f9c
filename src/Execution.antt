-- ===== src/Execution.antt =====
-- src/execution: paper trading.
pub mod Paper
