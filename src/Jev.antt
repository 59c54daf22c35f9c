-- ===== src/Jev.antt =====
-- src/jev: what the judgment service answers.
pub mod Response
