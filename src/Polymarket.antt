-- ===== src/Polymarket.antt =====
-- src/polymarket: the local order book.
pub mod Book
