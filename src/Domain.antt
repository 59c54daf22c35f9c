-- ===== src/Domain.antt =====
-- src/domain: identifiers, sides and horizons.
pub mod Events
pub mod Market
pub mod MarketSpec
pub mod Price
