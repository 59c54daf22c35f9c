-- ===== src/Engine.antt =====
-- src/engine: the actors that keep the state of the market, the signal and the orders.
pub mod MarketActor
pub mod SignalActor
pub mod ExecutionActor
pub mod Registry
pub mod Markouts
pub mod Pipeline
