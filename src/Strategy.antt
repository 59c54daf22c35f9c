-- ===== src/Strategy.antt =====
-- src/strategy: the risk gate, the signal's rule and the quote that it leads to.
pub mod LeadLag
pub mod Risk
pub mod Quote
