-- ===== src/Strategy/Risk.antt =====
-- src/strategy/risk.rs: the gate that every quote passes.
use jev_trader.Config.{FreshnessPolicy}
use jev_trader.Prelude.{ℕ, Bool, true, leb, ltb, if◌then◌else◌}

pub record RiskLimits : Type 0 where
  pub max_outstanding_quotes : ℕ
  pub max_latency_ms : ℕ
  pub killed : Bool

pub data RiskBlock : Type 0 where
  killed stale_book too_many_outstanding_quotes latency_exceeded invalid_order : RiskBlock

-- `Result<(), RiskBlock>`
pub data Checked : Type 0 where
  pass : Checked
  block : RiskBlock → Checked

pub record RiskGate : Type 0 where
  pub limits : RiskLimits

-- `RiskLimits::from_freshness_policy`, which `RiskLimits::new` is.
abbrev pub from_freshness_policy : ℕ → FreshnessPolicy → Bool → RiskLimits
from_freshness_policy max_outstanding_quotes policy is_killed = record {
  max_outstanding_quotes = max_outstanding_quotes;
  max_latency_ms = policy.max_latency_ms;
  killed = is_killed;
}

unfoldable pub kill : RiskGate → RiskGate
kill gate = let limits = gate.limits in record { limits = record limits { killed = true } }

unfoldable pub check : RiskGate → ℕ → ℕ → Bool → Checked
check gate signal_latency_ms outstanding book_stale =
    if gate.limits.killed
    then block killed
    else if book_stale
    then block stale_book
    else if leb gate.limits.max_outstanding_quotes outstanding
    then block too_many_outstanding_quotes
    else if ltb gate.limits.max_latency_ms signal_latency_ms
    then block latency_exceeded
    else pass
