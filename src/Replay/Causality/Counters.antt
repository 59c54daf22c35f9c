-- ===== src/Replay/Causality/Counters.antt =====
-- src/replay/causality.rs: the counters of the audit.
use jev_trader.Prelude.{ℕ, suc, ◌+◌, ◌≡◌, List, [], ◌∷◌, arith, length}
use jev_trader.Replay.Causality.{
  CausalityVerdict, passed, rejected, future_input, forbidden_field, CausalityStats, record_verdict,
}

-- The counters after some verdicts.
abbrev pub record_all : CausalityStats → List CausalityVerdict → CausalityStats
record_all stats [] = stats
record_all stats (v ∷ verdicts) = record_all (record_verdict stats v) verdicts

abbrev pub passes : List CausalityVerdict → ℕ
passes [] = 0
passes (passed ∷ verdicts) = suc (passes verdicts)
passes (rejected r ∷ verdicts) = passes verdicts

record_all-from :
    (stats : CausalityStats) (verdicts : List CausalityVerdict)
    → let after = record_all stats verdicts in
      (after.n_audited ≡ stats.n_audited + length verdicts)
      × (after.n_ok ≡ stats.n_ok + passes verdicts)
      × (after.n_rejected_future_input + after.n_rejected_forbidden_field + passes verdicts
          ≡ stats.n_rejected_future_input + stats.n_rejected_forbidden_field + length verdicts)
unfolding record_verdict
record_all-from stats [] = ground arith
record_all-from stats (passed ∷ verdicts) =
    ground (arith, record_all-from (record_verdict stats passed) verdicts)
record_all-from stats (rejected (future_input k i t) ∷ verdicts) =
    ground (arith, record_all-from (record_verdict stats (rejected (future_input k i t))) verdicts)
record_all-from stats (rejected (forbidden_field k) ∷ verdicts) =
    ground (arith, record_all-from (record_verdict stats (rejected (forbidden_field k))) verdicts)
