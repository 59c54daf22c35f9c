-- ===== src/Replay/Resolution/Tests.antt =====
-- Runs of the settlement rule on concrete data, after tests/replay_resolution.rs, and the instance of
-- the theorem about it.
use jev_trader.Prelude.{ℕ, ◌≡◌, refl, true, false, none, some, ◌↔◌}
use jev_trader.Prelude.Int.{pos}
use jev_trader.Prelude.Results.{ok, err}
use jev_trader.Replay.Resolution.{
  yes, Provenance, Fidelity, ResolutionSpec, ResolvedMarket, missing_outcome, resolve_market,
  resolve_market_split,
}
use jev_trader.Replay.Resolution.Evidence.{IsAdmissible, resolve_market_split_iff}

abbrev spec : ResolutionSpec ℕ
spec = record {
  condition_id = "condition";
  market_id = "market";
  asset = "BTC";
  horizon = "5m";
  resolution_source = "source";
  resolution_rule_excerpt = "rule";
  fidelity = Fidelity.exact;
  resolution_at_ms = pos 5000;
  reference = none;
  strike = none;
  start_at = none;
  end_at = none;
}

nothing_is_inferred :
    resolve_market ℕ spec none Provenance.exact true
    ≡ err (record { condition_id = "condition"; reason = missing_outcome })
unfolding resolve_market
nothing_is_inferred = refl

abbrev market : ResolvedMarket ℕ
market = record {
  spec = spec;
  outcome = yes;
  outcome_provenance = Provenance.exact;
  time_provenance = Provenance.proxy;
  provenance = Provenance.exact;
  resolved_at_ms = pos 5000;
}

resolve_market_split_iff_example :
    (resolve_market_split ℕ spec (some yes) Provenance.exact Provenance.proxy false true
      ≡ ok market)
    ↔ (IsAdmissible ℕ spec Provenance.exact Provenance.proxy false true
        × (some yes ≡ some market.outcome)
        × (market.spec ≡ spec)
        × (market.outcome_provenance ≡ Provenance.exact)
        × (market.time_provenance ≡ Provenance.proxy)
        × (market.provenance ≡ Provenance.exact)
        × (market.resolved_at_ms ≡ spec.resolution_at_ms))
resolve_market_split_iff_example =
    resolve_market_split_iff ℕ spec (some yes) Provenance.exact Provenance.proxy false true market
