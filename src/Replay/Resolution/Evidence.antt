-- ===== src/Replay/Resolution/Evidence.antt =====
-- src/replay/resolution.rs: what evidence a settlement rests on.
use jev_trader.Prelude.{◌≡◌, ◌⊎◌, Bool, true, false, Option, some, arith, ◌↔◌}
use jev_trader.Prelude.Int.{pos, ◌<ℤ◌}
use jev_trader.Prelude.Text.{is_blank}
use jev_trader.Prelude.Results.{ok}
use jev_trader.Replay.Resolution.{
  ResolutionOutcome, Provenance, is_proxy, is_exact, ResolutionSpec, ResolvedMarket,
  resolve_market_split,
}

module _ (F : Type 0) where
  -- A market with its names and its time, and evidence that is exact or a proxy that is allowed.
  abbrev pub IsAdmissible : ResolutionSpec F → Provenance → Provenance → Bool → Bool → Type 0
  IsAdmissible spec outcome_prov time_prov allow_outcome allow_time =
      (is_blank spec.condition_id ≡ false)
      × (is_blank spec.market_id ≡ false)
      × (pos 0 <ℤ spec.resolution_at_ms)
      × ((is_proxy outcome_prov ≡ true) × (allow_outcome ≡ true)
          ⊎ (is_proxy outcome_prov ≡ false) × (is_exact spec.fidelity ≡ true))
      × ((is_proxy time_prov ≡ false) ⊎ (allow_time ≡ true))

  -- A market is settled exactly if it is admissible and an outcome was observed; it is then settled
  -- with that outcome at the time of its specification. Nothing is inferred from a missing answer.
  pub resolve_market_split_iff :
      (spec : ResolutionSpec F) (outcome : Option ResolutionOutcome)
      (outcome_prov time_prov : Provenance) (allow_outcome allow_time : Bool)
      (market : ResolvedMarket F)
      → (resolve_market_split F spec outcome outcome_prov time_prov allow_outcome allow_time
          ≡ ok market)
        ↔ (IsAdmissible spec outcome_prov time_prov allow_outcome allow_time
            × (outcome ≡ some market.outcome)
            × (market.spec ≡ spec)
            × (market.outcome_provenance ≡ outcome_prov)
            × (market.time_provenance ≡ time_prov)
            × (market.provenance ≡ outcome_prov)
            × (market.resolved_at_ms ≡ spec.resolution_at_ms))
  unfolding resolve_market_split
  resolve_market_split_iff spec outcome outcome_prov time_prov allow_outcome allow_time market =
      ground arith
