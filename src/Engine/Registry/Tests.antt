-- ===== src/Engine/Registry/Tests.antt =====
-- Runs of the lifecycle on concrete data, after tests/registry_lifecycle.rs, and the instances of the
-- theorems about it.
use jev_trader.Prelude.{
  ◌+◌, ◌*◌, ◌≤◌, ◌<◌, ◌≡◌, refl, ◌⊎◌, true, false, none, some, [], ◌∷◌, arith, All, ◌↔◌, length,
  List,
}
use jev_trader.Prelude.Int.{pos, saturating_add, ◌+ℤ◌}
use jev_trader.Prelude.Tenths.{tenths}
use jev_trader.Prelude.Results.{err}
use jev_trader.Prelude.Text.{trim, to_ascii_lowercase, split}
use jev_trader.Domain.Market.Reference.{is_active_at, time_remaining_secs}
use jev_trader.Domain.Market.{asset_from_slug, horizon_from_slug, btc, eth, m5, h1, key_of, seconds}
use jev_trader.Domain.MarketSpec.{MarketSpec, asset_of, horizon_of, market_key, resolution_window}
use jev_trader.Domain.MarketSpec.Tests.{spec as market}
use jev_trader.Engine.Registry.{
  MarketRegistry, same_key, register, get, rollover_spec, duplicate_market, discovered, active,
  rolled_over, advance, MarketRuntime, is_tradable, note_resolution, yes_won,
}
use jev_trader.Engine.Registry.Contracts.{
  IsValid, Step, registers, marks_resolved, advances as advances_of, notes_resolution, run,
  run-length, Outcome, register-Outcome,
}
use jev_trader.Engine.Registry.Rollover.{resolution_window-rollover}
use jev_trader.Engine.Registry.Lifecycles.{
  stage, advances, advances_forward, advances_zero, note_resolution_lem, rollovers, rollovers_end,
}

full_lifecycle : advances discovered (120 ∷ 60 ∷ 0 ∷ 0 ∷ []) ≡ rolled_over
unfolding advance
full_lifecycle = refl

lifecycle_of_two_steps :
    (1 ≤ stage (advances active (90 ∷ 30 ∷ [])))
    × (1 ≤ 2 → All (λ t. 0 < t) (90 ∷ 30 ∷ []) → stage (advances active (90 ∷ 30 ∷ [])) ≤ 2)
lifecycle_of_two_steps = advances_forward active (90 ∷ 30 ∷ [])

closes_without_time :
    (3 ≤ stage (advances active (0 ∷ 0 ∷ []))) × (advances active (0 ∷ 0 ∷ 0 ∷ []) ≡ rolled_over)
closes_without_time = advances_zero active (omega arith)

abbrev runtime : MarketRuntime tenths
runtime = record {
  key = key_of btc m5;
  spec = market;
  condition_id = "condition";
  yes_token_id = "yes";
  lifecycle = active;
  winning_token_id = none;
}

notes_other_token :
    let after = note_resolution tenths runtime "no" in
    (is_tradable tenths after ≡ false)
    × ((yes_won tenths after ≡ some true) ↔ ("no" ≡ runtime.yes_token_id))
    × ((yes_won tenths after ≡ none) ⊎ (yes_won tenths after ≡ some true))
notes_other_token = note_resolution_lem tenths runtime "no"

rolls_three_hours : rollovers h1 (pos 1000) 3 ≡ pos (1000 + 3 * (seconds h1 * 1000))
rolls_three_hours = rollovers_end h1 1000 3 (omega arith)

abbrev registry : MarketRegistry tenths
registry = (key_of btc m5, runtime) ∷ []

abbrev steps : List (Step tenths)
steps =
    registers market "condition" "yes"
    ∷ registers market "again" "yes"
    ∷ advances_of (key_of btc m5) 30
    ∷ notes_resolution (key_of btc m5) "yes"
    ∷ marks_resolved (key_of eth m5)
    ∷ []

run-length_example : IsValid tenths (run tenths [] steps) × (length (run tenths [] steps) ≤ 10)
run-length_example = run-length tenths steps

-- The key of the specification is taken.
register-Outcome_example :
    Outcome tenths registry market "other" "no" (register tenths registry market "other" "no")
register-Outcome_example = register-Outcome tenths registry market "other" "no"

takes_no_second :
    (register tenths registry market "other" "no").1 ≡ err (duplicate_market (key_of btc m5))
unfolding register market_key asset_of horizon_of asset_from_slug horizon_from_slug get same_key
    trim to_ascii_lowercase split
takes_no_second = refl

-- An hourly contract that follows one which resolved at the first hour.
abbrev hourly : MarketSpec tenths
hourly = record market { declared_horizon = some h1; resolution_at_ms = pos 7200000 }

resolution_window-rollover_example :
    let window = resolution_window tenths hourly 820000 (pos 5000000) in
    (window.start_ms ≡ pos 3600000)
    × (window.end_ms ≡ pos 7200000)
    × (window.reference.window_secs ≡ 3600)
    × ((is_active_at window.start_ms window.end_ms (pos 5000000) ≡ false)
        ⊎ (time_remaining_secs window.end_ms (pos 5000000) ≤ 3600))
unfolding horizon_of rollover_spec saturating_add ◌+ℤ◌
resolution_window-rollover_example =
    resolution_window-rollover tenths hourly h1 3600000 820000 (pos 5000000) refl refl refl
      (omega arith) refl (omega arith, omega arith)
