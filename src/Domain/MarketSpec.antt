-- ===== src/Domain/MarketSpec.antt =====
-- src/market_spec.rs: the metadata of a market, and what is read off it. The reader of the file format
-- is not here.
pub mod Identity
pub mod Tests
use Prim.Native.String.{String}
use jev_trader.Prelude.{ℕ, ◌/◌, Option, none, some}
use jev_trader.Prelude.Int.{ℤ, pos_part, saturating_sub, to_i64}
use jev_trader.Prelude.Words.{saturating_mul}
use jev_trader.Prelude.F64.{F64}
use jev_trader.Prelude.Text.{decimal, ◌<>◌}
use jev_trader.Domain.Market.{
  Asset, Horizon, MarketKey, asset_from_slug, horizon_from_slug, seconds, horizon_str, key_of,
}
use jev_trader.Domain.Market.Reference.{
  ResolutionMechanism, from_question, distance_to_target_pct, favorable_distance_pct,
  ResolutionWindow,
}

-- `option.or_else(|| other)`
abbrev pub or_else {ℓ} : {A : Type ℓ} → Option A → Option A → Option A
or_else none other = other
or_else (some a) other = some a

-- `option.unwrap_or(default)`
abbrev pub unwrap_or {ℓ} : {A : Type ℓ} → Option A → A → A
unwrap_or none default = default
unwrap_or (some a) default = a

module _ (f : F64) where
  open f use {F}

  pub record MarketSpec : Type 0 where
    pub slug : String
    pub question : String
    pub resolution_source : String
    pub resolution_rules : String
    pub target : F
    pub resolution_at_ms : ℤ
    pub declared_asset : Option Asset
    pub declared_horizon : Option Horizon
    pub reference_source : Option String
    pub window_secs : Option ℕ
    pub start_ms : Option ℤ

  -- `MarketSpec::asset`
  unfoldable pub asset_of : MarketSpec → Option Asset
  asset_of spec = or_else spec.declared_asset (asset_from_slug spec.slug)

  -- `MarketSpec::horizon`
  unfoldable pub horizon_of : MarketSpec → Option Horizon
  horizon_of spec = or_else spec.declared_horizon (horizon_from_slug spec.slug)

  unfoldable pub market_key : MarketSpec → Option MarketKey
  market_key spec = elim (asset_of spec) [
    | none ↦ none
    | some a ↦ elim (horizon_of spec) [ none ↦ none | some h ↦ some (key_of a h) ]
  ]

  unfoldable pub distance_to_target : MarketSpec → F → F
  distance_to_target spec reference = distance_to_target_pct f reference spec.target

  unfoldable pub distance_to_target_for : MarketSpec → F → F
  distance_to_target_for spec reference =
      favorable_distance_pct f (from_question spec.question) reference spec.target

  unfoldable pub time_remaining_ms : MarketSpec → ℤ → ℕ
  time_remaining_ms spec now_ms = pos_part (saturating_sub spec.resolution_at_ms now_ms)

  unfoldable pub spec_remaining_secs : MarketSpec → ℤ → ℕ
  spec_remaining_secs spec now_ms = time_remaining_ms spec now_ms / 1000

  -- The length of the window: as declared, or the horizon's, or five minutes.
  unfoldable pub window_length : MarketSpec → ℕ
  window_length spec = elim spec.window_secs [
    | some secs ↦ secs
    | none ↦ elim (horizon_of spec) [ some h ↦ seconds h | none ↦ 300 ]
  ]

  abbrev pub window_label : MarketSpec → String
  window_label spec = elim (horizon_of spec) [
    | some h ↦ horizon_str h
    | none ↦ decimal (window_length spec) <> "s"
  ]

  -- A product from 2^63 on is cast to a negative `i64`.
  unfoldable pub resolution_window : MarketSpec → F → ℤ → ResolutionWindow f
  resolution_window spec reference_value observed_at_ms =
      let secs = window_length spec in
      let source = unwrap_or spec.reference_source spec.resolution_source in
      record {
        source = source;
        window = window_label spec;
        start_ms =
            unwrap_or spec.start_ms
              (saturating_sub spec.resolution_at_ms (to_i64 (saturating_mul secs 1000)));
        end_ms = spec.resolution_at_ms;
        reference = record {
          value = reference_value;
          source = source;
          observed_at_ms = observed_at_ms;
          window_secs = secs;
        };
      }
