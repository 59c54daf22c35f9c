-- ===== src/Engine/Registry.antt =====
-- src/engine/registry.rs: the lifecycle of one market contract, and the registry of the contracts. A
-- hash map is a list of its entries, in no order that matters.
pub mod Lifecycles
pub mod Contracts
pub mod Rollover
mod Tests
use Prim.Native.String.{String}
use text.Mathlib.Text.{◌==◌ as str_eq}
use jev_trader.Prelude.{
  ℕ, ◌*◌, Bool, true, false, ◌&&◌, Option, none, some, is_some, List, [], ◌∷◌, leb, ◌==◌,
  if◌then◌else◌, length,
}
use jev_trader.Prelude.Words.{saturating_mul}
use jev_trader.Prelude.Int.{ℤ, pos, saturating_add}
use jev_trader.Prelude.F64.{F64}
use jev_trader.Prelude.Results.{Result, ok, err}
use jev_trader.Domain.Market.{Asset, btc, eth, Horizon, m5, m15, h1, h4, daily, seconds, MarketKey}
use jev_trader.Domain.MarketSpec.{MarketSpec, market_key}

pub data Lifecycle : Type 0 where
  discovered active near_resolution resolved rolled_over : Lifecycle

unfoldable pub advance : Lifecycle → ℕ → Lifecycle
advance discovered time_remaining_secs =
    if leb time_remaining_secs 60 then near_resolution else active
advance active time_remaining_secs = if leb time_remaining_secs 60 then near_resolution else active
advance near_resolution time_remaining_secs =
    if time_remaining_secs == 0 then resolved else near_resolution
advance resolved time_remaining_secs = rolled_over
advance rolled_over time_remaining_secs = rolled_over

-- The next window of a horizon: it starts where the current one resolves. The product is small, so
-- that the cast to `i64` keeps it.
unfoldable pub rollover_spec : Horizon → ℤ → ℤ × ℤ
rollover_spec horizon resolution_at_ms = (
  resolution_at_ms,
  saturating_add resolution_at_ms (pos (saturating_mul (seconds horizon) 1000)),
)

-- The discriminants of the two enumerations.
abbrev pub asset_index : Asset → ℕ
asset_index btc = 0
asset_index eth = 1

abbrev pub horizon_index : Horizon → ℕ
horizon_index m5 = 0
horizon_index m15 = 1
horizon_index h1 = 2
horizon_index h4 = 3
horizon_index daily = 4

-- `==` of two keys.
unfoldable pub same_key : MarketKey → MarketKey → Bool
same_key k j =
    (asset_index k.asset == asset_index j.asset)
    && (horizon_index k.horizon == horizon_index j.horizon)

pub data RegistryError : Type 0 where
  unknown_market_key : String → RegistryError
  duplicate_market : MarketKey → RegistryError

module _ (f : F64) where
  pub record MarketRuntime : Type 0 where
    pub key : MarketKey
    pub spec : MarketSpec f
    pub condition_id : String
    pub yes_token_id : String
    pub lifecycle : Lifecycle
    pub winning_token_id : Option String

  unfoldable pub is_tradable : MarketRuntime → Bool
  is_tradable runtime = elim runtime.lifecycle [
    | active ↦ true
    | near_resolution ↦ true
    | _ ↦ false
  ]

  unfoldable pub note_resolution : MarketRuntime → String → MarketRuntime
  note_resolution runtime winning_token_id = record runtime {
    lifecycle = resolved;
    winning_token_id = some winning_token_id;
  }

  unfoldable pub yes_won : MarketRuntime → Option Bool
  yes_won runtime = elim runtime.winning_token_id [
    | none ↦ none
    | some winning ↦ if str_eq winning runtime.yes_token_id then some true else none
  ]

  abbrev pub MarketRegistry : Type 0
  MarketRegistry = List (MarketKey × MarketRuntime)

  unfoldable pub get : MarketKey → MarketRegistry → Option MarketRuntime
  get k [] = none
  get k ((j, runtime) ∷ markets) =
      let rest = get k markets in if same_key k j then some runtime else rest

  -- A change through `get_mut`: nothing, where the key is missing.
  unfoldable pub update :
      MarketKey → (MarketRuntime → MarketRuntime) → MarketRegistry → MarketRegistry
  update k change [] = []
  update k change ((j, runtime) ∷ markets) =
      let rest = update k change markets in
      if same_key k j then (j, change runtime) ∷ markets else (j, runtime) ∷ rest

  -- The registry afterwards, and the result.
  unfoldable pub register :
      MarketRegistry → MarketSpec f → String → String → MarketRegistry × Result Unit RegistryError
  register markets spec condition_id yes_token_id = elim (market_key f spec) [
    | none ↦ (markets, err (unknown_market_key spec.slug))
    | some k ↦
        let runtime : MarketRuntime = record {
          key = k;
          spec = spec;
          condition_id = condition_id;
          yes_token_id = yes_token_id;
          lifecycle = discovered;
          winning_token_id = none;
        } in
        if is_some (get k markets)
        then (markets, err (duplicate_market k))
        else ((k, runtime) ∷ markets, ok tt)
  ]

  unfoldable pub mark_resolved : MarketRegistry → MarketKey → MarketRegistry × Bool
  mark_resolved markets k =
      if is_some (get k markets)
      then (update k (λ runtime. record runtime { lifecycle = resolved }) markets, true)
      else (markets, false)
