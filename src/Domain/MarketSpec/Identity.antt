-- ===== src/Domain/MarketSpec/Identity.antt =====
-- src/market_spec.rs: how a market is identified by its slug, and how its window meets the one before.
use Prim.Native.String.{String}
use jev_trader.Prelude.{◌≡◌, refl, none, some}
use jev_trader.Prelude.F64.{F64}
use jev_trader.Domain.Market.{Asset, Horizon, key_of}
use jev_trader.Domain.Market.Keys.{slug_of, asset_from_slug-slug_of, horizon_from_slug-slug_of}
use jev_trader.Domain.MarketSpec.{MarketSpec, asset_of, horizon_of, market_key}

module _ (f : F64) where
  -- A market without declared metadata whose slug is `asset-updown-horizon-` and any further text, is
  -- identified as that asset at that horizon.
  pub market_key-slug_of :
      (spec : MarketSpec f) (a : Asset) (h : Horizon) (rest : String)
      → spec.declared_asset ≡ none
      → spec.declared_horizon ≡ none
      → spec.slug ≡ slug_of a h rest
      → market_key f spec ≡ some (key_of a h)
  unfolding market_key asset_of horizon_of
  market_key-slug_of spec a h rest no_asset no_horizon slug =
      let asset : asset_of f spec ≡ some a =
        rw (no_asset, slug, asset_from_slug-slug_of a h rest, asset_of) refl in
      let horizon : horizon_of f spec ≡ some h =
        rw (no_horizon, slug, horizon_from_slug-slug_of a h rest, horizon_of) refl in
      rw (asset, horizon, market_key) refl
