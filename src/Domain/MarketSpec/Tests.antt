-- ===== src/Domain/MarketSpec/Tests.antt =====
-- A specification on concrete data, and the instances of the theorems.
use jev_trader.Prelude.{◌≡◌, refl, none, some}
use jev_trader.Prelude.Int.{pos}
use jev_trader.Prelude.Tenths.{tenths}
use jev_trader.Prelude.Text.{to_ascii_lowercase}
use jev_trader.Domain.Market.{btc, m5, key_of}
use jev_trader.Domain.MarketSpec.{MarketSpec, market_key}
use jev_trader.Domain.MarketSpec.Identity.{market_key-slug_of}

abbrev pub spec : MarketSpec tenths
spec = record {
  slug = "btc-updown-5m-1790116200";
  question = "Bitcoin Up or Down?";
  resolution_source = "Binance BTC/USDT 1m close";
  resolution_rules = "Up, if the price is higher.";
  target = 820000;
  resolution_at_ms = pos 1790116500000;
  declared_asset = none;
  declared_horizon = none;
  reference_source = none;
  window_secs = none;
  start_ms = none;
}

market_key-slug_of_example : market_key tenths spec ≡ some (key_of btc m5)
unfolding to_ascii_lowercase
market_key-slug_of_example = market_key-slug_of tenths spec btc m5 "1790116200" refl refl refl
