-- ===== src/Domain/Market/Keys.antt =====
-- src/domain/market.rs: reading what was written, for market keys and slugs.
use Prim.Native.String.{String}
use jev_trader.Prelude.{◌≡◌, refl, some}
use jev_trader.Prelude.Results.{ok}
use jev_trader.Prelude.Text.{to_ascii_lowercase, trim, split_once, split, ◌<>◌}
use jev_trader.Domain.Market.{
  MarketKey, key_of, market_id, key_display, key_from_str, horizon_from_str, asset_from_str, Asset,
  Horizon, btc, eth, m5, m15, h1, h4, daily, asset_str, horizon_str, horizon_from_slug,
  asset_from_slug,
}

abbrev IsReadBack : MarketKey → Type 0
IsReadBack key = (key_from_str (key_display key) ≡ ok key) × (key_from_str (market_id key) ≡ ok key)

IsReadBack-key_of : (a : Asset) (h : Horizon) → IsReadBack (key_of a h)
unfolding key_from_str market_id key_display split_once asset_from_str horizon_from_str trim
    to_ascii_lowercase
IsReadBack-key_of btc m5 = (refl, refl)
IsReadBack-key_of btc m15 = (refl, refl)
IsReadBack-key_of btc h1 = (refl, refl)
IsReadBack-key_of btc h4 = (refl, refl)
IsReadBack-key_of btc daily = (refl, refl)
IsReadBack-key_of eth m5 = (refl, refl)
IsReadBack-key_of eth m15 = (refl, refl)
IsReadBack-key_of eth h1 = (refl, refl)
IsReadBack-key_of eth h4 = (refl, refl)
IsReadBack-key_of eth daily = (refl, refl)

pub key_from_str-written :
    (key : MarketKey)
    → (key_from_str (key_display key) ≡ ok key) × (key_from_str (market_id key) ≡ ok key)
key_from_str-written key = IsReadBack-key_of key.asset key.horizon

abbrev pub slug_of : Asset → Horizon → String → String
slug_of a h rest = to_ascii_lowercase (asset_str a) <> "-updown-" <> horizon_str h <> "-" <> rest

pub asset_from_slug-slug_of :
    (a : Asset) (h : Horizon) (rest : String) → (asset_from_slug (slug_of a h rest) ≡ some a)
unfolding asset_from_slug split to_ascii_lowercase
asset_from_slug-slug_of btc h rest = refl
asset_from_slug-slug_of eth h rest = refl

pub horizon_from_slug-slug_of :
    (a : Asset) (h : Horizon) (rest : String) → (horizon_from_slug (slug_of a h rest) ≡ some h)
unfolding horizon_from_slug split to_ascii_lowercase trim
horizon_from_slug-slug_of btc m5 rest = refl
horizon_from_slug-slug_of btc m15 rest = refl
horizon_from_slug-slug_of btc h1 rest = refl
horizon_from_slug-slug_of btc h4 rest = refl
horizon_from_slug-slug_of btc daily rest = refl
horizon_from_slug-slug_of eth m5 rest = refl
horizon_from_slug-slug_of eth m15 rest = refl
horizon_from_slug-slug_of eth h1 rest = refl
horizon_from_slug-slug_of eth h4 rest = refl
horizon_from_slug-slug_of eth daily rest = refl
