-- ===== src/Domain/Market.antt =====
-- src/domain/market.rs: the assets, the resolution horizons and the keys that pair them, how they are
-- read and written, and what a market's reference price says about its outcome.
pub mod Keys
pub mod Reference
mod Tests
use Prim.Native.String.{String}
use text.Mathlib.Text.{◌==◌ as str_eq}
use jev_trader.Prelude.{
  ℕ, ◌*◌, ◌/◌, Bool, true, false, not, ◌&&◌, ◌||◌, Option, none, some, List, [], ◌∷◌, map, filter,
  if◌then◌else◌, ◌==◌,
}
use jev_trader.Prelude.Int.{ℤ, pos_part, saturating_sub, leb_ℤ, ltb_ℤ}
use jev_trader.Prelude.F64.{F64}
use jev_trader.Prelude.Results.{Result, ok, err}
use jev_trader.Prelude.Text.{
  to_ascii_lowercase, trim, split_once, split, is_ascii_alphanumeric, is_one_of, contains, ◌<>◌,
}

pub data Asset : Type 0 where
  btc eth : Asset

abbrev pub asset_str : Asset → String
asset_str btc = "BTC"
asset_str eth = "ETH"

-- `iter.find_map(f)`
abbrev pub find_map {ℓ κ} : {A : Type ℓ} {B : Type κ} → (A → Option B) → List A → Option B
find_map f [] = none
find_map f (x ∷ xs) = let rest = find_map f xs in elim (f x) [ none ↦ rest | some y ↦ some y ]

abbrev pub asset_of_word : String → Option Asset
asset_of_word word =
    if is_one_of word ("btc" ∷ "bitcoin" ∷ [])
    then some btc
    else if is_one_of word ("eth" ∷ "ethereum" ∷ [])
    then some eth
    else none

abbrev is_separator : ℕ → Bool
is_separator c = not (is_ascii_alphanumeric c)

unfoldable pub asset_from_slug : String → Option Asset
asset_from_slug slug =
    find_map (λ token. asset_of_word (to_ascii_lowercase token)) (split is_separator slug)

-- `Asset::from_str`
unfoldable pub asset_from_str : String → Result Asset String
asset_from_str value = elim (asset_of_word (to_ascii_lowercase (trim value))) [
  | some asset ↦ ok asset
  | none ↦ err "asset must be BTC or ETH"
]

pub data Horizon : Type 0 where
  m5 m15 h1 h4 daily : Horizon

abbrev pub seconds : Horizon → ℕ
seconds m5 = 5 * 60
seconds m15 = 15 * 60
seconds h1 = 60 * 60
seconds h4 = 4 * 60 * 60
seconds daily = 24 * 60 * 60

abbrev pub horizon_str : Horizon → String
horizon_str m5 = "5m"
horizon_str m15 = "15m"
horizon_str h1 = "1h"
horizon_str h4 = "4h"
horizon_str daily = "daily"

-- `Display for Horizon`
abbrev pub horizon_display : Horizon → String
horizon_display daily = "1d"
horizon_display horizon = horizon_str horizon

abbrev horizon_of_word : String → Option Horizon
horizon_of_word word =
    if is_one_of word ("5m" ∷ "5min" ∷ "5mins" ∷ "5minute" ∷ "5minutes" ∷ [])
    then some m5
    else if is_one_of word ("15m" ∷ "15min" ∷ "15mins" ∷ "15minute" ∷ "15minutes" ∷ [])
    then some m15
    else if is_one_of word ("1h" ∷ "1hr" ∷ "1hour" ∷ "1hours" ∷ [])
    then some h1
    else if is_one_of word ("4h" ∷ "4hr" ∷ "4hour" ∷ "4hours" ∷ [])
    then some h4
    else if is_one_of word ("daily" ∷ "1d" ∷ "day" ∷ [])
    then some daily
    else none

-- `Horizon::from_str(value).ok()`
abbrev read_horizon : String → Option Horizon
read_horizon value = horizon_of_word (to_ascii_lowercase (trim value))

-- `Horizon::from_str`
unfoldable pub horizon_from_str : String → Result Horizon String
horizon_from_str value = elim (read_horizon value) [
  | some horizon ↦ ok horizon
  | none ↦ err "horizon must be 5m, 15m, 1h, 4h, or daily"
]

-- `tokens.windows(2)`, each pair written as one text.
abbrev joined_pairs : List String → List String
joined_pairs [] = []
joined_pairs (a ∷ []) = []
joined_pairs (a ∷ b ∷ tokens) = (a <> b) ∷ joined_pairs (b ∷ tokens)

-- The tokens of a slug: its parts between separators that are not empty, in lower case.
abbrev slug_tokens : String → List String
slug_tokens slug =
    map to_ascii_lowercase (filter (λ token. not (str_eq token "")) (split is_separator slug))

unfoldable pub horizon_from_slug : String → Option Horizon
horizon_from_slug slug =
    let tokens = slug_tokens slug in
    elim (find_map read_horizon tokens) [
      | some horizon ↦ some horizon
      | none ↦ find_map read_horizon (joined_pairs tokens)
    ]

pub record MarketKey : Type 0 where
  pub asset : Asset
  pub horizon : Horizon

abbrev pub key_of : Asset → Horizon → MarketKey
key_of a h = record { asset = a; horizon = h }

-- `MarketKey::all`
abbrev pub all_keys : List MarketKey
all_keys =
    key_of btc m5
    ∷ key_of btc m15
    ∷ key_of btc h1
    ∷ key_of btc h4
    ∷ key_of eth m5
    ∷ key_of eth m15
    ∷ key_of eth h1
    ∷ key_of eth h4
    ∷ []

unfoldable pub market_id : MarketKey → String
market_id key = asset_str key.asset <> "-" <> horizon_str key.horizon

-- `Display for MarketKey`
unfoldable pub key_display : MarketKey → String
key_display key = to_ascii_lowercase (asset_str key.asset) <> "-" <> horizon_display key.horizon

-- `MarketKey::from_str`: the text is split at its first dash.
unfoldable pub key_from_str : String → Result MarketKey String
key_from_str value = elim (split_once 45 value) [
  | none ↦ err "market key must be formatted as ASSET-HORIZON"
  | some p ↦ elim (asset_from_str p.0) [
    | err e ↦ err e
    | ok a ↦ elim (horizon_from_str p.1) [ err e ↦ err e | ok h ↦ ok (key_of a h) ]
  ]
]
