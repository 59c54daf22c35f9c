-- ===== src/Domain/Market/Tests.antt =====
-- Runs on concrete texts, after the tests of src/domain/market.rs, and the instances of the theorems.
use jev_trader.Prelude.{◌≡◌, refl, none, some, true}
use jev_trader.Prelude.Results.{ok, err}
use jev_trader.Prelude.Tenths.{tenths}
use jev_trader.Prelude.Text.{trim, to_ascii_lowercase, split, split_once, contains}
use jev_trader.Domain.Market.{
  eth, m15, h1, daily, key_of, key_from_str, market_id, key_display, horizon_from_str,
  asset_from_slug, horizon_from_slug,
}
use jev_trader.Domain.Market.Reference.{above, below, from_question, resolves_yes, is_valid}
use jev_trader.Domain.Market.Keys.{key_from_str-written}

reads_padded_alias : horizon_from_str " 15Min " ≡ ok m15
unfolding horizon_from_str trim to_ascii_lowercase
reads_padded_alias = refl

reads_no_other_horizon : horizon_from_str "2h" ≡ err "horizon must be 5m, 15m, 1h, 4h, or daily"
unfolding horizon_from_str trim to_ascii_lowercase
reads_no_other_horizon = refl

reads_no_dash : key_from_str "btc5m" ≡ err "market key must be formatted as ASSET-HORIZON"
unfolding key_from_str split_once
reads_no_dash = refl

-- A token and the one behind it are tried as one word, as in `1-hour`.
joins_two_tokens : horizon_from_slug "bitcoin-1-hour" ≡ some h1
unfolding horizon_from_slug trim to_ascii_lowercase split
joins_two_tokens = refl

finds_daily_slug : horizon_from_slug "btc-updown-daily-1790116200" ≡ some daily
unfolding horizon_from_slug trim to_ascii_lowercase split
finds_daily_slug = refl

finds_no_asset : asset_from_slug "solana-up-or-down" ≡ none
unfolding asset_from_slug to_ascii_lowercase split
finds_no_asset = refl

question_below : from_question "Will Bitcoin be UNDER $80,000?" ≡ below
unfolding from_question to_ascii_lowercase contains
question_below = refl

above_resolves_at_target : resolves_yes tenths above 820 820 ≡ true
unfolding resolves_yes is_valid
above_resolves_at_target = refl

key_from_str-written_example :
    (key_from_str (key_display (key_of eth daily)) ≡ ok (key_of eth daily))
    × (key_from_str (market_id (key_of eth daily)) ≡ ok (key_of eth daily))
key_from_str-written_example = key_from_str-written (key_of eth daily)
