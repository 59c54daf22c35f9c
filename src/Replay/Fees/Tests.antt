-- ===== src/Replay/Fees/Tests.antt =====
-- Fees of concrete fills, and the instance of the theorem.
use jev_trader.Prelude.{◌≡◌, refl, true, false, some, ◌&&◌, ◌⊎◌}
use jev_trader.Prelude.Int.{pos}
use jev_trader.Prelude.Results.{ok, err}
use jev_trader.Prelude.Tenths.{millionths}
use jev_trader.Replay.Ledger.{
  TradeEpisode, Order, buy_yes, sell, opened, is_no_fill, settle_accounting,
}
use jev_trader.Replay.Fees.{
  FeeRegime, zero_notionals, validate, fee_for_fill, book, apply_zero, apply_positive,
  apply_to_episode, historical_regime, current_crypto_regime,
}
use jev_trader.Replay.Fees.Booking.{IsUnfilled, IsFilled, booked, apply_to_episode-Books}

abbrev order : Order millionths
order = record {
  episode_id = "e";
  strategy_version = "v";
  market = "BTC-5m";
  asset = "btc";
  horizon = "5m";
  signal_ts_ms = pos 0;
  jev_start_ts_ms = pos 0;
  jev_latency_ms = 100;
  submit_latency_ms = 50;
  exit_submit_latency_ms = 0;
  side = buy_yes;
  limit_price = 400000;
  stake_usd = 4000000;
}

abbrev traded : TradeEpisode millionths
traded = record (opened millionths order (pos 150)) {
  fill_ts_ms = some (pos 200);
  fill_price = some 400000;
  fill_qty = some 10000000;
  exit_type = sell;
}

abbrev taker : FeeRegime millionths
taker = record { maker_rate = 0; taker_rate = 70000; maker_rebate = 0; label = "current_crypto" }

abbrev free : FeeRegime millionths
free = record { maker_rate = 0; taker_rate = 0; maker_rebate = 0; label = "zero" }

current_is_taker : current_crypto_regime millionths ≡ ok taker
unfolding historical_regime validate
current_is_taker = refl

abbrev settled : TradeEpisode millionths
settled = booked millionths traded 1000000 630000 370000 1000000

books : apply_to_episode millionths traded 1000000 4000000 5000000 false taker free ≡ ok settled
unfolding apply_to_episode apply_positive apply_zero book fee_for_fill validate settle_accounting
    is_no_fill
books = refl

refuses_zero : apply_to_episode millionths traded 0 0 0 false taker free ≡ err zero_notionals
unfolding apply_to_episode apply_positive apply_zero book fee_for_fill validate settle_accounting
    is_no_fill
refuses_zero = refl

apply_to_episode-Books_example :
    ((((millionths.eq 4000000 0) && (millionths.eq 5000000 0)) ≡ true)
      × IsUnfilled millionths traded 1000000 settled)
    ⊎ ((((millionths.eq 4000000 0) && (millionths.eq 5000000 0)) ≡ false)
        × IsFilled millionths traded 1000000 9000000 false taker free settled)
apply_to_episode-Books_example =
    apply_to_episode-Books millionths traded 1000000 4000000 5000000 false taker free settled books
