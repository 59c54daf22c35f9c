-- ===== src/Replay/Portfolio/Tests.antt =====
-- Portfolios after the tests of src/replay/portfolio.rs, and the instance of the theorem.
use jev_trader.Prelude.{◌≡◌, refl, false, List, [], ◌∷◌, filter}
use jev_trader.Prelude.Int.{pos}
use jev_trader.Prelude.Tenths.{millionths}
use jev_trader.Replay.Ledger.{TradeEpisode, Order, buy_yes, opened, is_no_fill}
use jev_trader.Replay.Portfolio.{
  Key, new, apply_fill, apply_exit, apply_episode, observe_mid, unrealized_pnl_pp, realized_pnl_pp,
  portfolio,
}
use jev_trader.Replay.Portfolio.Isolation.{
  Change, filled, exited, settled, observed, apply, apply_all, run, own, portfolio_of, counts,
  IsSynced, run_isolated,
}

abbrev control : Key
control = ("CONTROL", "BTC-5m")

abbrev quant : Key
quant = ("QUANT_V1", "BTC-5m")

abbrev order : Order millionths
order = record {
  episode_id = "e";
  strategy_version = "v";
  market = "BTC-5m";
  asset = "btc";
  horizon = "5m";
  signal_ts_ms = pos 0;
  jev_start_ts_ms = pos 0;
  jev_latency_ms = 100;
  submit_latency_ms = 50;
  exit_submit_latency_ms = 0;
  side = buy_yes;
  limit_price = 500000;
  stake_usd = 10000000;
}

abbrev unfilled : TradeEpisode millionths
unfilled = opened millionths order (pos 150)

abbrev changes : List (Key × Change millionths)
changes =
    (control, filled (record { price = 400000; size = 10000000; ts_ms = pos 0; toxic = false }))
    ∷ (quant, filled (record { price = 900000; size = 1000000; ts_ms = pos 0; toxic = false }))
    ∷ (control, settled unfilled)
    ∷ (control, observed 420000)
    ∷ []

marks_to_mid :
    unrealized_pnl_pp millionths (portfolio_of millionths control (run millionths changes []))
    ≡ 20000000
unfolding apply apply_fill apply_exit apply_episode observe_mid portfolio is_no_fill
marks_to_mid = refl

realizes_exit :
    realized_pnl_pp millionths (
      portfolio_of millionths control (
        run millionths
          ((control, exited 430000 10000000 (pos 60000)) ∷ [])
          (run millionths changes [])))
    ≡ 30000000
unfolding apply apply_fill apply_exit apply_episode observe_mid portfolio is_no_fill
realizes_exit = refl

run_isolated_example :
    (portfolio_of millionths control (run millionths changes [])
      ≡ apply_all millionths
          (filter (counts millionths) (own millionths control changes))
          (new millionths))
    × IsSynced millionths (portfolio_of millionths control (run millionths changes []))
run_isolated_example = run_isolated millionths control changes
