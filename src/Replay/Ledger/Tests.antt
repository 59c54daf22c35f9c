-- ===== src/Replay/Ledger/Tests.antt =====
-- Runs of an episode on concrete data, after tests/replay_ledger.rs, and the instances of the theorems
-- about it.
use jev_trader.Prelude.{◌+◌, ◌≡◌, refl, false, List, [], ◌∷◌}
use jev_trader.Prelude.Int.{pos, pos_part, neg_part, checked_add, ◌+ℤ◌}
use jev_trader.Prelude.Results.{ok, err}
use jev_trader.Prelude.Tenths.{tenths}
use jev_trader.Replay.Ledger.{
  buy_yes, sell, fill_before_arrival, Order, TradeEpisode, has_fill, opened,
  new_with_exit_submit_latency, apply_fill,
}
use jev_trader.Replay.Ledger.Episodes.{
  IsSound, Keeps, Operation, fill, exit_request, exit_fill, resolve, outcome, exit, operates,
  operates-IsSound, new_lem,
}

abbrev order : Order tenths
order = record {
  episode_id = "e1";
  strategy_version = "v1";
  market = "m";
  asset = "BTC";
  horizon = "5m";
  signal_ts_ms = pos 1000;
  jev_start_ts_ms = pos 1000;
  jev_latency_ms = 300;
  submit_latency_ms = 50;
  exit_submit_latency_ms = 0;
  side = buy_yes;
  limit_price = 5;
  stake_usd = 50;
}

abbrev episode : TradeEpisode tenths
episode = opened tenths order (pos 1350)

new_episode : new_with_exit_submit_latency tenths order ≡ ok episode
unfolding new_with_exit_submit_latency checked_add ◌+ℤ◌
new_episode = refl

early_fill_is_refused : apply_fill tenths episode (pos 1349) 5 100 ≡ err fill_before_arrival
unfolding apply_fill
early_fill_is_refused = refl

opens_episode :
    IsSound tenths episode
    × (has_fill tenths episode ≡ false)
    × (pos_part episode.order_arrival_ts_ms + neg_part order.signal_ts_ms
        ≡ pos_part order.signal_ts_ms
          + order.jev_latency_ms
          + order.submit_latency_ms
          + neg_part episode.order_arrival_ts_ms)
opens_episode = new_lem tenths order episode new_episode

abbrev calls : List (Operation tenths)
calls =
    fill (pos 1400) 5 100
    ∷ fill (pos 1500) 6 100
    ∷ exit_request (pos 2000) 50
    ∷ exit_fill (pos 2100) 7
    ∷ exit sell (pos 2100) 7
    ∷ resolve (pos 9000)
    ∷ outcome "Yes"
    ∷ []

operates-IsSound_example :
    IsSound tenths (operates tenths episode calls)
    × Keeps tenths episode (operates tenths episode calls)
operates-IsSound_example = operates-IsSound tenths episode calls (refl, refl, refl, refl, refl)
