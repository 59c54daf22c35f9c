-- ===== src/Replay/Complement/Tests.antt =====
-- Complements after the tests of src/replay/complement.rs, and the instance of the theorem.
use jev_trader.Prelude.{◌≡◌, refl, none, List, [], ◌∷◌, arith}
use jev_trader.Prelude.Int.{pos}
use jev_trader.Prelude.Tenths.{millionths}
use jev_trader.Replay.Complement.{
  ComplementStats, NoTopOfBook, build_complement, complement_no_to_yes,
}
use jev_trader.Replay.Complement.Accounting.{Counts, accepted, observe_all, observe_all-IsAccounted}

abbrev top : millionths.F → millionths.F → NoTopOfBook millionths
top bid ask = record {
  no_bid = bid;
  no_ask = ask;
  no_bid_size = 10000000;
  no_ask_size = 20000000;
  ts_ms = pos 100;
  market_id = "m";
}

abbrev inputs : List (NoTopOfBook millionths)
inputs = top 560000 580000 ∷ top 600000 550000 ∷ top 500000 1200000 ∷ []

abbrev fresh : ComplementStats
fresh = record { n_input = 0; n_ok = 0; n_rejected_bad_spread = 0; n_rejected_range = 0 }

takes_one : accepted millionths inputs ≡ 1
takes_one = refl

crossed_has_none : complement_no_to_yes millionths (top 600000 550000) ≡ none
unfolding build_complement
crossed_has_none = refl

observe_all-IsAccounted_example :
    Counts millionths inputs fresh (observe_all millionths inputs fresh)
observe_all-IsAccounted_example = observe_all-IsAccounted millionths inputs fresh refl (omega arith)
