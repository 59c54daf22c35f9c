-- ===== src/Replay/Fills/Tests.antt =====
-- Fills of concrete tapes, after the tests of src/replay/fills.rs, and the instances of the theorems.
use jev_trader.Prelude.{◌≤◌, ◌≡◌, refl, true, some, List, [], ◌∷◌, filter}
use jev_trader.Prelude.Int.{pos, saturating_add, ◌+ℤ◌}
use jev_trader.Prelude.Tenths.{millionths}
use jev_trader.Replay.Fills.{
  conservative, unknown, FillPrint, RestingOrder, FillSimulator, simulator, print_of, no_fill,
  check_fill, judge, collect, weigh, price_weight, available_after, through_count, completion_from,
  outcome_from_available,
}
use jev_trader.Replay.Fills.Eligible.{prints_beyond, is_in_time, Reaches}
use jev_trader.Replay.Fills.Tape.{check_fill-in_time, check_fill-ts, check_fill-conservative}

abbrev order : RestingOrder millionths
order = record { price = 430000; size = 10000000; resting_from_ms = pos 0; side_buy = true }

abbrev tape : List (FillPrint millionths)
tape =
    print_of millionths (pos 100) 420000 60000000 unknown
    ∷ print_of millionths (pos 200) 420000 60000000 unknown
    ∷ []

abbrev careful : FillSimulator millionths
careful = simulator millionths conservative

fills_wholly : (check_fill millionths careful order tape 0).fill_ts_ms ≡ some (pos 200)
unfolding check_fill judge collect weigh price_weight available_after through_count completion_from
    outcome_from_available saturating_add ◌+ℤ◌
fills_wholly = refl

fills_at_all : (check_fill millionths careful order tape 0).filled ≡ true
unfolding check_fill judge collect weigh price_weight available_after through_count completion_from
    outcome_from_available saturating_add ◌+ℤ◌
fills_at_all = refl

refuses_one_print :
    check_fill millionths careful order
      (print_of millionths (pos 100) 400000 1000000000 unknown ∷ [])
      0
    ≡ no_fill millionths 430000 conservative
unfolding check_fill judge collect weigh price_weight available_after through_count completion_from
    outcome_from_available saturating_add ◌+ℤ◌
refuses_one_print = refl

check_fill-in_time_example :
    check_fill millionths careful order tape 150
    ≡ check_fill millionths careful order (filter (λ p. is_in_time (pos 0) 150 p.ts_ms) tape) 150
check_fill-in_time_example = check_fill-in_time millionths careful order tape 150

check_fill-ts_example : Reaches millionths order 0 tape (pos 200)
check_fill-ts_example = check_fill-ts millionths careful order tape 0 (pos 200) fills_wholly

check_fill-conservative_example : 2 ≤ prints_beyond millionths order 0 tape
check_fill-conservative_example =
    check_fill-conservative millionths careful order tape 0 refl refl fills_at_all
