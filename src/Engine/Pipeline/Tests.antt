-- ===== src/Engine/Pipeline/Tests.antt =====
-- A branch on concrete data, after the tests of src/engine/pipeline.rs and src/strategy/quote.rs, and
-- the instances of the theorems.
use jev_trader.Prelude.{ℕ, ◌≤◌, ◌<◌, ◌≡◌, refl, some, [], ◌∷◌, false, arith}
use jev_trader.Prelude.Int.{pos}
use jev_trader.Prelude.Tenths.{millionths}
use jev_trader.Prelude.Results.{ok}
use jev_trader.Domain.Events.{buy}
use jev_trader.Domain.Price.{price_from_f64, to_f64}
use jev_trader.Config.{default_thresholds}
use jev_trader.Polymarket.Book.{OrderBook, bid}
use jev_trader.Polymarket.Book.Replay.{IsValid, shows}
use jev_trader.Strategy.Risk.{RiskLimits}
use jev_trader.Strategy.LeadLag.{V1Signal, should_quote}
use jev_trader.Strategy.Quote.{decide_quote, round_up_to_tick}
use jev_trader.Execution.Paper.{PaperBook}
use jev_trader.Execution.Paper
use jev_trader.Engine.SignalActor.{JevEvaluation}
use jev_trader.Engine.ExecutionActor.{ExecutionActor, control, new}
use jev_trader.Engine.ExecutionActor.Lanes.{IsSound}
use jev_trader.Engine.ExecutionActor.Runs.{new_lem}
use jev_trader.Engine.Pipeline.{
  Outcome, quote, skip, invalid_candidate, BranchInput, Branched, decision_input,
  candidate_maker_price, decide_at, decide, finish_branch,
}
use jev_trader.Engine.Pipeline.Candidate.{IsExact}
use jev_trader.Engine.Pipeline.Maker.{Decided, decide-Decided}
use jev_trader.Engine.Pipeline.Branch.{Ends, finish_branch-Ends}

kept : (n : ℕ) → n ≤ 1000000 → price_from_f64 millionths (to_f64 millionths n) ≡ some n
unfolding price_from_f64 to_f64
kept n h = ground arith

millionths-IsExact : IsExact millionths
millionths-IsExact = record { million = refl; kept = kept }

abbrev signal : V1Signal millionths
signal = record {
  yes_pressure_5s = 800000;
  no_pressure_5s = 100000;
  move_persists = 700000;
  underreact_up = 900000;
  underreact_down = 100000;
  repricing = record {
    up_3_plus = 100000;
    up_2 = 200000;
    up_1 = 400000;
    flat = 100000;
    down_1 = 100000;
    down_2 = 50000;
    down_3_plus = 50000;
  };
  repricing_confidence = 800000;
  fill_before_decay = 700000;
  fill_toxic = 200000;
}

abbrev book : OrderBook
book = record { bids = (400000, 100) ∷ []; asks = (420000, 100) ∷ []; stale = false }

abbrev input : BranchInput millionths
input = record {
  condition_id = "condition";
  snapshot = record { book = book; stale = false };
  tick_size = 10000;
  size = 25;
  observed_at_ms = pos 1000;
  mid = some 410000;
}

abbrev wide_tick : BranchInput millionths
wide_tick = record input { tick_size = 15000 }

quotes_one_tick_over_bid :
    decide millionths (decision_input millionths (default_thresholds millionths) input signal)
    ≡ some (quote (record { side = buy; price = 410000; size = 25 }))
unfolding decide candidate_maker_price decide_at decide_quote should_quote round_up_to_tick
    price_from_f64 to_f64
quotes_one_tick_over_bid = refl

-- The first multiple of the tick over the bid is the ask.
crosses_nothing :
    decide millionths (decision_input millionths (default_thresholds millionths) wide_tick signal)
    ≡ some (skip invalid_candidate)
unfolding decide candidate_maker_price decide_at price_from_f64 to_f64
crosses_nothing = refl

book-IsValid : IsValid book
book-IsValid = record {
  bids_side = record { ordered = (tt, tt); positive = (omega arith, tt) };
  asks_side = record { ordered = (tt, tt); positive = (omega arith, tt) };
}

small_bids : (x : ℕ) → 0 < shows book bid x → x ≤ 1000000
small_bids x h = ground arith

decide-Decided_example :
    let di = decision_input millionths (default_thresholds millionths) input signal in
    (outcome : Outcome) × (decide millionths di ≡ some outcome) × Decided millionths di outcome
decide-Decided_example =
    decide-Decided millionths millionths-IsExact
      (decision_input millionths (default_thresholds millionths) input signal) book-IsValid
      small_bids (omega arith) (omega arith)

abbrev limits : RiskLimits
limits = record { max_outstanding_quotes = 2; max_latency_ms = 1500; killed = false }

abbrev empty_book : PaperBook millionths
empty_book = record { fill_ratio_per_touch = 200000; resting = [] }

abbrev actor : ExecutionActor millionths
actor = record {
  control_book = empty_book;
  quant_book = empty_book;
  risk_gate = record { limits = limits };
  next_order_id = 1;
}

new-actor : new millionths limits ≡ some actor
unfolding new Paper.with_default_fill_ratio
new-actor = refl

actor-IsSound : IsSound millionths actor
actor-IsSound = (new_lem millionths limits actor new-actor).0

abbrev evaluation : JevEvaluation Unit (V1Signal millionths) Unit
evaluation = record {
  market_id = "market";
  state_seq = 1;
  sent_at_ms = pos 0;
  received_at_ms = pos 300;
  latency_ms = 300;
  signal = signal;
  tokens_in = 0;
  tokens_out = 0;
}

finish_branch-Ends_example :
    (r : Branched millionths Unit Unit Unit) × (finish_branch millionths Unit Unit Unit
        (default_thresholds millionths)
        []
        actor
        input
        control
        (ok evaluation)
        (some signal)
        tt
      ≡ some r)
    × Ends millionths Unit Unit Unit
        (default_thresholds millionths)
        actor
        input
        control
        (ok evaluation)
        (some signal)
        r
finish_branch-Ends_example =
    finish_branch-Ends millionths Unit Unit Unit (default_thresholds millionths) [] actor input
      control tt (ok evaluation) (some signal) millionths-IsExact actor-IsSound (omega arith)
      book-IsValid small_bids (omega arith) (omega arith)
