-- ===== src/Strategy/Quote.antt =====
-- src/strategy/quote.rs: the quote that a signal leads to, one tick over the best bid.
use jev_trader.Prelude.{ℕ, Bool, not, ◌||◌, Option, none, some, ltb, ◌==◌, if◌then◌else◌}
use jev_trader.Prelude.F64.{F64}
use jev_trader.Domain.Events.{TradeSide, buy}
use jev_trader.Domain.Price.{is_multiple_of, in_unit, price_from_f64, to_f64}
use jev_trader.Config.{QuoteThresholds}
use jev_trader.Polymarket.Book.{OrderBook, best_bid, best_ask}
use jev_trader.Strategy.LeadLag.{V1Signal, should_quote}

pub record QuoteIntent : Type 0 where
  pub side : TradeSide
  pub price : ℕ
  pub size : ℕ

module _ (f : F64) where
  open f use {F, literal, is_finite, add, mul, div, ceil}

  abbrev pub tick_candidate : ℕ → ℕ → F
  tick_candidate bid tick_size =
      let tick = to_f64 f tick_size in mul (ceil (div (add (to_f64 f bid) tick) tick)) tick

  -- The conversion cannot panic: its argument was tested.
  unfoldable pub round_up_to_tick : ℕ → ℕ → Option ℕ
  round_up_to_tick bid tick_size =
      let candidate = tick_candidate bid tick_size in
      if not (is_finite candidate) || not (in_unit f candidate)
      then none
      else elim (price_from_f64 f candidate) [
        | none ↦ none
        | some price ↦ if is_multiple_of price tick_size then some price else none
      ]

  abbrev pub intent_of : ℕ → ℕ → QuoteIntent
  intent_of price size = record { side = buy; price = price; size = size }

  unfoldable pub decide_quote :
      V1Signal f → OrderBook → QuoteThresholds f → Bool → ℕ → ℕ → Option QuoteIntent
  decide_quote signal book thresholds stale tick_size size =
      if size == 0 || stale || book.stale
      then none
      else if not (should_quote f signal thresholds)
      then none
      else elim (best_bid book) [
        | none ↦ none
        | some b ↦ elim (best_ask book) [
          | none ↦ none
          | some a ↦ elim (round_up_to_tick b tick_size) [
            | none ↦ none
            | some price ↦ if ltb price a then some (intent_of price size) else none
          ]
        ]
      ]
