-- ===== src/Engine/Pipeline.antt =====
-- src/engine/pipeline.rs: the quote decision, the candidate price, and the end of a branch, where a
-- decision becomes a resting order and is followed by the markout tracker. What is sent to storage is
-- left out. `none` is a panic.
pub mod Candidate
pub mod Maker
pub mod Branch
mod Tests
use Prim.Native.String.{String}
use jev_trader.Prelude.{
  ℕ, ◌%◌, Bool, true, false, not, ◌&&◌, ◌||◌, Option, none, some, leb, ◌==◌, if◌then◌else◌,
}
use jev_trader.Prelude.Words.{checked_add, checked_mul, div_ceil}
use jev_trader.Prelude.Int.{ℤ, saturating_mul_ℕ}
use jev_trader.Prelude.F64.{F64}
use jev_trader.Prelude.Results
use jev_trader.Prelude.Results.{Result}
use jev_trader.Domain.Events.{buy}
use jev_trader.Domain.Price.{price_from_f64, to_f64}
use jev_trader.Config.{QuoteThresholds}
use jev_trader.Polymarket.Book.{OrderBook, best_bid, best_ask}
use jev_trader.Strategy.Risk.{RiskBlock}
use jev_trader.Strategy.LeadLag.{V1Signal}
use jev_trader.Strategy.Quote.{QuoteIntent, decide_quote}
use jev_trader.Engine.MarketActor.{MarketSnapshot}
use jev_trader.Engine.SignalActor.{JevEvaluation}
use jev_trader.Engine.ExecutionActor.{ExecutionActor, Variant, on_quote, ok, err}
use jev_trader.Engine.Markouts.{MarkoutTracker, MarkoutQuote, add_quote_with_variant}

pub data SkipReason : Type 0 where
  size_zero stale_book missing_bid missing_ask invalid_candidate : SkipReason
  strategy_rejected unusable_signal jev_error state_serialization : SkipReason
  risk_blocked : RiskBlock → SkipReason

pub data Outcome : Type 0 where
  quote : QuoteIntent → Outcome
  skip : SkipReason → Outcome

unfoldable pub millis_to_micros : ℤ → ℤ
millis_to_micros value = saturating_mul_ℕ value 1000

module _ (f : F64) where
  open f use {F, literal, mul, div, round, of_u64, to_u64}

  pub record DecisionInput : Type 0 where
    pub signal : V1Signal f
    pub market : MarketSnapshot
    pub thresholds : QuoteThresholds f
    pub tick_size : ℕ
    pub size : ℕ

  -- `(tick_size.to_f64() * 1_000_000.0).round() as u64`
  abbrev pub tick_micros : ℕ → ℕ
  tick_micros tick_size = to_u64 (round (mul (to_f64 f tick_size) (literal 1000000 0)))

  abbrev pub candidate_of : ℕ → ℕ → Option (Option ℕ)
  candidate_of bid tick = if tick == 0 then some none else elim (checked_add bid tick) [
    | none ↦ some none
    | some raw ↦ elim (checked_mul (div_ceil raw tick) tick) [
      | none ↦ some none
      | some micros ↦
          if leb micros 1000000
          then elim (price_from_f64 f (div (of_u64 micros) (literal 1000000 0))) [
            | none ↦ none
            | some price ↦ some (some price)
          ]
          else some none
    ]
  ]

  unfoldable pub candidate_maker_price : OrderBook → ℕ → Option (Option ℕ)
  candidate_maker_price book tick_size = elim (best_bid book) [
    | none ↦ some none
    | some bid ↦ candidate_of bid (tick_micros tick_size)
  ]

  -- What becomes of a signal once there are a candidate and a best ask.
  unfoldable pub decide_at : DecisionInput → ℕ → ℕ → Outcome
  decide_at input candidate ask =
      if leb ask candidate
      then skip invalid_candidate
      else elim (decide_quote f input.signal input.market.book input.thresholds input.market.stale
          input.tick_size input.size) [
            | none ↦ skip strategy_rejected
            | some intent ↦
                if intent.price == candidate then quote intent else skip invalid_candidate
          ]

  unfoldable pub decide : DecisionInput → Option Outcome
  decide input =
      if input.size == 0
      then some (skip size_zero)
      else if input.market.stale || input.market.book.stale
      then some (skip stale_book)
      else elim (best_bid input.market.book) [
        | none ↦ some (skip missing_bid)
        | some bid ↦ elim (best_ask input.market.book) [
          | none ↦ some (skip missing_ask)
          | some ask ↦ elim (candidate_maker_price input.market.book input.tick_size) [
            | none ↦ none
            | some candidate ↦ elim candidate [
              | none ↦ some (skip invalid_candidate)
              | some price ↦ some (decide_at input price ask)
            ]
          ]
        ]
      ]

  -- What a branch reads of its input.
  pub record BranchInput : Type 0 where
    pub condition_id : String
    pub snapshot : MarketSnapshot
    pub tick_size : ℕ
    pub size : ℕ
    pub observed_at_ms : ℤ
    pub mid : Option ℕ

  abbrev pub decision_input : QuoteThresholds f → BranchInput → V1Signal f → DecisionInput
  decision_input thresholds input signal = record {
    signal = signal;
    market = input.snapshot;
    thresholds = thresholds;
    tick_size = input.tick_size;
    size = input.size;
  }

  abbrev pub market_stale : BranchInput → Bool
  market_stale input = input.snapshot.stale || input.snapshot.book.stale

  module _ (V1State JevError Tags : Type 0) where
    -- The quote that follows a usable evaluation from its own mid.
    abbrev pub signal_markout :
        BranchInput
        → Variant
        → JevEvaluation V1State (V1Signal f) JevError
        → Tags
        → ℕ
        → MarkoutQuote Tags
    signal_markout input variant evaluation tags ref_mid = record {
      condition_id = input.condition_id;
      jev_ts = millis_to_micros evaluation.received_at_ms;
      side = buy;
      price = ref_mid;
      size = 0;
      quoted_at_ms = input.observed_at_ms;
      variant = variant;
      tags = tags;
      quoted = false;
    }

    -- The quote that follows a resting order from its own price.
    abbrev pub order_markout :
        BranchInput
        → Variant
        → JevEvaluation V1State (V1Signal f) JevError
        → Tags
        → QuoteIntent
        → MarkoutQuote Tags
    order_markout input variant evaluation tags intent = record {
      condition_id = input.condition_id;
      jev_ts = millis_to_micros evaluation.received_at_ms;
      side = intent.side;
      price = intent.price;
      size = intent.size;
      quoted_at_ms = input.observed_at_ms;
      variant = variant;
      tags = tags;
      quoted = true;
    }

    abbrev pub watched :
        MarkoutTracker Tags
        → BranchInput
        → Variant
        → JevEvaluation V1State (V1Signal f) JevError
        → Tags
        → MarkoutTracker Tags
    watched tracker input variant evaluation tags = elim input.mid [
      | none ↦ tracker
      | some ref_mid ↦
          add_quote_with_variant Tags tracker (signal_markout input variant evaluation tags ref_mid)
    ]

    -- The outcome, the tracker and the actor.
    abbrev pub Branched : Type 0
    Branched = Outcome × MarkoutTracker Tags × ExecutionActor f

    -- A decision meets the risk gate of its lane.
    unfoldable pub execute :
        MarkoutTracker Tags
        → ExecutionActor f
        → BranchInput
        → Variant
        → JevEvaluation V1State (V1Signal f) JevError
        → Tags
        → Outcome
        → Branched
    execute tracker actor input variant evaluation tags (skip reason) =
        (skip reason, tracker, actor)
    execute tracker actor input variant evaluation tags (quote intent) =
        let (result, after) =
          on_quote f actor variant intent (market_stale input) evaluation.latency_ms in
        elim result [
          | ok fills ↦ (
            quote intent,
            add_quote_with_variant Tags tracker
                (order_markout input variant evaluation tags intent),
            after,
          )
          | err reason ↦ (skip (risk_blocked reason), tracker, after)
        ]

    unfoldable pub finish_branch :
        QuoteThresholds f
        → MarkoutTracker Tags
        → ExecutionActor f
        → BranchInput
        → Variant
        → Result (JevEvaluation V1State (V1Signal f) JevError) JevError
        → Option (V1Signal f)
        → Tags
        → Option Branched
    finish_branch thresholds tracker actor input variant evaluation signal tags = elim evaluation [
      | Result.err e ↦ some (skip jev_error, tracker, actor)
      | Result.ok answer ↦ elim signal [
        | none ↦ some (skip unusable_signal, tracker, actor)
        | some judged ↦ elim (decide (decision_input thresholds input judged)) [
          | none ↦ none
          | some decision ↦ some (
              execute (watched tracker input variant answer tags) actor input variant answer tags
                decision)
        ]
      ]
    ]
