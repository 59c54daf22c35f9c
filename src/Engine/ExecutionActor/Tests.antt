-- ===== src/Engine/ExecutionActor/Tests.antt =====
-- Runs of the execution actor on concrete data, after the tests of src/engine/execution_actor.rs,
-- and the instances of the theorems about it.
use jev_trader.Prelude.{◌≤◌, ◌≡◌, refl, true, false, some, List, [], ◌∷◌, arith, ◌↔◌}
use jev_trader.Prelude.Int.{pos}
use jev_trader.Prelude.BTreeMap
use jev_trader.Prelude.Tenths.{tenths}
use jev_trader.Domain.Events.{buy}
use jev_trader.Strategy.Risk.{RiskLimits, killed, check, pass}
use jev_trader.Strategy.Quote.{QuoteIntent}
use jev_trader.Execution.Paper
use jev_trader.Execution.Paper.{TopOfBookUpdate, PaperBook}
use jev_trader.Execution.Paper.Placement.{IsPlaceable}
use jev_trader.Engine.ExecutionActor.{
  Variant, control, quant_v1, err, ExecutionActor, on_quote, cancel, outstanding, new,
}
use jev_trader.Engine.ExecutionActor.Lanes.{order_for, IsSound, Quotes, is_ok, on_quote-Quotes}
use jev_trader.Engine.ExecutionActor.Runs.{
  Call, quote, book_update, cancellation, calls, calls-new, new_lem,
}

abbrev limits : RiskLimits
limits = record { max_outstanding_quotes = 2; max_latency_ms = 1500; killed = false }

abbrev empty_book : PaperBook tenths
empty_book = record { fill_ratio_per_touch = 2; resting = [] }

abbrev actor : ExecutionActor tenths
actor = record {
  control_book = empty_book;
  quant_book = empty_book;
  risk_gate = record { limits = limits };
  next_order_id = 1;
}

new-actor : new tenths limits ≡ some actor
unfolding new Paper.with_default_fill_ratio
new-actor = refl

actor-IsSound : IsSound tenths actor
actor-IsSound = (new_lem tenths limits actor new-actor).0

abbrev intent : QuoteIntent
intent = record { side = buy; price = 400000; size = 10 }

abbrev update : TopOfBookUpdate
update = record {
  at_ms = pos 7;
  best_bid = some 400000;
  bid_size = 3;
  best_ask = some 390000;
  ask_size = 4;
  marketable_size = 100;
}

killed_gate_blocks :
    (on_quote tenths
      (record actor { risk_gate = record { limits = record limits { killed = true } } })
      control
      intent
      false
      10).0
    ≡ err killed
unfolding on_quote check
killed_gate_blocks = refl

lanes_are_apart :
    outstanding tenths
      (calls tenths actor (
        quote control intent false 10
        ∷ quote quant_v1 intent false 10
        ∷ cancellation control 1
        ∷ []))
      quant_v1
    ≡ 1
unfolding on_quote check Paper.new_order Paper.place Paper.cancel cancel BTreeMap.insert
    BTreeMap.remove
lanes_are_apart = refl

on_quote-Quotes_example :
    Quotes tenths actor control (order_for 1 intent) (on_quote tenths actor control intent false 10)
    × (is_ok (on_quote tenths actor control intent false 10).0 ≡ true
        ↔ (check (record { limits = limits }) 10 0 false ≡ pass) × IsPlaceable (order_for 1 intent))
on_quote-Quotes_example =
    on_quote-Quotes tenths actor control intent false 10 actor-IsSound (omega arith)

abbrev three_calls : List Call
three_calls = quote control intent false 10 ∷ book_update update ∷ cancellation quant_v1 1 ∷ []

calls-new_example :
    IsSound tenths (calls tenths actor three_calls)
    × ((v : Variant) → outstanding tenths (calls tenths actor three_calls) v ≤ 2)
calls-new_example = calls-new tenths limits actor three_calls new-actor (omega arith)
