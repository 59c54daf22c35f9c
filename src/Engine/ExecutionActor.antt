-- ===== src/Engine/ExecutionActor.antt =====
-- src/engine/execution_actor.rs: the paper-only execution actor, with a lane for each variant.
pub mod Lanes
pub mod Updates
pub mod Runs
mod Tests
use jev_trader.Prelude.{
  ℕ, ◌+◌, Bool, true, false, Option, none, some, List, [], ◌∷◌, if◌then◌else◌, length,
}
use jev_trader.Prelude.Words.{saturating_add}
use jev_trader.Prelude.Int.{ℤ, pos}
use jev_trader.Prelude.F64.{F64}
use jev_trader.Strategy.Risk.{
  RiskLimits, RiskBlock, invalid_order, RiskGate, check, Checked, pass, block,
}
use jev_trader.Strategy.Quote.{QuoteIntent}
use jev_trader.Execution.Paper
use jev_trader.Execution.Paper.{
  PaperOrder, PaperFill, TopOfBookUpdate, PaperBook, new_order, place, apply_update, resting_count,
  with_default_fill_ratio,
}

-- `storage::Variant`
pub data Variant : Type 0 where
  control quant_v1 : Variant

pub record DualFills : Type 0 where
  pub control : List PaperFill
  pub quant : List PaperFill

unfoldable pub fills_of : DualFills → Variant → List PaperFill
fills_of fills control = fills.control
fills_of fills quant_v1 = fills.quant

unfoldable pub total : DualFills → ℕ
total fills = length fills.control + length fills.quant

-- `Result<Vec<PaperFill>, RiskBlock>`
pub data Quoted : Type 0 where
  ok : List PaperFill → Quoted
  err : RiskBlock → Quoted

module _ (f : F64) where
  pub record ExecutionActor : Type 0 where
    pub control_book : PaperBook f
    pub quant_book : PaperBook f
    pub risk_gate : RiskGate
    pub next_order_id : ℕ

  -- `ExecutionActor::new`; `none` is the panic of a default fill ratio that is refused.
  unfoldable pub new : RiskLimits → Option ExecutionActor
  new risk_limits = elim (with_default_fill_ratio f) [
    | none ↦ none
    | some book ↦ some (record {
      control_book = book;
      quant_book = book;
      risk_gate = record { limits = risk_limits };
      next_order_id = 1;
    })
  ]

  abbrev pub book_of : ExecutionActor → Variant → PaperBook f
  book_of actor control = actor.control_book
  book_of actor quant_v1 = actor.quant_book

  -- A write through `book_mut`.
  abbrev pub set_book : ExecutionActor → Variant → PaperBook f → ExecutionActor
  set_book actor control book = record actor { control_book = book }
  set_book actor quant_v1 book = record actor { quant_book = book }

  abbrev pub order_of : ℕ → QuoteIntent → PaperOrder
  order_of id intent = record {
    id = id;
    side = intent.side;
    price = intent.price;
    size = intent.size;
    placed_at_ms = pos 0;
  }

  -- `self.book_mut(variant).place(order)`
  pub place_in : ExecutionActor → Variant → PaperOrder → Quoted × ExecutionActor
  place_in actor variant order =
      let book = book_of actor variant in
      let (error, resting) = place book.resting order in
      elim error [
        | some e ↦ (err invalid_order, actor)
        | none ↦ (
          ok [],
          record (set_book actor variant (record book { resting = resting })) {
            next_order_id = saturating_add actor.next_order_id 1;
          },
        )
      ]

  unfoldable pub on_quote :
      ExecutionActor → Variant → QuoteIntent → Bool → ℕ → Quoted × ExecutionActor
  unfolding place_in
  on_quote actor variant intent book_stale signal_latency_ms =
      elim (check actor.risk_gate signal_latency_ms (resting_count (book_of actor variant).resting)
        book_stale) [
          | block reason ↦ (err reason, actor)
          | pass ↦ elim (new_order (order_of actor.next_order_id intent)) [
            | none ↦ (err invalid_order, actor)
            | some order ↦ place_in actor variant order
          ]
        ]

  unfoldable pub on_book_update : ExecutionActor → TopOfBookUpdate → DualFills × ExecutionActor
  on_book_update actor update =
      let (control_fills, control_book) = apply_update f actor.control_book update in
      let (quant_fills, quant_book) = apply_update f actor.quant_book update in
      (
        record { control = control_fills; quant = quant_fills },
        record actor { control_book = control_book; quant_book = quant_book },
      )

  unfoldable pub cancel : ExecutionActor → Variant → ℕ → Bool × ExecutionActor
  cancel actor variant order_id =
      let book = book_of actor variant in
      let (found, resting) = Paper.cancel book.resting order_id in
      (found, set_book actor variant (record book { resting = resting }))

  abbrev pub outstanding : ExecutionActor → Variant → ℕ
  outstanding actor variant = resting_count (book_of actor variant).resting

  abbrev pub outstanding_total : ExecutionActor → ℕ
  outstanding_total actor =
      resting_count actor.control_book.resting + resting_count actor.quant_book.resting
