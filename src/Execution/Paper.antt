-- ===== src/Execution/Paper.antt =====
-- src/execution/paper.rs: the synchronous matcher for resting maker orders. The resting orders are a
-- `BTreeMap` keyed by their ids.
pub mod Matching
pub mod Placement
pub mod Update
pub mod Priority
pub mod Touch
mod Tests
use jev_trader.Prelude.{
  ℕ, suc, ◌-◌, Bool, true, false, not, ◌&&◌, Option, none, some, List, [], ◌∷◌, ◌++◌, map, ltb, leb,
  ◌==◌, if◌then◌else◌, filter, min, length,
}
use jev_trader.Prelude.Words.{saturating_add}
use jev_trader.Prelude.Int.{ℤ, ltb_ℤ}
use jev_trader.Prelude.BTreeMap
use jev_trader.Prelude.BTreeMap.{BTreeMap}
use jev_trader.Prelude.F64.{F64}
use jev_trader.Domain.Events.{TradeSide, buy, sell}

pub record PaperOrder : Type 0 where
  pub id : ℕ
  pub side : TradeSide
  pub price : ℕ
  pub size : ℕ
  pub placed_at_ms : ℤ

pub record PaperFill : Type 0 where
  pub order_id : ℕ
  pub price : ℕ
  pub size : ℕ
  pub filled_at_ms : ℤ
  pub maker : Bool

pub record TopOfBookUpdate : Type 0 where
  pub at_ms : ℤ
  pub best_bid : Option ℕ
  pub bid_size : ℕ
  pub best_ask : Option ℕ
  pub ask_size : ℕ
  pub marketable_size : ℕ

pub data PaperError : Type 0 where
  invalid_side : TradeSide → PaperError
  invalid_size zero_price invalid_fill_ratio : PaperError
  duplicate_order_id : ℕ → PaperError

pub record RestingOrder : Type 0 where
  pub order : PaperOrder
  pub remaining_size : ℕ
  pub touch_count : ℕ

pub data FillCause : Type 0 where
  trade_through touch : FillCause

-- The `resting` field of a `PaperBook`, which is all of it that changes.
abbrev pub Resting : Type 0
Resting = BTreeMap RestingOrder

-- `none` is `Ok(())`
unfoldable pub validate : PaperOrder → Option PaperError
validate order = elim order.side [
  | sell ↦ some (invalid_side sell)
  | buy ↦
      if order.size == 0
      then some invalid_size
      else if order.price == 0
      then some zero_price
      else none
]

-- `PaperOrder::new`: the order, or `none` for any error, which the callers do not look into.
unfoldable pub new_order : PaperOrder → Option PaperOrder
unfolding validate
new_order order = elim (validate order) [ none ↦ some order | some error ↦ none ]

-- `PaperBook::place`: what went wrong, and the book after.
unfoldable pub place : Resting → PaperOrder → Option PaperError × Resting
unfolding validate
place resting order = elim (validate order) [
  | some error ↦ (some error, resting)
  | none ↦
      if BTreeMap.contains_key order.id resting
      then (some (duplicate_order_id order.id), resting)
      else (
        none,
        BTreeMap.insert order.id
            (record { order = order; remaining_size = order.size; touch_count = 0 }) resting,
      )
]

-- `PaperBook::cancel`
unfoldable pub cancel : Resting → ℕ → Bool × Resting
cancel resting order_id = (BTreeMap.contains_key order_id resting, BTreeMap.remove order_id resting)

abbrev pub is_resting : Resting → ℕ → Bool
is_resting resting order_id = BTreeMap.contains_key order_id resting

abbrev pub resting_count : Resting → ℕ
resting_count resting = length resting

-- Whether the first order comes no later than the second: a higher price, then an earlier placement,
-- then a smaller id.
pub comes_first : RestingOrder → RestingOrder → Bool
comes_first l r =
    if ltb r.order.price l.order.price
    then true
    else if ltb l.order.price r.order.price
    then false
    else if ltb_ℤ l.order.placed_at_ms r.order.placed_at_ms
    then true
    else if ltb_ℤ r.order.placed_at_ms l.order.placed_at_ms
    then false
    else leb l.order.id r.order.id

pub insert_order : RestingOrder → List RestingOrder → List RestingOrder
unfolding comes_first
insert_order o [] = o ∷ []
insert_order o (p ∷ orders) = if comes_first o p then o ∷ p ∷ orders else p ∷ insert_order o orders

pub sort_orders : List RestingOrder → List RestingOrder
unfolding insert_order
sort_orders [] = []
sort_orders (o ∷ orders) = insert_order o (sort_orders orders)

pub ordered_ids : Resting → (RestingOrder → Bool) → List ℕ
unfolding sort_orders
ordered_ids resting matches =
    map (λ o. o.order.id) (sort_orders (filter matches (BTreeMap.values resting)))

-- The size that `fill_order` takes of a resting order.
pub fill_size : RestingOrder → ℕ → FillCause → ℕ
fill_size r available trade_through = min available r.remaining_size
fill_size r available touch =
    let size = min available r.remaining_size in
    if (r.touch_count == 0) && leb r.remaining_size size then r.remaining_size - 1 else size

pub touched : RestingOrder → FillCause → RestingOrder
touched r trade_through = r
touched r touch = record r { touch_count = saturating_add r.touch_count 1 }

abbrev paper_fill : ℕ → RestingOrder → ℕ → ℤ → PaperFill
paper_fill id r size at = record {
  order_id = id;
  price = r.order.price;
  size = size;
  filled_at_ms = at;
  maker = true;
}

-- `fill_order` on the order that it found: the fill, and what becomes of the entry.
pub fill_resting : Resting → ℕ → RestingOrder → ℕ → ℤ → FillCause → Option PaperFill × Resting
unfolding fill_size touched
fill_resting resting id r available at cause =
    let size = fill_size r available cause in
    let r' = touched r cause in
    if size == 0
    then (none, BTreeMap.insert id r' resting)
    else if (r.remaining_size - size) == 0
    then (some (paper_fill id r size at), BTreeMap.remove id resting)
    else (
      some (paper_fill id r size at),
      BTreeMap.insert id (record r' { remaining_size = r.remaining_size - size }) resting,
    )

pub fill_order : Resting → ℕ → ℕ → ℤ → FillCause → Option PaperFill × Resting
unfolding fill_resting
fill_order resting id available at cause = elim (BTreeMap.get id resting) [
  | none ↦ (none, resting)
  | some r ↦ fill_resting resting id r available at cause
]

abbrev push_fill : Option PaperFill → List PaperFill → List PaperFill
push_fill none fills = fills
push_fill (some fill) fills = fill ∷ fills

abbrev after_fill : ℕ → Option PaperFill → ℕ
after_fill available none = available
after_fill available (some fill) = available - fill.size

-- The two loops of `apply_update`: fills the orders in turn while there is size left.
pub fill_all : Resting → List ℕ → ℕ → ℤ → FillCause → List PaperFill × Resting
unfolding fill_order
fill_all resting [] available at cause = ([], resting)
fill_all resting (id ∷ ids) available at cause =
    let (fill, resting') = fill_order resting id available at cause in
    let rest = fill_all resting' ids (after_fill available fill) at cause in
    if available == 0 then ([], resting) else (push_fill fill rest.0, rest.1)

pub contains : List ℕ → ℕ → Bool
contains [] id = false
contains (x ∷ xs) id = if x == id then true else contains xs id

-- `update.best_ask.is_some_and(|best_ask| best_ask < resting.order.price)`
abbrev pub is_crossed : TopOfBookUpdate → RestingOrder → Bool
is_crossed update r = elim update.best_ask [
  | some best_ask ↦ ltb best_ask r.order.price
  | none ↦ false
]

-- `best_bid == Some(resting.order.price)`
abbrev pub is_touched : TopOfBookUpdate → RestingOrder → Bool
is_touched update r = elim update.best_bid [
  | some best_bid ↦ best_bid == r.order.price
  | none ↦ false
]

-- `apply_update`, given the size that the touch model grants.
pub match_update : Resting → TopOfBookUpdate → ℕ → List PaperFill × Resting
unfolding ordered_ids fill_all contains
match_update resting update touch_capacity =
    let crossed_ids = ordered_ids resting (is_crossed update) in
    let (fills, resting') =
      fill_all resting crossed_ids update.ask_size update.at_ms trade_through in
    let touch_ids =
      ordered_ids resting' (λ r. is_touched update r && not (contains crossed_ids r.order.id)) in
    let (more, resting'') = fill_all resting' touch_ids touch_capacity update.at_ms touch in
    if touch_capacity == 0 then (fills, resting') else (fills ++ more, resting'')

module _ (f : F64) where
  open f use {F, literal, is_finite, le, mul, floor, of_u64, to_u64}

  pub record PaperBook : Type 0 where
    pub fill_ratio_per_touch : F
    pub resting : Resting

  -- `PaperBook::new`; `none` is `InvalidFillRatio`
  unfoldable pub new : F → Option PaperBook
  new ratio =
      if is_finite ratio && (le (literal 0 0) ratio && le ratio (literal 1 0))
      then some (record { fill_ratio_per_touch = ratio; resting = [] })
      else none

  -- `PaperBook::with_default_fill_ratio`; `none` is the panic of `expect`
  unfoldable pub with_default_fill_ratio : Option PaperBook
  unfolding new
  with_default_fill_ratio = new (literal 2 1)

  pub touch_capacity : PaperBook → ℕ → ℕ
  touch_capacity book marketable_size =
      to_u64 (floor (mul (of_u64 marketable_size) book.fill_ratio_per_touch))

  -- `PaperBook::apply_update`: the fills, and the book after.
  unfoldable pub apply_update : PaperBook → TopOfBookUpdate → List PaperFill × PaperBook
  unfolding touch_capacity match_update
  apply_update book update =
      let (fills, resting') =
        match_update book.resting update (touch_capacity book update.marketable_size) in
      (fills, record book { resting = resting' })

  -- `PaperBook::replay`
  unfoldable pub replay : PaperBook → List TopOfBookUpdate → List PaperFill × PaperBook
  unfolding apply_update
  replay book [] = ([], book)
  replay book (update ∷ updates) =
      let (fills, book') = apply_update book update in
      let rest = replay book' updates in (fills ++ rest.0, rest.1)
