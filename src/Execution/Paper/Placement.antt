-- ===== src/Execution/Paper/Placement.antt =====
-- src/execution/paper.rs: what `place` and `cancel` let in and take out, and that fills add nothing.
use jev_trader.Prelude.{
  ℕ, ◌+◌, ◌-◌, ◌≤◌, ◌<◌, ◌≡◌, refl, ◌↔◌, inl, inr, true, false, Option, none, some, List, [], ◌∷◌,
  arith, ◌==◌, if◌then◌else◌, Bool-cases, Option-cases, length, is_some, not, ◌&&◌,
}
use jev_trader.Prelude.Int.{ℤ}
use jev_trader.Prelude.BTreeMap
use jev_trader.Prelude.BTreeMap.{
  IsAscending, get-insert, get-remove, length-insert, length-remove, insert-IsAscending,
}
use jev_trader.Domain.Events.{buy}
use jev_trader.Execution.Paper.{
  PaperOrder, PaperError, RestingOrder, FillCause, Resting, validate, place, cancel, fill_size,
  touched, fill_resting, fill_order, after_fill, fill_all, TopOfBookUpdate, match_update,
  ordered_ids, is_crossed, is_touched, contains, trade_through, touch,
}
use jev_trader.Execution.Paper.Matching.{
  IsValid, insert-IsValid, remove-IsValid, fill_order-IsFilled, fill_all_lem,
}

-- An order that may rest: a buy of some size at some price.
pub record IsPlaceable (order : PaperOrder) : Type 0 where
  pub is_buy : order.side ≡ buy
  pub sized : 0 < order.size
  pub priced : 0 < order.price

pub validate_iff : (order : PaperOrder) → (validate order ≡ none) ↔ IsPlaceable order
unfolding validate
validate_iff order = (λ h. ground arith, λ p. ground arith)

abbrev resting_of : PaperOrder → RestingOrder
resting_of order = record { order = order; remaining_size = order.size; touch_count = 0 }

-- How `place` ends: the order is let in with its whole size left, or the book is as before and the
-- order is no buy, empty, priceless or resting already.
data Placed (resting : Resting) (order : PaperOrder) : Option PaperError × Resting → Type 0 where
  placed :
      IsPlaceable order
      → BTreeMap.contains_key order.id resting ≡ false
      → Placed resting order (none, BTreeMap.insert order.id (resting_of order) resting)
  refused :
      (error : PaperError)
      → (IsPlaceable order → BTreeMap.contains_key order.id resting ≡ true)
      → Placed resting order (some error, resting)

place-Placed : (resting : Resting) (order : PaperOrder) → Placed resting order (place resting order)
unfolding place
place-Placed resting order = elim (Option-cases (validate order)) [
  | inl e ↦ elim (Bool-cases (BTreeMap.contains_key order.id resting)) [
    | inl old ↦ rw (e, place, old) (refused _ (λ p. old))
    | inr new ↦ rw (e, place, new) (placed ((validate_iff order).0 e) new)
  ]
  | inr (error, e) ↦
      rw (e, place) (refused error (λ p. absurd (ground (arith, (validate_iff order).1 p))))
]

-- `place` lets an order in exactly if it is a buy with a size and a price and its id does not rest
-- yet; then it rests with its whole size left, and nothing else changes. Otherwise the book is as
-- before. Either way a valid book stays valid.
pub place_lem :
    (resting : Resting) (order : PaperOrder)
    → IsValid resting
    → let (error, after) = place resting order in
      IsValid after
      × ((error ≡ none) ↔ (IsPlaceable order × (BTreeMap.contains_key order.id resting ≡ false)))
      × ((x : ℕ)
          → BTreeMap.get x after ≡ (
              if is_some error
              then BTreeMap.get x resting
              else if order.id == x
              then some (record { order = order; remaining_size = order.size; touch_count = 0 })
              else BTreeMap.get x resting))
      × (length after ≡ (if is_some error then length resting else length resting + 1))
place_lem resting order v = go (place-Placed resting order)
  where
    go :
        {o : Option PaperError × Resting}
        → Placed resting order o
        → IsValid o.1
          × ((o.0 ≡ none) ↔ (IsPlaceable order × (BTreeMap.contains_key order.id resting ≡ false)))
          × ((x : ℕ)
              → BTreeMap.get x o.1 ≡ (
                  if is_some o.0
                  then BTreeMap.get x resting
                  else if order.id == x
                  then some (record { order = order; remaining_size = order.size; touch_count = 0 })
                  else BTreeMap.get x resting))
          × (length o.1 ≡ (if is_some o.0 then length resting else length resting + 1))
    go (placed p new) = (
      insert-IsValid order.id (resting_of order) resting
          (record {
            is_buy = p.is_buy;
            priced = p.priced;
            unfilled = p.sized;
            within = omega arith;
          })
          refl v,
      (λ e. (p, new), λ e. refl),
      λ x. get-insert order.id x (resting_of order) resting,
      ground (arith, length-insert order.id (resting_of order) resting v.ascending),
    )
    go (refused error why) = (v, (λ e. cc, λ (p, new). cc (why p)), λ x. refl, refl)

-- `cancel` says whether the order was resting, takes it out, and leaves the others.
pub cancel_lem :
    (resting : Resting) (id : ℕ)
    → IsValid resting
    → let (found, after) = cancel resting id in
      IsValid after
      × (found ≡ BTreeMap.contains_key id resting)
      × ((x : ℕ) → BTreeMap.get x after ≡ (if id == x then none else BTreeMap.get x resting))
      × (length after ≤ length resting)
unfolding cancel
cancel_lem resting id v =
    (remove-IsValid id resting v, refl, λ x. get-remove id x resting, length-remove id resting)

-- A book after some fills: no order has come in.
pub record Shrinks (before after : Resting) : Type 0 where
  pub keys : (x : ℕ) → BTreeMap.contains_key x after ≡ true → BTreeMap.contains_key x before ≡ true
  pub count : length after ≤ length before

fill_order-Shrinks :
    (resting : Resting) (id available : ℕ) (at : ℤ) (cause : FillCause)
    → IsAscending resting
    → Shrinks resting (fill_order resting id available at cause).1
unfolding fill_order fill_resting
fill_order-Shrinks resting id available at cause a = elim (Option-cases (BTreeMap.get id resting)) [
  | inl e ↦ rw (e, fill_order) (record { keys = λ x h. h; count = omega arith })
  | inr (r, e) ↦
      let size = fill_size r available cause in
      let r' = touched r cause in
      let r'' = record r' { remaining_size = r.remaining_size - size } in
      record {
        keys = λ x h. ground (
          arith,
          get-insert id x r' resting,
          get-insert id x r'' resting,
          get-remove id x resting,
        );
        count = ground (
          arith,
          length-insert id r' resting a,
          length-insert id r'' resting a,
          length-remove id resting,
        );
      }
]

fill_all-Shrinks :
    (resting : Resting) (ids : List ℕ) (available : ℕ) (at : ℤ) (cause : FillCause)
    → IsValid resting
    → Shrinks resting (fill_all resting ids available at cause).1
unfolding fill_all
fill_all-Shrinks resting [] available at cause v = record { keys = λ x h. h; count = omega arith }
fill_all-Shrinks resting (id ∷ ids) available at cause v =
    let step = fill_order resting id available at cause in
    let first = fill_order-Shrinks resting id available at cause v.ascending in
    let later =
      fill_all-Shrinks step.1 ids (after_fill available step.0) at cause
        ((fill_order-IsFilled resting id available at cause).2 v) in
    elim (Bool-cases (available == 0)) [
      | inl e ↦ rw e (record { keys = λ x h. h; count = omega arith })
      | inr e ↦ rw e (record {
        keys = λ x h. first.keys x (later.keys x h);
        count = omega (arith, first.count, later.count);
      })
    ]

pub match_update-Shrinks :
    (resting : Resting) (update : TopOfBookUpdate) (capacity : ℕ)
    → IsValid resting
    → Shrinks resting (match_update resting update capacity).1
unfolding match_update
match_update-Shrinks resting update capacity v =
    let crossed_ids = ordered_ids resting (is_crossed update) in
    let first = fill_all resting crossed_ids update.ask_size update.at_ms trade_through in
    let touch_ids =
      ordered_ids first.1 (λ r. is_touched update r && not (contains crossed_ids r.order.id)) in
    let valid = (fill_all_lem resting crossed_ids update.ask_size update.at_ms trade_through).2 v in
    let a = fill_all-Shrinks resting crossed_ids update.ask_size update.at_ms trade_through v in
    let b = fill_all-Shrinks first.1 touch_ids capacity update.at_ms touch valid in
    elim (Bool-cases (capacity == 0)) [
      | inl e ↦ rw e a
      | inr e ↦
          rw e (record {
            keys = λ x h. a.keys x (b.keys x h);
            count = omega (arith, a.count, b.count);
          })
    ]
