-- ===== src/Execution/Paper/Tests.antt =====
-- Runs of the paper book on concrete data, after the tests of src/execution/paper.rs, and the
-- instances of the theorems about it.
use jev_trader.Prelude.{
  ℕ, ◌+◌, ◌≤◌, ◌<◌, ◌≡◌, refl, false, none, some, [], ◌∷◌, arith, ◌==◌, if◌then◌else◌, length,
  is_some, ◌↔◌,
}
use jev_trader.Prelude.Int.{pos}
use jev_trader.Prelude.BTreeMap
use jev_trader.Prelude.Tenths.{tenths}
use jev_trader.Domain.Events.{buy}
use jev_trader.Execution.Paper.{
  PaperOrder, RestingOrder, TopOfBookUpdate, Resting, PaperBook, trade_through, is_crossed,
  ordered_ids, place, fill_all, match_update, touch_capacity, apply_update, replay,
}
use jev_trader.Execution.Paper.Matching.{remaining, filled, total_filled, IsValid}
use jev_trader.Execution.Paper.Placement.{IsPlaceable, place_lem}
use jev_trader.Execution.Paper.Update.{apply_update_lem, replay_lem}
use jev_trader.Execution.Paper.Priority.{occurs, fill_all_priority}
use jev_trader.Execution.Paper.Touch.{selected, occurs-ordered_ids, first_touch_rests}

abbrev order : ℕ → ℕ → PaperOrder
order id price = record { id = id; side = buy; price = price; size = 10; placed_at_ms = pos id }

abbrev entry : ℕ → ℕ → RestingOrder
entry id price = record { order = order id price; remaining_size = 10; touch_count = 0 }

abbrev two_orders : Resting
two_orders = (1, entry 1 500000) ∷ (2, entry 2 510000) ∷ []

abbrev book : PaperBook tenths
book = record { fill_ratio_per_touch = 2; resting = two_orders }

-- The ask drops through the second order's price, with 4 of its 10 on offer; the bid is at the first
-- order's, and 100 units hit it.
abbrev update : TopOfBookUpdate
update = record {
  at_ms = pos 7;
  best_bid = some 500000;
  bid_size = 3;
  best_ask = some 505000;
  ask_size = 4;
  marketable_size = 100;
}

fills_both :
    (apply_update tenths book update).1.resting
    ≡ (1, record { order = order 1 500000; remaining_size = 1; touch_count = 1 })
      ∷ (2, record { order = order 2 510000; remaining_size = 6; touch_count = 0 })
      ∷ []
unfolding apply_update BTreeMap.insert BTreeMap.remove
fills_both = refl

two_orders-IsValid : IsValid two_orders
two_orders-IsValid = record {
  ascending = ((omega arith, tt), (tt, tt));
  sound = λ x r h. (
    record {
      is_buy = ground arith;
      priced = ground arith;
      unfilled = ground arith;
      within = ground arith;
    },
    ground arith,
  );
}

places_third :
    let (error, after) = place two_orders (order 3 490000) in
    IsValid after
    × ((error ≡ none)
        ↔ (IsPlaceable (order 3 490000) × (BTreeMap.contains_key 3 two_orders ≡ false)))
    × ((x : ℕ)
        → BTreeMap.get x after ≡ (
            if is_some error
            then BTreeMap.get x two_orders
            else if 3 == x
            then some (entry 3 490000)
            else BTreeMap.get x two_orders))
    × (length after ≡ (if is_some error then 2 else 3))
places_third = place_lem two_orders (order 3 490000) two_orders-IsValid

apply_update_lem_example :
    let (fills, after) = apply_update tenths book update in
    ((x : ℕ) → remaining two_orders x ≡ remaining after.resting x + filled fills x)
    × (total_filled fills ≤ 4 + touch_capacity tenths book 100)
    × (IsValid two_orders → IsValid after.resting)
    × (after.fill_ratio_per_touch ≡ 2)
apply_update_lem_example = apply_update_lem tenths book update

replay_lem_example :
    let (fills, after) = replay tenths book (update ∷ update ∷ []) in
    ((x : ℕ) → remaining two_orders x ≡ remaining after.resting x + filled fills x)
    × (IsValid two_orders → IsValid after.resting)
replay_lem_example = replay_lem tenths book (update ∷ update ∷ [])

second_is_left : 0 < remaining (fill_all two_orders (2 ∷ 1 ∷ []) 4 (pos 7) trade_through).1 2
unfolding fill_all BTreeMap.insert BTreeMap.remove
second_is_left = omega arith

fill_all_priority_example :
    filled (fill_all two_orders (2 ∷ 1 ∷ []) 4 (pos 7) trade_through).0 1 ≡ 0
fill_all_priority_example =
    fill_all_priority two_orders [] 2 (1 ∷ []) 4 (pos 7) 1 refl second_is_left

queue_of_two :
    occurs 2 (ordered_ids two_orders (is_crossed update))
    ≡ selected (is_crossed update) (BTreeMap.get 2 two_orders)
queue_of_two = occurs-ordered_ids two_orders (is_crossed update) 2 two_orders-IsValid

first_touch_rests_example : 0 < remaining (match_update two_orders update 20).1 1
first_touch_rests_example =
    first_touch_rests two_orders update 20 1 (entry 1 500000) two_orders-IsValid refl refl refl
