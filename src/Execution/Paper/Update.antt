-- ===== src/Execution/Paper/Update.antt =====
-- src/execution/paper.rs, `apply_update` and `replay`: how much is filled, and what is left.
use jev_trader.Prelude.{
  ℕ, ◌+◌, ◌≤◌, ◌≡◌, refl, inl, inr, not, ◌&&◌, List, [], ◌∷◌, ◌++◌, arith, ◌==◌, Bool-cases,
}
use jev_trader.Prelude.F64.{F64}
use jev_trader.Execution.Paper.{
  PaperFill, TopOfBookUpdate, trade_through, touch, Resting, contains, is_crossed, is_touched,
  ordered_ids, fill_all, match_update, PaperBook, touch_capacity, apply_update, replay,
}
use jev_trader.Execution.Paper.Matching.{remaining, filled, total_filled, IsValid, fill_all_lem}

filled-append :
    (fills more : List PaperFill) (x : ℕ)
    → filled (fills ++ more) x ≡ filled fills x + filled more x
filled-append [] more x = omega arith
filled-append (fill ∷ fills) more x = omega (arith, filled-append fills more x)

total_filled-append :
    (fills more : List PaperFill)
    → total_filled (fills ++ more) ≡ total_filled fills + total_filled more
total_filled-append [] more = omega arith
total_filled-append (fill ∷ fills) more = omega (arith, total_filled-append fills more)

match_update_lem :
    (resting : Resting) (update : TopOfBookUpdate) (capacity : ℕ)
    → let (fills, resting') = match_update resting update capacity in
      ((x : ℕ) → remaining resting x ≡ remaining resting' x + filled fills x)
      × (total_filled fills ≤ update.ask_size + capacity)
      × (IsValid resting → IsValid resting')
unfolding match_update
match_update_lem resting update capacity =
    let crossed_ids = ordered_ids resting (is_crossed update) in
    let first = fill_all resting crossed_ids update.ask_size update.at_ms trade_through in
    let touch_ids =
      ordered_ids first.1 (λ r. is_touched update r && not (contains crossed_ids r.order.id)) in
    let second = fill_all first.1 touch_ids capacity update.at_ms touch in
    let (moved, fits, valid) =
      fill_all_lem resting crossed_ids update.ask_size update.at_ms trade_through in
    let (moved', fits', valid') = fill_all_lem first.1 touch_ids capacity update.at_ms touch in
    elim (Bool-cases (capacity == 0)) [
      | inl e ↦ rw e (moved, omega arith, valid)
      | inr e ↦ rw e (
        λ x. omega (arith, moved x, moved' x, filled-append first.0 second.0 x),
        omega (arith, total_filled-append first.0 second.0),
        λ v. valid' (valid v),
      )
    ]

module _ (f : F64) where
  -- For one update of any book: what is filled of an order is exactly what it has less afterwards,
  -- for every order; all fills together fit the displayed ask size and the touch capacity; and a
  -- valid book stays valid, so that an order that is filled completely is gone.
  pub apply_update_lem :
      (book : PaperBook f) (update : TopOfBookUpdate)
      → let (fills, after) = apply_update f book update in
        ((x : ℕ) → remaining book.resting x ≡ remaining after.resting x + filled fills x)
        × (total_filled fills ≤ update.ask_size + touch_capacity f book update.marketable_size)
        × (IsValid book.resting → IsValid after.resting)
        × (after.fill_ratio_per_touch ≡ book.fill_ratio_per_touch)
  unfolding apply_update
  apply_update_lem book update =
      let capacity = touch_capacity f book update.marketable_size in
      let (moved, fits, valid) = match_update_lem book.resting update capacity in
      (moved, fits, valid, refl)

  -- Over a whole tape no order is ever filled for more than was left of it, and what is left at the
  -- end is the rest.
  pub replay_lem :
      (book : PaperBook f) (updates : List TopOfBookUpdate)
      → let (fills, after) = replay f book updates in
        ((x : ℕ) → remaining book.resting x ≡ remaining after.resting x + filled fills x)
        × (IsValid book.resting → IsValid after.resting)
  unfolding replay
  replay_lem book [] = (λ x. omega arith, λ v. v)
  replay_lem book (update ∷ updates) =
      let step = apply_update f book update in
      let (moved, fits, valid, kept) = apply_update_lem book update in
      let (moved', valid') = replay_lem step.1 updates in
      (
        λ x. omega (arith, moved x, moved' x, filled-append step.0 (replay f step.1 updates).0 x),
        λ v. valid' (valid v),
      )
