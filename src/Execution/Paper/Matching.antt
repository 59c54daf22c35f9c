-- ===== src/Execution/Paper/Matching.antt =====
-- src/execution/paper.rs: what a fill takes and what it leaves.
use jev_trader.Prelude.{
  ℕ, ◌+◌, ◌-◌, ◌≤◌, ◌<◌, ◌≡◌, refl, inl, inr, Option, none, some, List, [], ◌∷◌, arith, ◌==◌,
  if◌then◌else◌, Option-cases, Bool-cases,
}
use jev_trader.Prelude.Int.{ℤ}
use jev_trader.Prelude.BTreeMap
use jev_trader.Prelude.BTreeMap.{
  get-insert, get-remove, IsAscending, insert-IsAscending, remove-IsAscending,
}
use mathlib.Core.Option.{some-injective}
use jev_trader.Domain.Events.{buy}
use jev_trader.Execution.Paper.{
  PaperFill, RestingOrder, FillCause, trade_through, touch, Resting, fill_size, touched,
  fill_resting, fill_order, push_fill, after_fill, fill_all,
}

-- What is left of an order, 0 if it does not rest.
abbrev left_of : Option RestingOrder → ℕ
left_of none = 0
left_of (some r) = r.remaining_size

abbrev pub remaining : Resting → ℕ → ℕ
remaining resting id = left_of (BTreeMap.get id resting)

-- What the fills of an order add up to, and what all fills add up to.
abbrev pub filled : List PaperFill → ℕ → ℕ
filled [] id = 0
filled (fill ∷ fills) id = (if fill.order_id == id then fill.size else 0) + filled fills id

abbrev pub total_filled : List PaperFill → ℕ
total_filled [] = 0
total_filled (fill ∷ fills) = fill.size + total_filled fills

-- An order as `place` lets it in, with something left of it.
pub record IsResting (r : RestingOrder) : Type 0 where
  pub is_buy : r.order.side ≡ buy
  pub priced : 0 < r.order.price
  pub unfilled : 0 < r.remaining_size
  pub within : r.remaining_size ≤ r.order.size

-- The map is one (ascending keys), and every resting order is valid and stands under its own id.
pub record IsValid (resting : Resting) : Type 0 where
  pub ascending : IsAscending resting
  pub sound :
      (id : ℕ) (r : RestingOrder)
      → BTreeMap.get id resting ≡ some r
      → IsResting r × (r.order.id ≡ id)

pub fill_size-le :
    (r : RestingOrder) (available : ℕ) (cause : FillCause)
    → (fill_size r available cause ≤ available) × (fill_size r available cause ≤ r.remaining_size)
unfolding fill_size
fill_size-le r available trade_through = omega arith
fill_size-le r available touch = ground arith

pub touched_lem :
    (r : RestingOrder) (cause : FillCause)
    → ((touched r cause).order ≡ r.order) × ((touched r cause).remaining_size ≡ r.remaining_size)
unfolding touched
touched_lem r trade_through = (refl, refl)
touched_lem r touch = (refl, refl)

-- The same order with less of it left.
IsResting-less :
    (r o : RestingOrder)
    → o.order ≡ r.order
    → 0 < o.remaining_size
    → o.remaining_size ≤ r.remaining_size
    → IsResting r
    → IsResting o
IsResting-less r o e p le h = record {
  is_buy = rw e h.is_buy;
  priced = rw e h.priced;
  unfilled = p;
  within = rw e (omega (arith, h.within));
}

pub insert-IsValid :
    (id : ℕ) (r : RestingOrder) (resting : Resting)
    → IsResting r
    → r.order.id ≡ id
    → IsValid resting
    → IsValid (BTreeMap.insert id r resting)
insert-IsValid id r resting ok e v = record {
  ascending = insert-IsAscending id r resting v.ascending;
  sound = sound;
}
  where
    sound :
        (x : ℕ) (o : RestingOrder)
        → BTreeMap.get x (BTreeMap.insert id r resting) ≡ some o
        → IsResting o × (o.order.id ≡ x)
    sound x o h = elim (Bool-cases (id == x)) [
      | inl same ↦
          let found : some r ≡ some o = ground (arith, get-insert id x r resting) in
          rw (← some-injective _ _ found) (ok, ground arith)
      | inr other ↦ v.sound x o (ground (arith, get-insert id x r resting))
    ]

pub remove-IsValid :
    (id : ℕ) (resting : Resting) → IsValid resting → IsValid (BTreeMap.remove id resting)
remove-IsValid id resting v = record {
  ascending = remove-IsAscending id resting v.ascending;
  sound = λ x o h. v.sound x o (ground (arith, get-remove id x resting));
}

-- What one call of `fill_order` promises: what it fills moves from the order to the fill, no other
-- order changes, the fill fits what is available, and the book stays valid.
abbrev pub IsFilled : Resting → ℕ → ℕ → Option PaperFill × Resting → Type 0
IsFilled resting id available (fill, resting') =
    ((x : ℕ) → remaining resting x ≡ remaining resting' x + filled (push_fill fill []) x)
    × (total_filled (push_fill fill []) ≤ available)
    × (IsValid resting → IsValid resting')

fill_resting-IsFilled :
    (resting : Resting) (id : ℕ) (r : RestingOrder) (available : ℕ) (at : ℤ) (cause : FillCause)
    → BTreeMap.get id resting ≡ some r
    → IsFilled resting id available (fill_resting resting id r available at cause)
unfolding fill_resting
fill_resting-IsFilled resting id r available at cause e =
    let size = fill_size r available cause in
    let (small, within) = fill_size-le r available cause in
    let (same, kept) = touched_lem r cause in
    let r' = touched r cause in
    let partly = record r' { remaining_size = r.remaining_size - size } in
    let ok : IsValid resting → IsResting r × (r.order.id ≡ id) = λ v. v.sound id r e in
    elim (Bool-cases (size == 0)) [
      | inl nothing ↦ rw nothing (
        λ x. ground (arith, get-insert id x r' resting),
        omega arith,
        λ v.
            insert-IsValid id r' resting
              (IsResting-less r r' same (ground (arith, ok v)) (omega arith) (ok v).0)
              (ground (arith, ok v)) v,
      )
      | inr something ↦ elim (Bool-cases ((r.remaining_size - size) == 0)) [
        | inl all ↦
            rw (something, all)
              (
                λ x. ground (arith, get-remove id x resting),
                omega arith,
                λ v. remove-IsValid id resting v,
              )
        | inr some_left ↦
            rw (something, some_left)
              (
                λ x. ground (arith, get-insert id x partly resting),
                omega arith,
                λ v.
                    insert-IsValid id partly resting
                      (IsResting-less r partly same (ground arith) (omega arith) (ok v).0)
                      (ground (arith, ok v)) v,
              )
      ]
    ]

pub fill_order-IsFilled :
    (resting : Resting) (id available : ℕ) (at : ℤ) (cause : FillCause)
    → IsFilled resting id available (fill_order resting id available at cause)
unfolding fill_order
fill_order-IsFilled resting id available at cause = elim (Option-cases (BTreeMap.get id resting)) [
  | inl e ↦ rw (e, fill_order) (λ x. omega arith, omega arith, λ v. v)
  | inr (r, e) ↦ rw (e, fill_order) (fill_resting-IsFilled resting id r available at cause e)
]

pub filled-push :
    (fill : Option PaperFill) (fills : List PaperFill) (x : ℕ)
    → (filled (push_fill fill fills) x ≡ filled (push_fill fill []) x + filled fills x)
      × (total_filled (push_fill fill fills)
          ≡ total_filled (push_fill fill []) + total_filled fills)
filled-push none fills x = omega arith
filled-push (some fill) fills x = omega arith

pub after_fill_lem :
    (available : ℕ) (fill : Option PaperFill)
    → after_fill available fill ≡ available - total_filled (push_fill fill [])
after_fill_lem available none = omega arith
after_fill_lem available (some fill) = omega arith

-- Filling a list of orders in turn moves what is filled from the orders to the fills, never fills
-- more than what is available, and keeps the book valid.
pub fill_all_lem :
    (resting : Resting) (ids : List ℕ) (available : ℕ) (at : ℤ) (cause : FillCause)
    → let (fills, resting') = fill_all resting ids available at cause in
      ((x : ℕ) → remaining resting x ≡ remaining resting' x + filled fills x)
      × (total_filled fills ≤ available)
      × (IsValid resting → IsValid resting')
unfolding fill_all
fill_all_lem resting [] available at cause =
    unfold fill_all in (λ x. omega arith, omega arith, λ v. v)
fill_all_lem resting (id ∷ ids) available at cause =
    let step = fill_order resting id available at cause in
    let (moved, fits, valid) = fill_order-IsFilled resting id available at cause in
    let (moved', fits', valid') = fill_all_lem step.1 ids (after_fill available step.0) at cause in
    let rest = fill_all step.1 ids (after_fill available step.0) at cause in
    elim (Bool-cases (available == 0)) [
      | inl e ↦ rw (e, fill_all) (λ x. omega arith, omega arith, λ v. v)
      | inr e ↦
          rw (e, fill_all)
            (
              λ x. omega (arith, moved x, moved' x, (filled-push step.0 rest.0 x).0),
              omega (arith, (filled-push step.0 rest.0 0).1, after_fill_lem available step.0),
              λ v. valid' (valid v),
            )
    ]
