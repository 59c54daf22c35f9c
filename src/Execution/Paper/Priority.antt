-- ===== src/Execution/Paper/Priority.antt =====
-- src/execution/paper.rs, `ordered_ids` and the fill loop: price-time priority.
use jev_trader.Prelude.{
  ℕ, ◌+◌, ◌-◌, ◌<◌, ◌≡◌, refl, ◌≢◌, inl, inr, true, false, List, [], ◌∷◌, ◌++◌, arith, ◌==◌,
  if◌then◌else◌, All, All-map, Bool-cases, Option-cases, min,
}
use jev_trader.Prelude.Int.{ℤ}
use jev_trader.Prelude.BTreeMap
use jev_trader.Prelude.BTreeMap.{BTreeMap, IsAscending, get-insert, get-remove}
use jev_trader.Execution.Paper.{
  RestingOrder, FillCause, trade_through, Resting, comes_first, insert_order, sort_orders,
  fill_size, fill_resting, fill_order, push_fill, after_fill, fill_all, touched,
}
use jev_trader.Execution.Paper.Matching.{remaining, filled, fill_all_lem, filled-push}

comes_first_trans :
    (a b c : RestingOrder)
    → comes_first a b ≡ true
    → comes_first b c ≡ true
    → comes_first a c ≡ true
unfolding comes_first
comes_first_trans a b c h k = ground arith

comes_first_total : (a b : RestingOrder) → comes_first a b ≡ false → comes_first b a ≡ true
unfolding comes_first
comes_first_total a b h = ground arith

-- Each order comes first against every order behind it.
abbrev pub IsPrioritised : List RestingOrder → Type 0
IsPrioritised [] = Unit
IsPrioritised (o ∷ orders) = All (λ p. comes_first o p ≡ true) orders × IsPrioritised orders

insert_order-first :
    (x o : RestingOrder) (orders : List RestingOrder)
    → comes_first x o ≡ true
    → All (λ p. comes_first x p ≡ true) orders
    → All (λ p. comes_first x p ≡ true) (insert_order o orders)
unfolding insert_order
insert_order-first x o [] h a = (h, tt)
insert_order-first x o (p ∷ orders) h a = ground (arith, insert_order-first x o orders h a.1)

insert_order-IsPrioritised :
    (o : RestingOrder) (orders : List RestingOrder)
    → IsPrioritised orders
    → IsPrioritised (insert_order o orders)
unfolding insert_order
insert_order-IsPrioritised o [] s = (tt, tt)
insert_order-IsPrioritised o (p ∷ orders) s = elim (Bool-cases (comes_first o p)) [
  | inl e ↦ rw e ((e, All-map _ _ orders (λ q h. comes_first_trans o p q e h) s.0), s)
  | inr e ↦ rw e (
    insert_order-first p o orders (comes_first_total o p e) s.0,
    insert_order-IsPrioritised o orders s.1,
  )
]

pub sort_orders-IsPrioritised : (orders : List RestingOrder) → IsPrioritised (sort_orders orders)
unfolding sort_orders
sort_orders-IsPrioritised [] = tt
sort_orders-IsPrioritised (o ∷ orders) =
    insert_order-IsPrioritised o (sort_orders orders) (sort_orders-IsPrioritised orders)

-- How often an id stands in a list.
abbrev pub occurs : ℕ → List ℕ → ℕ
occurs x [] = 0
occurs x (y ∷ ys) = (if y == x then 1 else 0) + occurs x ys

-- An order that is not filled completely by aggressive flow has taken all that was available.
fill_order-exhausts :
    (resting : Resting) (id available : ℕ) (at : ℤ)
    → 0 < remaining (fill_order resting id available at trade_through).1 id
    → after_fill available (fill_order resting id available at trade_through).0 ≡ 0
unfolding fill_order fill_resting fill_size touched
fill_order-exhausts resting id available at h = elim (Option-cases (BTreeMap.get id resting)) [
  | inl e ↦ absurd (ground arith)
  | inr (r, e) ↦ ground (
    arith,
    get-insert id id r resting,
    get-insert id id
        (record r { remaining_size = r.remaining_size - min available r.remaining_size }) resting,
    get-remove id id resting,
  )
]

fill_order-order_id :
    (resting : Resting) (id available : ℕ) (at : ℤ) (cause : FillCause) (x : ℕ)
    → id ≢ x
    → filled (push_fill (fill_order resting id available at cause).0 []) x ≡ 0
unfolding fill_order fill_resting
fill_order-order_id resting id available at cause x h =
    elim (Option-cases (BTreeMap.get id resting)) [
      | inl e ↦ ground arith
      | inr (r, e) ↦ ground arith
    ]

fill_all-nothing :
    (resting : Resting) (ids : List ℕ) (available : ℕ) (at : ℤ) (cause : FillCause)
    → available ≡ 0
    → fill_all resting ids available at cause ≡ ([], resting)
unfolding fill_all
fill_all-nothing resting [] available at cause e = refl
fill_all-nothing resting (id ∷ ids) available at cause e = ground arith

-- Aggressive flow is spent strictly in turn: if anything is left of an order in the queue, then no
-- order behind it in the queue, and not ahead of it too, is filled at all.
pub fill_all_priority :
    (resting : Resting) (ahead : List ℕ) (x : ℕ) (behind : List ℕ) (available : ℕ) (at : ℤ) (y : ℕ)
    → occurs y (ahead ++ (x ∷ [])) ≡ 0
    → 0 < remaining (fill_all resting (ahead ++ (x ∷ behind)) available at trade_through).1 x
    → filled (fill_all resting (ahead ++ (x ∷ behind)) available at trade_through).0 y ≡ 0
unfolding fill_all
fill_all_priority resting [] x behind available at y o h =
    let step = fill_order resting x available at trade_through in
    let rest = fill_all step.1 behind (after_fill available step.0) at trade_through in
    let (moved, fits, valid) =
      fill_all_lem step.1 behind (after_fill available step.0) at trade_through in
    elim (Bool-cases (available == 0)) [
      | inl e ↦ rw e
      | inr e ↦
          let h' : 0 < remaining rest.1 x = rw e at h in
          let spent = fill_order-exhausts resting x available at (omega (arith, moved x)) in
          rw
            (e, fill_all-nothing step.1 behind (after_fill available step.0) at trade_through spent)
            (fill_order-order_id resting x available at trade_through y (ground arith))
    ]
fill_all_priority resting (p ∷ ahead) x behind available at y o h =
    let step = fill_order resting p available at trade_through in
    let ids = ahead ++ (x ∷ behind) in
    let rest = fill_all step.1 ids (after_fill available step.0) at trade_through in
    elim (Bool-cases (available == 0)) [
      | inl e ↦ rw e
      | inr e ↦
          let h' : 0 < remaining rest.1 x = rw e at h in
          rw e (
            omega (
              arith,
              (filled-push step.0 rest.0 y).0,
              fill_order-order_id resting p available at trade_through y (ground arith),
              fill_all_priority step.1 ahead x behind (after_fill available step.0) at y
                  (omega arith) h',
            ))
    ]
