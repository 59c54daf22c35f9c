-- ===== src/Execution/Paper/Touch.antt =====
-- src/execution/paper.rs: which orders an update reaches, and the cap on the first touch.
use jev_trader.Prelude.{
  ℕ, ◌-◌, ◌≤◌, ◌<◌, ◌≡◌, refl, ◌≢◌, inl, inr, Bool, false, not, ◌&&◌, Option, none, some, List, [],
  ◌∷◌, map, arith, ◌==◌, if◌then◌else◌, All, filter, Bool-cases, Option-cases, min, ◌∙◌, leb,
}
use mathlib.Core.Path.{subst}
use jev_trader.Prelude.Int.{ℤ}
use jev_trader.Prelude.Words.{saturating_add}
use jev_trader.Prelude.BTreeMap
use jev_trader.Prelude.BTreeMap.{
  BTreeMap, IsAscending, get-insert, get-remove, entries-get, IsAbove,
}
use jev_trader.Execution.Paper.{
  RestingOrder, FillCause, trade_through, touch, Resting, insert_order, sort_orders, ordered_ids,
  fill_size, fill_resting, fill_order, after_fill, fill_all, touched, TopOfBookUpdate, is_crossed,
  is_touched, match_update, contains,
}
use jev_trader.Execution.Paper.Matching.{remaining, IsValid, IsResting, fill_all_lem}
use jev_trader.Execution.Paper.Priority.{occurs}

abbrev count_orders : ℕ → List RestingOrder → ℕ
count_orders x orders = occurs x (map (λ o. o.order.id) orders)

count-insert_order :
    (x : ℕ) (o : RestingOrder) (orders : List RestingOrder)
    → count_orders x (insert_order o orders) ≡ count_orders x (o ∷ orders)
unfolding insert_order
count-insert_order x o [] = refl
count-insert_order x o (p ∷ orders) = ground (arith, count-insert_order x o orders)

count-sort_orders :
    (x : ℕ) (orders : List RestingOrder)
    → count_orders x (sort_orders orders) ≡ count_orders x orders
unfolding sort_orders
count-sort_orders x [] = refl
count-sort_orders x (o ∷ orders) =
    count-insert_order x o (sort_orders orders) ∙ omega (arith, count-sort_orders x orders)

-- Whether an update reaches what a lookup found.
abbrev pub selected : (RestingOrder → Bool) → Option RestingOrder → ℕ
selected matches none = 0
selected matches (some r) = if matches r then 1 else 0

get-IsAbove : (x : ℕ) (m : BTreeMap RestingOrder) → IsAbove x m → BTreeMap.get x m ≡ none
get-IsAbove x [] a = refl
get-IsAbove x ((k, r) ∷ m) a = ground (arith, get-IsAbove x m a.1)

count-values :
    (x : ℕ) (matches : RestingOrder → Bool) (m : BTreeMap RestingOrder)
    → IsAscending m
    → All (λ e. e.1.order.id ≡ e.0) m
    → count_orders x (filter matches (BTreeMap.values m)) ≡ selected matches (BTreeMap.get x m)
count-values x matches [] a k = refl
count-values x matches ((k, r) ∷ m) a e =
    ground (arith, count-values x matches m a.1 e.1, get-IsAbove k m a.0)

keyed_entries :
    (resting l : Resting)
    → ((id : ℕ) (r : RestingOrder)
        → BTreeMap.get id resting ≡ some r
        → IsResting r × (r.order.id ≡ id))
    → All (λ e. BTreeMap.get e.0 resting ≡ some e.1) l
    → All (λ e. e.1.order.id ≡ e.0) l
keyed_entries resting [] v a = tt
keyed_entries resting (e ∷ l) v a = ((v e.0 e.1 a.0).1, keyed_entries resting l v a.1)

-- In a valid book `ordered_ids` lists each resting order that matches exactly once, and no other.
pub occurs-ordered_ids :
    (resting : Resting) (matches : RestingOrder → Bool) (x : ℕ)
    → IsValid resting
    → occurs x (ordered_ids resting matches) ≡ selected matches (BTreeMap.get x resting)
unfolding ordered_ids
occurs-ordered_ids resting matches x v =
    let keyed = keyed_entries resting resting v.sound (entries-get resting v.ascending) in
    count-sort_orders x (filter matches (BTreeMap.values resting))
    ∙ count-values x matches resting v.ascending keyed

fill_order-get :
    (resting : Resting) (id available : ℕ) (at : ℤ) (cause : FillCause) (x : ℕ)
    → id ≢ x
    → BTreeMap.get x (fill_order resting id available at cause).1 ≡ BTreeMap.get x resting
unfolding fill_order fill_resting
fill_order-get resting id available at cause x h = elim (Option-cases (BTreeMap.get id resting)) [
  | inl e ↦ ground arith
  | inr (r, e) ↦
      let size = fill_size r available cause in
      let r' = touched r cause in
      ground (
        arith,
        get-remove id x resting,
        get-insert id x r' resting,
        get-insert id x (record r' { remaining_size = r.remaining_size - size }) resting,
      )
]

fill_all-get :
    (resting : Resting) (ids : List ℕ) (available : ℕ) (at : ℤ) (cause : FillCause) (x : ℕ)
    → occurs x ids ≡ 0
    → BTreeMap.get x (fill_all resting ids available at cause).1 ≡ BTreeMap.get x resting
unfolding fill_all
fill_all-get resting [] available at cause x o = refl
fill_all-get resting (id ∷ ids) available at cause x o =
    let step = fill_order resting id available at cause in
    elim (Bool-cases (available == 0)) [
      | inl e ↦ rw e
      | inr e ↦ rw e (
          fill_all-get step.1 ids (after_fill available step.0) at cause x (omega arith)
          ∙ fill_order-get resting id available at cause x (ground arith))
    ]

first_touch_leaves :
    (resting : Resting) (id available : ℕ) (at : ℤ) (r : RestingOrder)
    → BTreeMap.get id resting ≡ some r
    → r.touch_count ≡ 0
    → 0 < r.remaining_size
    → 0 < remaining (fill_order resting id available at touch).1 id
unfolding fill_order fill_resting fill_size touched
first_touch_leaves resting id available at r e t p =
    let touched_once = record r { touch_count = saturating_add r.touch_count 1 } in
    let size =
      if (r.touch_count == 0) && leb r.remaining_size (min available r.remaining_size)
      then r.remaining_size - 1
      else min available r.remaining_size in
    ground (
      arith,
      get-remove id id resting,
      get-insert id id touched_once resting,
      get-insert id id (record touched_once { remaining_size = r.remaining_size - size }) resting,
    )

fill_all-first_touch :
    (resting : Resting) (ids : List ℕ) (available : ℕ) (at : ℤ) (x : ℕ) (r : RestingOrder)
    → occurs x ids ≤ 1
    → BTreeMap.get x resting ≡ some r
    → r.touch_count ≡ 0
    → 0 < r.remaining_size
    → 0 < remaining (fill_all resting ids available at touch).1 x
unfolding fill_all
fill_all-first_touch resting [] available at x r o e t p = rw e p
fill_all-first_touch resting (id ∷ ids) available at x r o e t p =
    let step = fill_order resting id available at touch in
    elim (Bool-cases (available == 0)) [
      | inl z ↦ rw (z, e) p
      | inr z ↦ elim (Bool-cases (id == x)) [
        | inl same ↦
            let rest =
              fill_all-get step.1 ids (after_fill available step.0) at touch x (ground arith) in
            let here : id ≡ x = ground arith in
            rw (z, rest)
              (subst (λ k. 0 < remaining step.1 k) here
                (first_touch_leaves resting id available at r (rw here e) t p))
        | inr other ↦ rw z (
            fill_all-first_touch step.1 ids (after_fill available step.0) at x r (ground arith)
              (fill_order-get resting id available at touch x (ground arith) ∙ e) t p)
      ]
    ]

selected-le_one : (matches : RestingOrder → Bool) (o : Option RestingOrder) → selected matches o ≤ 1
selected-le_one matches none = omega arith
selected-le_one matches (some r) = ground arith

-- An order in a valid book that has never been touched, and that an update does not trade through,
-- still rests after the update, whatever flow arrives: a first touch never completes an order.
pub first_touch_rests :
    (resting : Resting) (update : TopOfBookUpdate) (capacity x : ℕ) (r : RestingOrder)
    → IsValid resting
    → BTreeMap.get x resting ≡ some r
    → r.touch_count ≡ 0
    → is_crossed update r ≡ false
    → 0 < remaining (match_update resting update capacity).1 x
unfolding match_update
first_touch_rests resting update capacity x r v e t c =
    let crossed_ids = ordered_ids resting (is_crossed update) in
    let first = fill_all resting crossed_ids update.ask_size update.at_ms trade_through in
    let matches : RestingOrder → Bool =
      λ o. is_touched update o && not (contains crossed_ids o.order.id) in
    let valid = (fill_all_lem resting crossed_ids update.ask_size update.at_ms trade_through).2 v in
    let p = (v.sound x r e).0.unfilled in
    let absent : occurs x crossed_ids ≡ 0 =
      occurs-ordered_ids resting (is_crossed update) x v ∙ rw (e, c) in
    let kept =
      fill_all-get resting crossed_ids update.ask_size update.at_ms trade_through x absent in
    let once : occurs x (ordered_ids first.1 matches) ≤ 1 =
      rw (occurs-ordered_ids first.1 matches x valid) (selected-le_one matches _) in
    let left =
      fill_all-first_touch first.1 (ordered_ids first.1 matches) capacity update.at_ms x r once
        (kept ∙ e) t p in
    elim (Bool-cases (capacity == 0)) [ inl z ↦ rw (z, kept, e) p | inr z ↦ rw z left ]
