-- ===== src/Replay/Fills/Eligible.antt =====
-- src/replay/fills.rs: which prints come in time and reach an order's price, said without the code's own
-- threshold and weights.
use jev_trader.Prelude.{
  ℕ, ◌-◌, ◌^◌, ◌≡◌, refl, sym, ap, ◌∙◌, Bool-cases, ◌⊎◌, inl, inr, Bool, ◌&&◌, ◌+◌, true, not, ◌||◌,
  some, List, [], ◌∷◌, filter, arith, if◌then◌else◌, ltb,
}
use jev_trader.Prelude.Int.{ℤ, pos, ◌+ℤ◌, ltb_ℤ, leb_ℤ, i64_min, i64_max, saturating_add, +ℤ_parts}
use jev_trader.Prelude.F64.{F64}
use jev_trader.Replay.Fills.{FillPrint, RestingOrder, price_weight, eligible_from}
use jev_trader.Replay.Fills.Counting.{IsCounted, through_prints}

-- A latency as an `i64`, at most its greatest value.
abbrev latency_of : ℕ → ℕ
latency_of submit_ms = if ltb submit_ms (2 ^ 63) then submit_ms else 2 ^ 63 - 1

-- A time is an `i64` at or after the one at which an order rests, its latency included; the last time
-- that an `i64` holds always is.
abbrev pub is_in_time : ℤ → ℕ → ℤ → Bool
is_in_time resting_from_ms submit_ms ts_ms =
    leb_ℤ i64_min ts_ms && leb_ℤ (resting_from_ms +ℤ pos (latency_of submit_ms)) ts_ms
    || leb_ℤ i64_max ts_ms

saturating_add-is_in_time :
    (resting_from_ms ts_ms : ℤ) (latency : ℕ)
    → not (ltb_ℤ ts_ms (saturating_add resting_from_ms (pos latency)))
      ≡ (leb_ℤ i64_min ts_ms && leb_ℤ (resting_from_ms +ℤ pos latency) ts_ms || leb_ℤ i64_max ts_ms)
unfolding saturating_add
saturating_add-is_in_time resting_from_ms ts_ms latency =
    ground (arith, +ℤ_parts resting_from_ms (pos latency))

pub filter_ext :
    {A : Type 0} (p q : A → Bool) (xs : List A) → ((x : A) → p x ≡ q x) → filter p xs ≡ filter q xs
filter_ext p q [] same = refl
filter_ext p q (x ∷ xs) same =
    ap (λ r. if p x then x ∷ r else r) (filter_ext p q xs same)
    ∙ ap (λ b. if b then x ∷ filter q xs else filter q xs) (same x)

module _ (f : F64) where
  open f use {F, lt, eq}

  pub eligible_from-is_in_time :
      (order : RestingOrder f) (submit_ms : ℕ) (ts_ms : ℤ)
      → not (ltb_ℤ ts_ms (eligible_from f order submit_ms))
        ≡ is_in_time order.resting_from_ms submit_ms ts_ms
  eligible_from-is_in_time order submit_ms ts_ms = elim (Bool-cases (ltb submit_ms (2 ^ 63))) [
    | inl small ↦ rw (small) (saturating_add-is_in_time order.resting_from_ms ts_ms submit_ms)
    | inr large ↦ rw (large) (saturating_add-is_in_time order.resting_from_ms ts_ms (2 ^ 63 - 1))
  ]

  -- A price at the order's or beyond it: lower for a purchase, higher for a sale.
  abbrev pub meets : RestingOrder f → F → Bool
  meets order price =
      (if order.side_buy then lt price order.price else lt order.price price)
      || eq price order.price

  -- A print of the tape at a time, in time and at the order's price or through it.
  abbrev pub Reaches : RestingOrder f → ℕ → List (FillPrint f) → ℤ → Type 0
  Reaches order submit_ms [] t = ⊥
  Reaches order submit_ms (print ∷ prints) t =
      ((print.ts_ms ≡ t)
        × (is_in_time order.resting_from_ms submit_ms print.ts_ms ≡ true)
        × (meets order print.price ≡ true))
      ⊎ Reaches order submit_ms prints t

  price_weight-meets :
      (order : RestingOrder f) (price w : F)
      → price_weight f order price ≡ some w
      → meets order price ≡ true
  unfolding price_weight
  price_weight-meets order price w h = ground arith

  pub IsCounted-Reaches :
      (order : RestingOrder f) (submit_ms : ℕ) (prints : List (FillPrint f)) (t : ℤ)
      → IsCounted f order (eligible_from f order submit_ms) prints t
      → Reaches order submit_ms prints t
  IsCounted-Reaches order submit_ms [] t c = c
  IsCounted-Reaches order submit_ms (print ∷ prints) t (inr later) =
      inr (IsCounted-Reaches order submit_ms prints t later)
  IsCounted-Reaches order submit_ms (print ∷ prints) t (inl (same, late, (w, near))) =
      let from = eligible_from f order submit_ms in
      let late' : not (ltb_ℤ print.ts_ms from) ≡ true = rw same (ground arith) in
      inl (
        same,
        sym (eligible_from-is_in_time order submit_ms print.ts_ms) ∙ late',
        price_weight-meets order print.price w near,
      )

  -- A print that is in time and strictly beyond the order's price.
  abbrev pub goes_beyond : RestingOrder f → ℕ → FillPrint f → Bool
  goes_beyond order submit_ms print =
      is_in_time order.resting_from_ms submit_ms print.ts_ms
      && (if order.side_buy then lt print.price order.price else lt order.price print.price)

  abbrev pub prints_beyond : RestingOrder f → ℕ → List (FillPrint f) → ℕ
  prints_beyond order submit_ms [] = 0
  prints_beyond order submit_ms (print ∷ prints) =
      (if goes_beyond order submit_ms print then 1 else 0) + prints_beyond order submit_ms prints

  pub through_prints-prints_beyond :
      (order : RestingOrder f) (submit_ms : ℕ) (prints : List (FillPrint f))
      → through_prints f order (eligible_from f order submit_ms) prints
        ≡ prints_beyond order submit_ms prints
  through_prints-prints_beyond order submit_ms [] = refl
  through_prints-prints_beyond order submit_ms (print ∷ prints) =
      let beyond =
        if order.side_buy then lt print.price order.price else lt order.price print.price in
      ap
        (λ b.
          (if b && beyond then 1 else 0)
          + through_prints f order (eligible_from f order submit_ms) prints)
        (eligible_from-is_in_time order submit_ms print.ts_ms)
      ∙ ap (λ n. (if goes_beyond order submit_ms print then 1 else 0) + n)
          (through_prints-prints_beyond order submit_ms prints)
