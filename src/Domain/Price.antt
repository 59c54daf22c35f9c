-- ===== src/Domain/Price.antt =====
-- src/domain/price.rs: executable prices and ticks, which are their numbers of micro-units.
use jev_trader.Prelude.{ℕ, ◌%◌, Bool, not, ◌&&◌, Option, none, some, ltb, ◌==◌, if◌then◌else◌}
use jev_trader.Prelude.F64.{F64}

-- `PriceTicks::is_multiple_of`
abbrev pub is_multiple_of : ℕ → ℕ → Bool
is_multiple_of price tick = not (tick == 0) && (price % tick == 0)

module _ (f : F64) where
  open f use {F, literal, is_finite, lt, le, mul, div, round, of_u64, to_u64}

  -- `(price * MICRO_UNITS_PER_PRICE as f64).round() as u64`
  abbrev pub to_micros : F → ℕ
  to_micros price = to_u64 (round (mul price (of_u64 1000000)))

  -- `(0.0..=1.0).contains(&value)`
  abbrev pub in_unit : F → Bool
  in_unit value = le (literal 0 0) value && le value (literal 1 0)

  -- `PriceTicks::from_f64`; `none` is its panic.
  unfoldable pub price_from_f64 : F → Option ℕ
  price_from_f64 price = if is_finite price && in_unit price then some (to_micros price) else none

  -- `TickSize::from_f64`; `none` is its panic.
  unfoldable pub tick_from_f64 : F → Option ℕ
  tick_from_f64 tick =
      if is_finite tick && in_unit tick && lt (literal 0 0) tick && ltb 0 (to_micros tick)
      then some (to_micros tick)
      else none

  -- `to_f64` of a price or a tick.
  unfoldable pub to_f64 : ℕ → F
  to_f64 micros = div (of_u64 micros) (of_u64 1000000)
