-- ===== src/Engine/Pipeline/Candidate.antt =====
-- src/engine/pipeline.rs, `candidate_maker_price`: the first multiple of the tick that is at least one
-- tick over the best bid.
use native.Mathlib.Nat.{div-add-mod', mod-lt, mul-mod_left}
use jev_trader.Prelude.{
  Option, ℕ, ◌+◌, ◌*◌, ◌/◌, ◌%◌, ◌^◌, ◌≤◌, ◌<◌, ◌≡◌, refl, inl, inr, false, none, some, leb, ◌==◌,
  if◌then◌else◌, arith, Bool-cases,
}
use jev_trader.Prelude.Words.{checked_add, checked_mul, div_ceil}
use jev_trader.Prelude.F64.{F64}
use jev_trader.Domain.Price.{price_from_f64, to_f64, to_micros}
use jev_trader.Engine.Pipeline.{tick_micros, candidate_of}

-- A number rounded up to a multiple of another.
abbrev pub round_up : ℕ → ℕ → ℕ
round_up raw tick = div_ceil raw tick * tick

-- It is the least multiple of the tick that is not below the number.
pub round_up_lem :
    (raw tick : ℕ)
    → 0 < tick
    → (raw ≤ round_up raw tick) × (round_up raw tick < raw + tick) × (round_up raw tick % tick ≡ 0)
round_up_lem raw tick h =
    let whole = div-add-mod' raw tick in
    let part = mod-lt raw h in
    elim (Bool-cases (raw % tick == 0)) [
      | inl exact ↦ rw exact (ground arith, ground arith, mul-mod_left (raw / tick) tick)
      | inr over ↦ rw over (ground arith, ground arith, mul-mod_left (raw / tick + 1) tick)
    ]

checked_add-some : (a b : ℕ) → a + b < 2 ^ 64 → checked_add a b ≡ some (a + b)
checked_add-some a b h = ground arith

checked_mul-some : (a b : ℕ) → a * b < 2 ^ 64 → checked_mul a b ≡ some (a * b)
checked_mul-some a b h = ground arith

module _ (f : F64) where
  open f use {F, literal, div, of_u64}

  -- A million is one number, and a number of micro-units of at most one is the price that it was
  -- converted to: a quotient and a product that are rounded to 53 bits stay that close.
  pub record IsExact : Type 0 where
    pub million : of_u64 1000000 ≡ literal 1000000 0
    pub kept : (n : ℕ) → n ≤ 1000000 → price_from_f64 f (to_f64 f n) ≡ some n

  to_micros-to_f64 : IsExact → (n : ℕ) → n ≤ 1000000 → to_micros f (to_f64 f n) ≡ n
  unfolding price_from_f64
  to_micros-to_f64 exact n h = ground (arith, exact.kept n h)

  pub tick_micros-IsExact : IsExact → (tick : ℕ) → tick ≤ 1000000 → tick_micros f tick ≡ tick
  tick_micros-IsExact exact tick h =
      rw (← exact.million, tick_micros) (to_micros-to_f64 exact tick h)

  price-IsExact :
      IsExact
      → (n : ℕ) → n ≤ 1000000
      → price_from_f64 f (div (of_u64 n) (literal 1000000 0)) ≡ some n
  unfolding to_f64
  price-IsExact exact n h = rw (← exact.million) (exact.kept n h)

  -- The candidate that a bid and a tick have.
  abbrev pub candidate : ℕ → ℕ → Option ℕ
  candidate bid tick =
      let price = round_up (bid + tick) tick in if leb price 1000000 then some price else none

  pub candidate_of-candidate :
      IsExact
      → (bid tick : ℕ) → bid ≤ 1000000
      → tick ≤ 1000000
      → 0 < tick
      → candidate_of f bid tick ≡ some (candidate bid tick)
  candidate_of-candidate exact bid tick small_bid small_tick positive =
      let bounds = round_up_lem (bid + tick) tick positive in
      let zero_tick : (tick == 0) ≡ false = ground arith in
      let sum = checked_add-some bid tick (omega (arith, small_bid, small_tick)) in
      let product =
        checked_mul-some (div_ceil (bid + tick) tick) tick
          (omega (arith, small_bid, small_tick, bounds.1)) in
      elim (Bool-cases (leb (round_up (bid + tick) tick) 1000000)) [
        | inl fits ↦
            rw (zero_tick, sum, product, fits)
              (rw (price-IsExact exact (round_up (bid + tick) tick) (ground arith)) refl)
        | inr over ↦ rw (zero_tick, sum, product, over) refl
      ]
