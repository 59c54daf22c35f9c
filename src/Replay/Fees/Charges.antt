-- ===== src/Replay/Fees/Charges.antt =====
-- src/replay/fees.rs: what a fee is, and what an episode without a fill, said without the code's own
-- tests.
use jev_trader.Prelude.{
  arith, ◌≡◌, refl, sym, inl, inr, Bool, true, false, not, ◌&&◌, some, none, Option, is_some,
  Bool-cases, if◌then◌else◌,
}
use jev_trader.Prelude.Results.{ok, >>=_ok, >>_ok, ok-injective}
use mathlib.Core.Path.{subst}
use jev_trader.Prelude.F64.{F64}
use jev_trader.Replay.Ledger.{
  TradeEpisode, ExitType, resolution, hedge, sell, stop, no_fill, is_no_fill_type, is_no_fill,
}
use jev_trader.Replay.Fees.{FeeRegime, is_rate, validate, rate_of, fee_for_fill}

and_true : (a b : Bool) → (a && b) ≡ true → (a ≡ true) × (b ≡ true)
and_true true b h = (refl, h)
and_true false b h = cc

pub not-eq-true : (b : Bool) → not b ≡ true → b ≡ false
not-eq-true true h = cc
not-eq-true false h = refl

module _ (f : F64) where
  open f use {F, literal, is_finite, lt, le, eq, add, sub, mul}

  abbrev zero_f : F
  zero_f = literal 0 0

  -- A rate is finite, at least 0 and below 1.
  abbrev pub IsRate : F → Type 0
  IsRate rate = (is_finite rate ≡ true) × (le zero_f rate ≡ true) × (lt rate (literal 1 0) ≡ true)

  -- A maker pays the maker's rate, a taker the taker's.
  abbrev pub its_rate : Bool → FeeRegime f → F
  its_rate true regime = regime.maker_rate
  its_rate false regime = regime.taker_rate

  -- A positive notional, and the part of it that a rate tells: nothing at a rate of zero.
  abbrev pub IsPart : F → F → F → Type 0
  IsPart notional rate fee =
      IsRate rate
      × (is_finite notional ≡ true)
      × (le notional zero_f ≡ false)
      × (is_finite (mul notional rate) ≡ true)
      × (lt (mul notional rate) zero_f ≡ false)
      × (fee ≡ (if eq rate zero_f then zero_f else mul notional rate))

  abbrev pub IsFee : F → Bool → FeeRegime f → F → Type 0
  IsFee notional is_maker regime fee = IsPart notional (its_rate is_maker regime) fee

  -- The record of an order that was not filled.
  abbrev pub IsNoFill : TradeEpisode f → Type 0
  IsNoFill ep =
      (ep.exit_type ≡ no_fill)
      × (ep.fill_ts_ms ≡ none)
      × (ep.fill_price ≡ none)
      × (ep.fill_qty ≡ none)

  is_no_fill_type-eq : (x : ExitType) → is_no_fill_type x ≡ true → x ≡ no_fill
  is_no_fill_type-eq resolution h = cc
  is_no_fill_type-eq hedge h = cc
  is_no_fill_type-eq sell h = cc
  is_no_fill_type-eq stop h = cc
  is_no_fill_type-eq no_fill h = refl

  is_some-none : (A : Type 0) (o : Option A) → is_some o ≡ false → o ≡ none
  is_some-none A none h = refl
  is_some-none A (some a) h = cc

  pub is_no_fill-IsNoFill : (ep : TradeEpisode f) → is_no_fill f ep ≡ true → IsNoFill ep
  unfolding is_no_fill
  is_no_fill-IsNoFill ep h = ground (arith, is_no_fill_type-eq ep.exit_type)

  pub IsNoFill-is_no_fill : (ep : TradeEpisode f) → IsNoFill ep → is_no_fill f ep ≡ true
  unfolding is_no_fill
  IsNoFill-is_no_fill ep (marked, undated, unpriced, unsized) =
      rw (marked, undated, unpriced, unsized, is_no_fill) refl

  is_rate-IsRate : (rate : F) → is_rate f rate ≡ true → IsRate rate
  is_rate-IsRate rate h = let (a, b) = and_true _ _ h in let (c, d) = and_true _ _ b in (a, c, d)

  rate_of-its_rate :
      (is_maker : Bool) (regime : FeeRegime f)
      → rate_of f is_maker regime ≡ its_rate is_maker regime
  rate_of-its_rate true regime = refl
  rate_of-its_rate false regime = refl

  validate-IsRate :
      (is_maker : Bool) (regime : FeeRegime f) (u : Unit)
      → validate f regime ≡ ok u
      → IsRate (rate_of f is_maker regime)
  unfolding validate
  validate-IsRate is_maker regime u h =
      let (maker, h1) = >>_ok (is_rate f regime.maker_rate) _ _ h in
      let (taker, h2) = >>_ok (is_rate f regime.taker_rate) _ _ h1 in
      elim (Bool-cases is_maker) [
        | inl made ↦ rw made (is_rate-IsRate regime.maker_rate maker)
        | inr taken ↦ rw taken (is_rate-IsRate regime.taker_rate taker)
      ]

  pub fee_for_fill-IsFee :
      (notional : F) (is_maker : Bool) (regime : FeeRegime f) (fee : F)
      → fee_for_fill f notional is_maker regime ≡ ok fee
      → IsFee notional is_maker regime fee
  unfolding fee_for_fill
  fee_for_fill-IsFee notional is_maker regime fee h =
      let (u, valid, h1) = >>=_ok (validate f regime) _ h in
      let (positive, h2) = >>_ok (is_finite notional && not (le notional zero_f)) _ _ h1 in
      let (computed, h3) =
        >>_ok
          (is_finite (mul notional (rate_of f is_maker regime))
            && not (lt (mul notional (rate_of f is_maker regime)) zero_f))
          _ _ h2 in
      subst (λ rate. IsPart notional rate fee) (rate_of-its_rate is_maker regime)
        (
          validate-IsRate is_maker regime u valid,
          (and_true _ _ positive).0,
          not-eq-true _ (and_true _ _ positive).1,
          (and_true _ _ computed).0,
          not-eq-true _ (and_true _ _ computed).1,
          sym (ok-injective _ _ h3),
        )
