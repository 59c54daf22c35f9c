-- ===== src/Replay/Complement.antt =====
-- src/replay/complement.rs: the top of the YES book that an observed top of the NO book implies, and
-- the count of what was refused. The constant source label is left out of the result.
pub mod Accounting
mod Tests
use Prim.Native.String.{String}
use jev_trader.Prelude.{
  ℕ, ◌+◌, ◌^◌, ◌%◌, Bool, not, ◌&&◌, ◌||◌, Option, none, some, List, [], ◌∷◌, if◌then◌else◌,
}
use jev_trader.Prelude.Int.{ℤ}
use jev_trader.Prelude.Results.{Result, ok, err}
use jev_trader.Prelude.F64.{F64}

pub data Fidelity : Type 0 where
  exact proxy synthetic_complement unknown : Fidelity

pub data RejectReason : Type 0 where
  bad_spread range : RejectReason

pub record ComplementStats : Type 0 where
  pub n_input : ℕ
  pub n_ok : ℕ
  pub n_rejected_bad_spread : ℕ
  pub n_rejected_range : ℕ

-- `+= 1` on a `usize`
abbrev pub increment : ℕ → ℕ
increment n = (n + 1) % 2 ^ 64

module _ (f : F64) where
  open f use {F, literal, is_finite, lt, le, add, sub, div}

  pub record NoTopOfBook : Type 0 where
    pub no_bid : F
    pub no_ask : F
    pub no_bid_size : F
    pub no_ask_size : F
    pub ts_ms : ℤ
    pub market_id : String

  pub record SyntheticComplement : Type 0 where
    pub yes_bid : F
    pub yes_ask : F
    pub yes_bid_size : F
    pub yes_ask_size : F
    pub yes_mid : F
    pub ts_ms : ℤ
    pub market_id : String
    pub fidelity : Fidelity

  abbrev pub no_mid : NoTopOfBook → F
  no_mid input = div (add input.no_bid input.no_ask) (literal 2 0)

  abbrev pub valid_probability : F → Bool
  valid_probability value = is_finite value && (le (literal 0 0) value && le value (literal 1 0))

  abbrev pub valid_size : F → Bool
  valid_size value = is_finite value && le (literal 0 0) value

  abbrev pub complement_of : NoTopOfBook → SyntheticComplement
  complement_of input = record {
    yes_bid = sub (literal 1 0) input.no_ask;
    yes_ask = sub (literal 1 0) input.no_bid;
    yes_bid_size = input.no_ask_size;
    yes_ask_size = input.no_bid_size;
    yes_mid = sub (literal 1 0) (no_mid input);
    ts_ms = input.ts_ms;
    market_id = input.market_id;
    fidelity = synthetic_complement;
  }

  unfoldable pub build_complement : NoTopOfBook → Result SyntheticComplement RejectReason
  build_complement input =
      if not (valid_probability input.no_bid)
        || not (valid_probability input.no_ask)
        || not (valid_size input.no_bid_size)
        || not (valid_size input.no_ask_size)
      then err range
      else if lt input.no_ask input.no_bid
      then err bad_spread
      else ok (complement_of input)

  abbrev pub complement_no_to_yes : NoTopOfBook → Option SyntheticComplement
  complement_no_to_yes input = elim (build_complement input) [
    | ok complement ↦ some complement
    | err reason ↦ none
  ]

  -- What `observe` counts and gives, by the result.
  abbrev pub counted :
      Result SyntheticComplement RejectReason
      → ComplementStats
      → Option SyntheticComplement × ComplementStats
  counted (ok complement) stats = (some complement, record stats { n_ok = increment stats.n_ok })
  counted (err bad_spread) stats =
      (none, record stats { n_rejected_bad_spread = increment stats.n_rejected_bad_spread })
  counted (err range) stats =
      (none, record stats { n_rejected_range = increment stats.n_rejected_range })

  unfoldable pub observe :
      NoTopOfBook → ComplementStats → Option SyntheticComplement × ComplementStats
  observe input stats =
      counted (build_complement input) (record stats { n_input = increment stats.n_input })
