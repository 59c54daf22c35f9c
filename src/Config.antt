-- ===== src/Config.antt =====
-- src/config.rs: the thresholds of the quote rule and the limits on freshness.
pub mod Thresholds
use Prim.Native.String.{String}
use jev_trader.Prelude.{
  ℕ, Bool, true, false, ◌&&◌, Option, none, some, List, [], ◌∷◌, ◌==◌, if◌then◌else◌,
}
use jev_trader.Prelude.F64.{F64}

pub record FreshnessPolicy : Type 0 where
  pub max_lag : ℕ
  pub max_latency_ms : ℕ

abbrev pub default_freshness : FreshnessPolicy
default_freshness = record { max_lag = 2; max_latency_ms = 1500 }

-- `FreshnessPolicy::validate`: whether it passes.
abbrev pub is_fresh_policy : FreshnessPolicy → Bool
is_fresh_policy policy = if policy.max_latency_ms == 0 then false else true

module _ (f : F64) where
  open f use {F, literal, lt}

  pub record QuoteThresholds : Type 0 where
    pub under_min : F
    pub next_up_min : F
    pub persist_min : F
    pub fill_min : F
    pub toxic_max : F
    pub conflict_max : F
    pub no_pressure_max : F

  abbrev pub default_thresholds : QuoteThresholds
  default_thresholds = record {
    under_min = literal 75 2;
    next_up_min = literal 65 2;
    persist_min = literal 60 2;
    fill_min = literal 60 2;
    toxic_max = literal 30 2;
    conflict_max = literal 30 2;
    no_pressure_max = literal 30 2;
  }

  abbrev pub named_thresholds : QuoteThresholds → List (String × F)
  named_thresholds t =
      ("QUOTE_UNDER_MIN", t.under_min)
      ∷ ("QUOTE_NEXT_UP_MIN", t.next_up_min)
      ∷ ("QUOTE_PERSIST_MIN", t.persist_min)
      ∷ ("QUOTE_FILL_MIN", t.fill_min)
      ∷ ("QUOTE_TOXIC_MAX", t.toxic_max)
      ∷ ("QUOTE_CONFLICT_MAX", t.conflict_max)
      ∷ ("QUOTE_NO_PRESSURE_MAX", t.no_pressure_max)
      ∷ []

  -- The first threshold that is not strictly between 0 and 1.
  abbrev pub first_outside : List (String × F) → Option (String × F)
  first_outside [] = none
  first_outside (t ∷ thresholds) =
      let rest = first_outside thresholds in
      if lt (literal 0 0) t.1 && lt t.1 (literal 1 0) then rest else some t

  -- `QuoteThresholds::validate`: the name and value of `ThresholdOutOfRange`.
  unfoldable pub validate : QuoteThresholds → Option (String × F)
  validate t = first_outside (named_thresholds t)
