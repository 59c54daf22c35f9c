-- ===== src/Config/Thresholds.antt =====
-- src/config.rs: which thresholds pass the check.
use Prim.Native.String.{String}
use jev_trader.Prelude.{◌≡◌, refl, ◌↔◌, true, none, List, [], ◌∷◌, arith, All}
use jev_trader.Prelude.F64.{F64}
use jev_trader.Config.{QuoteThresholds, named_thresholds, first_outside, validate}

module _ (f : F64) where
  open f use {F, literal, lt}

  abbrev pub IsThreshold : F → Type 0
  IsThreshold value = (lt (literal 0 0) value ≡ true) × (lt value (literal 1 0) ≡ true)

  first_outside_iff :
      (thresholds : List (String × F))
      → (first_outside f thresholds ≡ none) ↔ All (λ t. IsThreshold t.1) thresholds
  first_outside_iff [] = (λ h. tt, λ h. refl)
  first_outside_iff (t ∷ thresholds) = ground (arith, first_outside_iff thresholds)

  -- Thresholds pass exactly if each lies strictly between 0 and 1.
  pub validate_iff :
      (t : QuoteThresholds f)
      → (validate f t ≡ none) ↔ All (λ e. IsThreshold e.1) (named_thresholds f t)
  unfolding validate
  validate_iff t = first_outside_iff (named_thresholds f t)
