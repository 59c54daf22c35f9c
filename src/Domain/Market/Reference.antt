-- ===== src/Domain/Market/Reference.antt =====
-- src/domain/market.rs: reference prices, the side of a target that resolves YES, and the window in
-- which a contract resolves.
use Prim.Native.String.{String}
use jev_trader.Prelude.{ℕ, ◌/◌, Bool, false, not, ◌&&◌, ◌||◌, [], ◌∷◌, if◌then◌else◌, ◌==◌}
use jev_trader.Prelude.Int.{ℤ, pos_part, saturating_sub, leb_ℤ, ltb_ℤ}
use jev_trader.Prelude.F64.{F64}
use jev_trader.Prelude.Results.{Result, ok, err}
use jev_trader.Prelude.Text.{to_ascii_lowercase, trim, is_one_of, contains}

pub data ResolutionMechanism : Type 0 where
  above below : ResolutionMechanism

unfoldable pub from_question : String → ResolutionMechanism
from_question question =
    let words = to_ascii_lowercase question in
    if contains "below" words || contains "under" words || contains "less than" words
    then below
    else above

-- `ResolutionMechanism::from_str`
unfoldable pub mechanism_from_str : String → Result ResolutionMechanism String
mechanism_from_str value =
    let word = to_ascii_lowercase (trim value) in
    if is_one_of word ("above" ∷ "over" ∷ "up" ∷ [])
    then ok above
    else if is_one_of word ("below" ∷ "under" ∷ "down" ∷ [])
    then ok below
    else err "resolution mechanism must be above or below"

-- Whole seconds from a time to the end, none after it.
unfoldable pub time_remaining_secs : ℤ → ℤ → ℕ
time_remaining_secs end_ms observed_at_ms = pos_part (saturating_sub end_ms observed_at_ms) / 1000

unfoldable pub is_active_at : ℤ → ℤ → ℤ → Bool
is_active_at start_ms end_ms observed_at_ms =
    leb_ℤ start_ms observed_at_ms && ltb_ℤ observed_at_ms end_ms

module _ (f : F64) where
  open f use {F, literal, is_finite, lt, le, add, sub, mul, div, sqrt, neg, of_u64}

  abbrev zero_f : F
  zero_f = literal 0 0

  -- `ReferencePrice` is its value.
  unfoldable pub is_valid : F → Bool
  is_valid reference = is_finite reference && lt zero_f reference

  unfoldable pub distance_to_target_pct : F → F → F
  distance_to_target_pct reference target =
      if is_valid reference && is_finite target && lt zero_f target
      then mul (sub (div reference target) (literal 1 0)) (literal 100 0)
      else zero_f

  -- `ResolutionMechanism::distance_to_target_pct`
  unfoldable pub favorable_distance_pct : ResolutionMechanism → F → F → F
  favorable_distance_pct above reference target = distance_to_target_pct reference target
  favorable_distance_pct below reference target = neg (distance_to_target_pct reference target)

  unfoldable pub resolves_yes : ResolutionMechanism → F → F → Bool
  resolves_yes mechanism reference target =
      if not (is_valid reference) || not (is_finite target) || le target zero_f
      then false
      else elim mechanism [ above ↦ le target reference | below ↦ le reference target ]

  pub record ReferencePoint : Type 0 where
    pub value : F
    pub source : String
    pub observed_at_ms : ℤ
    pub window_secs : ℕ

  unfoldable pub raw_distance : ReferencePoint → F → F
  raw_distance point spot =
      if is_finite spot && is_finite point.value then sub spot point.value else zero_f

  unfoldable pub distance_pct : ReferencePoint → F → F
  distance_pct point spot =
      if is_finite spot && lt zero_f spot && is_finite point.value && lt zero_f point.value
      then mul (sub (div spot point.value) (literal 1 0)) (literal 100 0)
      else zero_f

  unfoldable pub distance_sigma : ReferencePoint → F → F → ℕ → Bool → F
  distance_sigma point spot sigma_pct remaining horizon_scaling =
      let distance = distance_pct point spot in
      let denominator =
        if horizon_scaling then mul sigma_pct (sqrt (of_u64 remaining)) else sigma_pct in
      let value = div distance denominator in
      if not (is_finite distance)
      then zero_f
      else if not (is_finite sigma_pct && lt zero_f sigma_pct)
      then zero_f
      else if horizon_scaling && (remaining == 0)
      then zero_f
      else if is_finite value
      then value
      else zero_f

  pub record ResolutionWindow : Type 0 where
    pub source : String
    pub window : String
    pub start_ms : ℤ
    pub end_ms : ℤ
    pub reference : ReferencePoint
