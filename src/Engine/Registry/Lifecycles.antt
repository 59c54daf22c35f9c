-- ===== src/Engine/Registry/Lifecycles.antt =====
-- src/engine/registry.rs: how a contract moves through its lifecycle, and what its records say.
use Prim.Native.String.{String}
use text.Mathlib.TextEquality.{eq_iff}
use jev_trader.Prelude.{
  ℕ, zero, suc, ◌+◌, ◌*◌, ◌^◌, ◌≤◌, ◌<◌, ◌≡◌, refl, ◌⊎◌, true, false, none, some, List, [], ◌∷◌,
  arith, All, ap, ◌∙◌, ◌↔◌,
}
use jev_trader.Prelude.Int.{ℤ, pos, saturating_add, +ℤ_parts}
use jev_trader.Prelude.F64.{F64}
use jev_trader.Domain.Market.{Horizon, m5, m15, h1, h4, daily, seconds}
use jev_trader.Engine.Registry.{
  Lifecycle, discovered, active, near_resolution, resolved, rolled_over, advance, MarketRuntime,
  is_tradable, note_resolution, yes_won, rollover_spec,
}

-- How far a contract has come.
abbrev pub stage : Lifecycle → ℕ
stage discovered = 0
stage active = 1
stage near_resolution = 2
stage resolved = 3
stage rolled_over = 4

-- The lifecycle after it was advanced with some remaining times.
abbrev pub advances : Lifecycle → List ℕ → Lifecycle
advances l [] = l
advances l (t ∷ times) = advances (advance l t) times

-- A contract that trades, or may come to, is closed by no advance while time remains.
advance-open :
    (l : Lifecycle) (t : ℕ)
    → (stage l ≤ stage (advance l t)) × (stage l ≤ 2 → 0 < t → stage (advance l t) ≤ 2)
unfolding advance
advance-open discovered t = ground arith
advance-open active t = ground arith
advance-open near_resolution t = ground arith
advance-open resolved t = ground arith
advance-open rolled_over t = ground arith

-- However often it is advanced, a lifecycle never goes back; and one that is not closed stays so for as
-- long as time remains.
pub advances_forward :
    (l : Lifecycle) (times : List ℕ)
    → (stage l ≤ stage (advances l times))
      × (stage l ≤ 2 → All (λ t. 0 < t) times → stage (advances l times) ≤ 2)
advances_forward l [] = (omega arith, λ h a. h)
advances_forward l (t ∷ times) =
    let (forward, open_still) = advance-open l t in
    let (later, rest) = advances_forward (advance l t) times in
    (omega (arith, forward, later), λ h a. rest (open_still h a.0) a.1)

-- Two advances without time left close a tradable contract, and a third rolls it over.
pub advances_zero :
    (l : Lifecycle)
    → stage l ≤ 2
    → (3 ≤ stage (advances l (0 ∷ 0 ∷ []))) × (advances l (0 ∷ 0 ∷ 0 ∷ []) ≡ rolled_over)
unfolding advance
advances_zero discovered h = (omega arith, refl)
advances_zero active h = (omega arith, refl)
advances_zero near_resolution h = (omega arith, refl)
advances_zero resolved h = absurd (omega arith)
advances_zero rolled_over h = absurd (omega arith)

-- A recorded resolution closes the contract to trading, and says that YES won exactly if the winning
-- token is the contract's YES token; otherwise it says nothing.
pub note_resolution_lem :
    (f : F64) (runtime : MarketRuntime f) (token : String)
    → let after = note_resolution f runtime token in
      (is_tradable f after ≡ false)
      × ((yes_won f after ≡ some true) ↔ (token ≡ runtime.yes_token_id))
      × ((yes_won f after ≡ none) ⊎ (yes_won f after ≡ some true))
unfolding note_resolution is_tradable yes_won
note_resolution_lem f runtime token = (
  refl,
  (
    (λ h. (eq_iff token runtime.yes_token_id).0 (ground arith)),
    λ e. ground (arith, (eq_iff token runtime.yes_token_id).1 e),
  ),
  ground arith,
)

-- The windows that follow a resolution.
abbrev pub rollovers : Horizon → ℤ → ℕ → ℤ
rollovers horizon end zero = end
rollovers horizon end (suc n) = rollovers horizon (rollover_spec horizon end).1 n

pub rollover_end :
    (horizon : Horizon) (end : ℕ)
    → end + seconds horizon * 1000 < 2 ^ 63
    → (rollover_spec horizon (pos end)).1 ≡ pos (end + seconds horizon * 1000)
unfolding rollover_spec saturating_add
rollover_end m5 end fits = ground (arith, +ℤ_parts (pos end) (pos 300000))
rollover_end m15 end fits = ground (arith, +ℤ_parts (pos end) (pos 900000))
rollover_end h1 end fits = ground (arith, +ℤ_parts (pos end) (pos 3600000))
rollover_end h4 end fits = ground (arith, +ℤ_parts (pos end) (pos 14400000))
rollover_end daily end fits = ground (arith, +ℤ_parts (pos end) (pos 86400000))

-- The windows of a market family meet end to end: after n roll-overs the end has moved by exactly n
-- horizons, as long as that is an `i64`.
pub rollovers_end :
    (horizon : Horizon) (end n : ℕ)
    → end + n * (seconds horizon * 1000) < 2 ^ 63
    → rollovers horizon (pos end) n ≡ pos (end + n * (seconds horizon * 1000))
rollovers_end horizon end zero fits = ap pos (omega arith)
rollovers_end horizon end (suc n) fits =
    let d = seconds horizon * 1000 in
    let next = rollover_end horizon end (omega (arith, fits)) in
    let rest = rollovers_end horizon (end + d) n (omega (arith, fits)) in
    ap (λ t. rollovers horizon t n) next ∙ rest ∙ ap pos (omega arith)
