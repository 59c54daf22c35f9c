-- ===== src/Engine/Registry/Rollover.antt =====
-- src/engine/registry.rs, src/market_spec.rs and src/domain/market.rs: the window of the contract that
-- follows another.
use jev_trader.Prelude.{
  ℕ, ◌+◌, ◌*◌, ◌^◌, ◌≤◌, ◌<◌, ◌≡◌, refl, ◌⊎◌, false, none, some, arith, ap, ◌∙◌,
}
use jev_trader.Prelude.Int.{ℤ, pos, to_i64, saturating_sub, -ℤ_parts, IsI64}
use jev_trader.Prelude.F64.{F64}
use jev_trader.Prelude.Words.{saturating_mul}
use jev_trader.Domain.Market.{Horizon, m5, m15, h1, h4, daily, seconds}
use jev_trader.Domain.Market.Reference.{is_active_at, time_remaining_secs}
use jev_trader.Domain.MarketSpec.{MarketSpec, horizon_of, resolution_window, window_length}
use jev_trader.Engine.Registry.{rollover_spec}
use jev_trader.Engine.Registry.Lifecycles.{rollover_end}

window_start :
    (h : Horizon) (end : ℕ)
    → end + seconds h * 1000 < 2 ^ 63
    → saturating_sub (pos (end + seconds h * 1000)) (pos (seconds h * 1000)) ≡ pos end
unfolding saturating_sub
window_start m5 end fits = ground (arith, -ℤ_parts (pos (end + 300000)) (pos 300000))
window_start m15 end fits = ground (arith, -ℤ_parts (pos (end + 900000)) (pos 900000))
window_start h1 end fits = ground (arith, -ℤ_parts (pos (end + 3600000)) (pos 3600000))
window_start h4 end fits = ground (arith, -ℤ_parts (pos (end + 14400000)) (pos 14400000))
window_start daily end fits = ground (arith, -ℤ_parts (pos (end + 86400000)) (pos 86400000))

active_remaining :
    (secs start : ℕ) (at : ℤ)
    → start + secs * 1000 < 2 ^ 63
    → IsI64 at
    → (is_active_at (pos start) (pos (start + secs * 1000)) at ≡ false)
      ⊎ (time_remaining_secs (pos (start + secs * 1000)) at ≤ secs)
unfolding is_active_at time_remaining_secs saturating_sub
active_remaining secs start at fits in_range =
    ground (arith, -ℤ_parts (pos (start + secs * 1000)) at)

to_i64-seconds : (h : Horizon) → to_i64 (saturating_mul (seconds h) 1000) ≡ pos (seconds h * 1000)
to_i64-seconds m5 = refl
to_i64-seconds m15 = refl
to_i64-seconds h1 = refl
to_i64-seconds h4 = refl
to_i64-seconds daily = refl

module _ (f : F64) where
  open f use {F}

  -- If a specification of some horizon declares neither start nor length of its window, and resolves
  -- where the roll-over of a contract of that horizon ends, then its window starts where that contract
  -- resolved; and while it is active no more than the horizon remains.
  pub resolution_window-rollover :
      (spec : MarketSpec f) (h : Horizon) (end : ℕ) (reference : F) (at : ℤ)
      → horizon_of f spec ≡ some h
      → spec.window_secs ≡ none
      → spec.start_ms ≡ none
      → end + seconds h * 1000 < 2 ^ 63
      → spec.resolution_at_ms ≡ (rollover_spec h (pos end)).1
      → IsI64 at
      → let window = resolution_window f spec reference at in
        (window.start_ms ≡ pos end)
        × (window.end_ms ≡ pos (end + seconds h * 1000))
        × (window.reference.window_secs ≡ seconds h)
        × ((is_active_at window.start_ms window.end_ms at ≡ false)
            ⊎ (time_remaining_secs window.end_ms at ≤ seconds h))
  unfolding resolution_window window_length
  resolution_window-rollover spec h end reference at horizon no_secs no_start fits resolves
        in_range =
      let ends = resolves ∙ rollover_end h end fits in
      let length : window_length f spec ≡ seconds h = simp (no_secs, horizon, window_length) in
      let default : (resolution_window f spec reference at).start_ms
          ≡ saturating_sub spec.resolution_at_ms
              (to_i64 (saturating_mul (window_length f spec) 1000)) =
        simp no_start in
      let start =
        default
        ∙ (λ i. saturating_sub (ends i) (to_i64 (saturating_mul (length i) 1000)))
        ∙ ap (saturating_sub (pos (end + seconds h * 1000))) (to_i64-seconds h)
        ∙ window_start h end fits in
      (start, ends, length, rw (start, ends) (active_remaining (seconds h) end at fits in_range))
