-- ===== src/Replay/Clock.antt =====
-- src/replay/clock.rs: the virtual clock of a replay.
pub mod Monotone
mod Tests
use jev_trader.Prelude.{ℕ, ◌/◌, Bool, true, false, if◌then◌else◌}
use jev_trader.Prelude.Int.{ℤ, pos_part, ◌-ℤ◌, ltb_ℤ, leb_ℤ}

pub record ReplayClock : Type 0 where
  pub now_ms : ℤ

unfoldable pub new : ℤ → ReplayClock
new start_ms = record { now_ms = start_ms }

-- Whether the time is accepted, and the clock after.
unfoldable pub advance_to : ReplayClock → ℤ → Bool × ReplayClock
advance_to clock ts_ms =
    if ltb_ℤ ts_ms clock.now_ms then (false, clock) else (true, record { now_ms = ts_ms })

-- The difference of two `i64`, cast to `u64`: where the subtraction wraps, the cast wraps back.
unfoldable pub time_remaining_ms : ReplayClock → ℤ → ℕ
time_remaining_ms clock resolution_at_ms =
    if leb_ℤ resolution_at_ms clock.now_ms then 0 else pos_part (resolution_at_ms -ℤ clock.now_ms)

unfoldable pub time_remaining_secs : ReplayClock → ℤ → ℕ
unfolding time_remaining_ms
time_remaining_secs clock resolution_at_ms = time_remaining_ms clock resolution_at_ms / 1000
