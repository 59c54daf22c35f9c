-- ===== src/Replay/Clock/Tests.antt =====
-- Runs of the virtual clock on concrete data, after the tests of src/replay/clock.rs, and the instances
-- of the theorems about it.
use jev_trader.Prelude.{◌+◌, ◌≡◌, refl, ◌⊎◌, false, [], ◌∷◌, arith, All}
use jev_trader.Prelude.Int.{pos, pos_part, ◌-ℤ◌, ◌≤ℤ◌}
use jev_trader.Replay.Clock.{ReplayClock, advance_to, time_remaining_ms, time_remaining_secs}
use jev_trader.Replay.Clock.Monotone.{follow, Given, follow_latest, advance_to_remaining}

abbrev clock : ReplayClock
clock = record { now_ms = pos 1000 }

backward_is_refused : (advance_to clock (pos 999)).0 ≡ false
unfolding advance_to
backward_is_refused = refl

five_seconds_left : time_remaining_secs clock (pos 6000) ≡ 5
unfolding time_remaining_secs ◌-ℤ◌
five_seconds_left = refl

follows_latest :
    let times = pos 900 ∷ pos 1500 ∷ pos 1200 ∷ [] in
    let end = (follow clock times).now_ms in
    (pos 1000 ≤ℤ end) × All (λ t. t ≤ℤ end) times × ((end ≡ pos 1000) ⊎ Given end times)
follows_latest = follow_latest clock (pos 900 ∷ pos 1500 ∷ pos 1200 ∷ [])

advances_within :
    time_remaining_ms clock (pos 6000)
    ≡ time_remaining_ms (advance_to clock (pos 2500)).1 (pos 6000) + pos_part (pos 2500 -ℤ pos 1000)
advances_within = advance_to_remaining clock (pos 2500) (pos 6000) (omega arith) (omega arith)
