-- ===== src/Replay/Clock/Monotone.antt =====
-- src/replay/clock.rs: how a replay's time moves.
use jev_trader.Prelude.{◌+◌, ◌≡◌, refl, inl, inr, ◌⊎◌, List, [], ◌∷◌, arith, All, Bool-cases, ◌∙◌}
use jev_trader.Prelude.Int.{ℤ, pos_part, ◌-ℤ◌, ◌≤ℤ◌, ltb_ℤ, -ℤ_parts}
use jev_trader.Replay.Clock.{ReplayClock, advance_to, time_remaining_ms}

-- The clock after some times were given to it, those that it refuses included.
abbrev pub follow : ReplayClock → List ℤ → ReplayClock
follow clock [] = clock
follow clock (t ∷ times) = follow (advance_to clock t).1 times

abbrev pub Given : ℤ → List ℤ → Type 0
Given t [] = ⊥
Given t (u ∷ times) = (t ≡ u) ⊎ Given t times

advance_to_later :
    (clock : ReplayClock) (t : ℤ)
    → (clock.now_ms ≤ℤ (advance_to clock t).1.now_ms)
      × (t ≤ℤ (advance_to clock t).1.now_ms)
      × (((advance_to clock t).1.now_ms ≡ clock.now_ms) ⊎ ((advance_to clock t).1.now_ms ≡ t))
unfolding advance_to
advance_to_later clock t = elim (Bool-cases (ltb_ℤ t clock.now_ms)) [
  | inl e ↦ rw (e, advance_to) (omega arith, ground arith, inl refl)
  | inr e ↦ rw (e, advance_to) (ground arith, omega arith, inr refl)
]

-- Whatever times it is given, the clock ends at the latest of them and its start.
pub follow_latest :
    (clock : ReplayClock) (times : List ℤ)
    → let end = (follow clock times).now_ms in
      (clock.now_ms ≤ℤ end) × All (λ t. t ≤ℤ end) times × ((end ≡ clock.now_ms) ⊎ Given end times)
follow_latest clock [] = (omega arith, tt, inl refl)
follow_latest clock (t ∷ times) =
    let (kept, reached, from) = advance_to_later clock t in
    let (later, bounded, attained) = follow_latest (advance_to clock t).1 times in
    let ended : ((follow clock (t ∷ times)).now_ms ≡ clock.now_ms)
        ⊎ Given (follow clock (t ∷ times)).now_ms (t ∷ times) =
      elim attained [
        | inl e ↦ elim from [ inl x ↦ inl (e ∙ x) | inr x ↦ inr (inl (e ∙ x)) ]
        | inr g ↦ inr (inr g)
      ] in
    (omega (arith, kept, later), (omega (arith, reached, later), bounded), ended)

-- The time that passes is the time that is no longer left: an accepted step to a time before the
-- resolution takes exactly its length off what remains.
pub advance_to_remaining :
    (clock : ReplayClock) (t resolution : ℤ)
    → clock.now_ms ≤ℤ t
    → t ≤ℤ resolution
    → time_remaining_ms clock resolution
      ≡ time_remaining_ms (advance_to clock t).1 resolution + pos_part (t -ℤ clock.now_ms)
unfolding advance_to time_remaining_ms
advance_to_remaining clock t resolution h k =
    ground (arith, -ℤ_parts resolution clock.now_ms, -ℤ_parts resolution t, -ℤ_parts t clock.now_ms)
