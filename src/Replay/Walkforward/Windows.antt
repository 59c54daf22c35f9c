-- ===== src/Replay/Walkforward/Windows.antt =====
-- src/replay/walkforward.rs, the planner: which windows are planned, and what a window separates.
use Prim.Native.String.{◌∷◌}
use jev_trader.Prelude.{
  ℕ, zero, suc, ◌+◌, ◌<◌, ◌≡◌, refl, inl, inr, ◌⊎◌, ◌↔◌, false, none, some, List, [], ◌∷◌, arith,
  Bool-cases,
}
use jev_trader.Prelude.Words.{saturating_add}
use jev_trader.Prelude.Int.{
  ℤ, pos, pos_part, ◌+ℤ◌, ◌≤ℤ◌, ◌<ℤ◌, ltb_ℤ, leb_ℤ, i64_max, in_i64, checked_add, +ℤ_parts,
}
use jev_trader.Prelude.Text.{is_blank, decimal_02}
use jev_trader.Prelude.Results.{ok}
use jev_trader.Replay.Walkforward.{
  TemporalWindow, validate, new, in_sample, out_of_sample, assign, Plan, plan_round, advance,
  plan_from, try_plan_windows,
}

-- What `validate` demands of a window.
pub record IsWindow (w : TemporalWindow) : Type 0 where
  pub named : is_blank w.name ≡ false
  pub positive : pos 0 <ℤ w.train_start_ms
  pub train : w.train_start_ms ≤ℤ w.train_end_ms
  pub apart : w.train_end_ms ≤ℤ w.test_start_ms
  pub test : w.test_start_ms ≤ℤ w.test_end_ms

validate_iff : (w : TemporalWindow) → (validate w ≡ none) ↔ IsWindow w
unfolding validate
validate_iff w = (
  λ h. record {
    named = ground arith;
    positive = ground arith;
    train = ground arith;
    apart = ground arith;
    test = ground arith;
  },
  λ v. ground (arith, v.named, v.positive, v.train, v.apart, v.test),
)

-- A valid window never trains on what comes after anything that it tests on.
pub assign-IsOrdered :
    (w : TemporalWindow) (a b : ℤ)
    → validate w ≡ none
    → assign w a ≡ some in_sample
    → assign w b ≡ some out_of_sample
    → a <ℤ b
unfolding assign
assign-IsOrdered w a b v h k = let p = (validate_iff w).0 v in ground (arith, p.apart)

checked_add-cases :
    (a b : ℤ)
    → pos 0 <ℤ a
    → pos 0 <ℤ b
    → (checked_add a b ≡ some (a +ℤ b)) ⊎ ((checked_add a b ≡ none) × (i64_max <ℤ (a +ℤ b)))
unfolding checked_add
checked_add-cases a b p q = elim (Bool-cases (in_i64 (a +ℤ b))) [
  | inl e ↦ inl (rw e)
  | inr e ↦ inr (rw e, ground (arith, +ℤ_parts a b))
]

-- The window that the planner makes of a start.
abbrev pub window : ℤ → ℤ → ℤ → ℕ → TemporalWindow
window train test start index = record {
  name = "w" ∷ decimal_02 index;
  train_start_ms = start;
  train_end_ms = start +ℤ train;
  test_start_ms = start +ℤ train;
  test_end_ms = (start +ℤ train) +ℤ test;
}

module _ (last train test step : ℤ) where
  -- The plan from a start on, over the unbounded integers: a window for each start, one step apart, as
  -- long as its test interval ends by the last time.
  abbrev pub IsPlan : ℤ → ℕ → List TemporalWindow → Type 0
  IsPlan start index [] = last <ℤ ((start +ℤ train) +ℤ test)
  IsPlan start index (w ∷ ws) =
      (w ≡ window train test start index)
      × (((start +ℤ train) +ℤ test) ≤ℤ last)
      × IsPlan (start +ℤ step) (saturating_add index 1) ws

  abbrev Planned : ℤ → ℕ → Plan → Type 0
  Planned start index plan =
      (ws : List TemporalWindow) × (plan ≡ some (ok ws)) × IsPlan start index ws

  new-window :
      (start : ℤ) (index : ℕ)
      → pos 0 <ℤ start
      → pos 0 <ℤ train
      → pos 0 <ℤ test
      → new (window train test start index) ≡ ok (window train test start index)
  unfolding new
  new-window start index p q r =
      let w = window train test start index in
      let v : validate w ≡ none = (validate_iff w).1 (record {
        named = refl;
        positive = p;
        train = omega (arith, +ℤ_parts start train);
        apart = omega arith;
        test = omega (arith, +ℤ_parts (start +ℤ train) test);
      }) in
      rw (v, new)

  beyond :
      (start : ℤ)
      → pos 0 <ℤ train
      → pos 0 <ℤ test
      → last ≤ℤ i64_max
      → i64_max <ℤ (start +ℤ step)
      → last <ℤ (((start +ℤ step) +ℤ train) +ℤ test)
  beyond start q r l big =
      omega (arith, +ℤ_parts (start +ℤ step) train, +ℤ_parts ((start +ℤ step) +ℤ train) test)

  plan_round-Planned :
      (again : ℤ → Plan) (start : ℤ) (index : ℕ)
      → pos 0 <ℤ start
      → pos 0 <ℤ train
      → pos 0 <ℤ test
      → pos 0 <ℤ step
      → last ≤ℤ i64_max
      → (((start +ℤ train) +ℤ test) ≤ℤ last
          → Planned (start +ℤ step) (saturating_add index 1) (again (start +ℤ step)))
      → Planned start index (plan_round last train test step again start index)
  plan_round-Planned again start index p q r s l go =
      let end = start +ℤ train in
      let x = +ℤ_parts start train in
      let y = +ℤ_parts end test in
      let z = +ℤ_parts start step in
      elim (checked_add-cases start train p q) [
        | inr (e, big) ↦ rw (e, plan_round) ([], refl, omega (arith, x, y, big))
        | inl e ↦ elim (checked_add-cases end test (omega (arith, x)) r) [
          | inr (e', big) ↦ rw (e, e', plan_round) ([], refl, omega (arith, x, y, big))
          | inl e' ↦ elim (Bool-cases (ltb_ℤ last (end +ℤ test))) [
            | inl h ↦ rw (e, e', h, plan_round) ([], refl, ground arith)
            | inr h ↦
                let fits : (end +ℤ test) ≤ℤ last = ground arith in
                elim (checked_add-cases start step p s) [
                  | inr (e'', big) ↦
                      rw (e, e', h, new-window start index p q r, e'', plan_round, advance)
                        (
                          window train test start index ∷ [],
                          refl,
                          (refl, fits, beyond start q r l big),
                        )
                  | inl e'' ↦
                      let later : leb_ℤ (start +ℤ step) start ≡ false = ground (arith, z) in
                      let (ws, done, plan) = go fits in
                      rw
                        (
                          e,
                          e',
                          h,
                          new-window start index p q r,
                          e'',
                          later,
                          done,
                          plan_round,
                          advance,
                        )
                        (window train test start index ∷ ws, refl, (refl, fits, plan))
                ]
          ]
        ]
      ]

  plan_from-Planned :
      (fuel : ℕ) (start : ℤ) (index : ℕ)
      → pos 0 <ℤ start
      → pos 0 <ℤ train
      → pos 0 <ℤ test
      → pos 0 <ℤ step
      → last ≤ℤ i64_max
      → pos_part last < pos_part start + fuel
      → 0 < fuel
      → Planned start index (plan_from last train test step fuel start index)
  unfolding plan_from
  plan_from-Planned zero start index p q r s l enough some_left = absurd (omega (arith, some_left))
  plan_from-Planned (suc fuel) start index p q r s l enough some_left =
      let again : ℤ → Plan =
        λ next. plan_from last train test step fuel next (saturating_add index 1) in
      let x = +ℤ_parts start train in
      let y = +ℤ_parts (start +ℤ train) test in
      let z = +ℤ_parts start step in
      plan_round-Planned again start index p q r s l (λ fits.
        plan_from-Planned fuel (start +ℤ step) (saturating_add index 1) (omega (arith, z)) q r s l
          (ground (arith, z)) (ground (arith, x, y, fits)))

  -- With positive times in order and positive spans the planner ends and returns a plan: exactly the
  -- windows, one step apart, that end by the last time. The checked additions never cut it short, and
  -- no window is refused.
  pub try_plan_windows-IsPlan :
      (first : ℤ)
      → pos 0 <ℤ first
      → pos 0 <ℤ train
      → pos 0 <ℤ test
      → pos 0 <ℤ step
      → first ≤ℤ last
      → last ≤ℤ i64_max
      → (ws : List TemporalWindow) × (try_plan_windows last train test step first ≡ some (ok ws))
        × IsPlan first 0 ws
  unfolding try_plan_windows
  try_plan_windows-IsPlan first p q r s o l =
      let (ws, e, plan) =
        plan_from-Planned (suc (pos_part last)) first 0 p q r s l (ground arith) (omega arith) in
      (ws, ground (arith, e), plan)
