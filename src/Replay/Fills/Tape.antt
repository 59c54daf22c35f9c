-- ===== src/Replay/Fills/Tape.antt =====
-- src/replay/fills.rs: a fill rests on prints that count, and on nothing else.
use jev_trader.Prelude.{
  ℕ, ◌≤◌, ◌≡◌, refl, sym, ap, ◌∙◌, ◌⊎◌, inl, inr, Bool, true, false, not, ◌||◌, some, List, filter,
  arith, All, Bool-cases, if◌then◌else◌,
}
use jev_trader.Prelude.Int.{ℤ}
use jev_trader.Prelude.F64.{F64}
use jev_trader.Replay.Fills.{
  conservative, FillPrint, RestingOrder, FillSimulator, no_fill, valid_qty, Evidence, collect,
  completion_timestamp_for_fill, eligible_from, judge, check_fill,
}
use jev_trader.Replay.Fills.Counting.{
  in_time, collect-in_time, IsCounted, All-IsCounted, through_count-collect,
}
use jev_trader.Replay.Fills.Eligible.{
  prints_beyond, through_prints-prints_beyond, is_in_time, eligible_from-is_in_time, filter_ext,
  Reaches, IsCounted-Reaches,
}
use jev_trader.Replay.Fills.Judgement.{
  completion_from-ts, last_ts-none, outcome-ts, Judged, judge-Judged,
}

module _ (f : F64) where
  open f use {F, literal, is_finite, lt, le, eq, add, mul}

  -- Prints from before the order rested, its latency included, have no part in the outcome. Times
  -- are held in an `i64`, and a print at its last time is never too early.
  pub check_fill-in_time :
      (simulator : FillSimulator f) (order : RestingOrder f) (prints : List (FillPrint f))
      (submit_ms : ℕ)
      → check_fill f simulator order prints submit_ms
        ≡ check_fill f simulator order
            (filter (λ p. is_in_time order.resting_from_ms submit_ms p.ts_ms) prints)
            submit_ms
  unfolding check_fill
  check_fill-in_time simulator order prints submit_ms =
      let from = eligible_from f order submit_ms in
      let kept =
        filter_ext (in_time f from) (λ p. is_in_time order.resting_from_ms submit_ms p.ts_ms) prints
          (λ p. eligible_from-is_in_time f order submit_ms p.ts_ms) in
      ap
        (λ e.
          if eq (valid_qty f order.size) (literal 0 0) || not (is_finite order.price)
          then no_fill f order.price simulator.profile
          else judge f simulator order e)
        (sym (collect-in_time f order from prints) ∙ ap (collect f order from) kept)

  module _ (simulator : FillSimulator f) (order : RestingOrder f) (prints : List (FillPrint f))
      (submit_ms : ℕ) where
    abbrev evidence_of : List (Evidence f)
    evidence_of = collect f order (eligible_from f order submit_ms) prints

    check_fill-cases :
        (check_fill f simulator order prints submit_ms ≡ no_fill f order.price simulator.profile)
        ⊎ (check_fill f simulator order prints submit_ms ≡ judge f simulator order evidence_of)
    unfolding check_fill
    check_fill-cases =
        elim (Bool-cases
          (eq (valid_qty f order.size) (literal 0 0) || not (is_finite order.price))) [
            | inl refused ↦ inl (rw (refused, check_fill) refl)
            | inr accepted ↦ inr (rw (accepted, check_fill) refl)
          ]

    check_fill-Judged :
        Judged f simulator order evidence_of (check_fill f simulator order prints submit_ms)
    check_fill-Judged = elim check_fill-cases [
      | inl nothing ↦ inl nothing
      | inr judged ↦ rw judged (judge-Judged f simulator order evidence_of)
    ]

    completion-ts :
        (P : ℤ → Type 0) (evidence : List (Evidence f)) (queue qty : F) (reaches : Bool) (t : ℤ)
        → All (λ e. P e.ts_ms) evidence
        → completion_timestamp_for_fill f evidence queue qty reaches ≡ some t
        → P t
    completion-ts P evidence queue qty true t a h =
        completion_from-ts f P (literal 0 0) 0 evidence queue 0 qty t a h
    completion-ts P evidence queue qty false t a h = last_ts-none f P evidence t a h

    check_fill-IsCounted :
        (t : ℤ)
        → (check_fill f simulator order prints submit_ms).fill_ts_ms ≡ some t
        → IsCounted f order (eligible_from f order submit_ms) prints t
    check_fill-IsCounted t h =
        let from = eligible_from f order submit_ms in
        let reached = All-IsCounted f order from prints in
        elim check_fill-Judged [
          | inl nothing ↦ absurd (cc (sym h ∙ ap (λ o. o.fill_ts_ms) nothing))
          | inr (inl (profile, whole)) ↦
              completion-ts (IsCounted f order from prints) evidence_of _ _ _ t reached
                (outcome-ts f order _ _ _ _ t (rw whole at h))
          | inr (inr (two, (fraction, threshold, partial))) ↦
              completion_from-ts f (IsCounted f order from prints) (literal 0 0) 0 evidence_of _ 2
                threshold t reached (outcome-ts f order _ _ _ _ t (rw partial at h))
        ]

    -- A fill is dated by a print of the tape that was in time, after the order's latency, and whose
    -- price is the order's or beyond it: lower for a purchase, higher for a sale.
    pub check_fill-ts :
        (t : ℤ)
        → (check_fill f simulator order prints submit_ms).fill_ts_ms ≡ some t
        → Reaches f order submit_ms prints t
    check_fill-ts t h = IsCounted-Reaches f order submit_ms prints t (check_fill-IsCounted t h)

    -- If a half is not one, the conservative profile fills only if at least two prints that were in
    -- time, after the order's latency, went through the order's price.
    pub check_fill-conservative :
        eq (literal 5 1) (literal 1 0) ≡ false
        → simulator.profile ≡ conservative
        → (check_fill f simulator order prints submit_ms).filled ≡ true
        → 2 ≤ prints_beyond f order submit_ms prints
    check_fill-conservative half careful filled = elim check_fill-Judged [
      | inl nothing ↦ absurd (cc (sym filled ∙ ap (λ o. o.filled) nothing))
      | inr (inl (profile, whole)) ↦ absurd (profile careful)
      | inr (inr (two, rest)) ↦ omega (
        arith,
        two,
        through_count-collect f order (eligible_from f order submit_ms) half prints,
        through_prints-prints_beyond f order submit_ms prints,
      )
    ]
