-- ===== src/Replay/Fills/Judgement.antt =====
-- src/replay/fills.rs: what the profiles make of the evidence.
use jev_trader.Prelude.{
  ℕ, suc, ◌≤◌, ◌≡◌, ◌≢◌, refl, sym, ◌∙◌, ◌⊎◌, inl, inr, Bool, not, ◌&&◌, ◌||◌, Option, none, some,
  List, [], ◌∷◌, arith, ltb, leb, if◌then◌else◌, All, Bool-cases,
}
use mathlib.Core.Option.{some-injective}
use mathlib.Core.Path.{subst}
use jev_trader.Prelude.Int.{ℤ}
use jev_trader.Prelude.F64.{F64}
use jev_trader.Replay.Fills.{
  FillProfile, optimistic, base, conservative, RestingOrder, FillOutcome, FillSimulator, no_fill,
  valid_qty, Evidence, available_after, through_count, completion_from, outcome_from_available,
  whole_fill, partial_fill, conservative_fill, fill_by, judge, after_queue, last_ts,
}

module _ (f : F64) where
  open f use {F, literal, is_finite, lt, le, eq, add, mul}

  -- The time that a list of evidence completes at is that of one of its pieces.
  pub completion_from-ts :
      (P : ℤ → Type 0) (available : F) (through : ℕ) (evidence : List (Evidence f))
      (queue_ahead : F) (required : ℕ) (threshold : F) (t : ℤ)
      → All (λ e. P e.ts_ms) evidence
      → completion_from f available through evidence queue_ahead required threshold ≡ some t
      → P t
  unfolding completion_from
  completion_from-ts P available through [] queue_ahead required threshold t a h = absurd (cc h)
  completion_from-ts P available through (e ∷ evidence) queue_ahead required threshold t a h =
      let now = add available e.contribution in
      let seen = if e.is_through then suc through else through in
      elim (Bool-cases (
        leb required seen
        && lt (literal 0 0) (after_queue f now queue_ahead)
        && le threshold (after_queue f now queue_ahead))) [
          | inl reached ↦ subst P (some-injective _ _ (rw reached at h)) a.0
          | inr short ↦
              completion_from-ts P now seen evidence queue_ahead required threshold t a.1
                (rw short at h)
        ]

  pub last_ts-ts :
      (P : ℤ → Type 0) (best : ℤ) (evidence : List (Evidence f)) (t : ℤ)
      → P best
      → All (λ e. P e.ts_ms) evidence
      → last_ts f (some best) evidence ≡ some t
      → P t
  last_ts-ts P best [] t p a h = subst P (some-injective best t h) p
  last_ts-ts P best (e ∷ evidence) t p a h = last_ts-ts P e.ts_ms evidence t a.0 a.1 h

  pub last_ts-none :
      (P : ℤ → Type 0) (evidence : List (Evidence f)) (t : ℤ)
      → All (λ e. P e.ts_ms) evidence
      → last_ts f none evidence ≡ some t
      → P t
  last_ts-none P [] t a h = absurd (cc h)
  last_ts-none P (e ∷ evidence) t a h = last_ts-ts P e.ts_ms evidence t a.0 a.1 h

  pub outcome-ts :
      (order : RestingOrder f) (profile : FillProfile) (available fraction : F) (ts : Option ℤ)
      (t : ℤ)
      → (outcome_from_available f order profile available fraction ts).fill_ts_ms ≡ some t
      → ts ≡ some t
  unfolding outcome_from_available
  outcome-ts order profile available fraction ts t h = ground arith

  module _ (simulator : FillSimulator f) (order : RestingOrder f)
      (evidence : List (Evidence f)) where
    abbrev pub effective : F
    effective = after_queue f (available_after f (literal 0 0) evidence) simulator.queue_ahead

    abbrev pub is_nothing : Bool
    is_nothing = le effective (literal 0 0) || not (eq effective effective)

    -- A judgment is no fill, a whole one, or a conservative one of two prints that went through.
    abbrev pub Judged : FillOutcome f → Type 0
    Judged outcome =
        (outcome ≡ no_fill f order.price simulator.profile)
        ⊎ (((simulator.profile ≢ conservative)
              × (outcome ≡ whole_fill f simulator order evidence effective))
            ⊎ ((2 ≤ through_count f evidence)
                × ((fraction : F) × (threshold : F) × (outcome
                      ≡ partial_fill f simulator order evidence effective fraction threshold))))

    pub conservative_fill-Judged : Judged (conservative_fill f simulator order evidence effective)
    conservative_fill-Judged = elim (Bool-cases (ltb (through_count f evidence) 2)) [
      | inl few ↦ inl (rw few refl)
      | inr enough ↦
          let full = mul (valid_qty f order.size) simulator.through_multiple in
          let half = mul full (literal 25 2) in
          let two : 2 ≤ through_count f evidence = ground arith in
          elim (Bool-cases (le full effective)) [
            | inl all_of_it ↦ inr (inr (two, (literal 1 0, full, rw (enough, all_of_it) refl)))
            | inr less ↦ elim (Bool-cases (le half effective)) [
              | inl half_of_it ↦
                  inr (inr (two, (literal 5 1, half, rw (enough, less, half_of_it) refl)))
              | inr too_little ↦ inl (rw (enough, less, too_little) refl)
            ]
          ]
    ]

    pub fill_by-Judged :
        (p : FillProfile)
        → simulator.profile ≡ p
        → Judged (fill_by f p simulator order evidence effective)
    fill_by-Judged optimistic same = inr (inl ((λ c. absurd (cc (sym same ∙ c))), refl))
    fill_by-Judged base same = inr (inl ((λ c. absurd (cc (sym same ∙ c))), refl))
    fill_by-Judged conservative same = conservative_fill-Judged

    pub judge-Judged : Judged (judge f simulator order evidence)
    unfolding judge
    judge-Judged = elim (Bool-cases is_nothing) [
      | inl nothing ↦ inl (rw (nothing, judge) refl)
      | inr something ↦
          subst Judged (rw (something, judge) refl) (fill_by-Judged simulator.profile refl)
    ]
