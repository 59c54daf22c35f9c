-- ===== src/Jev/Response/Acceptance.antt =====
-- src/jev/response.rs: a signal is accepted exactly when each of its answers is.
use Prim.Native.String.{String}
use jev_trader.Prelude.{◌≡◌, refl, sym, ◌↔◌, false, true, not, Bool, ap}
use jev_trader.Prelude.Results.{ok, ok_or, >>=_ok, >>_ok, ok_or-eq-ok, ok-injective}
use mathlib.Core.Path.{subst}
use jev_trader.Prelude.F64.{F64}
use jev_trader.Strategy.LeadLag.{TickDistribution, V1Signal}
use jev_trader.Jev.Response.{
  get, repricing_buckets, SystemOneResponse, validate_type, noul, check_distribution, bucket_sum,
  distribution_tolerance, checked_confidence, choice_distribution, parse_v1_signal,
}
use jev_trader.Jev.Response.Validation.{
  IsNoul, IsChoice, validate_type-IsTypeOf, IsTypeOf-validate_type, noul_iff,
  check_distribution_iff, checked_confidence_iff,
}

not-eq-true : (b : Bool) → not b ≡ true → b ≡ false
not-eq-true true h = cc
not-eq-true false h = refl

module _ (f : F64) where
  open f use {F, literal, lt, sub, abs}

  choice_distribution_iff :
      (response : SystemOneResponse f) (answer_id : String) (repricing : TickDistribution f)
      (confidence : F)
      → (choice_distribution f response answer_id ≡ ok (repricing, confidence))
        ↔ IsChoice f response answer_id repricing confidence
  unfolding choice_distribution
  choice_distribution_iff response answer_id repricing confidence = (
    λ h.
        let (answer, found, h1) = >>=_ok (ok_or (get answer_id response.answers) _) _ h in
        let (u, typed, h2) = >>=_ok (validate_type f answer answer_id "choice") _ h1 in
        let (p, given, h3) = >>=_ok (ok_or answer.probabilities _) _ h2 in
        let (v, distributed, h4) = >>=_ok (check_distribution f repricing_buckets p) _ h3 in
        let (summed, h5) =
          >>_ok (not (lt (distribution_tolerance f) (abs (sub (bucket_sum f p) (literal 1 0))))) _ _
            h4 in
        let (c, confident, h6) = >>=_ok (checked_confidence f answer answer_id) _ h5 in
        let both = ok-injective _ _ h6 in
        let same_c : c ≡ confidence = ap (λ x. x.1) both in
        let (told, tested) = (checked_confidence_iff f answer answer_id c).0 confident in
        (
          answer,
          p,
          ok_or-eq-ok _ _ found,
          validate_type-IsTypeOf f answer answer_id "choice" u typed,
          ok_or-eq-ok _ _ given,
          (check_distribution_iff f repricing_buckets p).0 distributed,
          not-eq-true _ summed,
          rw same_c at told,
          rw same_c at tested,
          sym (ap (λ x. x.0) both),
        ),
    λ (answer, p, found, typed, given, distributed, summed, told, tested, same).
        rw
          (
            choice_distribution,
            found,
            IsTypeOf-validate_type f answer answer_id "choice" typed,
            (checked_confidence_iff f answer answer_id confidence).1 (told, tested),
            given,
            (check_distribution_iff f repricing_buckets p).1 distributed,
            summed,
            same,
          )
          refl,
  )

  -- What a signal says of the eight answers of a response.
  abbrev pub IsSignal : SystemOneResponse f → V1Signal f → Type 0
  IsSignal response s =
      IsChoice f response "repricing_ticks" s.repricing s.repricing_confidence
      × IsNoul f response "yes_pressure_5s" s.yes_pressure_5s
      × IsNoul f response "no_pressure_5s" s.no_pressure_5s
      × IsNoul f response "move_persists" s.move_persists
      × IsNoul f response "underreact_up" s.underreact_up
      × IsNoul f response "underreact_down" s.underreact_down
      × IsNoul f response "fill_before_decay" s.fill_before_decay
      × IsNoul f response "fill_toxic" s.fill_toxic

  -- A response is accepted as a signal exactly when every answer that the signal takes is there,
  -- declares no type or the right one, and is a probability; and the repricing distribution has a
  -- probability for each of the seven buckets, none for another, and a sum within the tolerance.
  pub parse_v1_signal_iff :
      (response : SystemOneResponse f) (s : V1Signal f)
      → (parse_v1_signal f response ≡ ok s) ↔ IsSignal response s
  unfolding parse_v1_signal
  parse_v1_signal_iff response s = (
    λ h.
        let (choice, c, h0) = >>=_ok (choice_distribution f response "repricing_ticks") _ h in
        let (v1, a1, h1) = >>=_ok (noul f response "yes_pressure_5s") _ h0 in
        let (v2, a2, h2) = >>=_ok (noul f response "no_pressure_5s") _ h1 in
        let (v3, a3, h3) = >>=_ok (noul f response "move_persists") _ h2 in
        let (v4, a4, h4) = >>=_ok (noul f response "underreact_up") _ h3 in
        let (v5, a5, h5) = >>=_ok (noul f response "underreact_down") _ h4 in
        let (v6, a6, h6) = >>=_ok (noul f response "fill_before_decay") _ h5 in
        let (v7, a7, h7) = >>=_ok (noul f response "fill_toxic") _ h6 in
        subst (IsSignal response) (ok-injective _ _ h7) (
          (choice_distribution_iff response "repricing_ticks" choice.0 choice.1).0 c,
          (noul_iff f response "yes_pressure_5s" v1).0 a1,
          (noul_iff f response "no_pressure_5s" v2).0 a2,
          (noul_iff f response "move_persists" v3).0 a3,
          (noul_iff f response "underreact_up" v4).0 a4,
          (noul_iff f response "underreact_down" v5).0 a5,
          (noul_iff f response "fill_before_decay" v6).0 a6,
          (noul_iff f response "fill_toxic" v7).0 a7,
        ),
    λ (c, n1, n2, n3, n4, n5, n6, n7).
        rw
          (
            parse_v1_signal,
            (choice_distribution_iff response "repricing_ticks" s.repricing
                  s.repricing_confidence).1
                c,
            (noul_iff f response "yes_pressure_5s" s.yes_pressure_5s).1 n1,
            (noul_iff f response "no_pressure_5s" s.no_pressure_5s).1 n2,
            (noul_iff f response "move_persists" s.move_persists).1 n3,
            (noul_iff f response "underreact_up" s.underreact_up).1 n4,
            (noul_iff f response "underreact_down" s.underreact_down).1 n5,
            (noul_iff f response "fill_before_decay" s.fill_before_decay).1 n6,
            (noul_iff f response "fill_toxic" s.fill_toxic).1 n7,
          )
          refl,
  )
