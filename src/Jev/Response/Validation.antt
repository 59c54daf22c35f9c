-- ===== src/Jev/Response/Validation.antt =====
-- src/jev/response.rs: what an answer must be to be accepted, and each test of it.
use Prim.Native.String.{String}
use text.Mathlib.TextEquality.{eq_iff}
use jev_trader.Prelude.{
  ◌≡◌, refl, ◌↔◌, inl, inr, true, false, Option, none, some, is_some, List, [], ◌∷◌, All,
  Option-cases,
}
use jev_trader.Prelude.Results.{ok, ok_or, >>=_ok, >>_ok, ok_or-eq-ok, ensure_ok}
use jev_trader.Prelude.F64.{F64}
use jev_trader.Prelude.Text.{is_one_of}
use jev_trader.Strategy.LeadLag.{TickDistribution}
use jev_trader.Jev.Response.{
  get, repricing_buckets, Probabilities, RawAnswer, SystemOneResponse, is_probability,
  validate_type, noul, check_keys, check_buckets, check_values, check_distribution, bucket_sum,
  distribution_tolerance, distribution_of, checked_confidence,
}

-- An answer may leave its type out.
abbrev pub IsTypeOf : Option String → String → Type 0
IsTypeOf none expected = Unit
IsTypeOf (some actual) expected = actual ≡ expected

module _ (f : F64) where
  open f use {F, literal, lt, sub, abs}

  abbrev pub IsNoul : SystemOneResponse f → String → F → Type 0
  IsNoul response answer_id value =
      (answer : RawAnswer f) × (get answer_id response.answers ≡ some answer)
      × IsTypeOf answer.answer_type "noul"
      × (answer.noul ≡ some value)
      × (is_probability f value ≡ true)

  -- A probability for each bucket, and for nothing else.
  abbrev pub IsDistribution : List String → Probabilities f → Type 0
  IsDistribution buckets probabilities =
      All (λ e. is_one_of e.0 buckets ≡ true) probabilities
      × All (λ bucket. is_some (get bucket probabilities) ≡ true) buckets
      × All (λ e. is_probability f e.1 ≡ true) probabilities

  abbrev pub IsChoice : SystemOneResponse f → String → TickDistribution f → F → Type 0
  IsChoice response answer_id repricing confidence =
      (answer : RawAnswer f) × (probabilities : Probabilities f) × (get answer_id response.answers
        ≡ some answer)
      × IsTypeOf answer.answer_type "choice"
      × (answer.probabilities ≡ some probabilities)
      × IsDistribution repricing_buckets probabilities
      × (lt (distribution_tolerance f) (abs (sub (bucket_sum f probabilities) (literal 1 0)))
          ≡ false)
      × (answer.confidence ≡ some confidence)
      × (is_probability f confidence ≡ true)
      × (repricing ≡ distribution_of f probabilities)

  pub validate_type-IsTypeOf :
      (answer : RawAnswer f) (answer_id expected : String) (u : Unit)
      → validate_type f answer answer_id expected ≡ ok u
      → IsTypeOf answer.answer_type expected
  unfolding validate_type
  validate_type-IsTypeOf answer answer_id expected u h = elim (Option-cases answer.answer_type) [
    | inl untyped ↦ rw untyped tt
    | inr (actual, typed) ↦ rw typed ((eq_iff actual expected).0 (ensure_ok _ _ (rw typed at h)))
  ]

  pub IsTypeOf-validate_type :
      (answer : RawAnswer f) (answer_id expected : String)
      → IsTypeOf answer.answer_type expected
      → validate_type f answer answer_id expected ≡ ok tt
  unfolding validate_type
  IsTypeOf-validate_type answer answer_id expected h = elim (Option-cases answer.answer_type) [
    | inl untyped ↦ rw (untyped, validate_type) refl
    | inr (actual, typed) ↦
        rw (typed, (eq_iff actual expected).1 (rw typed at h), validate_type) refl
  ]

  pub noul_iff :
      (response : SystemOneResponse f) (answer_id : String) (value : F)
      → (noul f response answer_id ≡ ok value) ↔ IsNoul response answer_id value
  unfolding noul
  noul_iff response answer_id value = (
    λ h.
        let (answer, found, h1) = >>=_ok (ok_or (get answer_id response.answers) _) _ h in
        let (u, typed, h2) = >>=_ok (validate_type f answer answer_id "noul") _ h1 in
        let (v, given, h3) = >>=_ok (ok_or answer.noul _) _ h2 in
        let (tested, h4) = >>_ok (is_probability f v) _ (ok v) h3 in
        let same : v ≡ value = cc in
        (
          answer,
          ok_or-eq-ok _ _ found,
          validate_type-IsTypeOf answer answer_id "noul" u typed,
          rw same at (ok_or-eq-ok _ _ given),
          rw same at tested,
        ),
    λ (answer, found, typed, given, tested).
        rw (noul, found, IsTypeOf-validate_type answer answer_id "noul" typed, given, tested) refl,
  )

  check_keys_iff :
      (buckets : List String) (p : Probabilities f)
      → (check_keys f buckets p ≡ ok tt) ↔ All (λ e. is_one_of e.0 buckets ≡ true) p
  unfolding check_keys
  check_keys_iff buckets [] = (λ h. tt, λ h. refl)
  check_keys_iff buckets (e ∷ rest) = (
    λ h.
        let (known, others) = >>_ok _ _ (check_keys f buckets rest) h in
        (known, (check_keys_iff buckets rest).0 others),
    λ h. rw (h.0, (check_keys_iff buckets rest).1 h.1) refl,
  )

  check_buckets_iff :
      (buckets : List String) (p : Probabilities f)
      → (check_buckets f buckets p ≡ ok tt) ↔ All (λ bucket. is_some (get bucket p) ≡ true) buckets
  unfolding check_buckets
  check_buckets_iff [] p = (λ h. tt, λ h. refl)
  check_buckets_iff (bucket ∷ rest) p = (
    λ h.
        let (present, others) = >>_ok _ _ (check_buckets f rest p) h in
        (present, (check_buckets_iff rest p).0 others),
    λ h. rw (h.0, (check_buckets_iff rest p).1 h.1) refl,
  )

  check_values_iff :
      (p : Probabilities f) → (check_values f p ≡ ok tt) ↔ All (λ e. is_probability f e.1 ≡ true) p
  unfolding check_values
  check_values_iff [] = (λ h. tt, λ h. refl)
  check_values_iff (e ∷ rest) = (
    λ h.
        let (probable, others) = >>_ok _ _ (check_values f rest) h in
        (probable, (check_values_iff rest).0 others),
    λ h. rw (h.0, (check_values_iff rest).1 h.1) refl,
  )

  pub check_distribution_iff :
      (buckets : List String) (p : Probabilities f)
      → (check_distribution f buckets p ≡ ok tt) ↔ IsDistribution buckets p
  check_distribution_iff buckets p = (
    λ h.
        let (u, keys, h1) = >>=_ok (check_keys f buckets p) _ h in
        let (v, present, values) = >>=_ok (check_buckets f buckets p) _ h1 in
        (
          (check_keys_iff buckets p).0 keys,
          (check_buckets_iff buckets p).0 present,
          (check_values_iff p).0 values,
        ),
    λ (keys, present, values).
        rw
          (
            (check_keys_iff buckets p).1 keys,
            (check_buckets_iff buckets p).1 present,
            (check_values_iff p).1 values,
          )
          refl,
  )

  pub checked_confidence_iff :
      (answer : RawAnswer f) (answer_id : String) (value : F)
      → (checked_confidence f answer answer_id ≡ ok value)
        ↔ ((answer.confidence ≡ some value) × (is_probability f value ≡ true))
  unfolding checked_confidence
  checked_confidence_iff answer answer_id value = (
    λ h.
        let (v, given, h1) = >>=_ok (ok_or answer.confidence _) _ h in
        let (tested, h2) = >>_ok (is_probability f v) _ (ok v) h1 in
        let same : v ≡ value = cc in (rw same at (ok_or-eq-ok _ _ given), rw same at tested),
    λ (given, tested). rw (checked_confidence, given, tested) refl,
  )
