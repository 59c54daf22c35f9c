-- ===== src/Jev/Response.antt =====
-- src/jev/response.rs: the validation of the decoded answers. A `BTreeMap` with texts for keys is the
-- list of its entries in their order; an error is named for its variant and holds what the variant
-- holds. Decoding the JSON is left out.
pub mod Validation
pub mod Acceptance
mod Tests
use Prim.Native.String.{String}
use text.Mathlib.Text.{◌==◌ as str_eq}
use jev_trader.Prelude.{
  ℕ, Bool, true, false, not, ◌&&◌, Option, none, some, is_some, List, [], ◌∷◌, if◌then◌else◌,
}
use jev_trader.Prelude.Int.{ℤ, saturating_sub, pos_part}
use jev_trader.Prelude.Results.{Result, ok, err, ◌>>=◌, ◌>>◌, ensure, ok_or}
use jev_trader.Prelude.F64.{F64}
use jev_trader.Prelude.Text.{is_one_of}
use jev_trader.Strategy.LeadLag.{TickDistribution, V1Signal}
use jev_trader.Engine.SignalActor.{JevEvaluation}

abbrev pub get {ℓ} : {A : Type ℓ} → String → List (String × A) → Option A
get k [] = none
get k ((j, v) ∷ m) = if str_eq j k then some v else get k m

abbrev pub repricing_buckets : List String
repricing_buckets =
    "UP_3_PLUS_TICKS" ∷ "UP_2_TICKS" ∷ "UP_1_TICK" ∷ "FLAT" ∷ "DOWN_1_TICK" ∷ "DOWN_2_TICKS"
    ∷ "DOWN_3_PLUS_TICKS" ∷ []

abbrev pub pressure_levels : List String
pressure_levels = "STRONG_DOWN" ∷ "MILD_DOWN" ∷ "NEUTRAL" ∷ "MILD_UP" ∷ "STRONG_UP" ∷ []

pub record ResponseUsage : Type 0 where
  pub input_tokens : ℕ
  pub output_tokens : ℕ

module _ (f : F64) where
  open f use {F, literal, is_finite, lt, le, add, sub, mul, abs, neg}

  abbrev pub Probabilities : Type 0
  Probabilities = List (String × F)

  pub record RawAnswer : Type 0 where
    pub answer_type : Option String
    pub noul : Option F
    pub choice : Option String
    pub probabilities : Option Probabilities
    pub confidence : Option F

  pub record SystemOneResponse : Type 0 where
    pub answers : List (String × RawAnswer)
    pub usage : Option ResponseUsage

  pub data JevParseError : Type 0 where
    missing_answer : String → JevParseError
    unexpected_answer_type : String → String → String → JevParseError
    missing_field : String → String → JevParseError
    invalid_probability : String → F → JevParseError
    invalid_bucket_probability : String → F → JevParseError
    missing_bucket : String → JevParseError
    unexpected_bucket : String → JevParseError
    invalid_distribution_sum : F → JevParseError
    invalid_confidence : F → JevParseError

  -- `value.is_finite() && (0.0..=1.0).contains(&value)`
  abbrev pub is_probability : F → Bool
  is_probability value = is_finite value && le (literal 0 0) value && le value (literal 1 0)

  unfoldable pub validate_type : RawAnswer → String → String → Result Unit JevParseError
  validate_type answer answer_id expected = elim answer.answer_type [
    | none ↦ ok tt
    | some actual ↦
        ensure (str_eq actual expected) (unexpected_answer_type answer_id expected actual)
  ]

  unfoldable pub noul : SystemOneResponse → String → Result F JevParseError
  noul response answer_id = do
    answer ← ok_or (get answer_id response.answers) (missing_answer answer_id)
    validate_type answer answer_id "noul"
    value ← ok_or answer.noul (missing_field answer_id "noul")
    ensure (is_probability value) (invalid_probability answer_id value)
    ok value

  -- `for bucket in probabilities.keys()`
  unfoldable pub check_keys : List String → Probabilities → Result Unit JevParseError
  check_keys buckets [] = ok tt
  check_keys buckets ((bucket, value) ∷ rest) =
      let checked = check_keys buckets rest in
      ensure (is_one_of bucket buckets) (unexpected_bucket bucket) >> checked

  -- `for bucket in REPRICING_BUCKETS`
  unfoldable pub check_buckets : List String → Probabilities → Result Unit JevParseError
  check_buckets [] probabilities = ok tt
  check_buckets (bucket ∷ rest) probabilities =
      let checked = check_buckets rest probabilities in
      ensure (is_some (get bucket probabilities)) (missing_bucket bucket) >> checked

  -- `for (bucket, value) in probabilities`
  unfoldable pub check_values : Probabilities → Result Unit JevParseError
  check_values [] = ok tt
  check_values ((bucket, value) ∷ rest) =
      let checked = check_values rest in
      ensure (is_probability value) (invalid_bucket_probability bucket value) >> checked

  -- The three loops over the distribution of an answer.
  abbrev pub check_distribution : List String → Probabilities → Result Unit JevParseError
  check_distribution buckets probabilities = do
    check_keys buckets probabilities
    check_buckets buckets probabilities
    check_values probabilities

  -- `probabilities[bucket]`, after the test that the bucket is there.
  abbrev pub at : String → Probabilities → F
  at bucket probabilities = elim (get bucket probabilities) [
    | none ↦ literal 0 0
    | some value ↦ value
  ]

  abbrev pub sum_from : F → List String → Probabilities → F
  sum_from total [] probabilities = total
  sum_from total (bucket ∷ rest) probabilities =
      sum_from (add total (at bucket probabilities)) rest probabilities

  -- `.sum()`, which starts at -0.0
  abbrev pub bucket_sum : Probabilities → F
  bucket_sum = sum_from (neg (literal 0 0)) repricing_buckets

  abbrev pub distribution_tolerance : F
  distribution_tolerance = literal 2 2

  abbrev pub distribution_of : Probabilities → TickDistribution f
  distribution_of probabilities = record {
    up_3_plus = at "UP_3_PLUS_TICKS" probabilities;
    up_2 = at "UP_2_TICKS" probabilities;
    up_1 = at "UP_1_TICK" probabilities;
    flat = at "FLAT" probabilities;
    down_1 = at "DOWN_1_TICK" probabilities;
    down_2 = at "DOWN_2_TICKS" probabilities;
    down_3_plus = at "DOWN_3_PLUS_TICKS" probabilities;
  }

  unfoldable pub checked_confidence : RawAnswer → String → Result F JevParseError
  checked_confidence answer answer_id = do
    confidence ← ok_or answer.confidence (missing_field answer_id "confidence")
    ensure (is_probability confidence) (invalid_confidence confidence)
    ok confidence

  unfoldable pub choice_distribution :
      SystemOneResponse → String → Result (TickDistribution f × F) JevParseError
  choice_distribution response answer_id = do
    answer ← ok_or (get answer_id response.answers) (missing_answer answer_id)
    validate_type answer answer_id "choice"
    probabilities ← ok_or answer.probabilities (missing_field answer_id "probabilities")
    check_distribution repricing_buckets probabilities
    let sum = bucket_sum probabilities
    ensure (not (lt distribution_tolerance (abs (sub sum (literal 1 0)))))
        (invalid_distribution_sum sum)
    confidence ← checked_confidence answer answer_id
    ok (distribution_of probabilities, confidence)

  unfoldable pub parse_v1_signal : SystemOneResponse → Result (V1Signal f) JevParseError
  parse_v1_signal response = do
    choice ← choice_distribution response "repricing_ticks"
    yes_pressure ← noul response "yes_pressure_5s"
    no_pressure ← noul response "no_pressure_5s"
    persists ← noul response "move_persists"
    up ← noul response "underreact_up"
    down ← noul response "underreact_down"
    fill ← noul response "fill_before_decay"
    toxic ← noul response "fill_toxic"
    ok (record {
      yes_pressure_5s = yes_pressure;
      no_pressure_5s = no_pressure;
      move_persists = persists;
      underreact_up = up;
      underreact_down = down;
      repricing = choice.0;
      repricing_confidence = choice.1;
      fill_before_decay = fill;
      fill_toxic = toxic;
    })

  unfoldable pub parse_fair_p_yes : SystemOneResponse → Result F JevParseError
  parse_fair_p_yes response = noul response "fair_p_yes"

  -- The sum of the levels' probabilities times -1, -0.5, 0, 0.5 and 1.
  abbrev pub expectation_of : Probabilities → F
  expectation_of p =
      let zero_f = literal 0 0 in
      let strong_down = mul (at "STRONG_DOWN" p) (neg (literal 1 0)) in
      let mild_down = mul (at "MILD_DOWN" p) (neg (literal 5 1)) in
      let neutral = mul (at "NEUTRAL" p) zero_f in
      let mild_up = mul (at "MILD_UP" p) (literal 5 1) in
      let strong_up = mul (at "STRONG_UP" p) (literal 1 0) in
      add (add (add (add (add (neg zero_f) strong_down) mild_down) neutral) mild_up) strong_up

  unfoldable pub parse_pressure : SystemOneResponse → Result (F × F) JevParseError
  parse_pressure response = do
    answer ← ok_or (get "pressure_5s" response.answers) (missing_answer "pressure_5s")
    validate_type answer "pressure_5s" "choice"
    probabilities ← ok_or answer.probabilities (missing_field "pressure_5s" "probabilities")
    check_distribution pressure_levels probabilities
    confidence ← checked_confidence answer "pressure_5s"
    ok (expectation_of probabilities, confidence)

  unfoldable pub parse_evaluation :
      SystemOneResponse
      → String
      → ℕ
      → ℤ
      → ℤ
      → Result (JevEvaluation Unit (V1Signal f) JevParseError) JevParseError
  parse_evaluation response market_id state_seq sent_at_ms received_at_ms = do
    signal ← parse_v1_signal response
    ok (record {
      market_id = market_id;
      state_seq = state_seq;
      sent_at_ms = sent_at_ms;
      received_at_ms = received_at_ms;
      latency_ms = pos_part (saturating_sub received_at_ms sent_at_ms);
      signal = signal;
      tokens_in = elim response.usage [ none ↦ 0 | some usage ↦ usage.input_tokens ];
      tokens_out = elim response.usage [ none ↦ 0 | some usage ↦ usage.output_tokens ];
    })
