-- ===== src/Jev/Response/Tests.antt =====
-- Responses, after the tests of src/jev/response.rs, and the instances of the theorems.
use Prim.Native.String.{String}
use jev_trader.Prelude.{◌≡◌, refl, none, some, [], ◌∷◌}
use jev_trader.Prelude.Results.{ok, err}
use jev_trader.Prelude.Tenths.{millionths}
use jev_trader.Strategy.LeadLag.{V1Signal}
use jev_trader.Jev.Response.{
  Probabilities, RawAnswer, SystemOneResponse, distribution_of, invalid_distribution_sum,
  invalid_probability, parse_v1_signal, choice_distribution, noul, validate_type, check_keys,
  check_buckets, check_values, checked_confidence,
}
use jev_trader.Jev.Response.Acceptance.{IsSignal, parse_v1_signal_iff}

abbrev a_noul : String → millionths.F → String × RawAnswer millionths
a_noul answer_id value = (
  answer_id,
  record {
    answer_type = some "noul";
    noul = some value;
    choice = none;
    probabilities = none;
    confidence = none;
  },
)

abbrev buckets : millionths.F → Probabilities millionths
buckets up_3 =
    ("DOWN_1_TICK", 70000)
    ∷ ("DOWN_2_TICKS", 40000)
    ∷ ("DOWN_3_PLUS_TICKS", 30000)
    ∷ ("FLAT", 120000)
    ∷ ("UP_1_TICK", 440000)
    ∷ ("UP_2_TICKS", 200000)
    ∷ ("UP_3_PLUS_TICKS", up_3)
    ∷ []

abbrev a_choice : millionths.F → RawAnswer millionths
a_choice up_3 = record {
  answer_type = some "choice";
  noul = none;
  choice = some "UP_1_TICK";
  probabilities = some (buckets up_3);
  confidence = some 790000;
}

abbrev answered : millionths.F → millionths.F → SystemOneResponse millionths
answered up_3 toxic = record {
  answers =
      a_noul "fill_before_decay" 660000
      ∷ a_noul "fill_toxic" toxic
      ∷ a_noul "move_persists" 730000
      ∷ a_noul "no_pressure_5s" 120000
      ∷ ("repricing_ticks", a_choice up_3)
      ∷ a_noul "underreact_down" 180000
      ∷ a_noul "underreact_up" 880000
      ∷ a_noul "yes_pressure_5s" 810000
      ∷ [];
  usage = none;
}

abbrev expected : V1Signal millionths
expected = record {
  yes_pressure_5s = 810000;
  no_pressure_5s = 120000;
  move_persists = 730000;
  underreact_up = 880000;
  underreact_down = 180000;
  repricing = distribution_of millionths (buckets 100000);
  repricing_confidence = 790000;
  fill_before_decay = 660000;
  fill_toxic = 210000;
}

accepts : parse_v1_signal millionths (answered 100000 210000) ≡ ok expected
unfolding parse_v1_signal choice_distribution noul validate_type check_keys check_buckets
    check_values checked_confidence
accepts = refl

refuses_sum :
    parse_v1_signal millionths (answered 200000 210000) ≡ err (invalid_distribution_sum 1100000)
unfolding parse_v1_signal choice_distribution noul validate_type check_keys check_buckets
    check_values checked_confidence
refuses_sum = refl

refuses_value :
    parse_v1_signal millionths (answered 100000 1200000)
    ≡ err (invalid_probability "fill_toxic" 1200000)
unfolding parse_v1_signal choice_distribution noul validate_type check_keys check_buckets
    check_values checked_confidence
refuses_value = refl

parse_v1_signal_iff_example : IsSignal millionths (answered 100000 210000) expected
parse_v1_signal_iff_example =
    (parse_v1_signal_iff millionths (answered 100000 210000) expected).0 accepts
