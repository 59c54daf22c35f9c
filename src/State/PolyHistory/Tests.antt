-- ===== src/State/PolyHistory/Tests.antt =====
-- Runs of the price history on concrete data, after the tests of src/state/poly_history.rs, and the
-- instances of the theorems about it.
use jev_trader.Prelude.{◌≡◌, refl, ◌⊎◌, none, some, [], ◌∷◌, arith}
use jev_trader.State.PolyHistory.{PolyHistory, push, last_known_at_or_before, price_ago}
use jev_trader.State.PolyHistory.Lookup.{
  IsValid, IsLatest, push-IsValid, last_known_no_lookahead, last_known-IsLatest,
}

abbrev history : PolyHistory
history = record {
  samples = record { ts_ms = 1000; mid = 40 } ∷ record { ts_ms = 3000; mid = 42 } ∷ [];
  capacity = 2;
}

late_and_full :
    (push history 2000 41).samples
    ≡ record { ts_ms = 2000; mid = 41 } ∷ record { ts_ms = 3000; mid = 42 } ∷ []
unfolding push
late_and_full = refl

one_second_ago : price_ago history 3500 1000 ≡ some 40
unfolding price_ago
one_second_ago = refl

history-IsValid : IsValid history
history-IsValid = record {
  ascending = ((omega arith, tt), (tt, tt));
  roomy = omega arith;
  bounded = omega arith;
}

pushes_sample : IsValid (push history 2000 41)
pushes_sample = push-IsValid history 2000 41 history-IsValid

later_push_is_unseen :
    (last_known_at_or_before (push history 4000 43) 3000 ≡ last_known_at_or_before history 3000)
    ⊎ (last_known_at_or_before (push history 4000 43) 3000 ≡ none)
later_push_is_unseen = last_known_no_lookahead history 4000 43 3000 (omega arith)

last_known-IsLatest_example : IsLatest 2500 history.samples (last_known_at_or_before history 2500)
last_known-IsLatest_example = last_known-IsLatest history 2500 history-IsValid
