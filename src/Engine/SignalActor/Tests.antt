-- ===== src/Engine/SignalActor/Tests.antt =====
-- Runs of the signal actor on concrete data, after the tests of src/engine/signal_actor.rs, and the
-- instances of the theorems about it. States, signals and errors are numbers.
use jev_trader.Prelude.{ℕ, ◌≡◌, refl, false, none, some, [], ◌∷◌, arith}
use jev_trader.Prelude.Int.{pos}
use jev_trader.Prelude.Results.{ok, err}
use jev_trader.Engine.SignalActor.{JevEvaluation, SignalActor, is_usable, usable_signal}
use jev_trader.Engine.SignalActor.Lag.{Attempt, attempts, usable_signal_lag}

abbrev evaluation : ℕ → JevEvaluation ℕ ℕ ℕ
evaluation seq = record {
  market_id = "market-1";
  state_seq = seq;
  sent_at_ms = pos 1000;
  received_at_ms = pos 1100;
  latency_ms = 100;
  signal = 80;
  tokens_in = 0;
  tokens_out = 0;
}

lagged_sequence_is_rejected :
    is_usable ℕ ℕ ℕ (record { max_lag = 2; max_latency_ms = 1500 }) (evaluation 7) 10 ≡ false
unfolding is_usable
lagged_sequence_is_rejected = refl

abbrev actor : SignalActor ℕ ℕ ℕ
actor = record {
  state_seq = 9;
  latest_evaluation = none;
  staleness_policy = record { max_lag = 2; max_latency_ms = 1500 };
}

abbrev failing : Attempt ℕ ℕ ℕ
failing = (5, λ state seq. err 1)

usable_signal_lag_example :
    usable_signal ℕ ℕ ℕ
      (attempts ℕ ℕ ℕ actor ((5, λ state seq. ok (evaluation seq)) ∷ failing ∷ failing ∷ []))
    ≡ some 80
usable_signal_lag_example =
    usable_signal_lag ℕ ℕ ℕ actor 5 (λ state seq. ok (evaluation seq)) (evaluation 10)
      (failing ∷ failing ∷ []) refl refl ((λ seq. (1, refl)), ((λ seq. (1, refl)), tt))
      (omega arith) (omega arith)
