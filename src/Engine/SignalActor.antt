-- ===== src/Engine/SignalActor.antt =====
-- src/engine/signal_actor.rs: the latest evaluation and the gate on its freshness. The judgment client
-- is a parameter: for a state and its sequence number it gives an evaluation or an error.
pub mod Lag
mod Tests
use jev_trader.Prelude.{ℕ, Bool, ◌&&◌, Option, none, some, leb, if◌then◌else◌}
use jev_trader.Prelude.Words.{saturating_add}
use jev_trader.Prelude.Results.{Result, ok, err}
use jev_trader.Domain.Events.{MarketId}
use jev_trader.Prelude.Int.{ℤ}

pub record StalenessPolicy : Type 0 where
  pub max_lag : ℕ
  pub max_latency_ms : ℕ

module _ (V1State V1Signal JevError : Type 0) where
  pub record JevEvaluation : Type 0 where
    pub market_id : MarketId
    pub state_seq : ℕ
    pub sent_at_ms : ℤ
    pub received_at_ms : ℤ
    pub latency_ms : ℕ
    pub signal : V1Signal
    pub tokens_in : ℕ
    pub tokens_out : ℕ

  unfoldable pub is_usable : StalenessPolicy → JevEvaluation → ℕ → Bool
  is_usable policy evaluation current_seq =
      leb current_seq (saturating_add evaluation.state_seq policy.max_lag)
      && leb evaluation.latency_ms policy.max_latency_ms

  pub record SignalActor : Type 0 where
    pub state_seq : ℕ
    pub latest_evaluation : Option JevEvaluation
    pub staleness_policy : StalenessPolicy

  unfoldable pub new : StalenessPolicy → SignalActor
  new policy = record { state_seq = 0; latest_evaluation = none; staleness_policy = policy }

  unfoldable pub record_evaluation : SignalActor → JevEvaluation → SignalActor
  record_evaluation actor evaluation = record actor { latest_evaluation = some evaluation }

  unfoldable pub usable_signal : SignalActor → Option V1Signal
  unfolding is_usable
  usable_signal actor = elim actor.latest_evaluation [
    | none ↦ none
    | some evaluation ↦
        if is_usable actor.staleness_policy evaluation actor.state_seq
        then some evaluation.signal
        else none
  ]

  unfoldable pub evaluate_next :
      (V1State → ℕ → Result JevEvaluation JevError)
      → SignalActor
      → V1State
      → Result JevEvaluation JevError × SignalActor
  unfolding record_evaluation
  evaluate_next evaluate actor state =
      let sent = record actor { state_seq = saturating_add actor.state_seq 1 } in
      elim (evaluate state sent.state_seq) [
        | err e ↦ (err e, sent)
        | ok evaluation ↦ (ok evaluation, record_evaluation sent evaluation)
      ]
