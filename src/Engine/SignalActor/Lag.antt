-- ===== src/Engine/SignalActor/Lag.antt =====
-- src/engine/signal_actor.rs: how long a signal stays usable while evaluations fail.
use jev_trader.Prelude.{
  ℕ, ◌+◌, ◌≤◌, ◌≡◌, refl, ◌&&◌, some, none, List, [], ◌∷◌, arith, leb, if◌then◌else◌, length, All,
  ap, ◌∙◌,
}
use jev_trader.Prelude.Words.{u64_max, saturating_add}
use jev_trader.Prelude.Results.{Result, ok, err}
use jev_trader.Engine.SignalActor.{
  JevEvaluation, SignalActor, is_usable, usable_signal, record_evaluation, evaluate_next,
}

module _ (V1State V1Signal JevError : Type 0) where
  abbrev Actor : Type 0
  Actor = SignalActor V1State V1Signal JevError

  abbrev Evaluation : Type 0
  Evaluation = JevEvaluation V1State V1Signal JevError

  -- A state to judge, and how the client answers at that time.
  abbrev pub Attempt : Type 0
  Attempt = V1State × (V1State → ℕ → Result Evaluation JevError)

  abbrev pub attempt : Actor → Attempt → Actor
  attempt actor (state, evaluate) = (evaluate_next V1State V1Signal JevError evaluate actor state).1

  abbrev pub attempts : Actor → List Attempt → Actor
  attempts actor [] = actor
  attempts actor (a ∷ rest) = attempts (attempt actor a) rest

  abbrev pub Fails : Attempt → Type 0
  Fails (state, evaluate) = (seq : ℕ) → (e : JevError) × (evaluate state seq ≡ err e)

  -- A failed attempt counts as a newer state and leaves the latest evaluation.
  attempt-Fails :
      (actor : Actor) (a : Attempt)
      → Fails a
      → attempt actor a ≡ record actor { state_seq = saturating_add actor.state_seq 1 }
  unfolding evaluate_next
  attempt-Fails actor (state, evaluate) h =
      let (e, x) = h (saturating_add actor.state_seq 1) in rw (x, attempt, evaluate_next)

  attempts-Fails :
      (actor : Actor) (failed : List Attempt)
      → All Fails failed
      → actor.state_seq + length failed ≤ u64_max
      → attempts actor failed ≡ record actor { state_seq = actor.state_seq + length failed }
  attempts-Fails actor [] h small = ap (λ n. record actor { state_seq = n }) (omega arith)
  attempts-Fails actor (a ∷ failed) h small =
      let next : Actor = record actor { state_seq = saturating_add actor.state_seq 1 } in
      ap (λ x. attempts x failed) (attempt-Fails actor a h.0)
      ∙ attempts-Fails next failed h.1 (omega (arith, small))
      ∙ ap (λ n. record actor { state_seq = n }) (omega (arith, small))

  usable_after :
      (actor : Actor) (evaluation : Evaluation) (n : ℕ)
      → actor.latest_evaluation ≡ some evaluation
      → evaluation.state_seq ≡ actor.state_seq
      → actor.state_seq + n ≤ u64_max
      → actor.state_seq + actor.staleness_policy.max_lag ≤ u64_max
      → usable_signal V1State V1Signal JevError (record actor { state_seq = actor.state_seq + n })
        ≡ (if leb n actor.staleness_policy.max_lag
              && leb evaluation.latency_ms actor.staleness_policy.max_latency_ms
            then some evaluation.signal
            else none)
  unfolding usable_signal is_usable
  usable_after actor evaluation n e same small fits =
      rw (e, usable_signal, is_usable) (ground (arith, same, small, fits))

  attempt_answered :
      (actor : Actor) (state : V1State) (evaluate : V1State → ℕ → Result Evaluation JevError)
      (evaluation : Evaluation)
      → evaluate state (saturating_add actor.state_seq 1) ≡ ok evaluation
      → attempt actor (state, evaluate) ≡ record actor {
        state_seq = saturating_add actor.state_seq 1;
        latest_evaluation = some evaluation;
      }
  unfolding evaluate_next record_evaluation
  attempt_answered actor state evaluate evaluation h = rw (h, attempt, evaluate_next)

  -- A signal that is evaluated for the state that was sent is usable right after, if it was answered
  -- within the latency limit, and stays so for exactly as many failed evaluations as the policy allows
  -- states to lag.
  pub usable_signal_lag :
      (actor : Actor) (state : V1State) (evaluate : V1State → ℕ → Result Evaluation JevError)
      (evaluation : Evaluation) (failed : List Attempt)
      → evaluate state (actor.state_seq + 1) ≡ ok evaluation
      → evaluation.state_seq ≡ actor.state_seq + 1
      → All Fails failed
      → actor.state_seq + 1 + length failed ≤ u64_max
      → actor.state_seq + 1 + actor.staleness_policy.max_lag ≤ u64_max
      → usable_signal V1State V1Signal JevError (attempts actor ((state, evaluate) ∷ failed)) ≡ (
          if leb (length failed) actor.staleness_policy.max_lag
            && leb evaluation.latency_ms actor.staleness_policy.max_latency_ms
          then some evaluation.signal
          else none)
  usable_signal_lag actor state evaluate evaluation failed answered same fails small fits =
      let next : saturating_add actor.state_seq 1 ≡ actor.state_seq + 1 = omega (arith, small) in
      let after : Actor = record actor {
        state_seq = actor.state_seq + 1;
        latest_evaluation = some evaluation;
      } in
      let sent : evaluate state (saturating_add actor.state_seq 1) ≡ ok evaluation =
        ap (evaluate state) next ∙ answered in
      let first : attempt actor (state, evaluate) ≡ after =
        attempt_answered actor state evaluate evaluation sent
        ∙ ap (λ n. record after { state_seq = n }) next in
      ap (λ x. usable_signal V1State V1Signal JevError (attempts x failed)) first
      ∙ ap (usable_signal V1State V1Signal JevError) (attempts-Fails after failed fails small)
      ∙ usable_after after evaluation (length failed) refl same small fits
