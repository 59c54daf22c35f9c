-- ===== src/Engine/Pipeline/Branch.antt =====
-- src/engine/pipeline.rs, `finish_branch`: what becomes of an evaluation, up to the resting order.
use jev_trader.Prelude.{
  ℕ, ◌+◌, ◌≤◌, ◌<◌, ◌≡◌, refl, ap, ◌⊎◌, inl, inr, Bool, true, Option, none, some, List, arith,
}
use jev_trader.Prelude.Words.{u64_max}
use jev_trader.Prelude.F64.{F64}
use jev_trader.Prelude.Results.{Result}
use jev_trader.Config.{QuoteThresholds}
use jev_trader.Polymarket.Book.{bid}
use jev_trader.Polymarket.Book.Replay.{IsValid, shows}
use jev_trader.Strategy.Risk.{RiskBlock, check, pass, block}
use jev_trader.Execution.Paper.{PaperFill}
use jev_trader.Strategy.LeadLag.{V1Signal}
use jev_trader.Strategy.Quote.{QuoteIntent}
use jev_trader.Execution.Paper.Placement.{IsPlaceable}
use jev_trader.Engine.SignalActor.{JevEvaluation}
use jev_trader.Engine.ExecutionActor.{
  ExecutionActor, Variant, Quoted, ok, err, on_quote, order_of, outstanding,
}
use jev_trader.Engine.ExecutionActor.Lanes.{
  order_for, Rests, resting_of, other, IsSound, on_quote-Quotes, is_ok, Checked-cases,
}
use jev_trader.Engine.Markouts.{MarkoutTracker, add_quote_with_variant}
use jev_trader.Engine.Pipeline.{
  Outcome, quote, skip, SkipReason, size_zero, stale_book, missing_bid, missing_ask,
  invalid_candidate, strategy_rejected, unusable_signal, jev_error, state_serialization,
  risk_blocked, DecisionInput, BranchInput, decision_input, market_stale, watched, order_markout,
  Branched, execute, finish_branch,
}
use jev_trader.Engine.Pipeline.Candidate.{IsExact}
use jev_trader.Engine.Pipeline.Maker.{Decided, decide-Decided}

module _ (f : F64) (V1State JevError Tags : Type 0) where
  abbrev Evaluation : Type 0
  Evaluation = JevEvaluation V1State (V1Signal f) JevError

  -- How a decision ends on an actor, given the latency of its evaluation.
  abbrev pub Executes :
      ExecutionActor f → BranchInput f → Variant → ℕ → Branched f V1State JevError Tags → Type 0
  Executes actor input variant latency (quote i, tracker, after) =
      (check actor.risk_gate latency (outstanding f actor variant) (market_stale f input) ≡ pass)
      × IsSound f after
      × (resting_of f after (other variant) ≡ resting_of f actor (other variant))
      × (after.next_order_id ≡ actor.next_order_id + 1)
      × Rests (order_for actor.next_order_id i) (resting_of f actor variant)
          (resting_of f after variant)
  Executes actor input variant latency (skip (risk_blocked reason), tracker, after) =
      (check actor.risk_gate latency (outstanding f actor variant) (market_stale f input)
        ≡ block reason)
      × (after ≡ actor)
  Executes actor input variant latency (skip _, tracker, after) = after ≡ actor

  on_quote-block :
      (actor : ExecutionActor f) (variant : Variant) (intent : QuoteIntent) (stale : Bool)
      (latency : ℕ) (reason : RiskBlock)
      → check actor.risk_gate latency (outstanding f actor variant) stale ≡ block reason
      → on_quote f actor variant intent stale latency ≡ (err reason, actor)
  unfolding on_quote
  on_quote-block actor variant intent stale latency reason e = rw (e, on_quote) refl

  Quoted-cases : (q : Quoted) → is_ok q ≡ true → (fills : List PaperFill) × (q ≡ ok fills)
  Quoted-cases (ok fills) h = (fills, refl)
  Quoted-cases (err reason) h = absurd (cc h)

  module _ (tracker : MarkoutTracker Tags) (actor : ExecutionActor f) (input : BranchInput f)
      (variant : Variant) (evaluation : Evaluation) (tags : Tags) where
    abbrev quoted : QuoteIntent → Quoted × ExecutionActor f
    quoted i = on_quote f actor variant i (market_stale f input) evaluation.latency_ms

    abbrev executed : Outcome → Branched f V1State JevError Tags
    executed outcome =
        execute f V1State JevError Tags tracker actor input variant evaluation tags outcome

    execute-ok :
        (i : QuoteIntent) (fills : List PaperFill)
        → (quoted i).0 ≡ ok fills
        → executed (quote i) ≡ (
          quote i,
          add_quote_with_variant Tags tracker
              (order_markout f V1State JevError Tags input variant evaluation tags i),
          (quoted i).1,
        )
    unfolding execute
    execute-ok i fills h = rw (h, execute) refl

    execute-err :
        (i : QuoteIntent) (reason : RiskBlock)
        → (quoted i).0 ≡ err reason
        → executed (quote i) ≡ (skip (risk_blocked reason), tracker, (quoted i).1)
    unfolding execute
    execute-err i reason h = rw (h, execute) refl

    execute-quote :
        (i : QuoteIntent)
        → IsSound f actor
        → actor.next_order_id < u64_max
        → IsPlaceable (order_of f actor.next_order_id i)
        → Executes actor input variant evaluation.latency_ms (executed (quote i))
    execute-quote i sound small placeable =
        let stale = market_stale f input in
        let latency = evaluation.latency_ms in
        elim (Checked-cases (check actor.risk_gate latency (outstanding f actor variant) stale)) [
          | inr (reason, blocked) ↦
              let refused = on_quote-block actor variant i stale latency reason blocked in
              rw (execute-err i reason (ap (λ r. r.0) refused)) (blocked, ap (λ r. r.1) refused)
          | inl passes ↦
              let (quotes, rests) = on_quote-Quotes f actor variant i stale latency sound small in
              let (fills, fine) = Quoted-cases _ (rests.1 (passes, placeable)) in
              rw (execute-ok i fills fine)
                (passes, quotes.0, quotes.2, rw fine at quotes.3, quotes.4 (ap is_ok fine))
        ]

  -- A decision, and the outcome that it has at the gate.
  abbrev Meets : Outcome → Outcome → Type 0
  Meets (skip reason) outcome = outcome ≡ skip reason
  Meets (quote i) outcome =
      (outcome ≡ quote i) ⊎ ((reason : RiskBlock) × (outcome ≡ skip (risk_blocked reason)))

  -- How a branch ends, for an answer and the signal that is left of it.
  abbrev pub Ends :
      QuoteThresholds f
      → ExecutionActor f
      → BranchInput f
      → Variant
      → Result Evaluation JevError
      → Option (V1Signal f)
      → Branched f V1State JevError Tags
      → Type 0
  Ends thresholds actor input variant (Result.err e) signal r =
      (r.0 ≡ skip jev_error) × (r.2 ≡ actor)
  Ends thresholds actor input variant (Result.ok evaluation) none r =
      (r.0 ≡ skip unusable_signal) × (r.2 ≡ actor)
  Ends thresholds actor input variant (Result.ok evaluation) (some signal) r =
      Executes actor input variant evaluation.latency_ms r
      × ((decision : Outcome) × Decided f (decision_input f thresholds input signal) decision
          × Meets decision r.0)

  Decided-IsPlaceable :
      (thresholds : QuoteThresholds f) (input : BranchInput f) (signal : V1Signal f) (id : ℕ)
      (i : QuoteIntent)
      → 0 < input.tick_size
      → Decided f (decision_input f thresholds input signal) (quote i)
      → IsPlaceable (order_of f id i)
  Decided-IsPlaceable thresholds input signal id i positive d =
      let (passive, asks, bids, (b, shown, near)) = d in
      record {
        is_buy = passive.4;
        sized = omega (arith, passive.0, passive.5);
        priced = omega (arith, positive, bids b shown);
      }

  Executes-skip :
      (input' : DecisionInput f) (tracker : MarkoutTracker Tags) (actor : ExecutionActor f)
      (input : BranchInput f) (variant : Variant) (latency : ℕ) (reason : SkipReason)
      → Decided f input' (skip reason)
      → Executes actor input variant latency (skip reason, tracker, actor)
  Executes-skip input' tracker actor input variant latency size_zero d = refl
  Executes-skip input' tracker actor input variant latency stale_book d = refl
  Executes-skip input' tracker actor input variant latency missing_bid d = refl
  Executes-skip input' tracker actor input variant latency missing_ask d = refl
  Executes-skip input' tracker actor input variant latency invalid_candidate d = refl
  Executes-skip input' tracker actor input variant latency strategy_rejected d = refl
  Executes-skip input' tracker actor input variant latency unusable_signal d = refl
  Executes-skip input' tracker actor input variant latency jev_error d = refl
  Executes-skip input' tracker actor input variant latency state_serialization d = refl
  Executes-skip input' tracker actor input variant latency (risk_blocked reason) d = absurd d

  Quoted-split :
      (q : Quoted)
      → ((fills : List PaperFill) × (q ≡ ok fills)) ⊎ ((reason : RiskBlock) × (q ≡ err reason))
  Quoted-split (ok fills) = inl (fills, refl)
  Quoted-split (err reason) = inr (reason, refl)

  execute-Meets :
      (tracker : MarkoutTracker Tags) (actor : ExecutionActor f) (input : BranchInput f)
      (variant : Variant) (evaluation : Evaluation) (tags : Tags) (i : QuoteIntent)
      → Meets
          (quote i)
          (execute f V1State JevError Tags tracker actor input variant evaluation tags (quote i)).0
  execute-Meets tracker actor input variant evaluation tags i =
      elim (Quoted-split
        (on_quote f actor variant i (market_stale f input) evaluation.latency_ms).0) [
          | inl (fills, fine) ↦
              inl (
                ap (λ r. r.0) (execute-ok tracker actor input variant evaluation tags i fills fine))
          | inr (reason, refused) ↦ inr (
            reason,
            ap (λ r. r.0)
                (execute-err tracker actor input variant evaluation tags i reason refused),
          )
        ]

  module _ (thresholds : QuoteThresholds f) (tracker : MarkoutTracker Tags)
      (actor : ExecutionActor f) (input : BranchInput f) (variant : Variant) (tags : Tags) where
    execute-Ends :
        (evaluation : Evaluation) (signal : V1Signal f) (watching : MarkoutTracker Tags)
        (decision : Outcome)
        → IsSound f actor
        → actor.next_order_id < u64_max
        → 0 < input.tick_size
        → Decided f (decision_input f thresholds input signal) decision
        → Ends thresholds actor input variant
            (Result.ok evaluation)
            (some signal)
            (execute f V1State JevError Tags watching actor input variant evaluation tags decision)
    unfolding execute
    execute-Ends evaluation signal watching (skip reason) sound small positive d = (
      Executes-skip (decision_input f thresholds input signal) watching actor input variant
          evaluation.latency_ms reason d,
      (skip reason, d, refl),
    )
    execute-Ends evaluation signal watching (quote i) sound small positive d = (
      execute-quote watching actor input variant evaluation tags i sound small
          (Decided-IsPlaceable thresholds input signal actor.next_order_id i positive d),
      (quote i, d, execute-Meets watching actor input variant evaluation tags i),
    )

    -- If micro-units survive their conversion to a float and back: on a sound actor with ids left, a
    -- valid book of prices of at most one and a tick of at most one, a branch always ends, without a
    -- panic. Without an answer or a usable signal it skips for that reason and leaves the actor alone.
    -- Otherwise its decision is true of the market, and a quote rests exactly as the gate has it:
    -- passed, the variant's own book holds its order under a new id, with its whole size left, and is
    -- otherwise as before, the other book is untouched, and the actor stays sound; blocked, the outcome
    -- names the gate's reason. Whatever is skipped leaves the actor as it is.
    pub finish_branch-Ends :
        (evaluation : Result Evaluation JevError) (signal : Option (V1Signal f))
        → IsExact f
        → IsSound f actor
        → actor.next_order_id < u64_max
        → IsValid input.snapshot.book
        → ((x : ℕ) → 0 < shows input.snapshot.book bid x → x ≤ 1000000)
        → 0 < input.tick_size
        → input.tick_size ≤ 1000000
        → (r : Branched f V1State JevError Tags) × (finish_branch f V1State JevError Tags thresholds
              tracker actor input variant evaluation signal tags
            ≡ some r)
          × Ends thresholds actor input variant evaluation signal r
    unfolding finish_branch
    finish_branch-Ends (Result.err e) signal exact sound small v bids positive tick =
        ((skip jev_error, tracker, actor), refl, (refl, refl))
    finish_branch-Ends (Result.ok evaluation) none exact sound small v bids positive tick =
        ((skip unusable_signal, tracker, actor), refl, (refl, refl))
    finish_branch-Ends (Result.ok evaluation) (some signal) exact sound small v bids positive tick =
        let watching = watched f V1State JevError Tags tracker input variant evaluation tags in
        let (decision, taken, d) =
          decide-Decided f exact (decision_input f thresholds input signal) v bids positive tick in
        (
          execute f V1State JevError Tags watching actor input variant evaluation tags decision,
          rw (taken, finish_branch) refl,
          execute-Ends evaluation signal watching decision sound small positive d,
        )
