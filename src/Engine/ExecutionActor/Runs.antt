-- ===== src/Engine/ExecutionActor/Runs.antt =====
-- src/engine/execution_actor.rs: any sequence of calls from a new actor.
use jev_trader.Prelude.{
  ℕ, ◌+◌, ◌≤◌, ◌<◌, ◌≡◌, refl, inl, inr, Bool, none, some, List, [], ◌∷◌, arith, length,
  Option-cases, sym, ap, ◌∙◌,
}
use jev_trader.Prelude.Words.{u64_max}
use jev_trader.Prelude.F64.{F64}
use jev_trader.Strategy.Risk.{RiskLimits}
use jev_trader.Strategy.Quote.{QuoteIntent}
use jev_trader.Execution.Paper.{TopOfBookUpdate, PaperOrder, PaperBook, Resting, resting_count}
use mathlib.Core.Option.{some-injective}
use jev_trader.Execution.Paper
use jev_trader.Execution.Paper.{with_default_fill_ratio}
use jev_trader.Engine.ExecutionActor.{
  place_in, Variant, control, quant_v1, ExecutionActor, on_quote, on_book_update, cancel,
  outstanding, new,
}
use jev_trader.Engine.ExecutionActor.Lanes.{IsLane, IsSound, on_quote-Quotes}
use jev_trader.Engine.ExecutionActor.Updates.{on_book_update-IsSound, cancel-IsSound}

-- One call of the actor.
pub data Call : Type 0 where
  quote : Variant → QuoteIntent → Bool → ℕ → Call
  book_update : TopOfBookUpdate → Call
  cancellation : Variant → ℕ → Call

module _ (f : F64) where
  abbrev pub call : ExecutionActor f → Call → ExecutionActor f
  call actor (quote variant intent stale latency) =
      (on_quote f actor variant intent stale latency).1
  call actor (book_update update) = (on_book_update f actor update).1
  call actor (cancellation variant id) = (cancel f actor variant id).1

  abbrev pub calls : ExecutionActor f → List Call → ExecutionActor f
  calls actor [] = actor
  calls actor (c ∷ cs) = calls (call actor c) cs

  -- A call draws at most one id and leaves the gate.
  abbrev Draws : ExecutionActor f → ExecutionActor f → Type 0
  Draws actor after =
      IsSound f after
      × (after.next_order_id ≤ actor.next_order_id + 1)
      × (after.risk_gate ≡ actor.risk_gate)

  place_in-gate :
      (actor : ExecutionActor f) (variant : Variant) (order : PaperOrder)
      → (place_in f actor variant order).1.risk_gate ≡ actor.risk_gate
  unfolding place_in
  place_in-gate actor control order = ground arith
  place_in-gate actor quant_v1 order = ground arith

  on_quote-gate :
      (actor : ExecutionActor f) (variant : Variant) (intent : QuoteIntent) (stale : Bool)
      (latency : ℕ)
      → (on_quote f actor variant intent stale latency).1.risk_gate ≡ actor.risk_gate
  unfolding on_quote
  on_quote-gate actor variant intent stale latency = ground (arith, place_in-gate actor variant)

  call-Draws :
      (actor : ExecutionActor f) (c : Call)
      → IsSound f actor
      → actor.next_order_id < u64_max
      → Draws actor (call actor c)
  unfolding on_book_update cancel
  call-Draws actor (quote variant intent stale latency) s small =
      let ((sound, refused, others, drawn, rests), allowed) =
        on_quote-Quotes f actor variant intent stale latency s small in
      (sound, ground (arith, drawn), on_quote-gate actor variant intent stale latency)
  call-Draws actor (book_update update) s small =
      (on_book_update-IsSound f actor update s, omega arith, refl)
  call-Draws actor (cancellation control id) s small =
      ((cancel-IsSound f actor control id s).0, omega arith, refl)
  call-Draws actor (cancellation quant_v1 id) s small =
      ((cancel-IsSound f actor quant_v1 id s).0, omega arith, refl)

  calls-IsSound :
      (actor : ExecutionActor f) (cs : List Call)
      → IsSound f actor
      → actor.next_order_id + length cs ≤ u64_max
      → IsSound f (calls actor cs) × ((calls actor cs).risk_gate ≡ actor.risk_gate)
  calls-IsSound actor [] s small = (s, refl)
  calls-IsSound actor (c ∷ cs) s small =
      let (sound, ids, gate) = call-Draws actor c s (omega (arith, small)) in
      let (sound', gate') = calls-IsSound (call actor c) cs sound (omega (arith, ids, small)) in
      (sound', gate' ∙ gate)

  default_book_empty :
      (book : PaperBook f) → with_default_fill_ratio f ≡ some book → book.resting ≡ []
  unfolding with_default_fill_ratio Paper.new
  default_book_empty book h = ground arith

  IsLane-empty : (next limit : ℕ) → IsLane next limit []
  IsLane-empty next limit = record {
    valid = record { ascending = tt; sound = λ x r h. absurd (cc) };
    drawn = λ x h. absurd (cc);
    bounded = omega arith;
  }

  with_empty_book :
      (limits : RiskLimits) (book : PaperBook f) (next : ℕ)
      → book.resting ≡ []
      → IsSound f (record {
        control_book = book;
        quant_book = book;
        risk_gate = record { limits = limits };
        next_order_id = next;
      })
  with_empty_book limits book next e = record {
    lanes = elim [ control ↦ rw e (IsLane-empty _ _) | quant_v1 ↦ rw e (IsLane-empty _ _) ];
    apart = rw e (λ x h. absurd (cc));
  }

  pub new_lem :
      (limits : RiskLimits) (actor : ExecutionActor f)
      → new f limits ≡ some actor
      → IsSound f actor × (actor.next_order_id ≡ 1) × (actor.risk_gate.limits ≡ limits)
  unfolding new
  new_lem limits actor h = elim (Option-cases (with_default_fill_ratio f)) [
    | inl e ↦ let h' : none ≡ some actor = rw (e, new) at h in absurd (cc)
    | inr (book, e) ↦
        let h' = rw (e, new) at h in
        rw (sym (some-injective _ _ h'))
          (with_empty_book limits book 1 (default_book_empty book e), refl, refl)
  ]

  -- However a new actor is called, fewer than 2^64 - 1 times: the ids that rest in its two books were
  -- all drawn by it, no id rests in both, and neither book holds more orders than the limit that the
  -- actor was made with.
  pub calls-new :
      (limits : RiskLimits) (actor : ExecutionActor f) (cs : List Call)
      → new f limits ≡ some actor
      → length cs < u64_max
      → IsSound f (calls actor cs)
        × ((v : Variant) → outstanding f (calls actor cs) v ≤ limits.max_outstanding_quotes)
  calls-new limits actor cs h small =
      let (s, one, same) = new_lem limits actor h in
      let (sound, gate) = calls-IsSound actor cs s (omega (arith, one, small)) in
      (
        sound,
        λ v. omega (
          arith,
          (sound.lanes v).bounded,
          ap (λ g. g.limits.max_outstanding_quotes) gate,
          ap (λ l. l.max_outstanding_quotes) same,
        ),
      )
