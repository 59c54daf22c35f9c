-- ===== src/Engine/Pipeline/Maker.antt =====
-- src/engine/pipeline.rs and src/strategy/quote.rs: a quote never takes liquidity.
use jev_trader.Prelude.{
  ℕ, ◌+◌, ◌*◌, ◌%◌, ◌≤◌, ◌<◌, ◌≡◌, refl, sym, ◌∙◌, ap, ◌⊎◌, inl, inr, Bool, true, false, ◌||◌, some,
  leb, ltb, ◌==◌, arith, Bool-cases, Option-cases,
}
use mathlib.Core.Option.{some-injective}
use jev_trader.Prelude.F64.{F64}
use jev_trader.Domain.Events.{buy}
use jev_trader.Config.{QuoteThresholds}
use jev_trader.Polymarket.Book.{OrderBook, bid, ask, best_bid, best_ask}
use jev_trader.Polymarket.Book.Replay.{IsValid, shows}
use jev_trader.Polymarket.Book.Top.{IsBestBid, IsBestAsk, best_prices}
use jev_trader.Strategy.LeadLag.{V1Signal, should_quote}
use jev_trader.Strategy.Quote.{QuoteIntent, intent_of, decide_quote, round_up_to_tick}
use jev_trader.Engine.Pipeline.{
  size_zero, stale_book, missing_bid, missing_ask, invalid_candidate, strategy_rejected, Outcome,
  quote, skip, DecisionInput, candidate_maker_price, candidate_of, tick_micros, decide_at, decide,
}
use jev_trader.Engine.Pipeline.Candidate.{
  round_up_lem, IsExact, candidate, candidate_of-candidate, tick_micros-IsExact,
}

module _ (f : F64) where
  round_up_to_tick-multiple : (b tick p : ℕ) → round_up_to_tick f b tick ≡ some p → p % tick ≡ 0
  unfolding round_up_to_tick
  round_up_to_tick-multiple b tick p h = ground arith

  -- What a quote of the strategy rests on.
  abbrev pub IsPassive :
      V1Signal f → OrderBook → QuoteThresholds f → Bool → ℕ → ℕ → QuoteIntent → Type 0
  IsPassive signal book thresholds stale tick size intent =
      (0 < size)
      × (stale ≡ false)
      × (book.stale ≡ false)
      × (should_quote f signal thresholds ≡ true)
      × (intent.side ≡ buy)
      × (intent.size ≡ size)
      × (intent.price % tick ≡ 0)
      × ((a : ℕ) × (best_ask book ≡ some a) × (intent.price < a))

  decide_quote-IsPassive :
      (signal : V1Signal f) (book : OrderBook) (thresholds : QuoteThresholds f) (stale : Bool)
      (tick size : ℕ) (intent : QuoteIntent)
      → decide_quote f signal book thresholds stale tick size ≡ some intent
      → IsPassive signal book thresholds stale tick size intent
  unfolding decide_quote
  decide_quote-IsPassive signal book thresholds stale tick size intent h =
      elim (Bool-cases (size == 0 || stale || book.stale)) [
        | inl blocked ↦ absurd (ground arith)
        | inr open_book ↦ elim (Bool-cases (should_quote f signal thresholds)) [
          | inr weak ↦ absurd (ground arith)
          | inl strong ↦ elim (Option-cases (best_bid book)) [
            | inl no_bid ↦ absurd (ground arith)
            | inr (b, has_bid) ↦ elim (Option-cases (best_ask book)) [
              | inl no_ask ↦ absurd (ground arith)
              | inr (a, has_ask) ↦ elim (Option-cases (round_up_to_tick f b tick)) [
                | inl no_price ↦ absurd (ground arith)
                | inr (p, has_price) ↦
                    let multiple = round_up_to_tick-multiple b tick p has_price in
                    elim (Bool-cases (ltb p a)) [
                      | inr crossing ↦ absurd (ground arith)
                      | inl below ↦
                          let made : some (intent_of f p size) ≡ some intent =
                            rw (open_book, strong, has_bid, has_ask, has_price, below, decide_quote)
                              at h in
                          let same = some-injective _ _ made in
                          (
                            ground arith,
                            ground arith,
                            ground arith,
                            strong,
                            ap (λ i. i.side) (sym same),
                            ap (λ i. i.size) (sym same),
                            rw (← same) multiple,
                            (a, has_ask, rw (← same) (ground arith)),
                          )
                    ]
              ]
            ]
          ]
        ]
      ]

  -- What is true when a decision is taken at a candidate and a best ask.
  abbrev DecidedAt : DecisionInput f → ℕ → Outcome → Type 0
  DecidedAt input price (skip reason) = (reason ≡ invalid_candidate) ⊎ (reason ≡ strategy_rejected)
  DecidedAt input price (quote i) =
      IsPassive input.signal input.market.book input.thresholds input.market.stale input.tick_size
        input.size i
      × (i.price ≡ price)

  decide_at-DecidedAt :
      (input : DecisionInput f) (price a : ℕ) → DecidedAt input price (decide_at f input price a)
  unfolding decide_at
  decide_at-DecidedAt input price a =
      let made =
        decide_quote f input.signal input.market.book input.thresholds input.market.stale
          input.tick_size input.size in
      elim (Bool-cases (leb a price)) [
        | inl crossing ↦ rw crossing (inl refl)
        | inr below ↦ elim (Option-cases made) [
          | inl nothing ↦ rw (below, nothing, decide_at) (inr refl)
          | inr (i, some_intent) ↦
              let passive = decide_quote-IsPassive _ _ _ _ _ _ i some_intent in
              elim (Bool-cases (i.price == price)) [
                | inl agree ↦ rw (below, some_intent, agree, decide_at) (passive, ground arith)
                | inr differ ↦ rw (below, some_intent, differ, decide_at) (inl refl)
              ]
        ]
      ]

  -- What a decision says of the market that it was taken on.
  abbrev pub Decided : DecisionInput f → Outcome → Type 0
  Decided input (skip size_zero) = input.size ≡ 0
  Decided input (skip stale_book) = (input.market.stale || input.market.book.stale) ≡ true
  Decided input (skip missing_bid) = (x : ℕ) → shows input.market.book bid x ≡ 0
  Decided input (skip missing_ask) = (x : ℕ) → shows input.market.book ask x ≡ 0
  Decided input (skip invalid_candidate) = Unit
  Decided input (skip strategy_rejected) = Unit
  Decided input (skip _) = ⊥
  Decided input (quote i) =
      IsPassive input.signal input.market.book input.thresholds input.market.stale input.tick_size
        input.size i
      × ((x : ℕ) → 0 < shows input.market.book ask x → i.price < x)
      × ((x : ℕ) → 0 < shows input.market.book bid x → x + input.tick_size ≤ i.price)
      × ((b : ℕ) × (0 < shows input.market.book bid b) × (i.price < b + 2 * input.tick_size))

  candidate-bounds :
      (b tick price : ℕ)
      → 0 < tick
      → candidate f b tick ≡ some price
      → (b + tick ≤ price) × (price < b + 2 * tick)
  candidate-bounds b tick price positive h = ground (arith, round_up_lem (b + tick) tick positive)

  Decided-DecidedAt :
      (input : DecisionInput f) (b a price : ℕ) (outcome : Outcome)
      → IsValid input.market.book
      → best_bid input.market.book ≡ some b
      → best_ask input.market.book ≡ some a
      → 0 < input.tick_size
      → candidate f b input.tick_size ≡ some price
      → DecidedAt input price outcome
      → Decided input outcome
  Decided-DecidedAt input b a price (skip reason) v has_bid has_ask positive h d = elim d [
    | inl invalid ↦ rw invalid tt
    | inr rejected ↦ rw rejected tt
  ]
  Decided-DecidedAt input b a price (quote i) v has_bid has_ask positive h (passive, agree) =
      let (best_b, best_a) = best_prices input.market.book v in
      let bids : IsBestBid input.market.book (some b) = rw has_bid at best_b in
      let asks : IsBestAsk input.market.book (some a) = rw has_ask at best_a in
      let (low, high) = candidate-bounds b input.tick_size price positive h in
      let (ask_price, shown, below) = passive.7 in
      let same = some-injective _ _ (sym shown ∙ has_ask) in
      (
        passive,
        (λ x k. omega (arith, asks.1 x k, below, same)),
        (λ x k. omega (arith, bids.1 x k, low, agree)),
        (b, bids.0, omega (arith, high, agree)),
      )

  candidate_maker_price-some :
      (book : OrderBook) (b tick : ℕ)
      → best_bid book ≡ some b
      → candidate_maker_price f book tick ≡ candidate_of f b (tick_micros f tick)
  unfolding candidate_maker_price
  candidate_maker_price-some book b tick h = rw (h, candidate_maker_price) refl

  -- On a valid book of prices of at most one, with a tick of at most one, a decision is always taken,
  -- without a panic. A quote is a passive purchase of the size that was asked for, on a trusted book
  -- and by the strategy's rule, at a multiple of the tick: below every ask that is shown, at least one
  -- tick over every bid and less than two over the best. A skip for want of a size, of trust, of a bid
  -- or of an ask gives its true reason.
  pub decide-Decided :
      IsExact f
      → (input : DecisionInput f) → IsValid input.market.book
      → ((x : ℕ) → 0 < shows input.market.book bid x → x ≤ 1000000)
      → 0 < input.tick_size
      → input.tick_size ≤ 1000000
      → (outcome : Outcome) × (decide f input ≡ some outcome) × Decided input outcome
  unfolding decide
  decide-Decided exact input v small positive small_tick =
      let book = input.market.book in
      let (best_b, best_a) = best_prices book v in
      elim (Bool-cases (input.size == 0)) [
        | inl empty ↦ (skip size_zero, rw empty refl, ground arith)
        | inr sized ↦ elim (Bool-cases (input.market.stale || book.stale)) [
          | inl old ↦ (skip stale_book, rw (sized, old) refl, old)
          | inr trusted ↦ elim (Option-cases (best_bid book)) [
            | inl no_bid ↦ (skip missing_bid, rw (sized, trusted, no_bid) refl, rw no_bid at best_b)
            | inr (b, has_bid) ↦
                let bids : IsBestBid book (some b) = rw has_bid at best_b in
                elim (Option-cases (best_ask book)) [
                  | inl no_ask ↦ (
                    skip missing_ask,
                    rw (sized, trusted, has_bid, no_ask) refl,
                    rw no_ask at best_a,
                  )
                  | inr (a, has_ask) ↦
                      let tick = tick_micros-IsExact f exact input.tick_size small_tick in
                      let found =
                        candidate_of-candidate f exact b input.tick_size (small b bids.0) small_tick
                          positive in
                      let priced : candidate_maker_price f book input.tick_size
                          ≡ some (candidate f b input.tick_size) =
                        candidate_maker_price-some book b input.tick_size has_bid
                        ∙ ap (candidate_of f b) tick
                        ∙ found in
                      elim (Option-cases (candidate f b input.tick_size)) [
                        | inl none_fits ↦ (
                          skip invalid_candidate,
                          rw (sized, trusted, has_bid, has_ask, priced, none_fits, decide) refl,
                          tt,
                        )
                        | inr (price, fits) ↦ (
                          decide_at f input price a,
                          rw (sized, trusted, has_bid, has_ask, priced, fits, decide) refl,
                          Decided-DecidedAt input b a price (decide_at f input price a) v has_bid
                              has_ask positive fits (decide_at-DecidedAt input price a),
                        )
                      ]
                ]
          ]
        ]
      ]
