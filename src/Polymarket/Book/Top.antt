-- ===== src/Polymarket/Book/Top.antt =====
-- src/polymarket/book.rs: the best prices of a valid book, its spread and its midpoint.
use mathlib.Core.Option
use jev_trader.Prelude.{
  ℕ, ◌+◌, ◌*◌, ◌/◌, ◌≤◌, ◌<◌, ◌≡◌, refl, ◌⊎◌, inl, inr, Bool, true, false, Option, none, some, List,
  [], ◌∷◌, Option-cases, arith, All, first,
}
use jev_trader.Polymarket.Book.{
  Level, OrderBook, bid, ask, best_bid, best_ask, spread_micros, mid_micros,
}
use jev_trader.Polymarket.Book.Sides.{depth, Precedes, IsSide}
use jev_trader.Polymarket.Book.Replay.{IsValid, shows}

-- What it means for a price to be the first of a side.
abbrev IsFirst : Bool → List Level → Option ℕ → Type 0
IsFirst b levels none = (p : ℕ) → depth p levels ≡ 0
IsFirst b levels (some p) =
    (0 < depth p levels) × ((x : ℕ) → 0 < depth x levels → (x ≡ p) ⊎ Precedes b p x)

depth_after :
    (b : Bool) (p x : ℕ) (levels : List Level)
    → All (λ m. Precedes b p m.0) levels
    → 0 < depth x levels
    → Precedes b p x
depth_after b p x [] h d = absurd (omega arith)
depth_after true p x ((k, v) ∷ levels) h d = ground (arith, depth_after true p x levels h.1)
depth_after false p x ((k, v) ∷ levels) h d = ground (arith, depth_after false p x levels h.1)

first-IsFirst :
    (b : Bool) (levels : List Level)
    → IsSide b levels
    → IsFirst b levels (Option.map (λ l. l.0) (first levels))
first-IsFirst b [] s = λ p. refl
first-IsFirst true ((k, v) ∷ levels) s =
    (ground (arith, s.positive.0), λ x h. ground (arith, depth_after true k x levels s.ordered.0))
first-IsFirst false ((k, v) ∷ levels) s =
    (ground (arith, s.positive.0), λ x h. ground (arith, depth_after false k x levels s.ordered.0))

-- What `best_bid` and `best_ask` may say of a book.
abbrev pub IsBestBid : OrderBook → Option ℕ → Type 0
IsBestBid book none = (p : ℕ) → shows book bid p ≡ 0
IsBestBid book (some b) = (0 < shows book bid b) × ((p : ℕ) → 0 < shows book bid p → p ≤ b)

abbrev pub IsBestAsk : OrderBook → Option ℕ → Type 0
IsBestAsk book none = (p : ℕ) → shows book ask p ≡ 0
IsBestAsk book (some a) = (0 < shows book ask a) × ((p : ℕ) → 0 < shows book ask p → a ≤ p)

first-IsBestBid : (book : OrderBook) (o : Option ℕ) → IsFirst true book.bids o → IsBestBid book o
first-IsBestBid book none f = f
first-IsBestBid book (some p) f = (f.0, λ x h. ground (arith, f.1 x h))

first-IsBestAsk : (book : OrderBook) (o : Option ℕ) → IsFirst false book.asks o → IsBestAsk book o
first-IsBestAsk book none f = f
first-IsBestAsk book (some p) f = (f.0, λ x h. ground (arith, f.1 x h))

-- On a valid book `best_bid` is the greatest price with a bid and `best_ask` the least price with an
-- ask; each is `none` exactly when its side shows nothing.
pub best_prices :
    (book : OrderBook)
    → IsValid book
    → IsBestBid book (best_bid book) × IsBestAsk book (best_ask book)
best_prices book v = (
  first-IsBestBid book (best_bid book) (first-IsFirst true book.bids v.bids_side),
  first-IsBestAsk book (best_ask book) (first-IsFirst false book.asks v.asks_side),
)

spread_micros-some :
    (book : OrderBook) (s : ℕ)
    → spread_micros book ≡ some s
    → (b : ℕ) × (a : ℕ) × (best_bid book ≡ some b) × (best_ask book ≡ some a) × (a ≡ b + s)
unfolding spread_micros
spread_micros-some book s h = elim (Option-cases (best_bid book)) [
  | inl e ↦ absurd (ground (arith, Option-cases (best_ask book)))
  | inr (b, e) ↦ elim (Option-cases (best_ask book)) [
    | inl e' ↦ absurd (ground arith)
    | inr (a, e') ↦ (b, a, e, e', ground arith)
  ]
]

-- On a valid book a reported spread is a true gap: some bid and some ask are shown just that far
-- apart, and every bid shown lies at least that far below every ask shown.
pub spread_micros_lem :
    (book : OrderBook) (s : ℕ)
    → IsValid book
    → spread_micros book ≡ some s
    → ((b : ℕ) × (0 < shows book bid b) × (0 < shows book ask (b + s)))
      × ((p x : ℕ) → 0 < shows book bid p → 0 < shows book ask x → p + s ≤ x)
spread_micros_lem book s v h =
    let (b, a, eb, ea, gap) = spread_micros-some book s h in
    let (l, r) = best_prices book v in
    let bids : IsBestBid book (some b) = rw eb at l in
    let asks : IsBestAsk book (some a) = rw ea at r in
    ((b, bids.0, rw (← gap) asks.0), λ p x hp hx. omega (arith, bids.1 p hp, asks.1 x hx))

-- On a valid book with a spread, the midpoint exists and separates the book: no bid shown is above
-- it and no ask shown below it, and it is the exact middle of the best prices, rounded down.
pub mid_micros_lem :
    (book : OrderBook) (s : ℕ)
    → IsValid book
    → spread_micros book ≡ some s
    → (m : ℕ) × (mid_micros book ≡ some m)
      × ((p : ℕ) → 0 < shows book bid p → p ≤ m)
      × ((x : ℕ) → 0 < shows book ask x → m ≤ x)
      × ((b a : ℕ)
          → best_bid book ≡ some b
          → best_ask book ≡ some a
          → (m * 2 ≤ b + a) × (b + a ≤ m * 2 + 1))
unfolding mid_micros
mid_micros_lem book s v h =
    let (b, a, eb, ea, gap) = spread_micros-some book s h in
    let (l, r) = best_prices book v in
    let bids : IsBestBid book (some b) = rw eb at l in
    let asks : IsBestAsk book (some a) = rw ea at r in
    (
      (b + a) / 2,
      ground arith,
      λ p hp. omega (arith, bids.1 p hp),
      λ x hx. omega (arith, asks.1 x hx),
      λ b' a' eb' ea'. ground arith,
    )
