-- ===== src/Polymarket/Book/Tests.antt =====
-- Runs of the order book on concrete data, after the tests of src/polymarket/book.rs, and the
-- instances of the theorems about it.
use jev_trader.Prelude.{
  ℕ, ◌+◌, ◌*◌, ◌≤◌, ◌<◌, ◌≡◌, refl, inr, true, false, some, [], ◌∷◌, arith, ◌==◌, if◌then◌else◌,
  ◌↔◌,
}
use jev_trader.Polymarket.Book.{
  OrderBook, BookSide, bid, ask, empty_book, set_level, normalize_levels, apply_snapshot,
  apply_delta, best_bid, best_ask, spread_micros, mid_micros, hash_input,
}
use jev_trader.Polymarket.Book.Sides.{depth, IsSide, set_level_lem}
use jev_trader.Polymarket.Book.Replay.{
  IsValid, shows, same_side, last_quantity, normalize_levels-ext, apply_delta_lem,
  apply_snapshot_lem, apply_delta_comm,
}
use jev_trader.Polymarket.Book.Top.{
  IsBestBid, IsBestAsk, best_prices, spread_micros_lem, mid_micros_lem,
}
use jev_trader.Polymarket.Book.Digest.{top_five, hash_input_iff}

abbrev book : OrderBook
book = record {
  bids = (450000, 5) ∷ (400000, 4) ∷ [];
  asks = (550000, 7) ∷ (600000, 6) ∷ [];
  stale = false;
}

snapshot_sorts :
    apply_snapshot empty_book ((400000, 4) ∷ (450000, 5) ∷ []) ((600000, 6) ∷ (550000, 7) ∷ [])
    ≡ book
unfolding apply_snapshot
snapshot_sorts = refl

delta_removes : (apply_delta book bid 450000 0).bids ≡ (400000, 4) ∷ []
unfolding apply_delta
delta_removes = refl

book-IsValid : IsValid book
book-IsValid = record {
  bids_side = record { ordered = ((omega arith, tt), (tt, tt)); positive = omega arith };
  asks_side = record { ordered = ((omega arith, tt), (tt, tt)); positive = omega arith };
}

set_level_lem_example :
    IsSide true (set_level book.bids 420000 9 true)
    × ((x : ℕ)
        → depth x (set_level book.bids 420000 9 true)
          ≡ (if 420000 == x then 9 else depth x book.bids))
set_level_lem_example = set_level_lem true book.bids 420000 9 book-IsValid.bids_side

same_levels : normalize_levels ((3, 1) ∷ (3, 2) ∷ []) true ≡ normalize_levels ((3, 2) ∷ []) true
same_levels = normalize_levels-ext ((3, 1) ∷ (3, 2) ∷ []) ((3, 2) ∷ []) true (λ p. ground arith)

removes_ask :
    IsValid (apply_delta book ask 550000 0)
    × ((apply_delta book ask 550000 0).stale ≡ false)
    × ((s : BookSide) (p : ℕ)
        → shows (apply_delta book ask 550000 0) s p
          ≡ (if same_side ask s then if 550000 == p then 0 else shows book s p else shows book s p))
removes_ask = apply_delta_lem book ask 550000 0 book-IsValid

apply_snapshot_lem_example :
    let after = apply_snapshot book ((3, 1) ∷ []) [] in
    IsValid after
    × (after.stale ≡ false)
    × ((p : ℕ) → shows after bid p ≡ last_quantity p 0 ((3, 1) ∷ []))
    × ((p : ℕ) → shows after ask p ≡ last_quantity p 0 [])
apply_snapshot_lem_example = apply_snapshot_lem book ((3, 1) ∷ []) []

apply_delta_comm_example :
    apply_delta (apply_delta book bid 450000 0) bid 460000 8
    ≡ apply_delta (apply_delta book bid 460000 8) bid 450000 0
apply_delta_comm_example =
    apply_delta_comm book bid bid 450000 460000 0 8 book-IsValid (inr (omega arith))

best_prices_example : IsBestBid book (best_bid book) × IsBestAsk book (best_ask book)
best_prices_example = best_prices book book-IsValid

spreads_apart :
    ((b : ℕ) × (0 < shows book bid b) × (0 < shows book ask (b + 100000)))
    × ((p x : ℕ) → 0 < shows book bid p → 0 < shows book ask x → p + 100000 ≤ x)
unfolding spread_micros
spreads_apart = spread_micros_lem book 100000 book-IsValid refl

mid_micros_lem_example :
    (m : ℕ) × (mid_micros book ≡ some m)
    × ((p : ℕ) → 0 < shows book bid p → p ≤ m)
    × ((x : ℕ) → 0 < shows book ask x → m ≤ x)
    × ((b a : ℕ)
        → best_bid book ≡ some b
        → best_ask book ≡ some a
        → (m * 2 ≤ b + a) × (b + a ≤ m * 2 + 1))
unfolding spread_micros
mid_micros_lem_example = mid_micros_lem book 100000 book-IsValid refl

hash_input_iff_example :
    (hash_input book ≡ hash_input empty_book) ↔ (top_five book ≡ top_five empty_book)
hash_input_iff_example = hash_input_iff book empty_book
