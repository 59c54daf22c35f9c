-- ===== src/Polymarket/Book/Digest.antt =====
-- src/polymarket/book.rs, `book_hash`: what the hash of a book depends on.
use jev_trader.Prelude.{
  ℕ, zero, suc, ◌≡◌, refl, List, [], ◌∷◌, ◌++◌, arith, length, take, ap, min, ◌↔◌,
}
use jev_trader.Polymarket.Book.{Level, OrderBook, flatten_levels, hash_top_levels, hash_input}

-- The top five levels of each side.
abbrev pub top_five : OrderBook → List Level × List Level
top_five book = (take 5 book.bids, take 5 book.asks)

length-take : (n : ℕ) (xs : List Level) → length (take n xs) ≡ min n (length xs)
length-take zero xs = omega arith
length-take (suc n) [] = omega arith
length-take (suc n) (x ∷ xs) = omega (arith, length-take n xs)

flatten-append-injective :
    (xs ys : List Level) (r s : List ℕ)
    → length xs ≡ length ys
    → flatten_levels xs ++ r ≡ flatten_levels ys ++ s
    → (xs ≡ ys) × (r ≡ s)
unfolding flatten_levels
flatten-append-injective [] [] r s h e = (refl, e)
flatten-append-injective [] (y ∷ ys) r s h e = absurd (omega arith)
flatten-append-injective (x ∷ xs) [] r s h e = absurd (omega arith)
flatten-append-injective ((p, q) ∷ xs) ((p', q') ∷ ys) r s h e =
    let (a, b) = flatten-append-injective xs ys r s (omega arith) (ground arith) in
    (ground arith, b)

hash_top_levels-injective :
    (xs ys : List Level) (r s : List ℕ)
    → hash_top_levels xs ++ r ≡ hash_top_levels ys ++ s
    → (take 5 xs ≡ take 5 ys) × (r ≡ s)
unfolding hash_top_levels
hash_top_levels-injective xs ys r s e =
    flatten-append-injective (take 5 xs) (take 5 ys) r s
      (ground (arith, length-take 5 xs, length-take 5 ys)) (ground arith)

hash_top_levels-congr :
    (xs ys : List Level) → take 5 xs ≡ take 5 ys → hash_top_levels xs ≡ hash_top_levels ys
unfolding hash_top_levels
hash_top_levels-congr xs ys e =
    let n : min (length xs) 5 ≡ min (length ys) 5 =
      omega (arith, length-take 5 xs, length-take 5 ys, ap length e) in
    λ i. n i ∷ flatten_levels (e i)

-- Two books write the same to the hasher exactly when their top five levels agree on both sides: the
-- written lengths keep the sides apart, and deeper levels and the stale flag are not written.
pub hash_input_iff : (a b : OrderBook) → (hash_input a ≡ hash_input b) ↔ (top_five a ≡ top_five b)
unfolding hash_input
hash_input_iff a b = (
  λ e.
      let (x, y) = hash_top_levels-injective a.bids b.bids _ _ e in
      let (z, w) = hash_top_levels-injective a.asks b.asks [] [] (ap (λ l. l ++ []) y) in
      λ i. (x i, z i),
  λ e i.
      hash_top_levels-congr a.bids b.bids (ap (λ t. t.0) e) i
      ++ hash_top_levels-congr a.asks b.asks (ap (λ t. t.1) e) i,
)
