-- ===== src/Polymarket/Book.antt =====
-- src/polymarket/book.rs: the local YES-side order book. A price is a number of micro-units and a
-- quantity a number of base units. `sort_unstable_by_key` is an insertion sort: the keys of a
-- side are distinct, so that every sort by them gives the same list.
pub mod Sides
pub mod Replay
pub mod Top
pub mod Digest
mod Tests
use mathlib.Core.Option
use jev_trader.Prelude.{
  ℕ, zero, suc, ◌+◌, ◌/◌, ◌≡◌, Bool, true, false, Option, none, some, List, [], ◌∷◌, ◌++◌, leb,
  ◌==◌, if◌then◌else◌, length, take, first, min,
}
use jev_trader.Prelude.Words

pub data BookSide : Type 0 where
  bid ask : BookSide

-- A price and a quantity.
abbrev pub Level : Type 0
Level = ℕ × ℕ

pub record OrderBook : Type 0 where
  pub bids : List Level
  pub asks : List Level
  pub stale : Bool

-- `OrderBook::default()`
abbrev pub empty_book : OrderBook
empty_book = record { bids = []; asks = []; stale = false }

-- `levels.iter().position(|(level_price, _)| *level_price == price)`
position : ℕ → List Level → Option ℕ
position price [] = none
position price ((k, v) ∷ levels) =
    if k == price then some 0 else Option.map suc (position price levels)

-- `levels.remove(index)`
remove : ℕ → List Level → List Level
remove i [] = []
remove zero (l ∷ levels) = levels
remove (suc i) (l ∷ levels) = l ∷ remove i levels

-- `levels[index].1 = quantity`
set_quantity : ℕ → ℕ → List Level → List Level
set_quantity i q [] = []
set_quantity zero q ((k, v) ∷ levels) = (k, q) ∷ levels
set_quantity (suc i) q (l ∷ levels) = l ∷ set_quantity i q levels

-- The first part of `set_level`: the change to the unsorted list.
write_level : List Level → ℕ → ℕ → List Level
unfolding position remove set_quantity
write_level levels price quantity = elim (position price levels) [
  | some i ↦ if quantity == 0 then remove i levels else set_quantity i quantity levels
  | none ↦ if quantity == 0 then levels else levels ++ (price, quantity) ∷ []
]

-- Whether a price may stand in front of another.
abbrev in_front : Bool → ℕ → ℕ → Bool
in_front true a b = leb b a
in_front false a b = leb a b

insert_sorted : Bool → Level → List Level → List Level
insert_sorted descending l [] = l ∷ []
insert_sorted descending l (m ∷ levels) =
    if in_front descending l.0 m.0 then l ∷ m ∷ levels else m ∷ insert_sorted descending l levels

sort_levels : Bool → List Level → List Level
unfolding insert_sorted
sort_levels descending [] = []
sort_levels descending (l ∷ levels) = insert_sorted descending l (sort_levels descending levels)

pub set_level : List Level → ℕ → ℕ → Bool → List Level
unfolding write_level sort_levels
set_level levels price quantity descending =
    sort_levels descending (write_level levels price quantity)

-- The loop of `normalize_levels`, from the levels set so far.
normalize_from : Bool → List Level → List Level → List Level
unfolding set_level
normalize_from descending normalized [] = normalized
normalize_from descending normalized ((price, quantity) ∷ levels) =
    normalize_from descending (set_level normalized price quantity descending) levels

pub normalize_levels : List Level → Bool → List Level
unfolding normalize_from
normalize_levels levels descending = normalize_from descending [] levels

unfoldable pub apply_snapshot : OrderBook → List Level → List Level → OrderBook
unfolding normalize_levels
apply_snapshot book bids asks = record {
  bids = normalize_levels bids true;
  asks = normalize_levels asks false;
  stale = false;
}

unfoldable pub apply_delta : OrderBook → BookSide → ℕ → ℕ → OrderBook
unfolding set_level
apply_delta book bid price quantity = record book { bids = set_level book.bids price quantity true }
apply_delta book ask price quantity = record book {
  asks = set_level book.asks price quantity false;
}

unfoldable pub mark_stale : OrderBook → OrderBook
mark_stale book = record book { stale = true }

abbrev pub best_bid : OrderBook → Option ℕ
best_bid book = Option.map (λ l. l.0) (first book.bids)

abbrev pub best_ask : OrderBook → Option ℕ
best_ask book = Option.map (λ l. l.0) (first book.asks)

infixl 5 ◌>>=◌
abbrev ◌>>=◌ : {A B : Type 0} → Option A → (A → Option B) → Option B
none >>= f = none
some a >>= f = f a

unfoldable pub spread_micros : OrderBook → Option ℕ
spread_micros book = do
  best_a ← best_ask book
  best_b ← best_bid book
  Words.checked_sub best_a best_b

unfoldable pub mid_micros : OrderBook → Option ℕ
mid_micros book = do best_b ← best_bid book; best_a ← best_ask book; some ((best_b + best_a) / 2)

flatten_levels : List Level → List ℕ
flatten_levels [] = []
flatten_levels ((price, quantity) ∷ levels) = price ∷ quantity ∷ flatten_levels levels

-- What `hash_top_levels` writes to the hasher.
hash_top_levels : List Level → List ℕ
unfolding flatten_levels
hash_top_levels levels = min (length levels) 5 ∷ flatten_levels (take 5 levels)

pub hash_input : OrderBook → List ℕ
unfolding hash_top_levels
hash_input book = hash_top_levels book.bids ++ hash_top_levels book.asks

-- The hasher of the standard library is a parameter: a function of what is written to it.
unfoldable pub book_hash : (List ℕ → ℕ) → OrderBook → ℕ
unfolding hash_input
book_hash hasher book = hasher (hash_input book)
