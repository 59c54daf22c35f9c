-- ===== src/State/PolyHistory.antt =====
-- src/state/poly_history.rs: the mid-price history and its look-ups.
pub mod Lookup
mod Tests
use jev_trader.Prelude.{
  ℕ, zero, suc, ◌-◌, Bool, Option, none, some, List, [], ◌∷◌, ltb, leb, ◌==◌, if◌then◌else◌, length,
}

pub record PolyMid : Type 0 where
  pub ts_ms : ℕ
  pub mid : ℕ

pub record PolyHistoricalPrices : Type 0 where
  pub price_1s_ago : Option ℕ
  pub price_5s_ago : Option ℕ
  pub price_30s_ago : Option ℕ

pub record PolyHistory : Type 0 where
  pub samples : List PolyMid
  pub capacity : ℕ

unfoldable pub new : ℕ → PolyHistory
new capacity = record { samples = []; capacity = if capacity == 0 then 1 else capacity }

-- The new sample goes before, or in the place of, the first one that is not older.
pub insert_sample : PolyMid → List PolyMid → List PolyMid
insert_sample sample [] = sample ∷ []
insert_sample sample (existing ∷ samples) =
    let rest = insert_sample sample samples in
    if leb sample.ts_ms existing.ts_ms
    then if existing.ts_ms == sample.ts_ms then sample ∷ samples else sample ∷ existing ∷ samples
    else existing ∷ rest

-- `while self.samples.len() > self.capacity`
pub evict : ℕ → List PolyMid → List PolyMid
evict capacity [] = []
evict capacity (sample ∷ samples) =
    let rest = evict capacity samples in
    if ltb capacity (suc (length samples)) then rest else sample ∷ samples

unfoldable pub push : PolyHistory → ℕ → ℕ → PolyHistory
unfolding insert_sample evict
push history ts_ms mid = record history {
  samples =
      evict history.capacity (insert_sample (record { ts_ms = ts_ms; mid = mid }) history.samples);
}

-- The last sample of a list that is no later than the target: the first one that the reversed
-- iteration meets.
pub find_last : ℕ → List PolyMid → Option ℕ
find_last target [] = none
find_last target (sample ∷ samples) = elim (find_last target samples) [
  | some mid ↦ some mid
  | none ↦ if leb sample.ts_ms target then some sample.mid else none
]

unfoldable pub last_known_at_or_before : PolyHistory → ℕ → Option ℕ
unfolding find_last
last_known_at_or_before history target_ts_ms = find_last target_ts_ms history.samples

-- `as_of_ts_ms.saturating_sub(horizon_ms)` is the subtraction of natural numbers.
unfoldable pub price_ago : PolyHistory → ℕ → ℕ → Option ℕ
unfolding last_known_at_or_before
price_ago history as_of_ts_ms horizon_ms =
    last_known_at_or_before history (as_of_ts_ms - horizon_ms)

unfoldable pub historical_prices : PolyHistory → ℕ → PolyHistoricalPrices
unfolding price_ago
historical_prices history as_of_ts_ms = record {
  price_1s_ago = price_ago history as_of_ts_ms 1000;
  price_5s_ago = price_ago history as_of_ts_ms 5000;
  price_30s_ago = price_ago history as_of_ts_ms 30000;
}
