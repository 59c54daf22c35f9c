-- ===== src/Replay/Synchronizer.antt =====
-- src/replay/synchronizer.rs: the merge of the feeds' streams into one in order of event time, and the
-- look-up of the newest observation. The payloads of an event, which no operation here reads, are one
-- value of any type. A stream together with its index is what is left of it.
pub mod Sorting
pub mod Heads
pub mod Kinds
pub mod Merge
pub mod AsOf
mod Tests
use jev_trader.Prelude.{
  ℕ, zero, suc, ◌+◌, Bool, true, false, ◌&&◌, ◌||◌, Option, none, some, List, [], ◌∷◌, map,
  if◌then◌else◌, length, ltb,
}
use jev_trader.Prelude.Int.{ℤ, ltb_ℤ, leb_ℤ, eqb_ℤ}

module _ {ℓ} {A : Type ℓ} where
  -- `Vec::sort_by_key`, which is stable, by insertion.
  unfoldable pub insert_by_key : (A → ℤ) → A → List A → List A
  insert_by_key key x [] = x ∷ []
  insert_by_key key x (y ∷ ys) =
      let rest = insert_by_key key x ys in if leb_ℤ (key x) (key y) then x ∷ y ∷ ys else y ∷ rest

  unfoldable pub sort_by_key : (A → ℤ) → List A → List A
  sort_by_key key [] = []
  sort_by_key key (x ∷ xs) = insert_by_key key x (sort_by_key key xs)

  -- The newest observation that is not after a time: the last before the first that is.
  unfoldable pub as_of_from : Option A → List (ℤ × A) → ℤ → Option A
  as_of_from best [] t = best
  as_of_from best ((ts, v) ∷ history) t =
      let rest = as_of_from (some v) history t in if leb_ℤ ts t then rest else best

  unfoldable pub as_of_backward : List (ℤ × A) → ℤ → Option A
  as_of_backward history t = as_of_from none history t

module _ (D : Type 0) where
  pub data HistoricalEvent : Type 0 where
    poly_trade underlying_tick poly_top : ℤ → D → HistoricalEvent

  abbrev pub ts_ms : HistoricalEvent → ℤ
  ts_ms (poly_trade t d) = t
  ts_ms (underlying_tick t d) = t
  ts_ms (poly_top t d) = t

  abbrev pub rank : HistoricalEvent → ℕ
  rank (underlying_tick t d) = 0
  rank (poly_top t d) = 1
  rank (poly_trade t d) = 2

  -- `(ts, rank) < (bts, brank)`
  unfoldable pub is_before : HistoricalEvent → HistoricalEvent → Bool
  is_before e b = ltb_ℤ (ts_ms e) (ts_ms b) || eqb_ℤ (ts_ms e) (ts_ms b) && ltb (rank e) (rank b)

  -- The best head of the streams from one on, and the index of its stream.
  unfoldable pub best_head :
      Option (HistoricalEvent × ℕ) → ℕ → List (List HistoricalEvent) → Option (HistoricalEvent × ℕ)
  best_head best si [] = best
  best_head best si ([] ∷ streams) = best_head best (suc si) streams
  best_head none si ((e ∷ s) ∷ streams) = best_head (some (e, si)) (suc si) streams
  best_head (some (b, bi)) si ((e ∷ s) ∷ streams) =
      best_head (if is_before e b then some (e, si) else some (b, bi)) (suc si) streams

  -- `idx[si] += 1`
  unfoldable pub advance : ℕ → List (List HistoricalEvent) → List (List HistoricalEvent)
  advance si [] = []
  advance zero ([] ∷ streams) = [] ∷ streams
  advance zero ((e ∷ s) ∷ streams) = s ∷ streams
  advance (suc si) (s ∷ streams) = s ∷ advance si streams

  -- One event in global order, with its time.
  abbrev pub SynchronizedEvent : Type 0
  SynchronizedEvent = ℤ × HistoricalEvent

  -- The loop, on fuel.
  unfoldable pub merge_loop : ℕ → List (List HistoricalEvent) → List SynchronizedEvent
  merge_loop zero streams = []
  merge_loop (suc fuel) streams = elim (best_head none 0 streams) [
    | none ↦ []
    | some (e, si) ↦ (ts_ms e, e) ∷ merge_loop fuel (advance si streams)
  ]

  abbrev pub total : List (List HistoricalEvent) → ℕ
  total [] = 0
  total (s ∷ streams) = length s + total streams

  -- Each round takes one event, so as many rounds as there are events, and one, are enough.
  unfoldable pub merge : List (List HistoricalEvent) → List SynchronizedEvent
  merge streams =
      let sorted = map (sort_by_key ts_ms) streams in merge_loop (suc (total sorted)) sorted
