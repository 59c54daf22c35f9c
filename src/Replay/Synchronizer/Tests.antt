-- ===== src/Replay/Synchronizer/Tests.antt =====
-- Runs on concrete streams, after the tests of src/replay/synchronizer.rs, and the instances of the
-- theorems.
use Prim.Native.String.{String}
use mathlib.Core.List.{Perm}
use jev_trader.Prelude.{ℕ, ◌≡◌, refl, inl, inr, none, some, List, [], ◌∷◌, filter, arith, All}
use jev_trader.Prelude.Int.{ℤ, pos, leb_ℤ}
use jev_trader.Replay.Synchronizer.{
  HistoricalEvent, poly_trade, underlying_tick, ts_ms, merge, merge_loop, best_head, is_before,
  advance, sort_by_key, insert_by_key, as_of_backward, as_of_from,
}
use jev_trader.Replay.Synchronizer.Heads.{flatten}
use jev_trader.Replay.Synchronizer.Sorting.{IsOrdered}
use jev_trader.Replay.Synchronizer.Kinds.{NoLater, GoesFirst}
use jev_trader.Replay.Synchronizer.Merge.{events, merge_lem, merge_kinds}
use jev_trader.Replay.Synchronizer.AsOf.{last_or, as_of_backward-last}

abbrev streams : List (List (HistoricalEvent ℕ))
streams =
    (poly_trade (pos 3) 1 ∷ poly_trade (pos 2) 2 ∷ [])
    ∷ (underlying_tick (pos 1) 3 ∷ underlying_tick (pos 2) 4 ∷ [])
    ∷ []

merges_by_time :
    merge ℕ streams
    ≡ (pos 1, underlying_tick (pos 1) 3)
      ∷ (pos 2, underlying_tick (pos 2) 4)
      ∷ (pos 2, poly_trade (pos 2) 2)
      ∷ (pos 3, poly_trade (pos 3) 1)
      ∷ []
unfolding merge merge_loop best_head is_before advance sort_by_key insert_by_key
merges_by_time = refl

-- A stream that mixes the kinds keeps its own order at the same time: the trade comes first.
keeps_mixed_stream :
    events ℕ (merge ℕ ((poly_trade (pos 5) 1 ∷ underlying_tick (pos 5) 2 ∷ []) ∷ []))
    ≡ poly_trade (pos 5) 1 ∷ underlying_tick (pos 5) 2 ∷ []
unfolding merge merge_loop best_head is_before advance sort_by_key insert_by_key
keeps_mixed_stream = refl

merge_lem_example :
    Perm (events ℕ (merge ℕ streams)) (flatten streams)
    × IsOrdered (NoLater ℕ) (events ℕ (merge ℕ streams))
    × All (λ e. e.0 ≡ ts_ms ℕ e.1) (merge ℕ streams)
merge_lem_example = merge_lem ℕ streams

merge_kinds_example : IsOrdered (GoesFirst ℕ) (events ℕ (merge ℕ streams))
merge_kinds_example = merge_kinds ℕ streams (inr (inr (tt, (tt, tt))), (inl (tt, (tt, tt)), tt))

abbrev history : List (ℤ × String)
history = (pos 10, "a") ∷ (pos 20, "b") ∷ (pos 30, "c") ∷ []

finds_nothing_early : as_of_backward history (pos 5) ≡ none
unfolding as_of_backward as_of_from
finds_nothing_early = refl

finds_latest : as_of_backward history (pos 25) ≡ some "b"
unfolding as_of_backward as_of_from
finds_latest = refl

as_of_backward-last_example :
    as_of_backward history (pos 25) ≡ last_or none (filter (λ e. leb_ℤ e.0 (pos 25)) history)
as_of_backward-last_example =
    as_of_backward-last history (pos 25)
      ((omega arith, (omega arith, tt)), ((omega arith, tt), (tt, tt)))
