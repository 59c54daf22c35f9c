-- ===== src/Replay/Walkforward/Tests.antt =====
-- Runs of the planner and the filters on concrete data, after tests/replay_walkforward.rs, and the
-- instances of the theorems about them.
use jev_trader.Prelude.{◌≡◌, refl, false, some, List, [], ◌∷◌, arith, All, ◌↔◌}
use jev_trader.Prelude.Int.{pos, checked_add, checked_sub, ◌+ℤ◌, ◌-ℤ◌, ◌<ℤ◌}
use jev_trader.Prelude.Results.{ok}
use jev_trader.Replay.Walkforward.{
  TemporalWindow, validate, MarketSpan, assign, try_plan_windows, purge_train, requires_gap_ms,
  apply_purge_embargo,
}
use jev_trader.Replay.Walkforward.Windows.{
  window, IsPlan, assign-IsOrdered, try_plan_windows-IsPlan,
}
use jev_trader.Replay.Walkforward.Purge.{IsUsable, IsUnusable, IsSplit, purge_train_lem}
use jev_trader.Replay.Walkforward.Embargo.{
  IsGap, IsFiltered, requires_gap_ms_iff, apply_purge_embargo_lem,
}

plan_is_two_windows :
    try_plan_windows (pos 40) (pos 10) (pos 5) (pos 20) (pos 1)
    ≡ some (ok (window (pos 10) (pos 5) (pos 1) 0 ∷ window (pos 10) (pos 5) (pos 21) 1 ∷ []))
unfolding try_plan_windows checked_add ◌+ℤ◌
plan_is_two_windows = refl

try_plan_windows-IsPlan_example :
    (ws : List TemporalWindow) × (try_plan_windows (pos 40) (pos 10) (pos 5) (pos 20) (pos 1)
      ≡ some (ok ws))
    × IsPlan (pos 40) (pos 10) (pos 5) (pos 20) (pos 1) 0 ws
try_plan_windows-IsPlan_example =
    try_plan_windows-IsPlan (pos 40) (pos 10) (pos 5) (pos 20) (pos 1) (omega arith) (omega arith)
      (omega arith) (omega arith) (omega arith) (omega arith)

abbrev first_window : TemporalWindow
first_window = record {
  name = "w00";
  train_start_ms = pos 1;
  train_end_ms = pos 11;
  test_start_ms = pos 11;
  test_end_ms = pos 16;
}

assign-IsOrdered_example : pos 10 <ℤ pos 11
unfolding assign validate
assign-IsOrdered_example = assign-IsOrdered first_window (pos 10) (pos 11) refl refl refl

abbrev early : MarketSpan
early = record { condition_id = "early"; info_start_ms = pos 100; resolution_ms = pos 900 }

abbrev late : MarketSpan
late = record { condition_id = "late"; info_start_ms = pos 100; resolution_ms = pos 950 }

late_is_purged :
    purge_train (early ∷ late ∷ []) (pos 1000) (pos 100)
    ≡ record { kept = early ∷ []; dropped = late ∷ [] }
unfolding purge_train checked_sub ◌-ℤ◌
late_is_purged = refl

purges_before_cut :
    let f = purge_train (early ∷ late ∷ []) (pos 1000) (pos 100) in
    All (IsUsable (pos 1000) (pos 100)) f.kept
    × All (IsUnusable (pos 1000) (pos 100)) f.dropped
    × IsSplit (early ∷ late ∷ []) f
purges_before_cut =
    purge_train_lem (early ∷ late ∷ []) (pos 1000) (pos 100) (omega arith) (omega arith)
      (omega arith) (omega arith)

needs_room :
    (requires_gap_ms (pos 1000) (pos 1060) (pos 100) ≡ false)
    ↔ IsGap (pos 1000) (pos 1060) (pos 100)
needs_room = requires_gap_ms_iff (pos 1000) (pos 1060) (pos 100) (omega arith) (omega arith)

apply_purge_embargo_lem_example :
    IsFiltered
      (early ∷ late ∷ [])
      (pos 1000)
      (pos 1100)
      (pos 100)
      (pos 50)
      (apply_purge_embargo (early ∷ late ∷ []) (pos 1000) (pos 1100) (pos 100) (pos 50))
apply_purge_embargo_lem_example =
    apply_purge_embargo_lem (early ∷ late ∷ []) (pos 1000) (pos 1100) (pos 100) (pos 50)
      (omega arith) (omega arith) (omega arith) (omega arith)
