-- ===== src/Replay/Walkforward.antt =====
-- src/replay/walkforward.rs: temporal windows, and the filters that keep labels from leaking between
-- them. A time is an `i64` of milliseconds; an error is named for its message.
pub mod Windows
pub mod Purge
pub mod Embargo
mod Tests
use Prim.Native.String.{String, ◌∷◌}
use jev_trader.Prelude.{
  ℕ, zero, suc, Bool, true, false, not, ◌&&◌, ◌||◌, Option, none, some, List, [], ◌∷◌, ◌++◌,
  if◌then◌else◌,
}
use jev_trader.Prelude.Words.{saturating_add}
use jev_trader.Prelude.Int.{ℤ, pos, pos_part, ◌-ℤ◌, ltb_ℤ, leb_ℤ, eqb_ℤ, checked_add, checked_sub}
use jev_trader.Prelude.Text.{is_blank, decimal_02}
use jev_trader.Prelude.Results.{Result, ok, err}

pub record TemporalWindow : Type 0 where
  pub name : String
  pub train_start_ms : ℤ
  pub train_end_ms : ℤ
  pub test_start_ms : ℤ
  pub test_end_ms : ℤ

pub data WindowError : Type 0 where
  empty_name timestamps_not_positive train_reversed test_reversed train_after_test : WindowError

abbrev is_not_positive : ℤ → Bool
is_not_positive a = leb_ℤ a (pos 0)

-- `TemporalWindow::validate`; `none` is `Ok(())`.
unfoldable pub validate : TemporalWindow → Option WindowError
validate w =
    if is_blank w.name
    then some empty_name
    else if is_not_positive w.train_start_ms
        || is_not_positive w.train_end_ms
        || is_not_positive w.test_start_ms
        || is_not_positive w.test_end_ms
    then some timestamps_not_positive
    else if ltb_ℤ w.train_end_ms w.train_start_ms
    then some train_reversed
    else if ltb_ℤ w.test_end_ms w.test_start_ms
    then some test_reversed
    else if ltb_ℤ w.test_start_ms w.train_end_ms
    then some train_after_test
    else none

-- `TemporalWindow::new`, and `try_new`
unfoldable pub new : TemporalWindow → Result TemporalWindow WindowError
unfolding validate
new w = elim (validate w) [ none ↦ ok w | some e ↦ err e ]

pub data SplitAssign : Type 0 where
  in_sample out_of_sample : SplitAssign

unfoldable pub assign : TemporalWindow → ℤ → Option SplitAssign
assign w ts_ms =
    if leb_ℤ w.train_start_ms ts_ms && ltb_ℤ ts_ms w.train_end_ms
    then some in_sample
    else if leb_ℤ w.test_start_ms ts_ms && ltb_ℤ ts_ms w.test_end_ms
    then some out_of_sample
    else none

pub data PlanError : Type 0 where
  bounds_not_positive bounds_reversed spans_not_positive : PlanError
  bad_window : WindowError → PlanError

-- What the planner returns; `none` is a loop that has not ended.
abbrev pub Plan : Type 0
Plan = Option (Result (List TemporalWindow) PlanError)

abbrev push_window : TemporalWindow → Plan → Plan
push_window w none = none
push_window w (some (ok ws)) = some (ok (w ∷ ws))
push_window w (some (err e)) = some (err e)

module _ (last_ms train_span_ms test_span_ms step_ms : ℤ) where
  -- The rest of the round after the window was made.
  abbrev pub advance : (ℤ → Plan) → ℤ → Result TemporalWindow WindowError → Plan
  advance again train_start_ms (err e) = some (err (bad_window e))
  advance again train_start_ms (ok w) = elim (checked_add train_start_ms step_ms) [
    | none ↦ some (ok (w ∷ []))
    | some next_start_ms ↦
        if leb_ℤ next_start_ms train_start_ms
        then some (ok (w ∷ []))
        else push_window w (again next_start_ms)
  ]

  -- One round of the loop.
  abbrev pub plan_round : (ℤ → Plan) → ℤ → ℕ → Plan
  plan_round again train_start_ms index = elim (checked_add train_start_ms train_span_ms) [
    | none ↦ some (ok [])
    | some train_end_ms ↦ elim (checked_add train_end_ms test_span_ms) [
      | none ↦ some (ok [])
      | some test_end_ms ↦
          if ltb_ℤ last_ms test_end_ms
          then some (ok [])
          else advance again train_start_ms (
              new (record {
                name = "w" ∷ decimal_02 index;
                train_start_ms = train_start_ms;
                train_end_ms = train_end_ms;
                test_start_ms = train_end_ms;
                test_end_ms = test_end_ms;
              }))
    ]
  ]

  -- The loop of `try_plan_windows`, for as many rounds as there is fuel.
  pub plan_from : ℕ → ℤ → ℕ → Plan
  unfolding new
  plan_from zero train_start_ms index = none
  plan_from (suc fuel) train_start_ms index =
      plan_round (λ next. plan_from fuel next (saturating_add index 1)) train_start_ms index

  -- `try_plan_windows`. The start moves by a millisecond at least, up to `last_ms`.
  unfoldable pub try_plan_windows : ℤ → Plan
  unfolding plan_from
  try_plan_windows first_ms =
      if is_not_positive first_ms || is_not_positive last_ms
      then some (err bounds_not_positive)
      else if ltb_ℤ last_ms first_ms
      then some (err bounds_reversed)
      else if is_not_positive train_span_ms
          || is_not_positive test_span_ms
          || is_not_positive step_ms
      then some (err spans_not_positive)
      else plan_from (suc (pos_part last_ms)) first_ms 0

-- A market's information interval.
pub record MarketSpan : Type 0 where
  pub condition_id : String
  pub info_start_ms : ℤ
  pub resolution_ms : ℤ

-- `MarketSpan::validate().is_ok()`
abbrev pub is_valid : MarketSpan → Bool
is_valid m = not (
    is_blank m.condition_id
    || is_not_positive m.info_start_ms
    || is_not_positive m.resolution_ms
    || ltb_ℤ m.resolution_ms m.info_start_ms)

-- The markets that are kept, and those that are dropped.
pub record Filtered : Type 0 where
  pub kept : List MarketSpan
  pub dropped : List MarketSpan

abbrev pub partition : (MarketSpan → Bool) → List MarketSpan → Filtered
partition drops [] = record { kept = []; dropped = [] }
partition drops (m ∷ markets) =
    let rest = partition drops markets in
    if drops m
    then record { kept = rest.kept; dropped = m ∷ rest.dropped }
    else record { kept = m ∷ rest.kept; dropped = rest.dropped }

-- `try_purge_train`; `none` is an error.
unfoldable pub try_purge_train : List MarketSpan → ℤ → ℤ → Option Filtered
try_purge_train markets train_end_ms purge_ms =
    if is_not_positive train_end_ms || ltb_ℤ purge_ms (pos 0)
    then none
    else elim (checked_sub train_end_ms purge_ms) [
      | none ↦ none
      | some cutoff ↦
          some (partition (λ m. not (is_valid m) || ltb_ℤ cutoff m.resolution_ms) markets)
    ]

unfoldable pub purge_train : List MarketSpan → ℤ → ℤ → Filtered
unfolding try_purge_train
purge_train markets train_end_ms purge_ms = elim (try_purge_train markets train_end_ms purge_ms) [
  | none ↦ record { kept = []; dropped = markets }
  | some filtered ↦ filtered
]

unfoldable pub gap_ms : ℤ → ℤ → Option ℤ
gap_ms previous_test_end_ms next_train_start_ms =
    checked_sub next_train_start_ms previous_test_end_ms

unfoldable pub embargo_after_test : ℤ → ℤ → ℤ → Bool
unfolding gap_ms
embargo_after_test previous_test_end_ms next_train_start_ms embargo_ms =
    if is_not_positive previous_test_end_ms
      || is_not_positive next_train_start_ms
      || ltb_ℤ embargo_ms (pos 0)
    then false
    else elim (gap_ms previous_test_end_ms next_train_start_ms) [
      | none ↦ false
      | some gap ↦ leb_ℤ embargo_ms gap
    ]

unfoldable pub requires_gap_ms : ℤ → ℤ → ℤ → Bool
unfolding embargo_after_test
requires_gap_ms previous_test_end_ms next_train_start_ms embargo_ms =
    not (embargo_after_test previous_test_end_ms next_train_start_ms embargo_ms)

pub overlaps_embargo_zone : MarketSpan → ℤ → ℤ → ℤ → Bool
unfolding requires_gap_ms
overlaps_embargo_zone market test_end_ms embargo_end_ms embargo_ms =
    if eqb_ℤ embargo_ms (pos 0)
    then false
    else (leb_ℤ test_end_ms market.info_start_ms
        && ltb_ℤ market.info_start_ms embargo_end_ms
        && requires_gap_ms test_end_ms market.info_start_ms embargo_ms)
      || (ltb_ℤ market.info_start_ms test_end_ms
          && leb_ℤ test_end_ms market.resolution_ms
          && ltb_ℤ market.info_start_ms embargo_end_ms)

unfoldable pub apply_purge_embargo : List MarketSpan → ℤ → ℤ → ℤ → ℤ → Filtered
unfolding purge_train overlaps_embargo_zone
apply_purge_embargo markets test_start_ms test_end_ms purge_ms embargo_ms =
    if is_not_positive test_start_ms
      || is_not_positive test_end_ms
      || ltb_ℤ test_end_ms test_start_ms
      || ltb_ℤ purge_ms (pos 0)
      || ltb_ℤ embargo_ms (pos 0)
    then record { kept = []; dropped = markets }
    else let purged = purge_train markets test_start_ms purge_ms in
      if eqb_ℤ embargo_ms (pos 0) then purged else elim (checked_add test_end_ms embargo_ms) [
        | none ↦ record { kept = []; dropped = markets }
        | some embargo_end_ms ↦
            let rest =
              partition (λ m. overlaps_embargo_zone m test_end_ms embargo_end_ms embargo_ms)
                purged.kept in
            record { kept = rest.kept; dropped = purged.dropped ++ rest.dropped }
      ]

-- `embargo_flags`
unfoldable pub embargo_flags : List TemporalWindow → ℤ → List Bool
unfolding requires_gap_ms
embargo_flags [] embargo_ms = []
embargo_flags (w ∷ []) embargo_ms = []
embargo_flags (w ∷ (v ∷ ws)) embargo_ms =
    requires_gap_ms w.test_end_ms v.train_start_ms embargo_ms ∷ embargo_flags (v ∷ ws) embargo_ms
