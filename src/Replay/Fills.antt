-- ===== src/Replay/Fills.antt =====
-- src/replay/fills.rs: which fills a tape of prints allows a resting order, by three profiles. The
-- floats are the F64 interface. Where the source takes a least or a greatest, neither number is a NaN,
-- which is tested for before.
pub mod Counting
pub mod Eligible
pub mod Judgement
pub mod Tape
mod Tests
use jev_trader.Prelude.{
  ℕ, suc, Bool, true, false, not, ◌&&◌, ◌||◌, Option, none, some, List, [], ◌∷◌, ◌++◌, ltb, leb,
  if◌then◌else◌,
}
use jev_trader.Prelude.Int.{ℤ, pos, i64_max, i64_of, ltb_ℤ, saturating_add}
use jev_trader.Prelude.F64.{F64}

pub data FillProfile : Type 0 where
  optimistic base conservative : FillProfile

pub data Aggressor : Type 0 where
  buy sell unknown : Aggressor

module _ (f : F64) where
  open f use {F, literal, is_finite, lt, le, eq, add, sub, mul, div}

  pub record FillPrint : Type 0 where
    pub ts_ms : ℤ
    pub price : F
    pub qty : F
    pub aggressor : Aggressor

  pub record RestingOrder : Type 0 where
    pub price : F
    pub size : F
    pub resting_from_ms : ℤ
    pub side_buy : Bool

  pub record FillOutcome : Type 0 where
    pub filled : Bool
    pub fill_fraction : F
    pub fill_price : F
    pub profile : FillProfile
    pub fill_ts_ms : Option ℤ
    pub used_aggressive_qty : F

  abbrev zero_f : F
  zero_f = literal 0 0

  abbrev one_f : F
  one_f = literal 1 0

  abbrev pub no_fill : F → FillProfile → FillOutcome
  no_fill fill_price profile = record {
    filled = false;
    fill_fraction = zero_f;
    fill_price = fill_price;
    profile = profile;
    fill_ts_ms = none;
    used_aggressive_qty = zero_f;
  }

  pub record FillSimulator : Type 0 where
    pub profile : FillProfile
    pub queue_ahead : F
    pub through_multiple : F

  abbrev default_queue : FillProfile → F
  default_queue optimistic = literal 0 0
  default_queue base = literal 3 1
  default_queue conservative = literal 6 1

  -- `FillSimulator::new`
  abbrev pub simulator : FillProfile → FillSimulator
  simulator profile = record {
    profile = profile;
    queue_ahead = default_queue profile;
    through_multiple = literal 2 0;
  }

  -- `value.is_nan()`: a NaN is the only number that is not equal to itself.
  abbrev is_nan : F → Bool
  is_nan a = not (eq a a)

  -- `f64::min` and `f64::max` of numbers of which the first is no NaN.
  abbrev min_f : F → F → F
  min_f a b = if lt b a then b else a

  abbrev max_f : F → F → F
  max_f a b = if lt a b then b else a

  abbrev pub valid_qty : F → F
  valid_qty qty = if is_finite qty && lt zero_f qty then qty else zero_f

  -- `FillPrint::new`
  abbrev pub print_of : ℤ → F → F → Aggressor → FillPrint
  print_of ts_ms price qty aggressor = record {
    ts_ms = ts_ms;
    price = price;
    qty = valid_qty qty;
    aggressor = aggressor;
  }

  abbrev pub directional_aggressor_weight : Bool → Aggressor → F
  directional_aggressor_weight true sell = literal 1 0
  directional_aggressor_weight false buy = literal 1 0
  directional_aggressor_weight side_buy unknown = literal 5 1
  directional_aggressor_weight _ _ = literal 0 0

  unfoldable pub price_weight : RestingOrder → F → Option F
  price_weight order print_price =
      if order.side_buy
      then if lt print_price order.price
        then some one_f
        else if eq print_price order.price
        then some (literal 5 1)
        else none
      else if lt order.price print_price
      then some one_f
      else if eq print_price order.price
      then some (literal 5 1)
      else none

  abbrev pub after_queue : F → F → F
  after_queue available queue_ahead =
      if le available zero_f || le one_f queue_ahead
      then zero_f
      else mul available (sub one_f queue_ahead)

  -- A print that counts: its time, its contribution, and whether it went through the price.
  pub record Evidence : Type 0 where
    pub ts_ms : ℤ
    pub contribution : F
    pub is_through : Bool

  -- What one print adds, if it counts.
  unfoldable pub weigh : RestingOrder → ℤ → FillPrint → Option Evidence
  weigh order eligible_from print =
      if ltb_ℤ print.ts_ms eligible_from
      then none
      else (let weight = directional_aggressor_weight order.side_buy print.aggressor in
          if eq weight zero_f then none else elim (price_weight order print.price) [
            | none ↦ none
            | some at_price ↦
                (let contribution = mul (mul (valid_qty print.qty) weight) at_price in
                  if eq contribution zero_f
                  then none
                  else some (record {
                    ts_ms = print.ts_ms;
                    contribution = contribution;
                    is_through = eq at_price one_f && not (eq print.price order.price);
                  }))
          ])

  unfoldable pub collect : RestingOrder → ℤ → List FillPrint → List Evidence
  collect order eligible_from [] = []
  collect order eligible_from (print ∷ prints) =
      let rest = collect order eligible_from prints in
      elim (weigh order eligible_from print) [ none ↦ rest | some e ↦ e ∷ rest ]

  -- `directional_available` and `through_prints` after some evidence.
  unfoldable pub available_after : F → List Evidence → F
  available_after available [] = available
  available_after available (e ∷ evidence) = available_after (add available e.contribution) evidence

  unfoldable pub through_count : List Evidence → ℕ
  through_count [] = 0
  through_count (e ∷ evidence) =
      let rest = through_count evidence in if e.is_through then suc rest else rest

  unfoldable pub completion_from : F → ℕ → List Evidence → F → ℕ → F → Option ℤ
  completion_from available through [] queue_ahead required threshold = none
  completion_from available through (e ∷ evidence) queue_ahead required threshold =
      let now = add available e.contribution in
      let seen = if e.is_through then suc through else through in
      let rest = completion_from now seen evidence queue_ahead required threshold in
      if leb required seen
        && lt zero_f (after_queue now queue_ahead)
        && le threshold (after_queue now queue_ahead)
      then some e.ts_ms
      else rest

  abbrev pub completion_timestamp : List Evidence → F → ℕ → F → Option ℤ
  completion_timestamp evidence queue_ahead required threshold =
      completion_from zero_f 0 evidence queue_ahead required threshold

  -- `evidence.last()`
  abbrev pub last_ts : Option ℤ → List Evidence → Option ℤ
  last_ts best [] = best
  last_ts best (e ∷ evidence) = last_ts (some e.ts_ms) evidence

  abbrev pub completion_timestamp_for_fill : List Evidence → F → F → Bool → Option ℤ
  completion_timestamp_for_fill evidence queue_ahead fill_qty reaches_order_size =
      if reaches_order_size
      then completion_timestamp evidence queue_ahead 0 fill_qty
      else last_ts none evidence

  unfoldable pub outcome_from_available :
      RestingOrder → FillProfile → F → F → Option ℤ → FillOutcome
  outcome_from_available order profile available desired_fraction fill_ts_ms =
      let order_size = valid_qty order.size in
      let requested = mul order_size (min_f desired_fraction one_f) in
      let held = if is_nan available then zero_f else max_f available zero_f in
      let fill_qty = min_f requested held in
      let raw = div fill_qty order_size in
      record {
        filled = lt zero_f fill_qty;
        fill_fraction =
            if eq order_size zero_f
            then zero_f
            else if lt raw zero_f
            then zero_f
            else if lt one_f raw
            then one_f
            else raw;
        fill_price = order.price;
        profile = profile;
        fill_ts_ms = if lt zero_f fill_qty then fill_ts_ms else none;
        used_aggressive_qty = fill_qty;
      }

  -- The time from which prints count: an `i64` holds the latency, or the greatest stands for it.
  abbrev pub eligible_from : RestingOrder → ℕ → ℤ
  eligible_from order submit_ms =
      saturating_add order.resting_from_ms
        (elim (i64_of submit_ms) [ some ms ↦ ms | none ↦ i64_max ])

  -- A fill of all that is available, at most the order.
  abbrev pub whole_fill : FillSimulator → RestingOrder → List Evidence → F → FillOutcome
  whole_fill simulator order evidence effective =
      let order_size = valid_qty order.size in
      outcome_from_available order simulator.profile effective one_f (
        completion_timestamp_for_fill evidence simulator.queue_ahead (min_f effective order_size)
          (le order_size effective))

  -- A conservative fill of a part, which takes two prints that went through.
  abbrev pub partial_fill : FillSimulator → RestingOrder → List Evidence → F → F → F → FillOutcome
  partial_fill simulator order evidence effective fraction threshold =
      outcome_from_available order simulator.profile effective fraction
        (completion_timestamp evidence simulator.queue_ahead 2 threshold)

  abbrev pub conservative_fill : FillSimulator → RestingOrder → List Evidence → F → FillOutcome
  conservative_fill simulator order evidence effective =
      let full_threshold = mul (valid_qty order.size) simulator.through_multiple in
      let half_threshold = mul full_threshold (literal 25 2) in
      if ltb (through_count evidence) 2
      then no_fill order.price simulator.profile
      else if le full_threshold effective
      then partial_fill simulator order evidence effective one_f full_threshold
      else if le half_threshold effective
      then partial_fill simulator order evidence effective (literal 5 1) half_threshold
      else no_fill order.price simulator.profile

  -- What a profile makes of what is available.
  abbrev pub fill_by : FillProfile → FillSimulator → RestingOrder → List Evidence → F → FillOutcome
  fill_by optimistic simulator order evidence effective =
      whole_fill simulator order evidence effective
  fill_by base simulator order evidence effective = whole_fill simulator order evidence effective
  fill_by conservative simulator order evidence effective =
      conservative_fill simulator order evidence effective

  unfoldable pub judge : FillSimulator → RestingOrder → List Evidence → FillOutcome
  judge simulator order evidence =
      let effective = after_queue (available_after zero_f evidence) simulator.queue_ahead in
      if le effective zero_f || is_nan effective
      then no_fill order.price simulator.profile
      else fill_by simulator.profile simulator order evidence effective

  unfoldable pub check_fill : FillSimulator → RestingOrder → List FillPrint → ℕ → FillOutcome
  check_fill simulator order prints submit_ms =
      if eq (valid_qty order.size) zero_f || not (is_finite order.price)
      then no_fill order.price simulator.profile
      else judge simulator order (collect order (eligible_from order submit_ms) prints)
