-- ===== src/Replay/Ledger.antt =====
-- src/replay/ledger.rs: the record of one order, from its signal to its settlement. An error is named
-- for its message; an operation that fails changes nothing.
pub mod Episodes
mod Tests
use Prim.Native.String.{String}
use text.Mathlib.Text.{◌==◌ as str_eq}
use jev_trader.Prelude.{
  ℕ, Bool, true, false, not, ◌&&◌, ◌||◌, Option, none, some, is_some, if◌then◌else◌,
}
use jev_trader.Prelude.Int.{ℤ, ltb_ℤ, checked_add, saturating_sub, i64_of}
use jev_trader.Prelude.Text.{to_ascii_lowercase}
use jev_trader.Prelude.Results.{Result, ok, err}
use jev_trader.Prelude.F64.{F64}

pub data Side : Type 0 where
  buy_yes buy_no : Side

pub data ExitType : Type 0 where
  resolution hedge sell stop no_fill : ExitType

pub data LedgerError : Type 0 where
  bad_limit_price bad_stake jev_latency_overflow submit_latency_overflow arrival_overflow :
      LedgerError
  resized_after_fill bad_fill_price bad_fill_qty fill_before_arrival fill_twice : LedgerError
  bad_liquidity exit_latency_overflow exit_arrival_overflow no_exit_request : LedgerError
  exit_before_arrival resolution_before_fill resolution_before_exit unresolved : LedgerError
  bad_outcome bad_provenance no_fill_after_fill not_filled exit_before_fill : LedgerError
  exit_before_exit_fill bad_net_pnl : LedgerError

-- `if let Some(limit) = limit && ts < limit`
abbrev pub precedes : ℤ → Option ℤ → Bool
precedes ts none = false
precedes ts (some limit) = ltb_ℤ ts limit

abbrev pub is_no_fill_type : ExitType → Bool
is_no_fill_type no_fill = true
is_no_fill_type _ = false

-- A text in lower case that is one of two words.
abbrev pub one_of : String → String → String → LedgerError → Result String LedgerError
one_of text a b error =
    let word = to_ascii_lowercase text in
    if not (str_eq word a) && not (str_eq word b) then err error else ok word

module _ (f : F64) where
  open f use {F, literal, is_finite, lt, le, add, sub, mul, div, abs, of_i64}

  pub record TradeEpisode : Type 0 where
    pub episode_id : String
    pub strategy_version : String
    pub market : String
    pub asset : String
    pub horizon : String
    pub signal_ts_ms : ℤ
    pub jev_start_ts_ms : ℤ
    pub jev_latency_ms : ℕ
    pub submit_latency_ms : ℕ
    pub order_arrival_ts_ms : ℤ
    pub side : Side
    pub limit_price : F
    pub stake_usd : F
    pub shares : F
    pub intended_stake_usd : F
    pub actual_notional_usd : F
    pub rounding_delta_usd : F
    pub fill_ts_ms : Option ℤ
    pub fill_price : Option F
    pub fill_qty : Option F
    pub exit_type : ExitType
    pub exit_price : Option F
    pub exit_ts_ms : Option ℤ
    pub exit_signal_ts_ms : Option ℤ
    pub exit_arrival_ts_ms : Option ℤ
    pub exit_fill_ts_ms : Option ℤ
    pub resolution_at_ms : Option ℤ
    pub resolution_outcome : Option String
    pub resolution_provenance : Option String
    pub outcome_provenance : Option String
    pub resolution_time_provenance : Option String
    pub fill_profile : Option String
    pub is_maker : Option Bool
    pub entry_liquidity : Option String
    pub exit_liquidity : Option String
    pub fee_regime : Option String
    pub hedge_pair_id : Option String
    pub prompt_version : Option String
    pub jev_model : Option String
    pub arm : Option String
    pub exit_submit_latency_ms : ℕ
    pub gross_pnl_usd : F
    pub fees_usd : F
    pub rebates_usd : F
    pub net_pnl_usd : F
    pub max_adverse_excursion_usd : F
    pub max_favorable_excursion_usd : F
    pub capital_seconds_usd_s : F
    pub pnl_historical_usd : Option F
    pub pnl_current_usd : Option F

  -- The result of an operation.
  abbrev pub Done : Type 0
  Done = Result TradeEpisode LedgerError

  -- `sizing::SizedOrder`
  pub record SizedOrder : Type 0 where
    pub limit_price : F
    pub shares : F
    pub intended_stake_usd : F
    pub actual_notional_usd : F
    pub rounding_delta_usd : F

  abbrev pub is_positive : F → Bool
  is_positive a = is_finite a && not (le a (literal 0 0))

  -- What `new` and its variant are given.
  pub record Order : Type 0 where
    pub episode_id : String
    pub strategy_version : String
    pub market : String
    pub asset : String
    pub horizon : String
    pub signal_ts_ms : ℤ
    pub jev_start_ts_ms : ℤ
    pub jev_latency_ms : ℕ
    pub submit_latency_ms : ℕ
    pub exit_submit_latency_ms : ℕ
    pub side : Side
    pub limit_price : F
    pub stake_usd : F

  abbrev pub opened : Order → ℤ → TradeEpisode
  opened order arrival =
      let shares = div order.stake_usd order.limit_price in
      record {
        episode_id = order.episode_id;
        strategy_version = order.strategy_version;
        market = order.market;
        asset = order.asset;
        horizon = order.horizon;
        signal_ts_ms = order.signal_ts_ms;
        jev_start_ts_ms = order.jev_start_ts_ms;
        jev_latency_ms = order.jev_latency_ms;
        submit_latency_ms = order.submit_latency_ms;
        order_arrival_ts_ms = arrival;
        side = order.side;
        limit_price = order.limit_price;
        stake_usd = order.stake_usd;
        shares = shares;
        intended_stake_usd = order.stake_usd;
        actual_notional_usd = mul shares order.limit_price;
        rounding_delta_usd = sub order.stake_usd (mul shares order.limit_price);
        fill_ts_ms = none;
        fill_price = none;
        fill_qty = none;
        exit_type = no_fill;
        exit_price = none;
        exit_ts_ms = none;
        exit_signal_ts_ms = none;
        exit_arrival_ts_ms = none;
        exit_fill_ts_ms = none;
        resolution_at_ms = none;
        resolution_outcome = none;
        resolution_provenance = none;
        outcome_provenance = none;
        resolution_time_provenance = none;
        fill_profile = none;
        is_maker = none;
        entry_liquidity = none;
        exit_liquidity = none;
        fee_regime = none;
        hedge_pair_id = none;
        prompt_version = none;
        jev_model = none;
        arm = none;
        exit_submit_latency_ms = order.exit_submit_latency_ms;
        gross_pnl_usd = literal 0 0;
        fees_usd = literal 0 0;
        rebates_usd = literal 0 0;
        net_pnl_usd = literal 0 0;
        max_adverse_excursion_usd = literal 0 0;
        max_favorable_excursion_usd = literal 0 0;
        capital_seconds_usd_s = literal 0 0;
        pnl_historical_usd = none;
        pnl_current_usd = none;
      }

  -- The arrival of an order: the signal's time and both latencies.
  abbrev arrival : ℤ → ℤ → ℤ → Option ℤ
  arrival signal jev submit = elim (checked_add signal jev) [
    | none ↦ none
    | some ts ↦ checked_add ts submit
  ]

  unfoldable pub new_with_exit_submit_latency : Order → Done
  new_with_exit_submit_latency order =
      if not (is_positive order.limit_price)
      then err bad_limit_price
      else if not (is_positive order.stake_usd)
      then err bad_stake
      else elim (i64_of order.jev_latency_ms) [
        | none ↦ err jev_latency_overflow
        | some jev ↦ elim (i64_of order.submit_latency_ms) [
          | none ↦ err submit_latency_overflow
          | some submit ↦ elim (arrival order.signal_ts_ms jev submit) [
            | none ↦ err arrival_overflow
            | some ts ↦ ok (opened order ts)
          ]
        ]
      ]

  abbrev pub has_fill : TradeEpisode → Bool
  has_fill e = is_some e.fill_ts_ms || is_some e.fill_price || is_some e.fill_qty

  unfoldable pub apply_sizing : TradeEpisode → SizedOrder → Done
  apply_sizing e sizing =
      if has_fill e && lt (literal 1 9) (abs (sub e.shares sizing.shares))
      then err resized_after_fill
      else ok (record e {
        limit_price = sizing.limit_price;
        stake_usd = sizing.intended_stake_usd;
        shares = sizing.shares;
        intended_stake_usd = sizing.intended_stake_usd;
        actual_notional_usd = sizing.actual_notional_usd;
        rounding_delta_usd = sizing.rounding_delta_usd;
      })

  unfoldable pub apply_fill : TradeEpisode → ℤ → F → F → Done
  apply_fill e ts_ms price qty =
      if not (is_positive price)
      then err bad_fill_price
      else if not (is_positive qty)
      then err bad_fill_qty
      else if ltb_ℤ ts_ms e.order_arrival_ts_ms
      then err fill_before_arrival
      else if has_fill e
      then err fill_twice
      else ok (record e { fill_ts_ms = some ts_ms; fill_price = some price; fill_qty = some qty })

  unfoldable pub request_exit : TradeEpisode → ℤ → ℕ → Done
  request_exit e signal_ts_ms submit_latency_ms = elim (i64_of submit_latency_ms) [
    | none ↦ err exit_latency_overflow
    | some submit ↦ elim (checked_add signal_ts_ms submit) [
      | none ↦ err exit_arrival_overflow
      | some ts ↦ ok (record e {
        exit_signal_ts_ms = some signal_ts_ms;
        exit_arrival_ts_ms = some ts;
        exit_submit_latency_ms = submit_latency_ms;
      })
    ]
  ]

  -- `realized_capital_seconds` of a stake, a fill and an exit.
  unfoldable pub realized_capital_seconds : TradeEpisode → F
  realized_capital_seconds e = elim e.fill_ts_ms [
    | none ↦ literal 0 0
    | some fill ↦ elim e.exit_ts_ms [
      | none ↦ literal 0 0
      | some exit ↦ mul e.stake_usd (div (of_i64 (saturating_sub exit fill)) (literal 1000 0))
    ]
  ]

  -- `self.capital_seconds_usd_s = self.realized_capital_seconds()`
  abbrev measured : TradeEpisode → TradeEpisode
  measured e = record e { capital_seconds_usd_s = realized_capital_seconds e }

  unfoldable pub apply_exit_fill : TradeEpisode → ℤ → F → Done
  apply_exit_fill e ts_ms price = elim e.exit_arrival_ts_ms [
    | none ↦ err no_exit_request
    | some arrival ↦
        if ltb_ℤ ts_ms arrival
        then err exit_before_arrival
        else ok (
            measured (record e {
              exit_fill_ts_ms = some ts_ms;
              exit_price = some price;
              exit_ts_ms = some ts_ms;
            }))
  ]

  unfoldable pub set_resolution : TradeEpisode → ℤ → Done
  set_resolution e ts_ms =
      if precedes ts_ms e.fill_ts_ms
      then err resolution_before_fill
      else if precedes ts_ms e.exit_fill_ts_ms
      then err resolution_before_exit
      else ok (record e { resolution_at_ms = some ts_ms })

  unfoldable pub set_resolution_outcome : TradeEpisode → String → Done
  set_resolution_outcome e outcome =
      if not (is_some e.resolution_at_ms)
      then err unresolved
      else elim (one_of outcome "yes" "no" bad_outcome) [
        | err error ↦ err error
        | ok word ↦ ok (record e { resolution_outcome = some word })
      ]

  -- The three setters of a provenance differ in the field that they write.
  abbrev set_evidence : (String → TradeEpisode) → TradeEpisode → String → Done
  set_evidence written e provenance =
      if not (is_some e.resolution_at_ms)
      then err unresolved
      else elim (one_of provenance "exact" "proxy" bad_provenance) [
        | err error ↦ err error
        | ok word ↦ ok (written word)
      ]

  unfoldable pub set_resolution_provenance : TradeEpisode → String → Done
  set_resolution_provenance e =
      set_evidence (λ word. record e { resolution_provenance = some word }) e

  unfoldable pub set_outcome_provenance : TradeEpisode → String → Done
  set_outcome_provenance e = set_evidence (λ word. record e { outcome_provenance = some word }) e

  unfoldable pub set_resolution_time_provenance : TradeEpisode → String → Done
  set_resolution_time_provenance e =
      set_evidence (λ word. record e { resolution_time_provenance = some word }) e

  abbrev unfilled : TradeEpisode → TradeEpisode
  unfilled e = record e {
    exit_type = no_fill;
    exit_price = none;
    exit_ts_ms = none;
    exit_signal_ts_ms = none;
    exit_arrival_ts_ms = none;
    exit_fill_ts_ms = none;
    resolution_at_ms = none;
    resolution_outcome = none;
    resolution_provenance = none;
    outcome_provenance = none;
    resolution_time_provenance = none;
  }

  unfoldable pub apply_exit : TradeEpisode → ExitType → ℤ → F → Done
  apply_exit e exit_type ts_ms price =
      if is_no_fill_type exit_type
      then if has_fill e then err no_fill_after_fill else ok (unfilled e)
      else elim e.fill_ts_ms [
        | none ↦ err not_filled
        | some fill ↦
            if ltb_ℤ ts_ms fill
            then err exit_before_fill
            else if precedes ts_ms e.exit_arrival_ts_ms
            then err exit_before_arrival
            else if precedes ts_ms e.exit_fill_ts_ms
            then err exit_before_exit_fill
            else ok (
                measured (record e {
                  exit_type = exit_type;
                  exit_price = some price;
                  exit_ts_ms = some ts_ms;
                }))
      ]

  unfoldable pub record_excursions : TradeEpisode → F → F → TradeEpisode
  record_excursions e mae mfe = record e {
    max_adverse_excursion_usd = mae;
    max_favorable_excursion_usd = mfe;
  }

  unfoldable pub settle_accounting : TradeEpisode → F → F → F → F → Done
  settle_accounting e gross fees rebates net =
      let expected = add (sub gross fees) rebates in
      if not (is_finite expected)
        || not (is_finite gross)
        || not (is_finite fees)
        || not (is_finite rebates)
        || not (is_finite net)
        || lt (literal 1 9) (abs (sub expected net))
      then err bad_net_pnl
      else ok (record e {
        gross_pnl_usd = gross;
        fees_usd = fees;
        rebates_usd = rebates;
        net_pnl_usd = net;
      })

  unfoldable pub is_no_fill : TradeEpisode → Bool
  is_no_fill e = is_no_fill_type e.exit_type && not (has_fill e)
