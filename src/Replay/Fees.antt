-- ===== src/Replay/Fees.antt =====
-- src/replay/fees.rs: the fees of a fill and the two views of an episode's result. An error is named
-- for its message; an operation that fails changes nothing.
pub mod Charges
pub mod Booking
mod Tests
use Prim.Native.String.{String}
use jev_trader.Prelude.{Bool, true, false, not, ◌&&◌, ◌||◌, some, if◌then◌else◌}
use jev_trader.Prelude.Results.{Result, ok, err, ◌>>=◌, ◌>>◌, ensure, map_err}
use jev_trader.Prelude.F64.{F64}
use jev_trader.Replay.Ledger.{TradeEpisode, LedgerError, is_no_fill, settle_accounting}

pub data FeeError : Type 0 where
  bad_rate : String → FeeError
  bad_fill_notional bad_fee bad_gross : FeeError
  bad_component : String → FeeError
  zero_notionals zero_needs_zero_gross no_fill_notional bad_total bad_net : FeeError
  ledger_error : LedgerError → FeeError

module _ (f : F64) where
  open f use {F, literal, is_finite, lt, le, eq, add, sub, mul}

  abbrev zero_f : F
  zero_f = literal 0 0

  pub record FeeRegime : Type 0 where
    pub maker_rate : F
    pub taker_rate : F
    pub maker_rebate : F
    pub label : String

  abbrev pub is_rate : F → Bool
  is_rate value = is_finite value && (le zero_f value && lt value (literal 1 0))

  abbrev validate_rate : String → F → Result Unit FeeError
  validate_rate name value = ensure (is_rate value) (bad_rate name)

  unfoldable pub validate : FeeRegime → Result Unit FeeError
  validate regime = do
    validate_rate "maker_rate" regime.maker_rate
    validate_rate "taker_rate" regime.taker_rate
    validate_rate "maker_rebate" regime.maker_rebate

  -- `from_parts`, and `historical_regime`, which is its name for callers.
  unfoldable pub historical_regime : F → F → F → String → Result FeeRegime FeeError
  historical_regime maker taker rebate label = do
    let regime : FeeRegime = record {
      maker_rate = maker;
      taker_rate = taker;
      maker_rebate = rebate;
      label = label;
    }
    validate regime
    ok regime

  abbrev pub current_crypto_regime : Result FeeRegime FeeError
  current_crypto_regime = historical_regime zero_f (literal 7 2) zero_f "current_crypto"

  abbrev pub zero_regime : Result FeeRegime FeeError
  zero_regime = historical_regime zero_f zero_f zero_f "zero"

  abbrev pub rate_of : Bool → FeeRegime → F
  rate_of is_maker regime = if is_maker then regime.maker_rate else regime.taker_rate

  unfoldable pub fee_for_fill : F → Bool → FeeRegime → Result F FeeError
  fee_for_fill notional_usd is_maker regime = do
    validate regime
    ensure (is_finite notional_usd && not (le notional_usd zero_f)) bad_fill_notional
    let fee = mul notional_usd (rate_of is_maker regime)
    ensure (is_finite fee && not (lt fee zero_f)) bad_fee
    ok (if eq (rate_of is_maker regime) zero_f then zero_f else fee)

  abbrev validate_component_notional : String → F → Result Unit FeeError
  validate_component_notional name notional =
      ensure (is_finite notional && not (lt notional zero_f)) (bad_component name)

  -- `ep.settle_accounting(..)?` and the two streams.
  unfoldable pub book : TradeEpisode f → F → F → F → F → Result (TradeEpisode f) FeeError
  book ep gross fees net net_current = do
    settled ← map_err ledger_error (settle_accounting f ep gross fees zero_f net)
    ok (record settled { pnl_historical_usd = some net; pnl_current_usd = some net_current })

  -- What follows if both notionals are zero.
  unfoldable pub apply_zero : TradeEpisode f → F → Result (TradeEpisode f) FeeError
  apply_zero ep gross = do
    ensure (is_no_fill f ep) zero_notionals
    ensure (eq gross zero_f) zero_needs_zero_gross
    book ep zero_f zero_f zero_f zero_f

  -- What follows if they are not.
  unfoldable pub apply_positive :
      TradeEpisode f → F → F → Bool → FeeRegime → FeeRegime → Result (TradeEpisode f) FeeError
  apply_positive ep gross total_notional is_maker historical current = do
    ensure (not (is_no_fill f ep)) no_fill_notional
    ensure (is_finite total_notional && not (le total_notional zero_f)) bad_total
    fee_historical ← fee_for_fill total_notional is_maker historical
    fee_current ← fee_for_fill total_notional is_maker current
    let net_historical = sub gross fee_historical
    let net_current = sub gross fee_current
    ensure (is_finite net_historical && is_finite net_current) bad_net
    book ep gross fee_historical net_historical net_current

  -- `if fill_notional == 0.0 && exit_notional == 0.0`
  abbrev pub by_notional :
      Bool
      → TradeEpisode f
      → F
      → F
      → Bool
      → FeeRegime
      → FeeRegime
      → Result (TradeEpisode f) FeeError
  by_notional true ep gross total is_maker historical current = apply_zero ep gross
  by_notional false ep gross total is_maker historical current =
      apply_positive ep gross total is_maker historical current

  unfoldable pub apply_to_episode :
      TradeEpisode f → F → F → F → Bool → FeeRegime → FeeRegime → Result (TradeEpisode f) FeeError
  apply_to_episode ep gross fill_notional exit_notional is_maker historical current = do
    ensure (is_finite gross) bad_gross
    validate_component_notional "fill" fill_notional
    validate_component_notional "exit" exit_notional
    validate historical
    validate current
    by_notional (eq fill_notional zero_f && eq exit_notional zero_f) ep gross
        (add fill_notional exit_notional) is_maker historical current

  abbrev pub upside_with_rebate : F → F → F → F
  upside_with_rebate gross fee rebate = add (sub gross fee) rebate
