-- ===== src/Replay/Portfolio.antt =====
-- src/replay/portfolio.rs: the paper portfolios, one for each variant and market. The registry's
-- `BTreeMap` is the list of its entries, each key once. A mutable reference to a portfolio is what the
-- caller does with it.
pub mod Isolation
mod Tests
use Prim.Native.String.{String}
use text.Mathlib.Text.{◌==◌ as str_eq}
use jev_trader.Prelude.{
  ℕ, Bool, true, false, not, ◌&&◌, Option, none, some, List, [], ◌∷◌, ◌++◌, map, filter, length,
  ◌==◌, if◌then◌else◌,
}
use jev_trader.Prelude.Int.{ℤ}
use jev_trader.Prelude.F64.{F64, sum}
use jev_trader.Replay.Ledger.{TradeEpisode, is_no_fill}

-- A variant and a market.
abbrev pub Key : Type 0
Key = String × String

abbrev pub same_key : Key → Key → Bool
same_key k j = str_eq k.0 j.0 && str_eq k.1 j.1

module _ (f : F64) where
  open f use {F, literal, lt, le, add, sub, mul, div, of_u64}

  pub record FillEvent : Type 0 where
    pub price : F
    pub size : F
    pub ts_ms : ℤ
    pub toxic : Bool

  pub record Portfolio : Type 0 where
    pub fills : List FillEvent
    pub exits : List (F × F × ℤ)
    pub last_mid : Option F
    pub peak_total : F
    pub max_drawdown_pp : F
    pub cash_pnl_usd : F
    pub gross_cash_pnl_usd : F
    pub net_cash_pnl_usd : F

  abbrev zero_f : F
  zero_f = literal 0 0

  abbrev pub new : Portfolio
  new = record {
    fills = [];
    exits = [];
    last_mid = none;
    peak_total = zero_f;
    max_drawdown_pp = zero_f;
    cash_pnl_usd = zero_f;
    gross_cash_pnl_usd = zero_f;
    net_cash_pnl_usd = zero_f;
  }

  unfoldable pub apply_fill : Portfolio → FillEvent → Portfolio
  apply_fill p fill = record p { fills = p.fills ++ fill ∷ [] }

  unfoldable pub apply_exit : Portfolio → F → F → ℤ → Portfolio
  apply_exit p price size ts_ms = record p { exits = p.exits ++ (price, size, ts_ms) ∷ [] }

  -- The exit of an episode and its cash.
  unfoldable pub settle : Portfolio → TradeEpisode f → F → Portfolio
  settle p episode qty = elim episode.exit_price [
    | none ↦ p
    | some exit_price ↦ elim episode.exit_ts_ms [
      | none ↦ p
      | some exit_ts_ms ↦
          let net_pnl_usd = add (sub episode.gross_pnl_usd episode.fees_usd) episode.rebates_usd in
          let net = add p.net_cash_pnl_usd net_pnl_usd in
          record (apply_exit p exit_price qty exit_ts_ms) {
            gross_cash_pnl_usd = add p.gross_cash_pnl_usd episode.gross_pnl_usd;
            net_cash_pnl_usd = net;
            cash_pnl_usd = net;
          }
    ]
  ]

  abbrev a_fill : F → F → ℤ → FillEvent
  a_fill price size ts_ms = record { price = price; size = size; ts_ms = ts_ms; toxic = false }

  unfoldable pub apply_episode : Portfolio → TradeEpisode f → Portfolio
  apply_episode p episode = if is_no_fill f episode then p else elim episode.fill_price [
    | none ↦ p
    | some price ↦ elim episode.fill_qty [
      | none ↦ p
      | some qty ↦ elim episode.fill_ts_ms [
        | none ↦ p
        | some ts_ms ↦ settle (apply_fill p (a_fill price qty ts_ms)) episode qty
      ]
    ]
  ]

  abbrev pub bought_notional : Portfolio → F
  bought_notional p = sum f (map (λ fill. mul fill.price fill.size) p.fills)

  abbrev pub bought_size : Portfolio → F
  bought_size p = sum f (map (λ fill. fill.size) p.fills)

  abbrev pub exited_size : Portfolio → F
  exited_size p = sum f (map (λ e. e.1) p.exits)

  abbrev pub realized_pnl_pp : Portfolio → F
  realized_pnl_pp p =
      let avg_buy = div (bought_notional p) (bought_size p) in
      if le (bought_size p) zero_f
      then zero_f
      else sum f (map (λ e. mul (mul (sub e.0 avg_buy) (literal 100 0)) e.1) p.exits)

  abbrev pub inventory : Portfolio → F
  inventory p = sub (bought_size p) (exited_size p)

  -- `avg_buy` where a portfolio may have bought nothing.
  abbrev pub average_buy : Portfolio → F
  average_buy p =
      if lt zero_f (bought_size p) then div (bought_notional p) (bought_size p) else zero_f

  abbrev pub unrealized_pnl_pp : Portfolio → F
  unrealized_pnl_pp p =
      let open_qty = inventory p in
      if le open_qty zero_f then zero_f else elim p.last_mid [
        | none ↦ zero_f
        | some mid ↦ mul (mul (sub mid (average_buy p)) (literal 100 0)) open_qty
      ]

  abbrev pub total_pnl_pp : Portfolio → F
  total_pnl_pp p = add (realized_pnl_pp p) (unrealized_pnl_pp p)

  unfoldable pub observe_mid : Portfolio → F → Portfolio
  observe_mid p mid =
      let total = total_pnl_pp (record p { last_mid = some mid }) in
      let peak = if lt p.peak_total total then total else p.peak_total in
      let drawdown = sub peak total in
      record p {
        last_mid = some mid;
        peak_total = peak;
        max_drawdown_pp = if lt p.max_drawdown_pp drawdown then drawdown else p.max_drawdown_pp;
      }

  abbrev pub turnover : Portfolio → F
  turnover p = add (bought_size p) (exited_size p)

  abbrev pub fill_count : Portfolio → ℕ
  fill_count p = length p.fills

  abbrev pub toxic_fill_rate : Portfolio → F
  toxic_fill_rate p =
      if fill_count p == 0
      then zero_f
      else div (of_u64 (length (filter (λ fill. fill.toxic) p.fills))) (of_u64 (fill_count p))

  pub record PortfolioStats : Type 0 where
    pub realized_pp : F
    pub unrealized_pp : F
    pub total_pp : F
    pub max_drawdown_pp : F
    pub inventory : F
    pub turnover : F
    pub fills : ℕ
    pub toxic_fill_rate : F

  unfoldable pub stats_of : Portfolio → PortfolioStats
  stats_of p = record {
    realized_pp = realized_pnl_pp p;
    unrealized_pp = unrealized_pnl_pp p;
    total_pp = total_pnl_pp p;
    max_drawdown_pp = p.max_drawdown_pp;
    inventory = inventory p;
    turnover = turnover p;
    fills = fill_count p;
    toxic_fill_rate = toxic_fill_rate p;
  }

  abbrev pub PortfolioRegistry : Type 0
  PortfolioRegistry = List (Key × Portfolio)

  abbrev pub get : Key → PortfolioRegistry → Option Portfolio
  get k [] = none
  get k ((j, p) ∷ m) = if same_key j k then some p else get k m

  -- `portfolio`, whose reference the caller uses for a change.
  unfoldable pub portfolio : Key → (Portfolio → Portfolio) → PortfolioRegistry → PortfolioRegistry
  portfolio k change [] = (k, change new) ∷ []
  portfolio k change ((j, p) ∷ m) =
      let rest = portfolio k change m in if same_key j k then (j, change p) ∷ m else (j, p) ∷ rest
