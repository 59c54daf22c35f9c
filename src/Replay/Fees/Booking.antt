-- ===== src/Replay/Fees/Booking.antt =====
-- src/replay/fees.rs: what an episode holds when its fees are applied.
use jev_trader.Prelude.{◌≡◌, refl, sym, ap, ◌∙◌, ◌⊎◌, inl, inr, Bool, true, false, not, ◌&&◌, some}
use jev_trader.Prelude.Results.{
  ok, >>=_ok, >>_ok, ok-injective, if-err-eq-ok, map_err, map_err-eq-ok,
}
use jev_trader.Prelude.F64.{F64}
use jev_trader.Replay.Ledger.{TradeEpisode, is_no_fill, settle_accounting}
use jev_trader.Replay.Fees.Charges.{
  not-eq-true, IsNoFill, IsFee, is_no_fill-IsNoFill, IsNoFill-is_no_fill, fee_for_fill-IsFee,
}
use jev_trader.Replay.Fees.{
  FeeRegime, ledger_error, by_notional, validate, fee_for_fill, book, apply_zero, apply_positive,
  apply_to_episode,
}

module _ (f : F64) where
  open f use {F, literal, is_finite, lt, le, eq, add, sub, mul}

  abbrev zero_f : F
  zero_f = literal 0 0

  -- The episode with its accounts.
  abbrev pub booked : TradeEpisode f → F → F → F → F → TradeEpisode f
  booked ep gross fees net net_current = record ep {
    gross_pnl_usd = gross;
    fees_usd = fees;
    rebates_usd = zero_f;
    net_pnl_usd = net;
    pnl_historical_usd = some net;
    pnl_current_usd = some net_current;
  }

  book-booked :
      (ep : TradeEpisode f) (gross fees net net_current : F) (result : TradeEpisode f)
      → book f ep gross fees net net_current ≡ ok result
      → result ≡ booked ep gross fees net net_current
  unfolding book settle_accounting
  book-booked ep gross fees net net_current result h =
      let (settled, done, h1) =
        >>=_ok (map_err ledger_error (settle_accounting f ep gross fees zero_f net)) _ h in
      let (checked, written) = if-err-eq-ok _ _ _ (map_err-eq-ok ledger_error _ done) in
      sym (ok-injective _ _ h1)
      ∙ ap {A = TradeEpisode f} {B = TradeEpisode f}
          (λ e. record e { pnl_historical_usd = some net; pnl_current_usd = some net_current })
          (sym (ok-injective _ _ written))

  -- An episode without a fill: all its accounts are zero.
  abbrev pub IsUnfilled : TradeEpisode f → F → TradeEpisode f → Type 0
  IsUnfilled ep gross result =
      IsNoFill f ep × (eq gross zero_f ≡ true) × (result ≡ booked ep zero_f zero_f zero_f zero_f)

  -- Any other episode: the historical fee is in its accounts, the current one in its stream.
  abbrev pub IsFilled :
      TradeEpisode f → F → F → Bool → FeeRegime f → FeeRegime f → TradeEpisode f → Type 0
  IsFilled ep gross total is_maker historical current result =
      (¬ IsNoFill f ep)
      × (fee : F) × (fee_now : F) × IsFee f total is_maker historical fee
      × IsFee f total is_maker current fee_now
      × (result ≡ booked ep gross fee (sub gross fee) (sub gross fee_now))

  apply_zero-IsUnfilled :
      (ep : TradeEpisode f) (gross : F) (result : TradeEpisode f)
      → apply_zero f ep gross ≡ ok result
      → IsUnfilled ep gross result
  unfolding apply_zero
  apply_zero-IsUnfilled ep gross result h =
      let (unfilled, h1) = >>_ok (is_no_fill f ep) _ _ h in
      let (flat, h2) = >>_ok (eq gross zero_f) _ _ h1 in
      (
        is_no_fill-IsNoFill f ep unfilled,
        flat,
        book-booked ep zero_f zero_f zero_f zero_f result h2,
      )

  apply_positive-IsFilled :
      (ep : TradeEpisode f) (gross total : F) (is_maker : Bool) (historical current : FeeRegime f)
      (result : TradeEpisode f)
      → apply_positive f ep gross total is_maker historical current ≡ ok result
      → IsFilled ep gross total is_maker historical current result
  unfolding apply_positive
  apply_positive-IsFilled ep gross total is_maker historical current result h =
      let (filled, h1) = >>_ok (not (is_no_fill f ep)) _ _ h in
      let (positive, h2) = >>_ok (is_finite total && not (le total zero_f)) _ _ h1 in
      let (fee, charged, h3) = >>=_ok (fee_for_fill f total is_maker historical) _ h2 in
      let (fee_now, charged_now, h4) = >>=_ok (fee_for_fill f total is_maker current) _ h3 in
      let (finite, h5) =
        >>_ok (is_finite (sub gross fee) && is_finite (sub gross fee_now)) _ _ h4 in
      (
        (λ none_of_it. absurd (cc (not-eq-true _ filled, IsNoFill-is_no_fill f ep none_of_it))),
        fee,
        fee_now,
        fee_for_fill-IsFee f total is_maker historical fee charged,
        fee_for_fill-IsFee f total is_maker current fee_now charged_now,
        book-booked ep gross fee (sub gross fee) (sub gross fee_now) result h5,
      )

  by_notional-Books :
      (nothing : Bool) (ep : TradeEpisode f) (gross total : F) (is_maker : Bool)
      (historical current : FeeRegime f) (result : TradeEpisode f)
      → by_notional f nothing ep gross total is_maker historical current ≡ ok result
      → ((nothing ≡ true) × IsUnfilled ep gross result)
        ⊎ ((nothing ≡ false) × IsFilled ep gross total is_maker historical current result)
  by_notional-Books true ep gross total is_maker historical current result h =
      inl (refl, apply_zero-IsUnfilled ep gross result h)
  by_notional-Books false ep gross total is_maker historical current result h =
      inr (refl, apply_positive-IsFilled ep gross total is_maker historical current result h)

  -- Fees are applied to an episode that is marked as not filled and has no time, price or quantity of
  -- a fill only if both notionals and the gross are zero, and then its accounts and both streams are
  -- zero. Otherwise it is not such an episode and the notionals add up to a positive one; both fees are
  -- the part of it that the maker's or the taker's rate of the regime tells, a rate of at least 0 and
  -- below 1; and the accounts hold the historical fee: the current one only enters its own stream.
  -- Nothing else of the episode changes.
  pub apply_to_episode-Books :
      (ep : TradeEpisode f) (gross fill_notional exit_notional : F) (is_maker : Bool)
      (historical current : FeeRegime f) (result : TradeEpisode f)
      → apply_to_episode f ep gross fill_notional exit_notional is_maker historical current
        ≡ ok result
      → (((eq fill_notional zero_f && eq exit_notional zero_f) ≡ true) × IsUnfilled ep gross result)
        ⊎ (((eq fill_notional zero_f && eq exit_notional zero_f) ≡ false)
            × IsFilled ep gross
                (add fill_notional exit_notional)
                is_maker
                historical
                current
                result)
  unfolding apply_to_episode
  apply_to_episode-Books ep gross fill_notional exit_notional is_maker historical current result h =
      let (finite, h1) = >>_ok (is_finite gross) _ _ h in
      let (fill, h2) = >>_ok (is_finite fill_notional && not (lt fill_notional zero_f)) _ _ h1 in
      let (exit, h3) = >>_ok (is_finite exit_notional && not (lt exit_notional zero_f)) _ _ h2 in
      let (u, valid, h4) = >>=_ok (validate f historical) _ h3 in
      let (v, valid_now, h5) = >>=_ok (validate f current) _ h4 in
      by_notional-Books _ ep gross (add fill_notional exit_notional) is_maker historical current
        result h5
