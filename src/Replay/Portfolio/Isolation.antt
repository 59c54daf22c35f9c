-- ===== src/Replay/Portfolio/Isolation.antt =====
-- src/replay/portfolio.rs: portfolios of one registry do not touch each other.
use text.Mathlib.TextEquality.{eq_iff}
use mathlib.Core.Path.{subst}
use jev_trader.Prelude.{
  ◌≡◌, refl, sym, ap, ◌∙◌, inl, inr, true, false, Bool, Option, none, some, List, [], ◌∷◌,
  Bool-cases, Option-cases, ◌&&◌, if◌then◌else◌, not, filter,
}
use jev_trader.Prelude.Int.{ℤ}
use jev_trader.Prelude.F64.{F64}
use jev_trader.Replay.Ledger.{TradeEpisode, is_no_fill}
use jev_trader.Replay.Portfolio.{
  Key, same_key, FillEvent, Portfolio, new, apply_fill, apply_exit, apply_episode, settle,
  observe_mid, PortfolioRegistry, get, portfolio,
}

same_key_refl : (k : Key) → same_key k k ≡ true
same_key_refl k = rw ((eq_iff k.0 k.0).1 refl, (eq_iff k.1 k.1).1 refl) refl

and_true : (a b : Bool) → (a && b) ≡ true → (a ≡ true) × (b ≡ true)
and_true true b h = (refl, h)
and_true false b h = cc

same_key_eq : (k j : Key) → same_key k j ≡ true → k ≡ j
same_key_eq k j h =
    let (a, b) = and_true _ _ h in
    let p = (eq_iff k.0 j.0).0 a in let q = (eq_iff k.1 j.1).0 b in λ i. (p i, q i)

-- What a caller does with a portfolio.
pub data Change (f : F64) : Type 0 where
  filled : FillEvent f → Change f
  exited : f.F → f.F → ℤ → Change f
  settled : TradeEpisode f → Change f
  observed : f.F → Change f

module _ (f : F64) where
  unfoldable pub apply : Change f → Portfolio f → Portfolio f
  apply (filled fill) p = apply_fill f p fill
  apply (exited price size ts_ms) p = apply_exit f p price size ts_ms
  apply (settled episode) p = apply_episode f p episode
  apply (observed mid) p = observe_mid f p mid

  abbrev pub apply_all : List (Change f) → Portfolio f → Portfolio f
  apply_all [] p = p
  apply_all (c ∷ cs) p = apply_all cs (apply c p)

  -- A run of changes, each on the portfolio of its key.
  abbrev pub run : List (Key × Change f) → PortfolioRegistry f → PortfolioRegistry f
  run [] registry = registry
  run ((k, c) ∷ cs) registry = run cs (portfolio f k (apply c) registry)

  -- The changes on one portfolio.
  abbrev pub own : Key → List (Key × Change f) → List (Change f)
  own x [] = []
  own x ((k, c) ∷ cs) = let rest = own x cs in if same_key k x then c ∷ rest else rest

  -- `or_default`
  abbrev or_new : Option (Portfolio f) → Portfolio f
  or_new none = new f
  or_new (some p) = p

  -- The portfolio of a key, a new one if it has none.
  abbrev pub portfolio_of : Key → PortfolioRegistry f → Portfolio f
  portfolio_of x registry = or_new (get f x registry)

  portfolio-same :
      (k : Key) (change : Portfolio f → Portfolio f) (registry : PortfolioRegistry f)
      → portfolio_of k (portfolio f k change registry) ≡ change (portfolio_of k registry)
  unfolding portfolio
  portfolio-same k change [] = rw (same_key_refl k) refl
  portfolio-same k change ((j, p) ∷ m) = elim (Bool-cases (same_key j k)) [
    | inl same ↦ rw (same, same) refl
    | inr other ↦ rw (other, other) (portfolio-same k change m)
  ]

  portfolio-other :
      (k x : Key) (change : Portfolio f → Portfolio f) (registry : PortfolioRegistry f)
      → same_key k x ≡ false
      → portfolio_of x (portfolio f k change registry) ≡ portfolio_of x registry
  unfolding portfolio
  portfolio-other k x change [] h = rw h refl
  portfolio-other k x change ((j, p) ∷ m) h = elim (Bool-cases (same_key j k)) [
    | inl same ↦
        let different : same_key j x ≡ false = ap (λ y. same_key y x) (same_key_eq j k same) ∙ h in
        rw (same, different) refl
    | inr other ↦ elim (Bool-cases (same_key j x)) [
      | inl found ↦ rw (other, found) refl
      | inr missed ↦ rw (other, missed) (portfolio-other k x change m h)
    ]
  ]

  pub run-own :
      (x : Key) (changes : List (Key × Change f)) (registry : PortfolioRegistry f)
      → portfolio_of x (run changes registry) ≡ apply_all (own x changes) (portfolio_of x registry)
  run-own x [] registry = refl
  run-own x ((k, c) ∷ cs) registry =
      run-own x cs (portfolio f k (apply c) registry) ∙ elim (Bool-cases (same_key k x)) [
        | inl same ↦
            rw (same, same_key_eq k x same)
              (ap (apply_all (own x cs)) (portfolio-same x (apply c) registry))
        | inr other ↦
            rw other (ap (apply_all (own x cs)) (portfolio-other k x (apply c) registry other))
      ]

  -- An episode that was not filled does not count.
  abbrev pub counts : Change f → Bool
  counts (settled episode) = not (is_no_fill f episode)
  counts _ = true

  apply-unfilled : (c : Change f) (p : Portfolio f) → counts c ≡ false → apply c p ≡ p
  unfolding apply apply_episode
  apply-unfilled (settled episode) p h = elim (Bool-cases (is_no_fill f episode)) [
    | inl unfilled ↦ rw unfilled refl
    | inr other ↦ absurd (cc (h, ap not other))
  ]
  apply-unfilled (filled fill) p h = cc
  apply-unfilled (exited price size ts_ms) p h = cc
  apply-unfilled (observed mid) p h = cc

  apply_all-counts :
      (cs : List (Change f)) (p : Portfolio f) → apply_all cs p ≡ apply_all (filter counts cs) p
  apply_all-counts [] p = refl
  apply_all-counts (c ∷ cs) p = elim (Bool-cases (counts c)) [
    | inl counted ↦ rw counted (apply_all-counts cs (apply c p))
    | inr dropped ↦
        rw dropped (ap (apply_all cs) (apply-unfilled c p dropped) ∙ apply_all-counts cs p)
  ]

  -- The compatibility field holds the net cash.
  abbrev pub IsSynced : Portfolio f → Type 0
  IsSynced p = p.cash_pnl_usd ≡ p.net_cash_pnl_usd

  settle-IsSynced :
      (p : Portfolio f) (episode : TradeEpisode f) (qty : f.F)
      → IsSynced p
      → IsSynced (settle f p episode qty)
  unfolding settle apply_exit
  settle-IsSynced p episode qty h = elim (Option-cases episode.exit_price) [
    | inl unpriced ↦ rw (settle, unpriced) h
    | inr (price, priced) ↦ elim (Option-cases episode.exit_ts_ms) [
      | inl undated ↦ rw (settle, priced, undated) h
      | inr (ts_ms, dated) ↦ rw (settle, priced, dated) refl
    ]
  ]

  apply-IsSynced : (c : Change f) (p : Portfolio f) → IsSynced p → IsSynced (apply c p)
  unfolding apply apply_fill apply_exit apply_episode observe_mid
  apply-IsSynced (filled fill) p h = h
  apply-IsSynced (exited price size ts_ms) p h = h
  apply-IsSynced (observed mid) p h = h
  apply-IsSynced (settled episode) p h = elim (Bool-cases (is_no_fill f episode)) [
    | inl unfilled ↦ rw (apply_episode, unfilled) h
    | inr other ↦ elim (Option-cases episode.fill_price) [
      | inl unpriced ↦ rw (apply_episode, other, unpriced) h
      | inr (price, priced) ↦ elim (Option-cases episode.fill_qty) [
        | inl unmeasured ↦ rw (apply_episode, other, priced, unmeasured) h
        | inr (qty, measured) ↦ elim (Option-cases episode.fill_ts_ms) [
          | inl undated ↦ rw (apply_episode, other, priced, measured, undated) h
          | inr (ts_ms, dated) ↦
              rw (apply_episode, other, priced, measured, dated)
                (settle-IsSynced (apply_fill f p _) episode qty h)
        ]
      ]
    ]
  ]

  apply_all-IsSynced :
      (cs : List (Change f)) (p : Portfolio f) → IsSynced p → IsSynced (apply_all cs p)
  apply_all-IsSynced [] p h = h
  apply_all-IsSynced (c ∷ cs) p h = apply_all-IsSynced cs (apply c p) (apply-IsSynced c p h)

  -- However the portfolios of a new registry are changed, the portfolio of a variant and market is
  -- what its own changes make of a new one, those episodes left out that were not filled; and its
  -- compatibility field is its net cash.
  pub run_isolated :
      (x : Key) (changes : List (Key × Change f))
      → (portfolio_of x (run changes []) ≡ apply_all (filter counts (own x changes)) (new f))
        × IsSynced (portfolio_of x (run changes []))
  run_isolated x changes =
      let alone = run-own x changes [] in
      (
        alone ∙ apply_all-counts (own x changes) (new f),
        subst IsSynced (sym alone) (apply_all-IsSynced (own x changes) (new f) refl),
      )
