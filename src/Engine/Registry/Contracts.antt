-- ===== src/Engine/Registry/Contracts.antt =====
-- src/engine/registry.rs: the registry holds one contract for each key, and says why it takes no other.
use Prim.Native.String.{String}
use jev_trader.Prelude.{
  ℕ, zero, suc, ◌+◌, ◌*◌, ◌≤◌, ◌<◌, ◌≡◌, ◌≢◌, refl, ap, ◌∙◌, ◌⊎◌, inl, inr, true, none, some, List,
  [], ◌∷◌, arith, ◌==◌, if◌then◌else◌, length, ltb, Bool-cases, Option-cases, is_some,
}
use jev_trader.Prelude.F64.{F64}
use jev_trader.Prelude.Results.{Result, ok, err}
use jev_trader.Domain.Market.{Asset, btc, eth, Horizon, m5, m15, h1, h4, daily, MarketKey, key_of}
use jev_trader.Domain.MarketSpec.{MarketSpec, market_key}
use jev_trader.Engine.Registry.{
  asset_index, horizon_index, same_key, RegistryError, unknown_market_key, duplicate_market,
  MarketRuntime, note_resolution, MarketRegistry, get, update, register, mark_resolved, advance,
  discovered,
}

-- The number of a key among the ten.
unfoldable code : MarketKey → ℕ
code k = 5 * asset_index k.asset + horizon_index k.horizon

asset_index_lt : (a : Asset) → asset_index a < 2
asset_index_lt btc = omega arith
asset_index_lt eth = omega arith

horizon_index_lt : (h : Horizon) → horizon_index h < 5
horizon_index_lt m5 = omega arith
horizon_index_lt m15 = omega arith
horizon_index_lt h1 = omega arith
horizon_index_lt h4 = omega arith
horizon_index_lt daily = omega arith

asset_at : ℕ → Asset
asset_at zero = btc
asset_at (suc n) = eth

horizon_at : ℕ → Horizon
horizon_at n =
    if n == 0
    then m5
    else if n == 1
    then m15
    else if n == 2
    then h1
    else if n == 3
    then h4
    else daily

asset_at-asset_index : (a : Asset) → asset_at (asset_index a) ≡ a
unfolding asset_at
asset_at-asset_index btc = refl
asset_at-asset_index eth = refl

horizon_at-horizon_index : (h : Horizon) → horizon_at (horizon_index h) ≡ h
unfolding horizon_at
horizon_at-horizon_index m5 = refl
horizon_at-horizon_index m15 = refl
horizon_at-horizon_index h1 = refl
horizon_at-horizon_index h4 = refl
horizon_at-horizon_index daily = refl

code_lt : (k : MarketKey) → code k < 10
unfolding code
code_lt k = omega (arith, asset_index_lt k.asset, horizon_index_lt k.horizon)

same_key-code : (k j : MarketKey) → same_key k j ≡ (code k == code j)
unfolding code same_key
same_key-code k j = ground (arith, horizon_index_lt k.horizon, horizon_index_lt j.horizon)

same_key_eq : (k j : MarketKey) → same_key k j ≡ true → k ≡ j
unfolding same_key
same_key_eq k j same =
    let a = asset_at-asset_index k.asset in
    let b = asset_at-asset_index j.asset in
    let c = horizon_at-horizon_index k.horizon in
    let d = horizon_at-horizon_index j.horizon in
    let e : asset_index k.asset ≡ asset_index j.asset = ground arith in
    let g : horizon_index k.horizon ≡ horizon_index j.horizon = ground arith in
    let assets : k.asset ≡ j.asset = cc (a, b, e) in
    let horizons : k.horizon ≡ j.horizon = cc (c, d, g) in λ i. key_of (assets i) (horizons i)

same_key_refl : (k : MarketKey) → same_key k k ≡ true
unfolding same_key
same_key_refl k = ground arith

module _ (f : F64) where
  -- Every key stands once, before a contract that bears it and whose specification gives it.
  abbrev pub IsValid : MarketRegistry f → Type 0
  IsValid [] = Unit
  IsValid ((k, runtime) ∷ markets) =
      (get f k markets ≡ none)
      × (runtime.key ≡ k)
      × (market_key f runtime.spec ≡ some k)
      × IsValid markets

  -- How many keys have a number below a bound, and how many have a number.
  abbrev count_below : ℕ → MarketRegistry f → ℕ
  count_below n [] = 0
  count_below n (e ∷ markets) = (if ltb (code e.0) n then 1 else 0) + count_below n markets

  abbrev count : ℕ → MarketRegistry f → ℕ
  count n [] = 0
  count n (e ∷ markets) = (if code e.0 == n then 1 else 0) + count n markets

  count_below-suc :
      (n : ℕ) (markets : MarketRegistry f)
      → count_below (suc n) markets ≡ count_below n markets + count n markets
  count_below-suc n [] = refl
  count_below-suc n (e ∷ markets) = ground (arith, count_below-suc n markets)

  count-missing :
      (k : MarketKey) (markets : MarketRegistry f)
      → get f k markets ≡ none
      → count (code k) markets ≡ 0
  unfolding get
  count-missing k [] h = refl
  count-missing k ((j, runtime) ∷ markets) h =
      ground (arith, same_key-code k j, count-missing k markets)

  count-IsValid : (n : ℕ) (markets : MarketRegistry f) → IsValid markets → count n markets ≤ 1
  count-IsValid n [] v = omega arith
  count-IsValid n ((j, runtime) ∷ markets) v =
      ground (arith, count-missing j markets v.0, count-IsValid n markets v.3)

  count_below_le :
      (n : ℕ) (markets : MarketRegistry f) → IsValid markets → count_below n markets ≤ n
  count_below_le zero [] v = omega arith
  count_below_le zero (e ∷ markets) v = ground (arith, count_below_le zero markets v.3)
  count_below_le (suc n) markets v =
      omega
        (arith, count_below-suc n markets, count_below_le n markets v, count-IsValid n markets v)

  count_below-length : (markets : MarketRegistry f) → count_below 10 markets ≡ length markets
  count_below-length [] = refl
  count_below-length (e ∷ markets) = ground (arith, code_lt e.0, count_below-length markets)

  length-IsValid : (markets : MarketRegistry f) → IsValid markets → length markets ≤ 10
  length-IsValid markets v = omega (arith, count_below_le 10 markets v, count_below-length markets)

  get-update :
      (k j : MarketKey) (change : MarketRuntime f → MarketRuntime f) (markets : MarketRegistry f)
      → get f j markets ≡ none
      → get f j (update f k change markets) ≡ none
  unfolding get update
  get-update k j change [] h = refl
  get-update k j change ((i, runtime) ∷ markets) h = ground (arith, get-update k j change markets)

  -- A change that keeps the key and the specification.
  update-IsValid :
      (k : MarketKey) (change : MarketRuntime f → MarketRuntime f) (markets : MarketRegistry f)
      → ((r : MarketRuntime f) → ((change r).key ≡ r.key) × ((change r).spec ≡ r.spec))
      → IsValid markets
      → IsValid (update f k change markets)
  unfolding update
  update-IsValid k change [] keeps v = tt
  update-IsValid k change ((j, runtime) ∷ markets) keeps v = elim (Bool-cases (same_key k j)) [
    | inl same ↦
        rw (same, update)
          (v.0, (keeps runtime).0 ∙ v.1, ap (market_key f) (keeps runtime).1 ∙ v.2, v.3)
    | inr other ↦
        rw (other, update)
          (get-update k j change markets v.0, v.1, v.2, update-IsValid k change markets keeps v.3)
  ]

  -- What the engine does to a registry.
  pub data Step : Type 0 where
    registers : MarketSpec f → String → String → Step
    marks_resolved : MarketKey → Step
    advances : MarketKey → ℕ → Step
    notes_resolution : MarketKey → String → Step

  abbrev advanced : ℕ → MarketRuntime f → MarketRuntime f
  advanced t runtime = record runtime { lifecycle = advance runtime.lifecycle t }

  abbrev step : MarketRegistry f → Step → MarketRegistry f
  step markets (registers spec condition yes_id) = (register f markets spec condition yes_id).0
  step markets (marks_resolved k) = (mark_resolved f markets k).0
  step markets (advances k t) = update f k (advanced t) markets
  step markets (notes_resolution k token) =
      update f k (λ runtime. note_resolution f runtime token) markets

  abbrev pub run : MarketRegistry f → List Step → MarketRegistry f
  run markets [] = markets
  run markets (s ∷ steps) = run (step markets s) steps

  -- What a registration says and leaves, for each of its three outcomes.
  abbrev new_runtime : MarketKey → MarketSpec f → String → String → MarketRuntime f
  new_runtime k spec condition yes_id = record {
    key = k;
    spec = spec;
    condition_id = condition;
    yes_token_id = yes_id;
    lifecycle = discovered;
    winning_token_id = none;
  }

  register-unknown :
      (markets : MarketRegistry f) (spec : MarketSpec f) (condition yes_id : String)
      → market_key f spec ≡ none
      → register f markets spec condition yes_id ≡ (markets, err (unknown_market_key spec.slug))
  unfolding register
  register-unknown markets spec condition yes_id h = rw (h, register) refl

  register-known :
      (markets : MarketRegistry f) (spec : MarketSpec f) (condition yes_id : String) (k : MarketKey)
      → market_key f spec ≡ some k
      → register f markets spec condition yes_id ≡ (
          if is_some (get f k markets)
          then (markets, err (duplicate_market k))
          else ((k, new_runtime k spec condition yes_id) ∷ markets, ok tt))
  unfolding register
  register-known markets spec condition yes_id k h = rw (h, register) refl

  register-IsValid :
      (markets : MarketRegistry f) (spec : MarketSpec f) (condition yes_id : String)
      → IsValid markets
      → IsValid (register f markets spec condition yes_id).0
  register-IsValid markets spec condition yes_id v = elim (Option-cases (market_key f spec)) [
    | inl unknown ↦ rw (register-unknown markets spec condition yes_id unknown) v
    | inr (k, known) ↦
        rw (register-known markets spec condition yes_id k known)
          (elim (Option-cases (get f k markets)) [
            | inl free ↦ rw free (free, refl, known, v)
            | inr (r, taken) ↦ rw taken v
          ])
  ]

  mark_resolved-IsValid :
      (markets : MarketRegistry f) (k : MarketKey)
      → IsValid markets
      → IsValid (mark_resolved f markets k).0
  unfolding mark_resolved
  mark_resolved-IsValid markets k v = elim (Bool-cases (is_some (get f k markets))) [
    | inl found ↦ rw found (update-IsValid k _ markets (λ r. (refl, refl)) v)
    | inr missing ↦ rw missing v
  ]

  step-IsValid :
      (markets : MarketRegistry f) (s : Step) → IsValid markets → IsValid (step markets s)
  unfolding note_resolution
  step-IsValid markets (registers spec condition yes_id) v =
      register-IsValid markets spec condition yes_id v
  step-IsValid markets (marks_resolved k) v = mark_resolved-IsValid markets k v
  step-IsValid markets (advances k t) v =
      update-IsValid k (advanced t) markets (λ r. (refl, refl)) v
  step-IsValid markets (notes_resolution k token) v =
      update-IsValid k (λ r. note_resolution f r token) markets (λ r. (refl, refl)) v

  run-IsValid :
      (markets : MarketRegistry f) (steps : List Step)
      → IsValid markets
      → IsValid (run markets steps)
  run-IsValid markets [] v = v
  run-IsValid markets (s ∷ steps) v = run-IsValid (step markets s) steps (step-IsValid markets s v)

  -- However a new registry is used, each key stands for one contract, which bears it and whose
  -- specification gives it; so the registry never holds more than ten contracts.
  pub run-length : (steps : List Step) → IsValid (run [] steps) × (length (run [] steps) ≤ 10)
  run-length steps = let v = run-IsValid [] steps tt in (v, length-IsValid (run [] steps) v)

  -- The three outcomes of a registration.
  abbrev pub Outcome :
      MarketRegistry f
      → MarketSpec f
      → String
      → String
      → MarketRegistry f × Result Unit RegistryError
      → Type 0
  Outcome markets spec condition yes_id after =
      ((market_key f spec ≡ none) × (after ≡ (markets, err (unknown_market_key spec.slug))))
      ⊎ ((k : MarketKey) × (market_key f spec ≡ some k)
          × (((r : MarketRuntime f) × (get f k markets ≡ some r)
                × (after ≡ (markets, err (duplicate_market k))))
              ⊎ ((get f k markets ≡ none)
                  × (after.1 ≡ ok tt)
                  × (get f k after.0 ≡ some (new_runtime k spec condition yes_id))
                  × ((j : MarketKey) → k ≢ j → get f j after.0 ≡ get f j markets))))

  -- A registration has one of three outcomes: the specification gives no key, and it fails with an
  -- error that names the slug; the key is taken, and it fails with an error that names the key; or the
  -- key is free, and the new contract stands under it, newly discovered, beside all others. A failure
  -- leaves the registry as it is.
  pub register-Outcome :
      (markets : MarketRegistry f) (spec : MarketSpec f) (condition yes_id : String)
      → Outcome markets spec condition yes_id (register f markets spec condition yes_id)
  unfolding get
  register-Outcome markets spec condition yes_id = elim (Option-cases (market_key f spec)) [
    | inl unknown ↦ inl (unknown, register-unknown markets spec condition yes_id unknown)
    | inr (k, known) ↦
        let after = register-known markets spec condition yes_id k known in
        inr (
          k,
          known,
          elim (Option-cases (get f k markets)) [
            | inr (r, taken) ↦ inl (r, taken, rw (after, taken) refl)
            | inl free ↦ inr (
              free,
              rw (after, free) refl,
              rw (after, free, same_key_refl k) refl,
              λ j other. rw (after, free) (ground (arith, same_key_eq j k)),
            )
          ],
        )
  ]
