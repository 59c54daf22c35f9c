-- ===== src/Replay/Walkforward/Purge.antt =====
-- src/replay/walkforward.rs: what the purge and the embargo let into a training set.
use jev_trader.Prelude.{
  ℕ, ◌+◌, ◌≡◌, inl, inr, ◌⊎◌, Bool, true, false, not, ◌||◌, some, List, [], ◌∷◌, ◌++◌, arith,
  length, filter, Bool-cases, All, All-map,
}
use jev_trader.Prelude.Int.{
  ℤ, pos, ◌+ℤ◌, ◌-ℤ◌, ◌≤ℤ◌, ◌<ℤ◌, ltb_ℤ, leb_ℤ, IsI64, in_i64, checked_sub, +ℤ_parts, -ℤ_parts,
}
use jev_trader.Replay.Walkforward.{
  MarketSpan, is_valid, Filtered, partition, try_purge_train, purge_train,
}

-- The markets of a list that pass a test.
abbrev pub count : (MarketSpan → Bool) → List MarketSpan → ℕ
count p markets = length (filter p markets)

pub count-append :
    (p : MarketSpan → Bool) (xs ys : List MarketSpan) → count p (xs ++ ys) ≡ count p xs + count p ys
count-append p [] ys = omega arith
count-append p (x ∷ xs) ys = ground (arith, count-append p xs ys)

-- No market is lost or made: whatever is counted, the two lists have as many as the markets.
abbrev pub IsSplit : List MarketSpan → Filtered → Type 0
IsSplit markets f = (p : MarketSpan → Bool) → count p f.kept + count p f.dropped ≡ count p markets

pub partition-IsSplit :
    (drops : MarketSpan → Bool) (markets : List MarketSpan)
    → IsSplit markets (partition drops markets)
partition-IsSplit drops [] p = omega arith
partition-IsSplit drops (m ∷ markets) p = ground (arith, partition-IsSplit drops markets p)

pub partition-kept :
    (drops : MarketSpan → Bool) (markets : List MarketSpan)
    → All (λ m. drops m ≡ false) (partition drops markets).kept
partition-kept drops [] = tt
partition-kept drops (m ∷ markets) = elim (Bool-cases (drops m)) [
  | inl e ↦ rw e (partition-kept drops markets)
  | inr e ↦ rw e (e, partition-kept drops markets)
]

partition-dropped :
    (drops : MarketSpan → Bool) (markets : List MarketSpan)
    → All (λ m. drops m ≡ true) (partition drops markets).dropped
partition-dropped drops [] = tt
partition-dropped drops (m ∷ markets) = elim (Bool-cases (drops m)) [
  | inl e ↦ rw e (e, partition-dropped drops markets)
  | inr e ↦ rw e (partition-dropped drops markets)
]

pub partition-All :
    (P : MarketSpan → Type 0) (drops : MarketSpan → Bool) (markets : List MarketSpan)
    → All P markets
    → All P (partition drops markets).kept
partition-All P drops [] h = tt
partition-All P drops (m ∷ markets) h = elim (Bool-cases (drops m)) [
  | inl e ↦ rw e (partition-All P drops markets h.1)
  | inr e ↦ rw e (h.0, partition-All P drops markets h.1)
]

-- A label that training up to `cut` may use, with a margin of `purge`.
abbrev pub IsUsable : ℤ → ℤ → MarketSpan → Type 0
IsUsable cut purge m = (is_valid m ≡ true) × ((m.resolution_ms +ℤ purge) ≤ℤ cut)

abbrev pub IsUnusable : ℤ → ℤ → MarketSpan → Type 0
IsUnusable cut purge m = (is_valid m ≡ false) ⊎ (cut <ℤ (m.resolution_ms +ℤ purge))

IsUsable-of :
    (cut purge : ℤ) (m : MarketSpan)
    → (not (is_valid m) || ltb_ℤ (cut -ℤ purge) m.resolution_ms) ≡ false
    → IsUsable cut purge m
IsUsable-of cut purge m h =
    let x = -ℤ_parts cut purge in
    let y = +ℤ_parts m.resolution_ms purge in
    elim (Bool-cases (is_valid m)) [
      | inl e ↦ let h' = rw e at h in (e, ground (arith, x, y, h'))
      | inr e ↦ let h' : true ≡ false = rw e at h in absurd (cc)
    ]

IsUnusable-of :
    (cut purge : ℤ) (m : MarketSpan)
    → (not (is_valid m) || ltb_ℤ (cut -ℤ purge) m.resolution_ms) ≡ true
    → IsUnusable cut purge m
IsUnusable-of cut purge m h =
    let x = -ℤ_parts cut purge in
    let y = +ℤ_parts m.resolution_ms purge in
    elim (Bool-cases (is_valid m)) [
      | inl e ↦ let h' = rw e at h in inr (ground (arith, x, y, h'))
      | inr e ↦ inl e
    ]

pub checked_sub-fits :
    (cut purge : ℤ)
    → pos 0 <ℤ cut
    → IsI64 cut
    → pos 0 ≤ℤ purge
    → IsI64 purge
    → checked_sub cut purge ≡ some (cut -ℤ purge)
unfolding checked_sub
checked_sub-fits cut purge p i n j =
    let e : in_i64 (cut -ℤ purge) ≡ true = ground (arith, -ℤ_parts cut purge) in rw e

-- With a positive cut and a margin that is not negative, both `i64`, purging keeps exactly the usable
-- markets: each market kept is valid and resolves by the cut less the margin, each one dropped is invalid or
-- resolves later, and no market is lost or made.
pub purge_train_lem :
    (markets : List MarketSpan) (cut purge : ℤ)
    → pos 0 <ℤ cut
    → IsI64 cut
    → pos 0 ≤ℤ purge
    → IsI64 purge
    → let f = purge_train markets cut purge in
      All (IsUsable cut purge) f.kept × All (IsUnusable cut purge) f.dropped × IsSplit markets f
unfolding purge_train try_purge_train
purge_train_lem markets cut purge p i n j =
    let drops : MarketSpan → Bool = λ m. not (is_valid m) || ltb_ℤ (cut -ℤ purge) m.resolution_ms in
    let e = checked_sub-fits cut purge p i n j in
    let g : leb_ℤ cut (pos 0) ≡ false = ground arith in
    let g' : ltb_ℤ purge (pos 0) ≡ false = ground arith in
    rw (e, g, g', purge_train, try_purge_train)
      (
        All-map _ _ _ (IsUsable-of cut purge) (partition-kept drops markets),
        All-map _ _ _ (IsUnusable-of cut purge) (partition-dropped drops markets),
        partition-IsSplit drops markets,
      )
