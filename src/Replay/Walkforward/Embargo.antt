-- ===== src/Replay/Walkforward/Embargo.antt =====
-- src/replay/walkforward.rs: the gap that an embargo asks for, and the filter for training candidates.
use jev_trader.Prelude.{
  ◌≡◌, inl, inr, Bool, true, false, ◌||◌, some, List, [], ◌++◌, arith, Bool-cases, ◌↔◌,
  Option-cases, All, All-map, All-zip,
}
use jev_trader.Prelude.Int.{
  ℤ, pos, ◌+ℤ◌, ◌-ℤ◌, ◌≤ℤ◌, ◌<ℤ◌, ltb_ℤ, leb_ℤ, eqb_ℤ, IsI64, in_i64, checked_add, checked_sub,
  +ℤ_parts, -ℤ_parts,
}
use jev_trader.Replay.Walkforward.{
  MarketSpan, is_valid, Filtered, partition, purge_train, gap_ms, embargo_after_test,
  requires_gap_ms, overlaps_embargo_zone, apply_purge_embargo,
}
use jev_trader.Replay.Walkforward.Purge.{
  count-append, IsSplit, partition-IsSplit, partition-kept, partition-All, IsUsable,
  purge_train_lem,
}

checked_sub-positive :
    (a b : ℤ) → pos 0 <ℤ a → IsI64 a → pos 0 <ℤ b → IsI64 b → checked_sub a b ≡ some (a -ℤ b)
unfolding checked_sub
checked_sub-positive a b p i q j =
    let e : in_i64 (a -ℤ b) ≡ true = ground (arith, -ℤ_parts a b) in rw e

-- The condition that `embargo_after_test` states.
abbrev pub IsGap : ℤ → ℤ → ℤ → Type 0
IsGap a b e = (pos 0 <ℤ a) × (pos 0 <ℤ b) × (pos 0 ≤ℤ e) × ((a +ℤ e) ≤ℤ b)

-- For `i64` times a gap is required unless both are positive, the embargo is not negative, and the
-- training starts at least the embargo after the test's end: the checked subtraction never decides.
pub requires_gap_ms_iff :
    (a b e : ℤ) → IsI64 a → IsI64 b → (requires_gap_ms a b e ≡ false) ↔ IsGap a b e
unfolding requires_gap_ms embargo_after_test gap_ms
requires_gap_ms_iff a b e j i =
    elim (Bool-cases (leb_ℤ a (pos 0) || leb_ℤ b (pos 0) || ltb_ℤ e (pos 0))) [
      | inl g ↦
          rw (g, requires_gap_ms, embargo_after_test)
            ((λ h. absurd (cc h)), λ h. absurd (ground arith))
      | inr g ↦
          let p : pos 0 <ℤ a = ground arith in
          let q : pos 0 <ℤ b = ground arith in
          let n : pos 0 ≤ℤ e = ground arith in
          let x = -ℤ_parts b a in
          let y = +ℤ_parts a e in
          rw (g, checked_sub-positive b a q i p j, requires_gap_ms, embargo_after_test, gap_ms)
            ((λ h. (p, q, n, ground (arith, x, y, h))), λ h. ground (arith, x, y, h.3))
    ]

valid_order :
    (m : MarketSpan)
    → is_valid m ≡ true
    → (pos 0 <ℤ m.info_start_ms) × (m.info_start_ms ≤ℤ m.resolution_ms)
valid_order m v = ground arith

-- The zone check drops a usable market that resolves as late as the test's end.
outside_zone :
    (start end purge embargo : ℤ) (m : MarketSpan)
    → pos 0 <ℤ end
    → IsI64 end
    → start ≤ℤ end
    → pos 0 ≤ℤ purge
    → pos 0 <ℤ embargo
    → IsUsable start purge m
    → overlaps_embargo_zone m end (end +ℤ embargo) embargo ≡ false
    → m.resolution_ms <ℤ end
unfolding overlaps_embargo_zone
outside_zone start end purge embargo m p i q n x (v, u) h =
    let (first, order) = valid_order m v in
    let sum = +ℤ_parts m.resolution_ms purge in
    let zone = +ℤ_parts end embargo in
    elim (Bool-cases (ltb_ℤ m.resolution_ms end)) [
      | inl e ↦ ground arith
      | inr e ↦ elim (Bool-cases (requires_gap_ms end m.info_start_ms embargo)) [
        | inl r ↦ absurd (ground (arith, order, sum, zone, h, r))
        | inr r ↦
            let i' : IsI64 m.info_start_ms =
              (ground (arith, order, sum), ground (arith, order, sum)) in
            let g = (requires_gap_ms_iff end m.info_start_ms embargo i i').0 r in
            absurd (ground (arith, order, sum, zone, g.3))
      ]
    ]

checked_add-some : (a b c : ℤ) → checked_add a b ≡ some c → c ≡ a +ℤ b
unfolding checked_add
checked_add-some a b c h = ground arith

-- What may be kept of the training candidates `markets`, and that none is lost or made.
abbrev pub IsFiltered : List MarketSpan → ℤ → ℤ → ℤ → ℤ → Filtered → Type 0
IsFiltered markets start end purge embargo f =
    All (λ m. IsUsable start purge m × (pos 0 <ℤ embargo → m.resolution_ms <ℤ end)) f.kept
    × IsSplit markets f

module _ (markets : List MarketSpan) (start end purge embargo : ℤ) (start_i64 : IsI64 start)
    (end_i64 : IsI64 end) (purge_i64 : IsI64 purge) (embargo_i64 : IsI64 embargo) where
  embargoed-IsSplit :
      (drops : MarketSpan → Bool) (purged : Filtered)
      → IsSplit markets purged
      → let rest = partition drops purged.kept in
        IsSplit markets (record { kept = rest.kept; dropped = purged.dropped ++ rest.dropped })
  embargoed-IsSplit drops purged whole p =
      let rest = partition drops purged.kept in
      omega (
        arith,
        whole p,
        partition-IsSplit drops purged.kept p,
        count-append p purged.dropped rest.dropped,
      )

  nothing_kept :
      IsFiltered markets start end purge embargo (record { kept = []; dropped = markets })
  nothing_kept = (tt, λ p. omega arith)

  -- For any `i64` arguments: a candidate that is kept is valid and resolves by the test's start less the
  -- margin and, if there is an embargo, before the test's end, so that it reaches neither the test's
  -- labels nor the zone after it. No candidate is lost or made.
  pub apply_purge_embargo_lem :
      IsFiltered markets start end purge embargo
        (apply_purge_embargo markets start end purge embargo)
  unfolding apply_purge_embargo
  apply_purge_embargo_lem =
      elim (Bool-cases (
        leb_ℤ start (pos 0)
        || leb_ℤ end (pos 0)
        || ltb_ℤ end start
        || ltb_ℤ purge (pos 0)
        || ltb_ℤ embargo (pos 0))) [
          | inl g ↦ rw (g, apply_purge_embargo) nothing_kept
          | inr g ↦
              let (usable, unusable, whole) =
                purge_train_lem markets start purge (ground arith) start_i64 (ground arith)
                  purge_i64 in
              let purged = purge_train markets start purge in
              elim (Bool-cases (eqb_ℤ embargo (pos 0))) [
                | inl z ↦
                    rw (g, z, apply_purge_embargo)
                      (All-map _ _ _ (λ m u. (u, λ x. absurd (ground arith))) usable, whole)
                | inr z ↦ elim (Option-cases (checked_add end embargo)) [
                  | inl e ↦ rw (g, z, e, apply_purge_embargo) nothing_kept
                  | inr (c, e) ↦
                      let drops : MarketSpan → Bool =
                        λ m. overlaps_embargo_zone m end (end +ℤ embargo) embargo in
                      rw (g, z, e, checked_add-some end embargo c e, apply_purge_embargo)
                        (
                          All-zip _ _ _ _
                              (λ m u h. (
                                u,
                                λ x.
                                    outside_zone start end purge embargo m (ground arith) end_i64
                                      (ground arith) (ground arith) x u h,
                              ))
                              (partition-All _ drops purged.kept usable)
                              (partition-kept drops purged.kept),
                          embargoed-IsSplit drops purged whole,
                        )
                ]
              ]
        ]
