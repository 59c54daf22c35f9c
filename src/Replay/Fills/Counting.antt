-- ===== src/Replay/Fills/Counting.antt =====
-- src/replay/fills.rs: the evidence that a tape leaves.
use jev_trader.Prelude.{
  ℕ, ◌+◌, ◌≤◌, ◌≡◌, refl, sym, ap, ◌∙◌, ◌⊎◌, inl, inr, Bool, true, false, not, ◌&&◌, none, some,
  List, [], ◌∷◌, filter, arith, if◌then◌else◌, All, All-map, Bool-cases, Option-cases,
}
use mathlib.Core.Option.{some-injective}
use jev_trader.Prelude.Int.{ℤ, ltb_ℤ, ◌≤ℤ◌}
use jev_trader.Prelude.F64.{F64}
use jev_trader.Replay.Fills.{
  FillPrint, RestingOrder, valid_qty, directional_aggressor_weight, price_weight, Evidence, weigh,
  collect, through_count,
}

module _ (f : F64) where
  open f use {F, literal, is_finite, lt, le, eq, add, mul}

  abbrev pub in_time : ℤ → FillPrint f → Bool
  in_time from print = not (ltb_ℤ print.ts_ms from)

  pub weigh-early :
      (order : RestingOrder f) (from : ℤ) (print : FillPrint f)
      → ltb_ℤ print.ts_ms from ≡ true
      → weigh f order from print ≡ none
  unfolding weigh
  weigh-early order from print h = rw (h, weigh) refl

  pub collect-none :
      (order : RestingOrder f) (from : ℤ) (print : FillPrint f) (prints : List (FillPrint f))
      → weigh f order from print ≡ none
      → collect f order from (print ∷ prints) ≡ collect f order from prints
  unfolding collect
  collect-none order from print prints h = rw (h, collect) refl

  pub collect-some :
      (order : RestingOrder f) (from : ℤ) (print : FillPrint f) (prints : List (FillPrint f))
      (e : Evidence f)
      → weigh f order from print ≡ some e
      → collect f order from (print ∷ prints) ≡ e ∷ collect f order from prints
  unfolding collect
  collect-some order from print prints e h = rw (h, collect) refl

  pub collect-ext :
      (order : RestingOrder f) (from : ℤ) (print : FillPrint f) (ps qs : List (FillPrint f))
      → collect f order from ps ≡ collect f order from qs
      → collect f order from (print ∷ ps) ≡ collect f order from (print ∷ qs)
  collect-ext order from print ps qs same = elim (Option-cases (weigh f order from print)) [
    | inl n ↦ collect-none order from print ps n ∙ same ∙ sym (collect-none order from print qs n)
    | inr (e, found) ↦
        collect-some order from print ps e found
        ∙ ap (◌∷◌ e) same
        ∙ sym (collect-some order from print qs e found)
  ]

  pub collect-in_time :
      (order : RestingOrder f) (from : ℤ) (prints : List (FillPrint f))
      → collect f order from (filter (in_time from) prints) ≡ collect f order from prints
  unfolding collect
  collect-in_time order from [] = refl
  collect-in_time order from (print ∷ prints) = elim (Bool-cases (ltb_ℤ print.ts_ms from)) [
    | inl early ↦ rw early (
        collect-in_time order from prints
        ∙ sym (collect-none order from print prints (weigh-early order from print early)))
    | inr late ↦ rw late (
        collect-ext order from print (filter (in_time from) prints) prints
          (collect-in_time order from prints))
  ]

  -- What a print that counts leaves behind.
  pub weigh-some :
      (order : RestingOrder f) (from : ℤ) (print : FillPrint f) (e : Evidence f)
      → weigh f order from print ≡ some e
      → (ltb_ℤ print.ts_ms from ≡ false)
        × ((w : F) × (price_weight f order print.price ≡ some w)
            × (e.ts_ms ≡ print.ts_ms)
            × (e.is_through ≡ (eq w (literal 1 0) && not (eq print.price order.price))))
  unfolding weigh
  weigh-some order from print e h =
      let aggressive = directional_aggressor_weight f order.side_buy print.aggressor in
      elim (Bool-cases (ltb_ℤ print.ts_ms from)) [
        | inl early ↦ absurd (cc (sym h ∙ weigh-early order from print early))
        | inr late ↦ elim (Bool-cases (eq aggressive (literal 0 0))) [
          | inl idle ↦ let n : none ≡ some e = rw (late, idle, weigh) at h in absurd (cc n)
          | inr active ↦ elim (Option-cases (price_weight f order print.price)) [
            | inl away ↦
                let n : none ≡ some e = rw (late, active, away, weigh) at h in absurd (cc n)
            | inr (w, near) ↦
                let contribution = mul (mul (valid_qty f print.qty) aggressive) w in
                elim (Bool-cases (eq contribution (literal 0 0))) [
                  | inl empty ↦
                      let n : none ≡ some e = rw (late, active, near, empty, weigh) at h in
                      absurd (cc n)
                  | inr counted ↦
                      let made : Evidence f = record {
                        ts_ms = print.ts_ms;
                        contribution = contribution;
                        is_through = eq w (literal 1 0) && not (eq print.price order.price);
                      } in
                      let found : some made ≡ some e =
                        rw (late, active, near, counted, weigh) at h in
                      let same = some-injective made e found in
                      (
                        late,
                        (w, near, ap (λ x. x.ts_ms) (sym same), ap (λ x. x.is_through) (sym same)),
                      )
                ]
          ]
        ]
      ]

  module _ (order : RestingOrder f) (from : ℤ) where
    -- A print of the tape at a time, in time and at the order's price or through it.
    abbrev pub IsCounted : List (FillPrint f) → ℤ → Type 0
    IsCounted [] t = ⊥
    IsCounted (print ∷ prints) t =
        ((print.ts_ms ≡ t) × (from ≤ℤ t) × ((w : F) × (price_weight f order print.price ≡ some w)))
        ⊎ IsCounted prints t

    pub All-IsCounted :
        (prints : List (FillPrint f))
        → All (λ e. IsCounted prints e.ts_ms) (collect f order from prints)
    unfolding collect
    All-IsCounted [] = tt
    All-IsCounted (print ∷ prints) =
        let rest =
          All-map _ _ (collect f order from prints) (λ e c. inr c) (All-IsCounted prints) in
        elim (Option-cases (weigh f order from print)) [
          | inl n ↦ rw (collect-none order from print prints n) rest
          | inr (e, found) ↦
              let (late, (w, near, same, through)) = weigh-some order from print e found in
              rw (collect-some order from print prints e found)
                (inl (sym same, rw same (ground arith), (w, near)), rest)
        ]

    -- A print that is in time and strictly beyond the order's price.
    abbrev pub goes_through : FillPrint f → Bool
    goes_through print =
        not (ltb_ℤ print.ts_ms from)
        && (if order.side_buy then lt print.price order.price else lt order.price print.price)

    abbrev pub through_prints : List (FillPrint f) → ℕ
    through_prints [] = 0
    through_prints (print ∷ prints) = (if goes_through print then 1 else 0) + through_prints prints

    pub price_weight-through :
        eq (literal 5 1) (literal 1 0) ≡ false
        → (price w : F) → price_weight f order price ≡ some w
        → eq w (literal 1 0) ≡ true
        → (if order.side_buy then lt price order.price else lt order.price price) ≡ true
    unfolding price_weight
    price_weight-through half price w near whole = ground arith

    pub through_count-collect :
        eq (literal 5 1) (literal 1 0) ≡ false
        → (prints : List (FillPrint f))
        → through_count f (collect f order from prints) ≤ through_prints prints
    unfolding collect through_count
    through_count-collect half [] = omega arith
    through_count-collect half (print ∷ prints) =
        let rest = through_count-collect half prints in
        elim (Option-cases (weigh f order from print)) [
          | inl n ↦ rw (collect-none order from print prints n) (omega (arith, rest))
          | inr (e, found) ↦
              let (late, (w, near, same, through)) = weigh-some order from print e found in
              rw (collect-some order from print prints e found)
                (ground (arith, rest, price_weight-through half print.price w near))
        ]
