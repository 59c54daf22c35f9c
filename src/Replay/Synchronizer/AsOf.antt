-- ===== src/Replay/Synchronizer/AsOf.antt =====
-- src/replay/synchronizer.rs, `as_of_backward`: the newest observation that is not in the future.
use jev_trader.Prelude.{
  ◌≡◌, refl, inl, inr, Option, none, some, List, [], ◌∷◌, ◌++◌, filter, arith, Bool-cases, All,
  All-map,
}
use jev_trader.Prelude.Int.{ℤ, leb_ℤ, ◌≤ℤ◌, ◌<ℤ◌}
use jev_trader.Replay.Synchronizer.{as_of_from, as_of_backward}
use jev_trader.Replay.Synchronizer.Sorting.{IsOrdered}

module _ {ℓ} {A : Type ℓ} where
  -- The last value of a list, or another one if it is empty.
  abbrev pub last_or : Option A → List (ℤ × A) → Option A
  last_or best [] = best
  last_or best (e ∷ l) = last_or (some e.1) l

  abbrev pub InTime : List (ℤ × A) → Type ℓ
  InTime history = IsOrdered (λ a b. a.0 ≤ℤ b.0) history

  abbrev known : ℤ → List (ℤ × A) → List (ℤ × A)
  known t history = filter (λ e. leb_ℤ e.0 t) history

  filter-future :
      (history : List (ℤ × A)) (t : ℤ) → All (λ e. t <ℤ e.0) history → known t history ≡ []
  filter-future [] t h = refl
  filter-future ((ts, v) ∷ history) t h = ground (arith, filter-future history t h.1)

  as_of_from-last :
      (best : Option A) (history : List (ℤ × A)) (t : ℤ)
      → InTime history
      → as_of_from best history t ≡ last_or best (known t history)
  unfolding as_of_from
  as_of_from-last best [] t h = refl
  as_of_from-last best ((ts, v) ∷ history) t h = elim (Bool-cases (leb_ℤ ts t)) [
    | inl past ↦ rw past (as_of_from-last (some v) history t h.1)
    | inr later ↦
        let after : t <ℤ ts = ground arith in
        let future = All-map _ (λ e. t <ℤ e.0) history (λ e k. omega (arith, after, k)) h.0 in
        rw (later, filter-future history t future) refl
  ]

  -- In a history in order of time the look-up at a time finds the last of the observations that are
  -- not after it, and nothing if there are none.
  pub as_of_backward-last :
      (history : List (ℤ × A)) (t : ℤ)
      → InTime history
      → as_of_backward history t ≡ last_or none (filter (λ e. leb_ℤ e.0 t) history)
  unfolding as_of_backward
  as_of_backward-last history t h = as_of_from-last none history t h

  as_of_from-future :
      (best : Option A) (history future : List (ℤ × A)) (t : ℤ)
      → All (λ e. t <ℤ e.0) future
      → as_of_from best (history ++ future) t ≡ as_of_from best history t
  unfolding as_of_from
  as_of_from-future best [] [] t h = refl
  as_of_from-future best [] ((ts, v) ∷ future) t h = ground arith
  as_of_from-future best ((ts, v) ∷ history) future t h =
      ground (arith, as_of_from-future (some v) history future t h)

  -- Whatever is observed after a time, and in whatever order, never changes what the look-up at that
  -- time finds.
  pub as_of_backward_no_lookahead :
      (history future : List (ℤ × A)) (t : ℤ)
      → All (λ e. t <ℤ e.0) future
      → as_of_backward (history ++ future) t ≡ as_of_backward history t
  unfolding as_of_backward
  as_of_backward_no_lookahead history future t h = as_of_from-future none history future t h
