-- ===== src/Replay/Complement/Accounting.antt =====
-- src/replay/complement.rs: every input is counted once.
use jev_trader.Prelude.{
  Bool, true, false, not, ◌&&◌, if◌then◌else◌, ℕ, ◌+◌, ◌<◌, ◌^◌, ◌≡◌, List, [], ◌∷◌, length, arith,
}
use jev_trader.Prelude.Results.{ok, err, Result}
use jev_trader.Prelude.F64.{F64}
use jev_trader.Replay.Complement.{
  ComplementStats, NoTopOfBook, SyntheticComplement, RejectReason, bad_spread, range, increment,
  build_complement, counted, observe,
}

module _ (f : F64) where
  open f use {F, literal, is_finite, lt, le}

  abbrev pub observe_all : List (NoTopOfBook f) → ComplementStats → ComplementStats
  observe_all [] stats = stats
  observe_all (input ∷ inputs) stats = observe_all inputs (observe f input stats).1

  -- Finite prices of at least 0 and at most 1, and finite sizes of at least 0.
  abbrev pub is_in_range : NoTopOfBook f → Bool
  is_in_range input =
      is_finite input.no_bid
      && is_finite input.no_ask
      && is_finite input.no_bid_size
      && is_finite input.no_ask_size
      && le (literal 0 0) input.no_bid
      && le input.no_bid (literal 1 0)
      && le (literal 0 0) input.no_ask
      && le input.no_ask (literal 1 0)
      && le (literal 0 0) input.no_bid_size
      && le (literal 0 0) input.no_ask_size

  abbrev pub is_crossed : NoTopOfBook f → Bool
  is_crossed input = lt input.no_ask input.no_bid

  -- How many inputs pass a test.
  abbrev pub count : (NoTopOfBook f → Bool) → List (NoTopOfBook f) → ℕ
  count p [] = 0
  count p (input ∷ inputs) = (if p input then 1 else 0) + count p inputs

  abbrev pub accepted : List (NoTopOfBook f) → ℕ
  accepted = count (λ input. is_in_range input && not (is_crossed input))

  abbrev pub crossed : List (NoTopOfBook f) → ℕ
  crossed = count (λ input. is_in_range input && is_crossed input)

  abbrev pub out_of_range : List (NoTopOfBook f) → ℕ
  out_of_range = count (λ input. not (is_in_range input))

  -- What comes of an input.
  abbrev Judged : NoTopOfBook f → Result (SyntheticComplement f) RejectReason → Type 0
  Judged input (ok complement) = (is_in_range input ≡ true) × (is_crossed input ≡ false)
  Judged input (err bad_spread) = (is_in_range input ≡ true) × (is_crossed input ≡ true)
  Judged input (err range) = is_in_range input ≡ false

  build_complement-Judged : (input : NoTopOfBook f) → Judged input (build_complement f input)
  unfolding build_complement
  build_complement-Judged input = ground arith

  abbrev pub IsAccounted : ComplementStats → Type 0
  IsAccounted s = s.n_ok + s.n_rejected_bad_spread + s.n_rejected_range ≡ s.n_input

  -- The statistics after some inputs, by those before.
  abbrev pub Counts : List (NoTopOfBook f) → ComplementStats → ComplementStats → Type 0
  Counts inputs s t =
      IsAccounted t
      × (t.n_input ≡ s.n_input + length inputs)
      × (t.n_ok ≡ s.n_ok + accepted inputs)
      × (t.n_rejected_bad_spread ≡ s.n_rejected_bad_spread + crossed inputs)
      × (t.n_rejected_range ≡ s.n_rejected_range + out_of_range inputs)

  increment_lem : (n : ℕ) → n + 1 < 2 ^ 64 → increment n ≡ n + 1
  increment_lem n h = omega arith

  counted_lem :
      (input : NoTopOfBook f) (r : Result (SyntheticComplement f) RejectReason)
      (s : ComplementStats)
      → Judged input r
      → IsAccounted s
      → s.n_input + 1 < 2 ^ 64
      → Counts (input ∷ []) s (counted f r (record s { n_input = increment s.n_input })).1
  counted_lem input (ok complement) s (sound, apart) a h =
      let i = increment_lem s.n_input h in
      let j = increment_lem s.n_ok (omega arith) in
      rw (sound, apart) (omega arith, omega arith, omega arith, omega arith, omega arith)
  counted_lem input (err bad_spread) s (sound, apart) a h =
      let i = increment_lem s.n_input h in
      let j = increment_lem s.n_rejected_bad_spread (omega arith) in
      rw (sound, apart) (omega arith, omega arith, omega arith, omega arith, omega arith)
  counted_lem input (err range) s outside a h =
      let i = increment_lem s.n_input h in
      let j = increment_lem s.n_rejected_range (omega arith) in
      rw outside (omega arith, omega arith, omega arith, omega arith, omega arith)

  -- If the counts of the statistics add up, fewer than 2 ^ 64 inputs are all counted, each once: as
  -- taken if its numbers are in range and the bid is at most the ask, as a bad spread if they are in
  -- range and the bid is above the ask, and as out of range otherwise.
  pub observe_all-IsAccounted :
      (inputs : List (NoTopOfBook f)) (s : ComplementStats)
      → IsAccounted s
      → s.n_input + length inputs < 2 ^ 64
      → Counts inputs s (observe_all inputs s)
  unfolding observe
  observe_all-IsAccounted [] s a h = (a, omega arith, omega arith, omega arith, omega arith)
  observe_all-IsAccounted (input ∷ inputs) s a h =
      let (b, i, j, k, l) =
        counted_lem input (build_complement f input) s (build_complement-Judged input) a
          (omega arith) in
      let next = observe f input s in
      let (c, i', j', k', l') = observe_all-IsAccounted inputs next.1 b (omega (arith, i, h)) in
      (c, omega (arith, i', i), omega (arith, j', j), omega (arith, k', k), omega (arith, l', l))
