-- ===== src/State/PolyHistory/Lookup.antt =====
-- src/state/poly_history.rs: the order and the size of the history, and what a look-up finds.
use jev_trader.Prelude.{
  ℕ, suc, ◌≤◌, ◌<◌, ◌≡◌, refl, inl, inr, ◌⊎◌, Option, none, some, List, [], ◌∷◌, arith, ltb, leb,
  ◌==◌, length, All, All-map, Bool-cases, Option-cases,
}
use jev_trader.State.PolyHistory.{
  PolyMid, PolyHistory, new, insert_sample, evict, push, find_last, last_known_at_or_before,
}

abbrev pub IsAscending : List PolyMid → Type 0
IsAscending [] = Unit
IsAscending (s ∷ samples) = All (λ u. s.ts_ms < u.ts_ms) samples × IsAscending samples

pub record IsValid (history : PolyHistory) : Type 0 where
  pub ascending : IsAscending history.samples
  pub roomy : 0 < history.capacity
  pub bounded : length history.samples ≤ history.capacity

insert_sample-IsAfter :
    (t : ℕ) (s : PolyMid) (samples : List PolyMid)
    → t < s.ts_ms
    → All (λ u. t < u.ts_ms) samples
    → All (λ u. t < u.ts_ms) (insert_sample s samples)
unfolding insert_sample
insert_sample-IsAfter t s [] h a = (h, tt)
insert_sample-IsAfter t s (e ∷ samples) h a =
    let rest = insert_sample-IsAfter t s samples h a.1 in
    elim (Bool-cases (leb s.ts_ms e.ts_ms)) [
      | inl x ↦ elim (Bool-cases (e.ts_ms == s.ts_ms)) [
        | inl y ↦ rw (x, y, insert_sample) (h, a.1)
        | inr y ↦ rw (x, y, insert_sample) (h, a)
      ]
      | inr x ↦ rw (x, insert_sample) (a.0, rest)
    ]

insert_sample-IsAscending :
    (s : PolyMid) (samples : List PolyMid)
    → IsAscending samples
    → IsAscending (insert_sample s samples)
      × (length (insert_sample s samples) ≤ suc (length samples))
unfolding insert_sample
insert_sample-IsAscending s [] a = ((tt, tt), omega arith)
insert_sample-IsAscending s (e ∷ samples) a =
    let (rest, size) = insert_sample-IsAscending s samples a.1 in
    elim (Bool-cases (leb s.ts_ms e.ts_ms)) [
      | inl x ↦ elim (Bool-cases (e.ts_ms == s.ts_ms)) [
        | inl y ↦
            let same : e.ts_ms ≡ s.ts_ms = ground arith in
            rw (x, y, insert_sample) ((rw same at a.0, a.1), omega arith)
        | inr y ↦
            let before : s.ts_ms < e.ts_ms = ground arith in
            rw (x, y, insert_sample)
              (
                ((before, All-map _ _ samples (λ u h. omega (arith, before, h)) a.0), a),
                omega arith,
              )
      ]
      | inr x ↦
          rw (x, insert_sample)
            (
              (insert_sample-IsAfter e.ts_ms s samples (ground arith) a.0, rest),
              omega (arith, size),
            )
    ]

evict-IsAscending :
    (capacity : ℕ) (samples : List PolyMid)
    → IsAscending samples
    → IsAscending (evict capacity samples) × (length (evict capacity samples) ≤ capacity)
unfolding evict
evict-IsAscending capacity [] a = (tt, omega arith)
evict-IsAscending capacity (s ∷ samples) a =
    let rest = evict-IsAscending capacity samples a.1 in
    elim (Bool-cases (ltb capacity (suc (length samples)))) [
      | inl x ↦ rw (x, evict) rest
      | inr x ↦ rw (x, evict) (a, ground arith)
    ]

-- Adding a mid keeps the history in strictly ascending order of time and within its capacity, even if
-- the mid comes late or repeats a time; a new history is so.
pub push-IsValid :
    (history : PolyHistory) (ts mid : ℕ) → IsValid history → IsValid (push history ts mid)
unfolding push
push-IsValid history ts mid v =
    let sample : PolyMid = record { ts_ms = ts; mid = mid } in
    let (inserted, size) = insert_sample-IsAscending sample history.samples v.ascending in
    let (kept, bounded) =
      evict-IsAscending history.capacity (insert_sample sample history.samples) inserted in
    record { ascending = kept; roomy = v.roomy; bounded = bounded }

pub new-IsValid : (capacity : ℕ) → IsValid (new capacity)
unfolding new
new-IsValid capacity = record { ascending = tt; roomy = ground arith; bounded = ground arith }

insert_sample_later :
    (t : ℕ) (s : PolyMid) (samples : List PolyMid)
    → t < s.ts_ms
    → find_last t (insert_sample s samples) ≡ find_last t samples
unfolding insert_sample find_last
insert_sample_later t s [] h = ground arith
insert_sample_later t s (e ∷ samples) h = ground (arith, insert_sample_later t s samples h)

evict_older :
    (t capacity : ℕ) (samples : List PolyMid)
    → (find_last t (evict capacity samples) ≡ find_last t samples)
      ⊎ (find_last t (evict capacity samples) ≡ none)
unfolding evict find_last
evict_older t capacity [] = inl refl
evict_older t capacity (s ∷ samples) = ground (arith, evict_older t capacity samples)

-- No look-ahead: a mid that is later than a target never changes what a look-up at the target finds,
-- but for the oldest mids that it drives out, after which the look-up may find nothing.
pub last_known_no_lookahead :
    (history : PolyHistory) (ts mid target : ℕ)
    → target < ts
    → (last_known_at_or_before (push history ts mid) target
        ≡ last_known_at_or_before history target)
      ⊎ (last_known_at_or_before (push history ts mid) target ≡ none)
unfolding push last_known_at_or_before
last_known_no_lookahead history ts mid target h =
    let sample : PolyMid = record { ts_ms = ts; mid = mid } in
    ground (
      arith,
      insert_sample_later target sample history.samples h,
      evict_older target history.capacity (insert_sample sample history.samples),
    )

abbrev pub Member : PolyMid → List PolyMid → Type 0
Member s [] = ⊥
Member s (u ∷ samples) = (s ≡ u) ⊎ Member s samples

-- What the newest mid at or before a target is, among some samples.
abbrev pub IsLatest : ℕ → List PolyMid → Option ℕ → Type 0
IsLatest target samples none = All (λ u. target < u.ts_ms) samples
IsLatest target samples (some mid) =
    (s : PolyMid) × Member s samples
    × (s.mid ≡ mid)
    × (s.ts_ms ≤ target)
    × All (λ u. u.ts_ms ≤ target → u.ts_ms ≤ s.ts_ms) samples

Member-after :
    (t : ℕ) (s : PolyMid) (samples : List PolyMid)
    → Member s samples
    → All (λ u. t < u.ts_ms) samples
    → t < s.ts_ms
Member-after t s [] m a = absurd m
Member-after t s (u ∷ samples) (inl e) a = rw e a.0
Member-after t s (u ∷ samples) (inr m) a = Member-after t s samples m a.1

find_last-IsLatest :
    (target : ℕ) (samples : List PolyMid)
    → IsAscending samples
    → IsLatest target samples (find_last target samples)
unfolding find_last
find_last-IsLatest target [] a = tt
find_last-IsLatest target (s ∷ samples) a =
    let rest = find_last-IsLatest target samples a.1 in
    elim (Option-cases (find_last target samples)) [
      | inl e ↦
          let later : All (λ u. target < u.ts_ms) samples = rw e at rest in
          elim (Bool-cases (leb s.ts_ms target)) [
            | inl x ↦
                rw (e, x, find_last)
                  (
                    s,
                    inl refl,
                    refl,
                    ground arith,
                    (
                      (λ h. omega arith),
                      All-map _ _ samples (λ u h k. absurd (omega (arith, h, k))) later,
                    ),
                  )
            | inr x ↦ rw (e, x, find_last) (ground arith, later)
          ]
      | inr (mid, e) ↦
          let (found, member, same, before, newest) : IsLatest target samples (some mid) =
            rw e at rest in
          rw (e, find_last)
            (
              found,
              inr member,
              same,
              before,
              ((λ h. omega (arith, Member-after s.ts_ms found samples member a.0)), newest),
            )
    ]

-- On a valid history a look-up finds the newest retained mid that is not after the target, and nothing
-- exactly if all retained mids are after it.
pub last_known-IsLatest :
    (history : PolyHistory) (target : ℕ)
    → IsValid history
    → IsLatest target history.samples (last_known_at_or_before history target)
unfolding last_known_at_or_before
last_known-IsLatest history target v = find_last-IsLatest target history.samples v.ascending
