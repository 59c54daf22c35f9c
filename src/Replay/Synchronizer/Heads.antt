-- ===== src/Replay/Synchronizer/Heads.antt =====
-- src/replay/synchronizer.rs: the head that a round of the merge takes, and what is left of the streams.
use mathlib.Core.List.{Perm, perm_middle}
use mathlib.Core.List.Perm
use mathlib.Core.Path.{subst}
use jev_trader.Prelude.{
  ℕ, zero, suc, ◌+◌, ◌≡◌, refl, ap, sym, ◌⊎◌, inl, inr, true, false, Option, none, some, List, [],
  ◌∷◌, ◌++◌, arith, Bool-cases, All, All-map,
}
use jev_trader.Replay.Synchronizer.{HistoricalEvent, is_before, best_head, advance, total}
use jev_trader.Replay.Synchronizer.Sorting.{IsOrdered}

abbrev pub flatten {ℓ} : {A : Type ℓ} → List (List A) → List A
flatten [] = []
flatten (s ∷ streams) = s ++ flatten streams

module _ (D : Type 0) where
  abbrev Event : Type 0
  Event = HistoricalEvent D

  abbrev first_of : List Event → Option Event
  first_of [] = none
  first_of (e ∷ s) = some e

  -- The head of a stream, given by its index.
  abbrev pub head_at : ℕ → List (List Event) → Option Event
  head_at n [] = none
  head_at zero (s ∷ streams) = first_of s
  head_at (suc n) (s ∷ streams) = head_at n streams

  -- The stream's head, if it has one, is not before an event.
  abbrev pub IsLate : Event → List Event → Type 0
  IsLate e [] = Unit
  IsLate e (h ∷ s) = is_before D h e ≡ false

  abbrev pub IsEmpty : List Event → Type 0
  IsEmpty [] = Unit
  IsEmpty (h ∷ s) = ⊥

  before_refl : (e : Event) → is_before D e e ≡ false
  unfolding is_before
  before_refl e = ground arith

  pub late_trans :
      (a b c : Event) → is_before D a b ≡ false → is_before D b c ≡ false → is_before D a c ≡ false
  unfolding is_before
  late_trans a b c h k = ground arith

  before_asym : (a b : Event) → is_before D a b ≡ true → is_before D b a ≡ false
  unfolding is_before
  before_asym a b h = ground arith

  -- What is chosen: a head, at its stream, that no other head is before.
  abbrev pub Chosen : ℕ → List (List Event) → Event → ℕ → Type 0
  Chosen si streams e ei = (n : ℕ) × (ei ≡ si + n) × (head_at n streams ≡ some e)

  best_some :
      (b : Event) (bi si : ℕ) (streams : List (List Event))
      → (r : Event × ℕ) × (best_head D (some (b, bi)) si streams ≡ some r)
        × (is_before D b r.0 ≡ false)
        × All (IsLate r.0) streams
        × (((r.0 ≡ b) × (r.1 ≡ bi)) ⊎ Chosen si streams r.0 r.1)
  unfolding best_head
  best_some b bi si [] = ((b, bi), refl, before_refl b, tt, inl (refl, refl))
  best_some b bi si ([] ∷ streams) =
      let (r, found, best, late, place) = best_some b bi (suc si) streams in
      (
        r,
        found,
        best,
        (tt, late),
        elim place [
          | inl same ↦ inl same
          | inr (n, index, head) ↦ inr (suc n, omega (arith, index), head)
        ],
      )
  best_some b bi si ((e ∷ s) ∷ streams) = elim (Bool-cases (is_before D e b)) [
    | inl earlier ↦
        let (r, found, best, late, place) = best_some e si (suc si) streams in
        (
          r,
          rw earlier found,
          late_trans b e r.0 (before_asym e b earlier) best,
          (best, late),
          elim place [
            | inl (same, index) ↦ inr (0, omega (arith, index), ap some (sym same))
            | inr (n, index, head) ↦ inr (suc n, omega (arith, index), head)
          ],
        )
    | inr later ↦
        let (r, found, best, late, place) = best_some b bi (suc si) streams in
        (
          r,
          rw later found,
          best,
          (late_trans e b r.0 later best, late),
          elim place [
            | inl same ↦ inl same
            | inr (n, index, head) ↦ inr (suc n, omega (arith, index), head)
          ],
        )
  ]

  pub best_none :
      (si : ℕ) (streams : List (List Event))
      → ((best_head D none si streams ≡ none) × All IsEmpty streams)
        ⊎ ((r : Event × ℕ) × (best_head D none si streams ≡ some r)
            × All (IsLate r.0) streams
            × Chosen si streams r.0 r.1)
  unfolding best_head
  best_none si [] = inl (refl, tt)
  best_none si ([] ∷ streams) = elim (best_none (suc si) streams) [
    | inl (missing, empty) ↦ inl (missing, (tt, empty))
    | inr (r, found, late, (n, index, head)) ↦
        inr (r, found, (tt, late), (suc n, omega (arith, index), head))
  ]
  best_none si ((e ∷ s) ∷ streams) =
      let (r, found, best, late, place) = best_some e si (suc si) streams in
      inr (
        r,
        found,
        (best, late),
        elim place [
          | inl (same, index) ↦ (0, omega (arith, index), ap some (sym same))
          | inr (n, index, head) ↦ (suc n, omega (arith, index), head)
        ],
      )

  some_inj : (a b : Event) → some a ≡ some b → a ≡ b
  some_inj a b h = ground arith

  -- Taking the head of a stream off.
  pub advance-perm :
      (n : ℕ) (e : Event) (streams : List (List Event))
      → head_at n streams ≡ some e
      → Perm (e ∷ flatten (advance D n streams)) (flatten streams)
  unfolding advance
  advance-perm n e [] h = absurd (ground arith)
  advance-perm zero e ([] ∷ streams) h = absurd (ground arith)
  advance-perm zero e ((x ∷ s) ∷ streams) h = rw (some_inj x e h) Perm.rfl
  advance-perm (suc n) e (s ∷ streams) h =
      Perm.trans (Perm.symm (perm_middle s (flatten (advance D n streams))))
        (Perm.append_left s (advance-perm n e streams h))

  pub advance-total :
      (n : ℕ) (e : Event) (streams : List (List Event))
      → head_at n streams ≡ some e
      → total D streams ≡ suc (total D (advance D n streams))
  unfolding advance
  advance-total n e [] h = absurd (ground arith)
  advance-total zero e ([] ∷ streams) h = absurd (ground arith)
  advance-total zero e ((x ∷ s) ∷ streams) h = omega arith
  advance-total (suc n) e (s ∷ streams) h = omega (arith, advance-total n e streams h)

  pub advance-All :
      (P : Event → Type 0) (n : ℕ) (e : Event) (streams : List (List Event))
      → head_at n streams ≡ some e
      → All (All P) streams
      → P e × All (All P) (advance D n streams)
  unfolding advance
  advance-All P n e [] h a = absurd (ground arith)
  advance-All P zero e ([] ∷ streams) h a = absurd (ground arith)
  advance-All P zero e ((x ∷ s) ∷ streams) h a = (subst P (some_inj x e h) a.0.0, (a.0.1, a.1))
  advance-All P (suc n) e (s ∷ streams) h a =
      let (head, rest) = advance-All P n e streams h a.1 in (head, (a.0, rest))

  module _ (R : Event → Event → Type 0) where
    pub advance-IsOrdered :
        (n : ℕ) (streams : List (List Event))
        → All (IsOrdered R) streams
        → All (IsOrdered R) (advance D n streams)
    unfolding advance
    advance-IsOrdered n [] a = tt
    advance-IsOrdered zero ([] ∷ streams) a = a
    advance-IsOrdered zero ((x ∷ s) ∷ streams) a = (a.0.1, a.1)
    advance-IsOrdered (suc n) (s ∷ streams) a = (a.0, advance-IsOrdered n streams a.1)

    -- An event that no head is before may stand before everything.
    pub All-IsLate :
        ((a b c : Event) → R a b → R b c → R a c)
        → ((a b : Event) → is_before D b a ≡ false → R a b)
        → (e : Event) (streams : List (List Event)) → All (IsLate e) streams
        → All (IsOrdered R) streams
        → All (All (R e)) streams
    All-IsLate transitive late_R e [] late a = tt
    All-IsLate transitive late_R e ([] ∷ streams) late a =
        (tt, All-IsLate transitive late_R e streams late.1 a.1)
    All-IsLate transitive late_R e ((h ∷ s) ∷ streams) late a =
        let first = late_R e h late.0 in
        (
          (first, All-map _ _ s (λ b. transitive e h b first) a.0.0),
          All-IsLate transitive late_R e streams late.1 a.1,
        )
