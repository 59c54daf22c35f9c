-- ===== src/Replay/Synchronizer/Sorting.antt =====
-- src/replay/synchronizer.rs: the streams after they were sorted by time.
use mathlib.Core.List.{Perm}
use mathlib.Core.List.Perm
use jev_trader.Prelude.{inl, inr, List, [], ◌∷◌, arith, Bool-cases, All, All-map}
use jev_trader.Prelude.Int.{ℤ, leb_ℤ, ◌≤ℤ◌}
use jev_trader.Replay.Synchronizer.{insert_by_key, sort_by_key}

-- Every element may stand before all that stand behind it.
abbrev pub IsOrdered {ℓ} : {A : Type ℓ} → (A → A → Type 0) → List A → Type ℓ
IsOrdered R [] = Unit
IsOrdered R (x ∷ xs) = All (R x) xs × IsOrdered R xs

module _ {ℓ} {A : Type ℓ} (key : A → ℤ) where
  insert_by_key-perm : (x : A) (l : List A) → Perm (insert_by_key key x l) (x ∷ l)
  unfolding insert_by_key
  insert_by_key-perm x [] = Perm.rfl
  insert_by_key-perm x (y ∷ ys) = elim (Bool-cases (leb_ℤ (key x) (key y))) [
    | inl early ↦ rw (early, insert_by_key) Perm.rfl
    | inr late ↦
        rw (late, insert_by_key)
          (Perm.trans (Perm.cons y (insert_by_key-perm x ys)) (Perm.swap x y ys))
  ]

  pub sort_by_key-perm : (l : List A) → Perm (sort_by_key key l) l
  unfolding sort_by_key
  sort_by_key-perm [] = Perm.rfl
  sort_by_key-perm (x ∷ xs) =
      Perm.trans (insert_by_key-perm x (sort_by_key key xs)) (Perm.cons x (sort_by_key-perm xs))

  insert_by_key-All :
      (P : A → Type 0) (x : A) (l : List A) → P x → All P l → All P (insert_by_key key x l)
  unfolding insert_by_key
  insert_by_key-All P x [] p h = (p, tt)
  insert_by_key-All P x (y ∷ ys) p h = elim (Bool-cases (leb_ℤ (key x) (key y))) [
    | inl early ↦ rw early (p, h)
    | inr late ↦ rw late (h.0, insert_by_key-All P x ys p h.1)
  ]

  pub sort_by_key-All : (P : A → Type 0) (l : List A) → All P l → All P (sort_by_key key l)
  unfolding sort_by_key
  sort_by_key-All P [] h = tt
  sort_by_key-All P (x ∷ xs) h =
      insert_by_key-All P x (sort_by_key key xs) h.0 (sort_by_key-All P xs h.1)

  insert_by_key-IsOrdered :
      (x : A) (l : List A)
      → IsOrdered (λ a b. key a ≤ℤ key b) l
      → IsOrdered (λ a b. key a ≤ℤ key b) (insert_by_key key x l)
  unfolding insert_by_key
  insert_by_key-IsOrdered x [] h = (tt, tt)
  insert_by_key-IsOrdered x (y ∷ ys) h = elim (Bool-cases (leb_ℤ (key x) (key y))) [
    | inl early ↦
        let first : key x ≤ℤ key y = ground arith in
        rw early ((first, All-map _ _ ys (λ b later. omega (arith, first, later)) h.0), h)
    | inr late ↦ rw late (
      insert_by_key-All (λ b. key y ≤ℤ key b) x ys (ground arith) h.0,
      insert_by_key-IsOrdered x ys h.1,
    )
  ]

  pub sort_by_key-IsOrdered : (l : List A) → IsOrdered (λ a b. key a ≤ℤ key b) (sort_by_key key l)
  unfolding sort_by_key
  sort_by_key-IsOrdered [] = tt
  sort_by_key-IsOrdered (x ∷ xs) =
      insert_by_key-IsOrdered x (sort_by_key key xs) (sort_by_key-IsOrdered xs)
