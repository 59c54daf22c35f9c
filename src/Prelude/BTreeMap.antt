-- ===== src/Prelude/BTreeMap.antt =====
-- `std::collections::BTreeMap` with `u64` keys: the entries in ascending order of their keys.
use Prim.Native.Nat.{ℕ, suc, ◌≤◌, ◌<◌}
use mathlib.Core.Path.{◌≡◌, refl}
use mathlib.Core.Bool.{Bool, false}
use mathlib.Core.Option.{Option, none, some}
use mathlib.Core.List.{List, [], ◌∷◌, map}
use native.Mathlib.Omega.{arith}
use jev_trader.Prelude.Tests.{ltb, ◌==◌, if◌then◌else◌, is_some}
use jev_trader.Prelude.Lists.{All, All-map, length}

abbrev pub BTreeMap {ℓ} : Type ℓ → Type ℓ
BTreeMap V = List (ℕ × V)

module _ {ℓ} {V : Type ℓ} where
  abbrev pub get : ℕ → BTreeMap V → Option V
  get k [] = none
  get k ((j, v) ∷ m) = if j == k then some v else get k m

  abbrev pub contains_key : ℕ → BTreeMap V → Bool
  contains_key k m = is_some (get k m)

  unfoldable pub insert : ℕ → V → BTreeMap V → BTreeMap V
  insert k v [] = (k, v) ∷ []
  insert k v ((j, w) ∷ m) =
      let rest = insert k v m in
      if k == j then (k, v) ∷ m else if ltb k j then (k, v) ∷ (j, w) ∷ m else (j, w) ∷ rest

  unfoldable pub remove : ℕ → BTreeMap V → BTreeMap V
  remove k [] = []
  remove k ((j, w) ∷ m) = let rest = remove k m in if j == k then rest else (j, w) ∷ rest

  abbrev pub values : BTreeMap V → List V
  values = map (λ e. e.1)

  pub get-insert :
      (k x : ℕ) (v : V) (m : BTreeMap V)
      → get x (insert k v m) ≡ (if k == x then some v else get x m)
  unfolding insert
  get-insert k x v [] = refl
  get-insert k x v ((j, w) ∷ m) = ground (arith, get-insert k x v m)

  pub get-remove :
      (k x : ℕ) (m : BTreeMap V) → get x (remove k m) ≡ (if k == x then none else get x m)
  unfolding remove
  get-remove k x [] = ground arith
  get-remove k x ((j, w) ∷ m) = ground (arith, get-remove k x m)

  abbrev pub IsAbove : ℕ → BTreeMap V → Type 0
  IsAbove k = All (λ e. k < e.0)

  abbrev pub IsAscending : BTreeMap V → Type 0
  IsAscending [] = Unit
  IsAscending ((k, v) ∷ m) = IsAbove k m × IsAscending m

  insert-IsAbove :
      (j k : ℕ) (v : V) (m : BTreeMap V) → j < k → IsAbove j m → IsAbove j (insert k v m)
  unfolding insert
  insert-IsAbove j k v [] h a = (h, tt)
  insert-IsAbove j k v ((i, w) ∷ m) h a = ground (arith, insert-IsAbove j k v m h a.1)

  IsAbove-trans : (j k : ℕ) (m : BTreeMap V) → j < k → IsAbove k m → IsAbove j m
  IsAbove-trans j k m h a = All-map _ _ m (λ e f. omega arith) a

  pub insert-IsAscending :
      (k : ℕ) (v : V) (m : BTreeMap V) → IsAscending m → IsAscending (insert k v m)
  unfolding insert
  insert-IsAscending k v [] a = (tt, tt)
  insert-IsAscending k v ((j, w) ∷ m) a =
      ground (arith, insert-IsAscending k v m a.1, insert-IsAbove j k v m, IsAbove-trans k j m)

  remove-IsAbove : (j k : ℕ) (m : BTreeMap V) → IsAbove j m → IsAbove j (remove k m)
  unfolding remove
  remove-IsAbove j k [] a = tt
  remove-IsAbove j k ((i, w) ∷ m) a = ground (arith, remove-IsAbove j k m a.1)

  pub remove-IsAscending : (k : ℕ) (m : BTreeMap V) → IsAscending m → IsAscending (remove k m)
  unfolding remove
  remove-IsAscending k [] a = tt
  remove-IsAscending k ((j, w) ∷ m) a =
      ground (arith, remove-IsAscending k m a.1, remove-IsAbove j k m a.0)

  -- Every entry of the map is found under its key.
  pub entries-get : (m : BTreeMap V) → IsAscending m → All (λ e. get e.0 m ≡ some e.1) m
  entries-get [] a = tt
  entries-get ((k, v) ∷ m) a = (ground arith, above m a.0 (entries-get m a.1))
    where
      above :
          (l : BTreeMap V)
          → IsAbove k l
          → All (λ e. get e.0 m ≡ some e.1) l
          → All (λ e. get e.0 ((k, v) ∷ m) ≡ some e.1) l
      above [] b h = tt
      above (e ∷ l) b h = (ground arith, above l b.1 h.1)

  get-IsAbove : (k : ℕ) (m : BTreeMap V) → IsAbove k m → contains_key k m ≡ false
  get-IsAbove k [] a = refl
  get-IsAbove k ((j, v) ∷ m) a = ground (arith, get-IsAbove k m a.1)

  pub length-insert :
      (k : ℕ) (v : V) (m : BTreeMap V)
      → IsAscending m
      → length (insert k v m) ≡ (if contains_key k m then length m else suc (length m))
  unfolding insert
  length-insert k v [] a = refl
  length-insert k v ((j, w) ∷ m) a =
      ground (arith, length-insert k v m a.1, get-IsAbove k m, IsAbove-trans k j m)

  pub length-remove : (k : ℕ) (m : BTreeMap V) → length (remove k m) ≤ length m
  unfolding remove
  length-remove k [] = omega arith
  length-remove k ((j, w) ∷ m) = ground (arith, length-remove k m)
