-- ===== src/Prelude/F64.antt =====
-- `f64`: the operations of Rust's floating-point numbers that the program calls. The numbers are a
-- parameter of the model; a theorem that needs more of them than the operations states it.
use Prim.Native.Nat.{ℕ}
use mathlib.Core.Bool.{Bool}
use mathlib.Core.List.{List, [], ◌∷◌}
use jev_trader.Prelude.Int.{ℤ}

pub record F64 : Type 1 where
  pub F : Type 0
  -- The literal `m` / 10 ^ `k`.
  pub literal : ℕ → ℕ → F
  pub is_finite : F → Bool
  -- `<`, `<=` and `==`
  pub lt : F → F → Bool
  pub le : F → F → Bool
  pub eq : F → F → Bool
  pub add : F → F → F
  pub sub : F → F → F
  pub mul : F → F → F
  pub div : F → F → F
  pub abs : F → F
  pub floor : F → F
  pub ceil : F → F
  pub round : F → F
  pub sqrt : F → F
  pub neg : F → F
  -- `as f64` from a `u64`, and `as u64`, which saturates and takes NaN to 0.
  pub of_u64 : ℕ → F
  pub to_u64 : F → ℕ
  -- `as f64` from an `i64`.
  pub of_i64 : ℤ → F

module _ (f : F64) where
  open f use {F, literal, add, neg}

  abbrev sum_from : F → List F → F
  sum_from total [] = total
  sum_from total (x ∷ xs) = sum_from (add total x) xs

  -- `.sum()`, which starts at -0.0
  abbrev pub sum : List F → F
  sum = sum_from (neg (literal 0 0))
