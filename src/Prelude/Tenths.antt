-- ===== src/Prelude/Tenths.antt =====
-- Decimal numbers with one digit or six, none of them negative, as instances of `F64` for runs on
-- concrete data. What would be below 0 is 0.
use jev_trader.Prelude.{ℕ, zero, suc, if◌then◌else◌, ◌+◌, ◌-◌, ◌*◌, ◌/◌, ◌^◌, true, ltb, leb, ◌==◌}
use jev_trader.Prelude.F64.{F64}
use jev_trader.Prelude.Int.{pos_part}

-- The greatest number, at most the first one, whose square is at most the second one.
abbrev root : ℕ → ℕ → ℕ
root zero n = 0
root (suc k) n = let below = root k n in if leb (suc k * suc k) n then suc k else below

-- `m` stands for `m` / `s`.
abbrev pub scaled : ℕ → F64
scaled s = record {
  F = ℕ;
  literal = λ m k. (m * s) / 10 ^ k;
  is_finite = λ a. true;
  lt = ltb;
  le = leb;
  eq = λ a b. a == b;
  add = λ a b. a + b;
  sub = λ a b. a - b;
  mul = λ a b. (a * b) / s;
  div = λ a b. (a * s) / b;
  abs = λ a. a;
  floor = λ a. (a / s) * s;
  ceil = λ a. ((a + (s - 1)) / s) * s;
  round = λ a. ((a + s / 2) / s) * s;
  sqrt = λ a. root (a * s) (a * s);
  neg = λ a. 0;
  of_u64 = λ n. n * s;
  to_u64 = λ a. a / s;
  of_i64 = λ n. pos_part n * s;
}

abbrev pub tenths : F64
tenths = scaled 10

abbrev pub millionths : F64
millionths = scaled 1000000
