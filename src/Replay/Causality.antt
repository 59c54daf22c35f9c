-- ===== src/Replay/Causality.antt =====
-- src/replay/causality.rs: the audit of what a replay state may know, and its counters.
pub mod Audit
pub mod Counters
mod Tests
use Prim.Native.String.{String}
use text.Mathlib.Text.{◌==◌ as str_eq}
use jev_trader.Prelude.{
  ℕ, suc, Bool, true, false, ◌||◌, Option, none, some, List, [], ◌∷◌, if◌then◌else◌,
}
use jev_trader.Prelude.Int.{ℤ, ltb_ℤ}

-- `serde_json::Value`, the contents of its numbers left out, which no operation here reads. An object
-- lists its fields in the order in which they are visited.
mutual
  pub data Value : Type 0 where
    null number : Value
    bool : Bool → Value
    string : String → Value
    array : Values → Value
    object : Fields → Value

  pub data Values : Type 0 where
    no_values : Values
    value : Value → Values → Values

  pub data Fields : Type 0 where
    no_fields : Fields
    field : String → Value → Fields → Fields

abbrev pub forbidden_fields : List String
forbidden_fields = "outcome" ∷ "resolved_ts_ms" ∷ []

abbrev pub contains_key : String → Fields → Bool
contains_key k no_fields = false
contains_key k (field j v fs) = str_eq j k || contains_key k fs

-- The first of some names that is a key of an object.
abbrev pub first_key : List String → Fields → Option String
first_key [] fs = none
first_key (k ∷ ks) fs = let rest = first_key ks fs in if contains_key k fs then some k else rest

abbrev pub or_else : Option String → Option String → Option String
or_else none other = other
or_else (some k) other = some k

unfoldable mutual
  pub find_forbidden_field : Value → Option String
  find_forbidden_field null = none
  find_forbidden_field number = none
  find_forbidden_field (bool b) = none
  find_forbidden_field (string s) = none
  find_forbidden_field (array vs) = find_in_values vs
  find_forbidden_field (object fs) = or_else (first_key forbidden_fields fs) (find_in_fields fs)

  pub find_in_values : Values → Option String
  find_in_values no_values = none
  find_in_values (value v vs) = or_else (find_forbidden_field v) (find_in_values vs)

  pub find_in_fields : Fields → Option String
  find_in_fields no_fields = none
  find_in_fields (field k v fs) = or_else (find_forbidden_field v) (find_in_fields fs)

pub data CausalityReason : Type 0 where
  future_input : String → ℤ → ℤ → CausalityReason
  forbidden_field : String → CausalityReason

pub data CausalityVerdict : Type 0 where
  passed : CausalityVerdict
  rejected : CausalityReason → CausalityVerdict

-- The first input that is later than a time.
abbrev pub first_future : ℤ → List (String × ℤ) → Option (String × ℤ)
first_future t_ms [] = none
first_future t_ms (i ∷ inputs) =
    let rest = first_future t_ms inputs in if ltb_ℤ t_ms i.1 then some i else rest

unfoldable pub audit_state : ℤ → List (String × ℤ) → Value → CausalityVerdict
audit_state t_ms inputs state_json = elim (first_future t_ms inputs) [
  | some i ↦ rejected (future_input i.0 i.1 t_ms)
  | none ↦ elim (find_forbidden_field state_json) [
    | some k ↦ rejected (forbidden_field k)
    | none ↦ passed
  ]
]

pub record CausalityStats : Type 0 where
  pub n_audited : ℕ
  pub n_ok : ℕ
  pub n_rejected_future_input : ℕ
  pub n_rejected_forbidden_field : ℕ

abbrev pub no_stats : CausalityStats
no_stats = record {
  n_audited = 0;
  n_ok = 0;
  n_rejected_future_input = 0;
  n_rejected_forbidden_field = 0;
}

-- `CausalityStats::record`. The counters count calls, too few to fill a `usize`.
unfoldable pub record_verdict : CausalityStats → CausalityVerdict → CausalityStats
record_verdict stats passed = record stats {
  n_audited = suc stats.n_audited;
  n_ok = suc stats.n_ok;
}
record_verdict stats (rejected (future_input k i t)) = record stats {
  n_audited = suc stats.n_audited;
  n_rejected_future_input = suc stats.n_rejected_future_input;
}
record_verdict stats (rejected (forbidden_field k)) = record stats {
  n_audited = suc stats.n_audited;
  n_rejected_forbidden_field = suc stats.n_rejected_forbidden_field;
}
