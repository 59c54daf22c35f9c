-- ===== src/Replay/Causality/Audit.antt =====
-- src/replay/causality.rs: a state passes exactly if nothing in it is from the future or forbidden.
use Prim.Native.String.{String}
use mathlib.Core.Path.{subst}
use mathlib.Core.Option.{some-injective}
use text.Mathlib.Text.{◌==◌ as str_eq}
use jev_trader.Prelude.{
  ℕ, ◌+◌, ◌≡◌, refl, sym, ap, ◌⊎◌, inl, inr, ◌↔◌, true, false, Option, none, some, List, [], ◌∷◌,
  arith, if◌then◌else◌, All, Option-cases, Bool-cases, ◌≤◌,
}
use jev_trader.Prelude.Int.{ℤ, ltb_ℤ, ◌≤ℤ◌, ◌<ℤ◌}
use jev_trader.Replay.Causality.{
  Value, null, number, bool, string, array, object, Values, no_values, value, Fields, no_fields,
  field, forbidden_fields, contains_key, first_key, or_else, find_forbidden_field, find_in_values,
  find_in_fields, CausalityVerdict, passed, rejected, future_input, forbidden_field, first_future,
  audit_state,
}

-- How often a name is the key of a field of a state, at any depth.
unfoldable mutual
  pub key_count : String → Value → ℕ
  key_count k null = 0
  key_count k number = 0
  key_count k (bool b) = 0
  key_count k (string s) = 0
  key_count k (array vs) = count_in_values k vs
  key_count k (object fs) = count_in_fields k fs

  pub count_in_values : String → Values → ℕ
  count_in_values k no_values = 0
  count_in_values k (value v vs) = key_count k v + count_in_values k vs

  pub count_in_fields : String → Fields → ℕ
  count_in_fields k no_fields = 0
  count_in_fields k (field j v fs) =
      (if str_eq j k then 1 else 0) + key_count k v + count_in_fields k fs

-- No forbidden name is the key of a field.
abbrev pub forbidden_count : Value → ℕ
forbidden_count v = key_count "outcome" v + key_count "resolved_ts_ms" v

-- How many of the direct keys are a name.
abbrev direct_count : String → Fields → ℕ
direct_count k no_fields = 0
direct_count k (field j v fs) = (if str_eq j k then 1 else 0) + direct_count k fs

abbrev inner_count : String → Fields → ℕ
inner_count k no_fields = 0
inner_count k (field j v fs) = key_count k v + inner_count k fs

count_in_fields-split :
    (k : String) (fs : Fields) → count_in_fields k fs ≡ direct_count k fs + inner_count k fs
unfolding count_in_fields
count_in_fields-split k no_fields = refl
count_in_fields-split k (field j v fs) = omega (arith, count_in_fields-split k fs)

contains_key_iff :
    (k : String) (fs : Fields) → (contains_key k fs ≡ false) ↔ (direct_count k fs ≡ 0)
contains_key_iff k no_fields = ground arith
contains_key_iff k (field j v fs) = ground (arith, contains_key_iff k fs)

mutual
  unfolding find_forbidden_field find_in_values find_in_fields key_count count_in_values
      count_in_fields

  pub find_forbidden_field_iff :
      (v : Value) → (find_forbidden_field v ≡ none) ↔ (forbidden_count v ≡ 0)
  find_forbidden_field_iff null = ground arith
  find_forbidden_field_iff number = ground arith
  find_forbidden_field_iff (bool b) = ground arith
  find_forbidden_field_iff (string s) = ground arith
  find_forbidden_field_iff (array vs) = find_in_values_iff vs
  find_forbidden_field_iff (object fs) = ground (
    arith,
    contains_key_iff "outcome" fs,
    contains_key_iff "resolved_ts_ms" fs,
    count_in_fields-split "outcome" fs,
    count_in_fields-split "resolved_ts_ms" fs,
    find_in_fields_iff fs,
  )

  find_in_values_iff :
      (vs : Values)
      → (find_in_values vs ≡ none)
        ↔ (count_in_values "outcome" vs + count_in_values "resolved_ts_ms" vs ≡ 0)
  find_in_values_iff no_values = ground arith
  find_in_values_iff (value v vs) =
      ground (arith, find_forbidden_field_iff v, find_in_values_iff vs)

  find_in_fields_iff :
      (fs : Fields)
      → (find_in_fields fs ≡ none)
        ↔ (inner_count "outcome" fs + inner_count "resolved_ts_ms" fs ≡ 0)
  find_in_fields_iff no_fields = ground arith
  find_in_fields_iff (field k v fs) =
      ground (arith, find_forbidden_field_iff v, find_in_fields_iff fs)

contains_key-true : (k : String) (fs : Fields) → contains_key k fs ≡ true → 1 ≤ direct_count k fs
contains_key-true k no_fields h = absurd (ground arith)
contains_key-true k (field j v fs) h = ground (arith, contains_key-true k fs)

-- What is found is a forbidden name, and a key of the state.
abbrev IsFound : (String → ℕ) → Option String → Type 0
IsFound count none = Unit
IsFound count (some k) = ((k ≡ "outcome") ⊎ (k ≡ "resolved_ts_ms")) × (1 ≤ count k)

IsFound-or_else :
    (count other whole : String → ℕ) (a b : Option String)
    → ((k : String) → count k + other k ≤ whole k)
    → IsFound count a
    → IsFound other b
    → IsFound whole (or_else a b)
IsFound-or_else count other whole none none le h g = tt
IsFound-or_else count other whole none (some k) le h g = (g.0, omega (arith, g.1, le k))
IsFound-or_else count other whole (some k) b le h g = (h.0, omega (arith, h.1, le k))

IsFound-first_key : (fs : Fields) → IsFound (λ k. direct_count k fs) (first_key forbidden_fields fs)
IsFound-first_key fs = elim (Bool-cases (contains_key "outcome" fs)) [
  | inl yes_o ↦ rw yes_o (inl refl, contains_key-true "outcome" fs yes_o)
  | inr no_o ↦ rw no_o (elim (Bool-cases (contains_key "resolved_ts_ms" fs)) [
    | inl yes_r ↦ rw yes_r (inr refl, contains_key-true "resolved_ts_ms" fs yes_r)
    | inr no_r ↦ rw no_r tt
  ])
]

mutual
  unfolding find_forbidden_field find_in_values find_in_fields key_count count_in_values
      count_in_fields

  find_forbidden_field-IsFound : (v : Value) → IsFound (λ k. key_count k v) (find_forbidden_field v)
  find_forbidden_field-IsFound null = tt
  find_forbidden_field-IsFound number = tt
  find_forbidden_field-IsFound (bool b) = tt
  find_forbidden_field-IsFound (string s) = tt
  find_forbidden_field-IsFound (array vs) = find_in_values-IsFound vs
  find_forbidden_field-IsFound (object fs) =
      IsFound-or_else (λ k. direct_count k fs) (λ k. inner_count k fs) (λ k. count_in_fields k fs)
        (first_key forbidden_fields fs) (find_in_fields fs)
        (λ k. omega (arith, count_in_fields-split k fs)) (IsFound-first_key fs)
        (find_in_fields-IsFound fs)

  find_in_values-IsFound : (vs : Values) → IsFound (λ k. count_in_values k vs) (find_in_values vs)
  find_in_values-IsFound no_values = tt
  find_in_values-IsFound (value v vs) =
      IsFound-or_else (λ k. key_count k v) (λ k. count_in_values k vs)
        (λ k. key_count k v + count_in_values k vs) (find_forbidden_field v) (find_in_values vs)
        (λ k. omega arith) (find_forbidden_field-IsFound v) (find_in_values-IsFound vs)

  find_in_fields-IsFound : (fs : Fields) → IsFound (λ k. inner_count k fs) (find_in_fields fs)
  find_in_fields-IsFound no_fields = tt
  find_in_fields-IsFound (field j v fs) =
      IsFound-or_else (λ k. key_count k v) (λ k. inner_count k fs)
        (λ k. key_count k v + inner_count k fs) (find_forbidden_field v) (find_in_fields fs)
        (λ k. omega arith) (find_forbidden_field-IsFound v) (find_in_fields-IsFound fs)

first_future_iff :
    (t : ℤ) (inputs : List (String × ℤ))
    → (first_future t inputs ≡ none) ↔ All (λ i. i.1 ≤ℤ t) inputs
first_future_iff t [] = (λ h. tt, λ h. refl)
first_future_iff t (i ∷ inputs) =
    let rest = first_future_iff t inputs in
    elim (Bool-cases (ltb_ℤ t i.1)) [
      | inl later ↦ rw later (λ h. absurd (ground arith), λ a. absurd (ground arith))
      | inr fine ↦ rw fine (λ h. (ground arith, rest.0 h), λ a. rest.1 a.1)
    ]

-- An input, by its name and its time, is among some inputs.
abbrev pub IsInput : String → ℤ → List (String × ℤ) → Type 0
IsInput k at [] = ⊥
IsInput k at (i ∷ inputs) = ((k ≡ i.0) × (at ≡ i.1)) ⊎ IsInput k at inputs

first_future-IsInput :
    (t : ℤ) (inputs : List (String × ℤ)) (i : String × ℤ)
    → first_future t inputs ≡ some i
    → IsInput i.0 i.1 inputs
first_future-IsInput t [] i h = absurd (cc h)
first_future-IsInput t (j ∷ inputs) i h = elim (Bool-cases (ltb_ℤ t j.1)) [
  | inl later ↦
      let same = some-injective j i (rw later at h) in
      inl (sym (ap (λ x. x.0) same), sym (ap (λ x. x.1) same))
  | inr fine ↦ inr (first_future-IsInput t inputs i (rw fine at h))
]

first_future_later :
    (t : ℤ) (inputs : List (String × ℤ)) (i : String × ℤ)
    → first_future t inputs ≡ some i
    → t <ℤ i.1
first_future_later t [] i h = absurd (ground arith)
first_future_later t (j ∷ inputs) i h = elim (Bool-cases (ltb_ℤ t j.1)) [
  | inl later ↦ subst (λ x. t <ℤ x.1) (some-injective j i (rw later at h)) (ground arith)
  | inr fine ↦ first_future_later t inputs i (rw fine at h)
]

-- What the verdict on a state says of its inputs and of its serialised form.
abbrev pub Explains : ℤ → List (String × ℤ) → Value → CausalityVerdict → Type 0
Explains t inputs state passed = All (λ i. i.1 ≤ℤ t) inputs × (forbidden_count state ≡ 0)
Explains t inputs state (rejected (future_input k i at)) = IsInput k i inputs × (t <ℤ i) × (at ≡ t)
Explains t inputs state (rejected (forbidden_field k)) =
    All (λ i. i.1 ≤ℤ t) inputs
    × ((k ≡ "outcome") ⊎ (k ≡ "resolved_ts_ms"))
    × (1 ≤ key_count k state)

audit_state-Explains :
    (t : ℤ) (inputs : List (String × ℤ)) (state : Value)
    → Explains t inputs state (audit_state t inputs state)
unfolding audit_state
audit_state-Explains t inputs state = elim (Option-cases (first_future t inputs)) [
  | inr (i, later) ↦
      rw (later, audit_state)
        (first_future-IsInput t inputs i later, first_future_later t inputs i later, refl)
  | inl fine ↦
      let known = (first_future_iff t inputs).0 fine in
      elim (Option-cases (find_forbidden_field state)) [
        | inl clean ↦
            rw (fine, clean, audit_state) (known, (find_forbidden_field_iff state).0 clean)
        | inr (k, found) ↦
            let sound = rw found at (find_forbidden_field-IsFound state) in
            rw (fine, found, audit_state) (known, sound.0, sound.1)
      ]
]

-- A state passes exactly if none of its inputs is later than it and no forbidden name is a key of its
-- serialised form at any depth. A rejection is true: the input that it names, with its time, is one of
-- the inputs and later than the state, or the inputs are fine and the field that it names is forbidden
-- and stands in the state.
pub audit_state_iff :
    (t : ℤ) (inputs : List (String × ℤ)) (state : Value)
    → ((audit_state t inputs state ≡ passed)
        ↔ (All (λ i. i.1 ≤ℤ t) inputs × (forbidden_count state ≡ 0)))
      × Explains t inputs state (audit_state t inputs state)
unfolding audit_state
audit_state_iff t inputs state =
    let explains = audit_state-Explains t inputs state in
    (
      (
        (λ h. rw h at explains),
        λ h.
            rw
              (
                (first_future_iff t inputs).1 h.0,
                (find_forbidden_field_iff state).1 h.1,
                audit_state,
              )
              refl,
      ),
      explains,
    )
