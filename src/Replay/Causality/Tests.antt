-- ===== src/Replay/Causality/Tests.antt =====
-- Audits of concrete states, and the instances of the theorems.
use Prim.Native.String.{String}
use jev_trader.Prelude.{◌≡◌, refl, ◌↔◌, List, [], ◌∷◌, All}
use jev_trader.Prelude.Int.{ℤ, pos, ◌≤ℤ◌}
use jev_trader.Replay.Causality.{
  Value, null, number, array, object, value, no_values, field, no_fields, passed, rejected,
  future_input, forbidden_field, audit_state, find_forbidden_field, find_in_values, find_in_fields,
}
use jev_trader.Replay.Causality.Audit.{forbidden_count, Explains, audit_state_iff}

abbrev inputs : List (String × ℤ)
inputs = ("book", pos 90) ∷ ("tick", pos 100) ∷ []

-- The outcome stands in a list inside a field.
abbrev leaking : Value
leaking = object (
    field "spot" number (
      field "legs" (array (value null (value (object (field "outcome" null no_fields)) no_values)))
        no_fields))

rejects_leak : audit_state (pos 100) inputs leaking ≡ rejected (forbidden_field "outcome")
unfolding audit_state find_forbidden_field find_in_values find_in_fields
rejects_leak = refl

rejects_future :
    audit_state (pos 99) inputs null ≡ rejected (future_input "tick" (pos 100) (pos 99))
unfolding audit_state
rejects_future = refl

audit_state_iff_example :
    ((audit_state (pos 100) inputs leaking ≡ passed)
      ↔ (All (λ i. i.1 ≤ℤ pos 100) inputs × (forbidden_count leaking ≡ 0)))
    × Explains (pos 100) inputs leaking (audit_state (pos 100) inputs leaking)
audit_state_iff_example = audit_state_iff (pos 100) inputs leaking
