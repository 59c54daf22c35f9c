-- ===== src/Prelude/Results.antt =====
-- `std::result::Result`.
use mathlib.Core.Path.{◌≡◌, refl, ap}
use mathlib.Core.Logic.{◌⊎◌, inl, inr}
use mathlib.Core.Bool.{Bool, true, false}
use mathlib.Core.Option.{Option, none, some}
use jev_trader.Prelude.Tests.{if◌then◌else◌}

pub data Result {ℓ} (A : Type ℓ) (E : Type ℓ) : Type ℓ where
  ok : A → Result A E
  err : E → Result A E

pub Result-cases {ℓ} :
    {A E : Type ℓ} (r : Result A E) → ((a : A) × (r ≡ ok a)) ⊎ ((e : E) × (r ≡ err e))
Result-cases (ok a) = inl (a, refl)
Result-cases (err e) = inr (e, refl)

-- `option.ok_or(e)?`
abbrev pub ok_or {ℓ} : {A E : Type ℓ} → Option A → E → Result A E
ok_or none e = err e
ok_or (some a) e = ok a

-- `if !test { return Err(e); }`
abbrev pub ensure : {E : Type 0} → Bool → E → Result Unit E
ensure false reason = err reason
ensure true reason = ok tt

-- `?`, and the sequence of statements whose value is dropped
module _ {ℓ} {V W E : Type ℓ} where
  infixl 5 ◌>>=◌
  abbrev pub ◌>>=◌ : Result V E → (V → Result W E) → Result W E
  err reason >>= next = err reason
  ok v >>= next = next v

  -- What a chain that succeeded has passed.
  pub >>=_ok :
      (first : Result V E) (next : V → Result W E) {w : W}
      → (first >>= next) ≡ ok w
      → (v : V) × (first ≡ ok v) × (next v ≡ ok w)
  >>=_ok (err reason) next h = cc
  >>=_ok (ok v) next h = (v, refl, h)

infixl 5 ◌>>◌
abbrev pub ◌>>◌ : {V E : Type 0} → Result Unit E → Result V E → Result V E
first >> rest = first >>= (λ u. rest)

pub >>_ok :
    {V E : Type 0} (test : Bool) (reason : E) (rest : Result V E) {v : V}
    → (ensure test reason >> rest) ≡ ok v
    → (test ≡ true) × (rest ≡ ok v)
>>_ok false reason rest h = cc
>>_ok true reason rest h = (refl, h)

pub ok_or-eq-ok {ℓ} : {A E : Type ℓ} (o : Option A) (e : E) {a : A} → ok_or o e ≡ ok a → o ≡ some a
ok_or-eq-ok none e h = cc
ok_or-eq-ok (some b) e h = cc

pub ensure_ok : {E : Type 0} (test : Bool) (e : E) {u : Unit} → ensure test e ≡ ok u → test ≡ true
ensure_ok true e h = refl
ensure_ok false e h = cc

pub ok-injective {ℓ} : {A E : Type ℓ} (a b : A) → Path (Result A E) (ok a) (ok b) → a ≡ b
ok-injective a b h = ap (λ r. elim r [ ok x ↦ x | err e ↦ a ]) h

pub if-err-eq-ok {ℓ} :
    {A E : Type ℓ} (test : Bool) (e : E) (r : Result A E) {b : A}
    → (if test then err e else r) ≡ ok b
    → (test ≡ false) × (r ≡ ok b)
if-err-eq-ok true e r h = cc
if-err-eq-ok false e r h = (refl, h)

-- `map_err`
abbrev pub map_err {ℓ} : {A E G : Type ℓ} → (E → G) → Result A E → Result A G
map_err g (ok a) = ok a
map_err g (err e) = err (g e)

pub map_err-eq-ok {ℓ} :
    {A E G : Type ℓ} (g : E → G) (r : Result A E) {a : A} → map_err g r ≡ ok a → r ≡ ok a
map_err-eq-ok g (ok b) h = ap (λ r. elim r [ ok x ↦ ok x | err e ↦ ok b ]) h
map_err-eq-ok g (err e) h = cc
