-- ===== src/Prelude/Results.antt =====
-- Python exceptions as values: a call that may raise returns a `Result`.
use Prim.Native.String.{String}
use mathlib.Core.Path.{◌≡◌, refl}
use mathlib.Core.Logic.{◌⊎◌, inl, inr}
use mathlib.Core.Bool.{Bool, true, false}
use mathlib.Core.Option.{Option, none, some}

-- The exceptions that the modelled code raises, with the texts that it gives them.
pub data Error : Type 0 where
  value_error : String → Error
  key_error : String → Error
  type_error : Error
  overflow_error : Error
  os_error : Error
  attribute_error : Error
  runtime_error : String → Error
  timeout_expired : Error

pub data Result {ℓ} (X : Type ℓ) : Type ℓ where
  err : Error → Result X
  ok : X → Result X

-- `if bad: raise ValueError(message)`
abbrev pub raise_if : Bool → String → Result (Unit {0})
raise_if true message = err (value_error message)
raise_if false message = ok tt

abbrev pub or_raise {ℓ} : {X : Type ℓ} → Option X → Error → Result X
or_raise (some x) exception = ok x
or_raise none exception = err exception

infixl 5 ◌>>=◌ ◌>>◌
abbrev pub ◌>>=◌ {ℓ κ} : {X : Type ℓ} {Y : Type κ} → Result X → (X → Result Y) → Result Y
err exception >>= next = err exception
ok x >>= next = next x

abbrev pub ◌>>◌ {κ} : {Y : Type κ} → Result (Unit {0}) → Result Y → Result Y
check >> rest = check >>= λ _. rest

-- A chain that returns has come through its first call.
pub >>=-eq-ok {ℓ κ} :
    {X : Type ℓ} {Y : Type κ} (first : Result X) (next : X → Result Y) {y : Y}
    → (first >>= next) ≡ ok y
    → (x : X) × (first ≡ ok x) × (next x ≡ ok y)
>>=-eq-ok (err exception) next returned = cc
>>=-eq-ok (ok x) next returned = (x, refl, returned)

pub raise_if-eq-ok {κ} :
    {Y : Type κ} (bad : Bool) (message : String) (rest : Result Y) {y : Y}
    → (raise_if bad message >> rest) ≡ ok y
    → (bad ≡ false) × (rest ≡ ok y)
raise_if-eq-ok false message rest returned = (refl, returned)
raise_if-eq-ok true message rest returned = cc

pub Result-cases {ℓ} :
    {X : Type ℓ} (answer : Result X)
    → ((e : Error) × (answer ≡ err e)) ⊎ ((x : X) × (answer ≡ ok x))
Result-cases (err e) = inl (e, refl)
Result-cases (ok x) = inr (x, refl)
