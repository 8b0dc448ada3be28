-- ===== src/Prelude/Errors.antt =====
-- Python exceptions as values: a call that may raise returns a `Result`.
use mathlib.Core.Path.{◌≡◌, refl}
use mathlib.Core.Logic.{◌⊎◌, inl, inr}

-- The exceptions that the modelled code raises or lets through: `struct.error`,
-- `UnicodeEncodeError`, `ValueError`, and the classes of exceptions.py. A timeout is an instance of
-- `OSError` as well, and `os_error` is any other one.
pub data PyError : Type 0 where
  struct_error unicode_error value_error assertion_error : PyError
  protocol_error connection_error token_extraction_error : PyError
  auth_error door_error video_call_error runtime_error : PyError
  timeout_error os_error : PyError

pub data Result {ℓ} (T : Type ℓ) : Type ℓ where
  err : PyError → Result T
  ok : T → Result T

infixl 5 ◌>>=◌ ◌>>◌
abbrev pub ◌>>=◌ {ℓ κ} : {T : Type ℓ} {U : Type κ} → Result T → (T → Result U) → Result U
err raised >>= next = err raised
ok value >>= next = next value

abbrev pub ◌>>◌ {ℓ κ} : {T : Type ℓ} {U : Type κ} → Result T → Result U → Result U
first >> second = first >>= λ value. second

-- A successful sequence has a successful first part.
pub >>=-eq-ok {ℓ κ} :
    {T : Type ℓ} {U : Type κ} (first : Result T) (next : T → Result U) {final : U}
    → (first >>= next) ≡ ok final
    → (value : T) × (first ≡ ok value) × (next value ≡ ok final)
>>=-eq-ok (err raised) next done = cc
>>=-eq-ok (ok value) next done = (value, refl, done)

pub Result-cases {ℓ} :
    {A : Type ℓ} (r : Result A) → ((a : A) × (r ≡ ok a)) ⊎ ((e : PyError) × (r ≡ err e))
Result-cases (ok a) = inl (a, refl)
Result-cases (err e) = inr (e, refl)
