-- ===== src/Common/Results.antt =====
-- Code that may raise: a result with the class of the exception. Where an object is changed too, the
-- state comes back beside the exception, since what was written before a raise stays written.
use mathlib.Core.Path.{◌≡◌, refl}
use mathlib.Core.Logic.{◌⊎◌, inl, inr}

-- The exception classes that the modelled code raises or meets.
pub data Error : Type 0 where
  struct_error unicode_error protocol_error assertion_error attribute_error type_error : Error
  key_error index_error os_error timeout_error stop_exception : Error
  miner_error analysis_error proxy_client_error name_error value_error : Error
  keyboard_interrupt system_exit : Error
  out_of_fuel : Error

-- What a call comes to: it raises an exception, or it returns.
pub data Result {ℓ} (A : Type ℓ) : Type ℓ where
  err : Error → Result A
  ok : A → Result A

module _ {ℓ κ} {A : Type ℓ} {B : Type κ} where
  infixl 5 ◌>>=◌
  abbrev pub ◌>>=◌ : Result A → (A → Result B) → Result B
  err raised >>= next = err raised
  ok value >>= next = next value

  -- A chain that returns does so by way of a first call that returned.
  pub >>=-eq-ok :
      (first : Result A) (next : A → Result B) {b : B}
      → (first >>= next) ≡ ok b
      → (value : A) × (first ≡ ok value) × (next value ≡ ok b)
  >>=-eq-ok (err raised) next h = cc
  >>=-eq-ok (ok value) next h = (value, refl, h)

-- To split on the outcome of a call and keep the equation.
pub Result-cases {ℓ} :
    {A : Type ℓ} (r : Result A) → ((a : A) × (r ≡ ok a)) ⊎ ((e : Error) × (r ≡ err e))
Result-cases (ok a) = inl (a, refl)
Result-cases (err e) = inr (e, refl)
