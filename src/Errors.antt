-- ===== src/Errors.antt =====
-- The exceptions that the modelled code raises, and a computation that may raise one
-- (iotilesensorgraph/iotile/sg/exceptions.py, iotile.core.exceptions and Python's own).
use coretools.Prelude.{◌≡◌, ◌⊎◌, inl, inr, refl}

-- `diverged` is no exception of the program: it stands for a loop that has used up the rounds that
-- its model allows it.
pub data Error : Type 0 where
  argument_error internal_error data_error : Error
  stream_empty_error storage_full_error unresolved_identifier_error : Error
  too_many_inputs_error too_many_outputs_error processing_function_error : Error
  resource_usage_error node_connection_error : Error
  hardware_error attribute_error index_error key_error type_error value_error struct_error exception
        diverged :
      Error

pub data Result {ℓ} (A : Type ℓ) : Type ℓ where
  ok : A → Result A
  err : Error → Result A

infixl 5 ◌>>=◌
abbrev pub ◌>>=◌ {ℓ κ} : {A : Type ℓ} {B : Type κ} → Result A → (A → Result B) → Result B
ok a >>= f = f a
err e >>= f = err e

pub Result-cases {ℓ} :
    {A : Type ℓ} (r : Result A) → ((a : A) × (r ≡ ok a)) ⊎ ((x : Error) × (r ≡ err x))
Result-cases (ok a) = inl (a, refl)
Result-cases (err x) = inr (x, refl)
