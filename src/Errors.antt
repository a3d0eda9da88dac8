-- ===== src/Errors.antt =====
-- app/core/gitlab_client.py: the exception classes, and what a call that may raise gives back.
pub mod Action
pub mod Returns
pub mod Client
use mirror_maestro.Common.{◌≡◌, refl, ◌⊎◌, inl, inr, Bool, true, false}
use mirror_maestro.Text.{Text}

-- The class of a raised exception. `client_error` is the base class `GitLabClientError` itself,
-- `value_error` is `ValueError`, and `exception` stands for every other class.
pub data ErrorClass : Type 0 where
  client_error authentication_error connection_error not_found_error : ErrorClass
  permission_error rate_limit_error server_error : ErrorClass
  value_error exception : ErrorClass

-- `isinstance(e, GitLabClientError)`
abbrev pub is_client_error : ErrorClass → Bool
is_client_error value_error = false
is_client_error exception = false
is_client_error _ = true

-- An exception: its class, and `str(e)`.
pub record Error : Type 0 where
  pub class_of : ErrorClass
  pub message : Text

abbrev pub value_error_of : Text → Error
value_error_of message = record { class_of = value_error; message = message }

pub data Outcome {ℓ} (A : Type ℓ) : Type ℓ where
  returned : A → Outcome A
  raised : Error → Outcome A

pub Outcome-cases {ℓ} :
    {A : Type ℓ} (o : Outcome A) → ((a : A) × (o ≡ returned a)) ⊎ ((e : Error) × (o ≡ raised e))
Outcome-cases (returned a) = inl (a, refl)
Outcome-cases (raised e) = inr (e, refl)
