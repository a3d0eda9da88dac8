-- ===== src/Mirrors/Raises.antt =====
-- app/api/mirrors.py: what the calls of GitLab through the service may raise.
use mirror_maestro.Common.{◌≡◌, refl, ◌⊎◌, inl, inr, true}
use mirror_maestro.Text.{Text}
use mirror_maestro.Errors.{
  ErrorClass, client_error, authentication_error, connection_error, not_found_error,
  permission_error, rate_limit_error, server_error, value_error, exception, is_client_error, Error,
  Outcome, returned, raised,
}
use mirror_maestro.Service.{Service, Operation, execute}
use mirror_maestro.Service.Errors.{RaisesClientErrors, execute_client_errors}
use mirror_maestro.Mirrors.Op.{
  Raise, http, other, Result, ok, thrown, translated, execute_gitlab_op,
}

-- An HTTP error that says what to do: wait, try later, or look into the log.
abbrev pub IsReported : Raise → Type 0
IsReported (http status detail) = (status ≡ 503) ⊎ ((status ≡ 429) ⊎ (status ≡ 500))
IsReported (other e) = ⊥

abbrev pub RaisesReported : {A : Type 0} → Result A → Type 0
RaisesReported (ok a) = Unit
RaisesReported (thrown x) = IsReported x

translated-IsReported :
    (e : Error) (c : ErrorClass) → is_client_error c ≡ true → IsReported (translated e c)
translated-IsReported e connection_error h = inl refl
translated-IsReported e rate_limit_error h = inr (inl refl)
translated-IsReported e client_error h = inr (inr refl)
translated-IsReported e authentication_error h = inr (inr refl)
translated-IsReported e not_found_error h = inr (inr refl)
translated-IsReported e permission_error h = inr (inr refl)
translated-IsReported e server_error h = inr (inr refl)
translated-IsReported e value_error h = cc h
translated-IsReported e exception h = cc h

reported :
    {A : Type 0} (o : Outcome A) → RaisesClientErrors o → RaisesReported (execute_gitlab_op o)
reported (returned a) h = tt
reported (raised e) h = translated-IsReported e e.class_of h

-- Whatever the operation raises, what an endpoint's call of GitLab raises is an HTTP error with
-- status 503, 429 or 500.
pub execute_gitlab_op-RaisesReported :
    {A : Type 0} (url : Text) (op : Operation A) (s : Service)
    → RaisesReported (execute_gitlab_op (execute url op s).0.result)
execute_gitlab_op-RaisesReported url op s =
    reported (execute url op s).0.result (execute_client_errors url op s)
