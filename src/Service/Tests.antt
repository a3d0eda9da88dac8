-- ===== src/Service/Tests.antt =====
-- Runs of the service, and its theorems at concrete inputs.
use mirror_maestro.Common.{ℕ, ◌+◌, ◌≡◌, refl, none, some, [], ◌∷◌, arith}
use mirror_maestro.Text.{Text, codes, eq_text, lookup}
use mirror_maestro.Errors.{is_client_error, server_error, Error, raised}
use mirror_maestro.Breaker.{CircuitBreaker, closed, open_error}
use mirror_maestro.Service.{Service, Operation, execute, wrapped}
use mirror_maestro.Service.FailFast.{execute_fails_fast}

abbrev url : Text
url = codes "https://a.example"

-- One failure short of its threshold.
abbrev shaky : CircuitBreaker
shaky = record {
  failure_threshold = 2;
  recovery_timeout = 60;
  success_threshold = 3;
  expected = is_client_error;
  failure_count = 1;
  success_count = 0;
  last_failure_time = some 10;
  state = closed;
}

abbrev service_with : CircuitBreaker → Service
service_with cb = record {
  max_retries = 3;
  threshold = 2;
  recovery = 60;
  rate_limiter = record { delay_ms = 0; max_retries = 3; operation_count = 0; start_time = none };
  circuit_breakers = (url, cb) ∷ [];
}

abbrev down : Error
down = record { class_of = server_error; message = codes "502" }

abbrev failing : Operation ℕ
failing = record {
  name = codes "sync";
  checked_at = 20;
  begins = λ k. 20 + k;
  ends = λ k. 20 + k;
  outcome = λ k. raised down;
  meanwhile = λ k cb. cb;
}

-- The first failure opens the circuit; the second of four attempts is refused.
execute_fails_fast_example :
    ((execute url failing (service_with shaky)).0.invoked ≡ 1)
    × ((execute url failing (service_with shaky)).0.result
        ≡ raised (wrapped (codes "sync") (open_error shaky)))
unfolding lookup eq_text
execute_fails_fast_example =
    execute_fails_fast url failing (service_with shaky) (λ k. down) shaky 0 (λ k. refl) (λ k. refl)
      (λ k c. refl) (λ k. omega arith) refl refl refl (omega arith)
