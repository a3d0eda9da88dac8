-- ===== src/Http.antt =====
-- What an endpoint answers.
use mirror_maestro.Common.{ℕ}
use mirror_maestro.Text.{Text, codes}

-- An `HTTPException` with its status and detail; 500 is also an exception that no one catches.
pub data Reply (A : Type 0) : Type 0 where
  reply : A → Reply A
  refuse : ℕ → Text → Reply A

abbrev pub internal_error : {A : Type 0} → Reply A
internal_error = refuse 500 (codes "Internal Server Error")
