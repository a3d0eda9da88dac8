-- ===== src/Tracker.antt =====
-- app/core/rate_limiter.py: `BatchOperationTracker`. The rates of `get_progress` are floats and are
-- left out.
use mirror_maestro.Common.{ℕ, ◌+◌, ◌≡◌, List, [], ◌∷◌, ◌++◌, length, length-append, arith}
use mirror_maestro.Text.{Text}

pub record BatchOperationTracker : Type 0 where
  pub total_items : ℕ
  pub processed : ℕ
  pub succeeded : ℕ
  pub failed : ℕ
  pub errors : List Text

-- `__init__`
unfoldable pub new_tracker : ℕ → BatchOperationTracker
new_tracker total = record {
  total_items = total;
  processed = 0;
  succeeded = 0;
  failed = 0;
  errors = [];
}

unfoldable pub record_success : BatchOperationTracker → BatchOperationTracker
record_success t = record t { processed = t.processed + 1; succeeded = t.succeeded + 1 }

unfoldable pub record_failure : Text → BatchOperationTracker → BatchOperationTracker
record_failure msg t = record t {
  processed = t.processed + 1;
  failed = t.failed + 1;
  errors = t.errors ++ msg ∷ [];
}

-- Every item is a success or a failure, and every failure has its message.
pub record IsValid (t : BatchOperationTracker) : Type 0 where
  pub split : t.processed ≡ t.succeeded + t.failed
  pub messages : length t.errors ≡ t.failed

pub new_tracker-IsValid : (total : ℕ) → IsValid (new_tracker total)
unfolding new_tracker
new_tracker-IsValid total = omega arith

pub record_success-IsValid : {t : BatchOperationTracker} → IsValid t → IsValid (record_success t)
unfolding record_success
record_success-IsValid v = omega arith

pub record_failure-IsValid :
    (msg : Text) {t : BatchOperationTracker} → IsValid t → IsValid (record_failure msg t)
unfolding record_failure
record_failure-IsValid msg {t} v = omega (arith, length-append t.errors (msg ∷ []))
