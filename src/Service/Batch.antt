-- ===== src/Service/Batch.antt =====
-- `execute_batch`: every operation is counted once, and the progress callback hears the end.
use mirror_maestro.Common.{
  ℕ, ◌+◌, ◌%◌, ◌<◌, ◌≡◌, ◌≢◌, ◌∙◌, refl, inl, inr, Bool-cases, Bool, true, false, Option, none,
  some, List, [], ◌∷◌, ◌++◌, length, arith, ◌==◌, if◌then◌else◌,
}
use mirror_maestro.Errors.{Outcome, returned, raised}
use mirror_maestro.Tracker.{
  BatchOperationTracker, IsValid, new_tracker, new_tracker-IsValid, record_success, record_failure,
  record_success-IsValid, record_failure-IsValid,
}
use mirror_maestro.Service.{
  Service, BatchItem, execute, batch_loop, execute_batch, record_result, progress_of,
}

record_result-IsValid {ℓ} :
    {A : Type ℓ} (o : Outcome A) {t : BatchOperationTracker}
    → IsValid t
    → IsValid (record_result o t)
record_result-IsValid (returned a) v = record_success-IsValid v
record_result-IsValid (raised e) v = record_failure-IsValid e.message v

processed-record_result {ℓ} :
    {A : Type ℓ} (o : Outcome A) (t : BatchOperationTracker)
    → ((record_result o t).processed ≡ t.processed + 1)
      × ((record_result o t).total_items ≡ t.total_items)
unfolding record_success record_failure
processed-record_result (returned a) t = ground arith
processed-record_result (raised e) t = ground arith

new_tracker-counts :
    (total : ℕ) → ((new_tracker total).processed ≡ 0) × ((new_tracker total).total_items ≡ total)
unfolding new_tracker
new_tracker-counts total = (refl, refl)

abbrev pub last? {ℓ} : {A : Type ℓ} → List A → Option A
last? [] = none
last? (x ∷ []) = some x
last? (x ∷ (y ∷ l)) = last? (y ∷ l)

last?-append {ℓ} : {A : Type ℓ} (l : List A) (a : A) → last? (l ++ a ∷ []) ≡ some a
last?-append [] a = refl
last?-append (x ∷ []) a = refl
last?-append (x ∷ (y ∷ l)) a = last?-append (y ∷ l) a

last?-if {ℓ} :
    {A : Type ℓ} (b : Bool) (x a : A) (l : List A)
    → last? l ≡ some a
    → last? (if b then x ∷ l else l) ≡ some a
last?-if false x a l h = h
last?-if true x a [] h = absurd (let bad = h in cc)
last?-if true x a (y ∷ l) h = h

module _ {ℓ} {A : Type ℓ} (batch_size : ℕ) where
  batch_loop-counts :
      (items : List (BatchItem A)) (i : ℕ) (t : BatchOperationTracker) (s : Service)
      → IsValid t
      → let r = (batch_loop batch_size items i t s).0 in
        IsValid r × (r.processed ≡ t.processed + length items) × (r.total_items ≡ t.total_items)
  unfolding batch_loop
  batch_loop-counts [] i t s v = (v, omega arith, refl)
  batch_loop-counts (item ∷ items) i t s v =
      let (r, s') = execute item.url item.operation s in
      let t' = record_result r.result t in
      let (valid, more, same) =
        batch_loop-counts items (i + 1) t' s' (record_result-IsValid r.result v) in
      let (one, kept) = processed-record_result r.result t in (valid, omega arith, same ∙ kept)

  -- A loop that ends on a multiple of the batch size has reported its end.
  batch_loop-reports :
      (item : BatchItem A) (items : List (BatchItem A)) (i : ℕ) (t : BatchOperationTracker)
      (s : Service)
      → t.processed ≡ i
      → let (r, calls, _) = batch_loop batch_size (item ∷ items) i t s in
        (r.processed % batch_size == 0) ≡ true → last? calls ≡ some (progress_of r)
  unfolding batch_loop
  batch_loop-reports item [] i t s e h =
      let (r, s') = execute item.url item.operation s in
      let (one, _) = processed-record_result r.result t in
      let same : (record_result r.result t).processed ≡ i + 1 = omega arith in
      let h' = (rw same at h) in rw h'
  batch_loop-reports item (next ∷ items) i t s e h =
      let (r, s') = execute item.url item.operation s in
      let t' = record_result r.result t in
      let (one, _) = processed-record_result r.result t in
      let (final, calls, _) = batch_loop batch_size (next ∷ items) (i + 1) t' s' in
      last?-if _ (progress_of t') (progress_of final) calls
        (batch_loop-reports next items (i + 1) t' s' (omega arith) h)

execute_batch-reports {ℓ} :
    {A : Type ℓ} (items : List (BatchItem A)) (batch_size : ℕ) (s : Service)
    → items ≢ []
    → let (t, calls, _) = execute_batch items batch_size s in last? calls ≡ some (progress_of t)
unfolding execute_batch
execute_batch-reports [] batch_size s h = absurd (h refl)
execute_batch-reports (item ∷ items) batch_size s h =
    let start = new_tracker (length (item ∷ items)) in
    let (t, calls, _) = batch_loop batch_size (item ∷ items) 0 start s in
    let (none_yet, _) = new_tracker-counts (length (item ∷ items)) in
    elim (Bool-cases (t.processed % batch_size == 0)) [
      | inl e ↦ rw e (batch_loop-reports batch_size item items 0 start s none_yet e)
      | inr e ↦ rw e (last?-append calls (progress_of t))
    ]

-- A batch tries every operation once: all are processed, each is counted as a success or as a
-- failure, and each failure left one message. If there is an operation at all and the batch size
-- is positive, the last call of the progress callback reports these final counts.
pub execute_batch_counts {ℓ} :
    {A : Type ℓ} (items : List (BatchItem A)) (batch_size : ℕ) (s : Service)
    → 0 < batch_size
    → let (t, calls, _) = execute_batch items batch_size s in
      (t.processed ≡ length items)
      × (t.total_items ≡ length items)
      × IsValid t
      × (items ≢ [] → last? calls ≡ some (progress_of t))
execute_batch_counts items batch_size s positive =
    let total = length items in
    let start = new_tracker total in
    let (valid, counted, same) =
      batch_loop-counts batch_size items 0 start s (new_tracker-IsValid total) in
    let (none_yet, all) = new_tracker-counts total in
    (
      unfold execute_batch in omega arith,
      unfold execute_batch in same ∙ all,
      unfold execute_batch in valid,
      λ some_item. unfold execute_batch in execute_batch-reports items batch_size s some_item,
    )
