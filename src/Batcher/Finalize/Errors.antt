-- ===== src/Batcher/Finalize/Errors.antt =====
-- The errors of a submission: none of them says that the state was flushed.
use Prim.Native.String.{String}
use aligned_layer.Prelude.{
  ℕ, ◌≡◌, refl, sym, subst, Bool, true, false, not, List, [], ◌∷◌, ◌++◌, Result, ok, err, map_err,
}
use aligned_layer.Batcher.Errors.{BatcherError, state_corrupted_and_flushed}
use aligned_layer.Batcher.Retry.{
  RetryError, inner, retry_function, Call, Pending, create_new_task_retryable,
  simulate_create_new_task_retryable, is_transient, Backon, answered, reverted, failed, timed_out,
  watch_error, not_found, included,
}
use aligned_layer.Batcher.World.{NewTask, World}
use aligned_layer.Batcher.Finalize.{
  before, url_of, secondary_urls, joined, upload_batch_to_s3, upload_batch_to_multiple_s3,
  simulate_create_new_task, create_new_task,
}

abbrev pub is_corrupted : BatcherError → Bool
is_corrupted (state_corrupted_and_flushed a) = true
is_corrupted _ = false

-- A result that does not say that the state was flushed.
abbrev pub keeps : {A : Type 0} → Result A BatcherError → Bool
keeps (ok a) = true
keeps (err e) = not (is_corrupted e)

keeps-inner :
    {A : Type 0} (backon : Backon) (f : ℕ → Result A (RetryError BatcherError)) (max_times : ℕ)
    → ((i : ℕ) → keeps (map_err inner (f i)) ≡ true)
    → keeps (map_err inner (retry_function backon f max_times)) ≡ true
unfolding retry_function
keeps-inner backon f max_times h =
    let (n, _, same, _, _) = backon.retry_lem f max_times is_transient in
    subst (λ r. keeps (map_err inner r) ≡ true) (sym same) (h n)

create_new_task_retryable_keeps :
    (to_string : List ℕ → String) (first fallback : Call Pending)
    → keeps (map_err inner (create_new_task_retryable to_string first fallback)) ≡ true
unfolding create_new_task_retryable
create_new_task_retryable_keeps ts (answered timed_out) f = refl
create_new_task_retryable_keeps ts (answered watch_error) f = refl
create_new_task_retryable_keeps ts (answered not_found) f = refl
create_new_task_retryable_keeps ts (answered (included t)) f = refl
create_new_task_retryable_keeps ts (reverted e) f = refl
create_new_task_retryable_keeps ts (failed t) (answered timed_out) = refl
create_new_task_retryable_keeps ts (failed t) (answered watch_error) = refl
create_new_task_retryable_keeps ts (failed t) (answered not_found) = refl
create_new_task_retryable_keeps ts (failed t) (answered (included u)) = refl
create_new_task_retryable_keeps ts (failed t) (reverted e) = refl
create_new_task_retryable_keeps ts (failed t) (failed u) = refl

simulate_create_new_task_retryable_keeps :
    (to_string : List ℕ → String) (first fallback : Call (Unit {0}))
    → keeps (map_err inner (simulate_create_new_task_retryable to_string first fallback)) ≡ true
unfolding simulate_create_new_task_retryable
simulate_create_new_task_retryable_keeps ts (answered u) f = refl
simulate_create_new_task_retryable_keeps ts (reverted e) f = refl
simulate_create_new_task_retryable_keeps ts (failed t) (answered u) = refl
simulate_create_new_task_retryable_keeps ts (failed t) (reverted e) = refl
simulate_create_new_task_retryable_keeps ts (failed t) (failed u) = refl

module _ (w : World) where
  pub simulate_create_new_task_keeps :
      (task : NewTask) → keeps (simulate_create_new_task w task) ≡ true
  unfolding simulate_create_new_task
  simulate_create_new_task_keeps task = keeps-inner w.backon _ _ (λ i.
      simulate_create_new_task_retryable_keeps w.to_string (w.simulate_create_new_task task i).0
        (w.simulate_create_new_task task i).1)

  pub create_new_task_keeps : (task : NewTask) → keeps (create_new_task w task) ≡ true
  unfolding create_new_task
  create_new_task_keeps task = keeps-inner w.backon _ _ (λ i.
      create_new_task_retryable_keeps w.to_string (w.create_new_task task i).0
        (w.create_new_task task i).1)

  before_keeps :
      (url : String) (r : Result String BatcherError)
      → keeps r ≡ true
      → keeps (before w url r) ≡ true
  before_keeps url (ok text) h = refl
  before_keeps url (err e) h = h

  joined_keeps : (urls : List String) → keeps (joined w urls) ≡ true
  joined_keeps [] = refl
  joined_keeps (url ∷ []) = refl
  joined_keeps (url ∷ next ∷ urls) =
      before_keeps url (joined w (next ∷ urls)) (joined_keeps (next ∷ urls))

  pub upload_batch_to_multiple_s3_keeps :
      (bytes : List ℕ) (name : String) → keeps (upload_batch_to_multiple_s3 w bytes name) ≡ true
  unfolding upload_batch_to_multiple_s3
  upload_batch_to_multiple_s3_keeps bytes name = joined_keeps (
      url_of w w.s3 name (upload_batch_to_s3 w w.s3 bytes name)
      ++ secondary_urls w w.s3_secondary bytes name)
