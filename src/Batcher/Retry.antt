-- ===== src/Batcher/Retry.antt =====
-- crates/batcher/src/retry: what is tried again. The package `backon` runs the attempts; what the
-- nodes answer at each attempt is a parameter.
use Prim.Native.String.{String}
use aligned_layer.Prelude.{
  ℕ, ◌≤◌, ◌<◌, ◌≡◌, ◌⊎◌, Bool, true, false, not, List, ◌==◌, Result, ok, err, map_err,
}
use aligned_layer.Batcher.Errors.{
  BatcherError, transaction_send_error, receipt_not_found_error, generic, error_of_revert,
}

pub data RetryError (E : Type 0) : Type 0 where
  transient permanent : E → RetryError E

-- `RetryError::inner`
abbrev pub inner : {E : Type 0} → RetryError E → E
inner (transient e) = e
inner (permanent e) = e

-- `matches!(e, RetryError::Transient(_))`
abbrev pub is_transient : {E : Type 0} → RetryError E → Bool
is_transient (transient e) = true
is_transient (permanent e) = false

-- No further attempt follows this one.
abbrev pub IsLast : {A E : Type 0} → (E → Bool) → ℕ → ℕ → Result A E → Type 0
IsLast when max_times n (ok a) = Unit
IsLast when max_times n (err e) = (when e ≡ false) ⊎ (n ≡ max_times)

-- `.retry(backoff).when(..)` of the package `backon`: "Retry will call the function until it
-- succeeds, the error is not retryable, or the backoff ends", after `max_times` retries.
pub record Backon : Type 1 where
  pub retry : {A E : Type 0} → (ℕ → Result A E) → ℕ → (E → Bool) → Result A E
  pub retry_lem :
      {A E : Type 0} (function : ℕ → Result A E) (max_times : ℕ) (when : E → Bool)
      → (n : ℕ) × (n ≤ max_times)
        × (retry function max_times when ≡ function n)
        × IsLast when max_times n (function n)
        × ((i : ℕ) → i < n → (e : E) × (function i ≡ err e) × (when e ≡ true))

-- The attempts are numbered from 0. The delays between them are left out.
unfoldable pub retry_function :
    {A E : Type 0} → Backon → (ℕ → Result A (RetryError E)) → ℕ → Result A (RetryError E)
retry_function backon function max_times = backon.retry function max_times is_transient

-- The answers of the two nodes to a question.
abbrev pub Asked : Type 0 → Type 0
Asked A = Result A String × Result A String

-- The fallback is asked if the first node fails, and its failure is retried.
abbrev or_fallback : {A : Type 0} → Asked A → Result A (RetryError String)
or_fallback (ok a, fallback) = ok a
or_fallback (err _, fallback) = map_err transient fallback

unfoldable pub get_user_balance_retryable : Asked ℕ → Result ℕ (RetryError String)
get_user_balance_retryable user_balances = or_fallback user_balances

unfoldable pub get_user_nonce_from_ethereum_retryable : Asked ℕ → Result ℕ (RetryError String)
get_user_nonce_from_ethereum_retryable user_nonces = or_fallback user_nonces

unfoldable pub get_current_nonce_retryable : Asked ℕ → Result ℕ (RetryError String)
get_current_nonce_retryable get_transaction_count = or_fallback get_transaction_count

unfoldable pub get_gas_price_retryable : Asked ℕ → Result ℕ (RetryError String)
get_gas_price_retryable get_gas_price = or_fallback get_gas_price

unfoldable pub get_current_block_number_retryable : Asked ℕ → Result ℕ (RetryError String)
get_current_block_number_retryable get_block_number = or_fallback get_block_number

-- A block of zero means that the funds are locked.
unfoldable pub user_balance_is_unlocked_retryable : Asked ℕ → Result Bool (RetryError (Unit {0}))
user_balance_is_unlocked_retryable (ok unlock_block, fallback) = ok (not (unlock_block == 0))
user_balance_is_unlocked_retryable (err _, ok unlock_block) = ok (not (unlock_block == 0))
user_balance_is_unlocked_retryable (err _, err _) = err (transient tt)

unfoldable pub query_balance_unlocked_events_retryable :
    Asked (List ℕ) → Result (List ℕ) (RetryError String)
query_balance_unlocked_events_retryable events = or_fallback events

-- What a node says to a transaction: it takes it, the contract reverts it, or something else fails.
pub data Call (A : Type 0) : Type 0 where
  answered : A → Call A
  reverted : List ℕ → Call A
  failed : String → Call A

-- What is known of a transaction that was sent when the wait for it ends.
pub data Pending : Type 0 where
  timed_out watch_error not_found : Pending
  included : ℕ → Pending

-- The receipt is given by the hash of the transaction.
abbrev pub receipt_of : Pending → Result ℕ (RetryError BatcherError)
receipt_of (included transaction_hash) = ok transaction_hash
receipt_of timed_out = err (permanent receipt_not_found_error)
receipt_of watch_error = err (permanent receipt_not_found_error)
receipt_of not_found = err (permanent receipt_not_found_error)

module _ (to_string : List ℕ → String) where
  abbrev revert_error : {A : Type 0} → List ℕ → Result A (RetryError BatcherError)
  revert_error e = err (permanent (transaction_send_error (error_of_revert to_string e)))

  -- The first node and the fallback.
  unfoldable pub create_new_task_retryable :
      Call Pending → Call Pending → Result ℕ (RetryError BatcherError)
  create_new_task_retryable (answered pending_tx) fallback = receipt_of pending_tx
  create_new_task_retryable (reverted e) fallback = revert_error e
  create_new_task_retryable (failed _) (answered pending_tx) = receipt_of pending_tx
  create_new_task_retryable (failed _) (reverted e) = revert_error e
  create_new_task_retryable (failed _) (failed text) =
      err (transient (transaction_send_error (generic text)))

  unfoldable pub simulate_create_new_task_retryable :
      Call (Unit {0}) → Call (Unit {0}) → Result (Unit {0}) (RetryError BatcherError)
  simulate_create_new_task_retryable (answered _) fallback = ok tt
  simulate_create_new_task_retryable (reverted e) fallback = revert_error e
  simulate_create_new_task_retryable (failed _) (answered _) = ok tt
  simulate_create_new_task_retryable (failed _) (reverted e) = revert_error e
  simulate_create_new_task_retryable (failed _) (failed text) =
      err (transient (transaction_send_error (generic text)))
