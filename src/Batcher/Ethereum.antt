-- ===== src/Batcher/Ethereum.antt =====
-- The questions of the batcher to the nodes, lib.rs, each asked again as `retry_function` does. The
-- answers are those of the two nodes at each attempt.
use Prim.Native.String.{String}
use aligned_layer.Prelude.{ℕ, Bool, false, Option, none, some, List, Result, ok, err}
use aligned_layer.Sdk.Constants.{ethereum_call_max_retries}
use aligned_layer.Batcher.Retry.{
  Backon, RetryError, Asked, retry_function, get_user_balance_retryable,
  get_user_nonce_from_ethereum_retryable, user_balance_is_unlocked_retryable,
  get_current_block_number_retryable, query_balance_unlocked_events_retryable,
}

-- `Result::ok`
abbrev pub ok_of : {A E : Type 0} → Result A E → Option A
ok_of (ok a) = some a
ok_of (err e) = none

abbrev pub or_false : {E : Type 0} → Result Bool E → Bool
or_false (ok b) = b
or_false (err e) = false

module _ (backon : Backon) where
  unfoldable pub get_current_block_number : (ℕ → Asked ℕ) → Result ℕ (RetryError String)
  get_current_block_number get_block_number =
      retry_function backon (λ i. get_current_block_number_retryable (get_block_number i))
        ethereum_call_max_retries

  unfoldable pub query_balance_unlocked_events :
      (ℕ → Asked (List ℕ)) → Result (List ℕ) (RetryError String)
  query_balance_unlocked_events events =
      retry_function backon (λ i. query_balance_unlocked_events_retryable (events i))
        ethereum_call_max_retries

  unfoldable pub get_user_balance : (ℕ → Asked ℕ) → Option ℕ
  get_user_balance user_balances = ok_of (
      retry_function backon (λ i. get_user_balance_retryable (user_balances i))
        ethereum_call_max_retries)

  unfoldable pub get_user_nonce_from_ethereum : (ℕ → Asked ℕ) → Result ℕ (RetryError String)
  get_user_nonce_from_ethereum user_nonces =
      retry_function backon (λ i. get_user_nonce_from_ethereum_retryable (user_nonces i))
        ethereum_call_max_retries

  -- The block from which the funds are unlocked.
  unfoldable pub user_balance_is_unlocked : (ℕ → Asked ℕ) → Bool
  user_balance_is_unlocked user_unlock_block = or_false (
      retry_function backon (λ i. user_balance_is_unlocked_retryable (user_unlock_block i))
        ethereum_call_max_retries)
