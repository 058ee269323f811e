-- ===== src/Batcher/NewBlock.antt =====
-- `handle_new_block`, lib.rs: what the batcher does at each block.
pub mod Extracted
pub mod Posts
pub mod Kept
pub mod Charged
use aligned_layer.Prelude.{
  ℕ, ◌/◌, ◌==◌, false, Option, none, some, List, [], ◌++◌, if◌then◌else◌, Run, done, ◌>>=◌, Result,
  ok, err, map_err, u256_mul,
}
use aligned_layer.Sdk.Constants.{gas_price_percentage_multiplier, percentage_divider}
use aligned_layer.Sdk.Fees.{calculate_fee_per_proof_with_gas_price}
use aligned_layer.Batcher.Queue.{BatchQueue, BatchQueueEntry}
use aligned_layer.Batcher.State.{Batcher, Reaction}
use aligned_layer.Batcher.Posting.{extract_batch_if_ready}
use aligned_layer.Batcher.Restore.{restore_proofs_after_batch_failure}
use aligned_layer.Batcher.Removal.{flush_queue_and_clear_nonce_cache}
use aligned_layer.Batcher.Errors.{
  gas_price_error, disabled_verifiers_error, state_corrupted_and_flushed,
}
use aligned_layer.Batcher.Retry.{retry_function, get_gas_price_retryable, inner, Asked}
use aligned_layer.Sdk.Constants.{ethereum_call_max_retries}
use aligned_layer.Batcher.World.{World}
use aligned_layer.Batcher.Finalize.{Finished, quietly, finalize_batch}
use Prim.Native.String.{String}

-- `get_gas_price`, eth/utils.rs
unfoldable pub get_gas_price : World → Result ℕ String
get_gas_price w = map_err inner (
    retry_function w.backon (λ i. get_gas_price_retryable (w.gas_price i))
      ethereum_call_max_retries)

-- `disabled_verifiers`, lib.rs
unfoldable pub disabled_verifiers : Asked ℕ → Result ℕ String
disabled_verifiers (ok bitmap, fallback) = ok bitmap
disabled_verifiers (err _, fallback) = fallback

module _ (w : World) (pq : BatchQueue) where
  -- The batcher is flushed if other verifiers are disabled than before.
  unfoldable pub with_disabled_verifiers : Batcher pq → ℕ → Reaction pq
  with_disabled_verifiers b new_disable_verifiers =
      if new_disable_verifiers == b.disabled_verifiers
      then record { state = b; sent = [] }
      else flush_queue_and_clear_nonce_cache pq w.config w.answers
          (record b { disabled_verifiers = new_disable_verifiers })

  -- After `finalize_batch`: the mark of posting is cleared, and the proofs of a batch that failed
  -- are restored, unless the queue was flushed.
  unfoldable pub after_finalization : List BatchQueueEntry → Finished w pq → Run (Finished w pq)
  after_finalization finalized_batch (r, ok _) =
      done (record { state = record r.state { posting_batch = false }; sent = r.sent }, ok tt)
  after_finalization finalized_batch (r, err (state_corrupted_and_flushed address)) = done (
    record { state = record r.state { posting_batch = false }; sent = r.sent },
    err (state_corrupted_and_flushed address),
  )
  after_finalization finalized_batch (r, err e) =
      restore_proofs_after_batch_failure pq (record r.state { posting_batch = false })
        finalized_batch
      >>= λ restored.
          done (record { state = restored.state; sent = r.sent ++ restored.sent }, err e)

  -- What the batcher does with the batch, if there is one.
  unfoldable pub post_batch :
      ℕ → ℕ → Option (List BatchQueueEntry) × Batcher pq → Run (Finished w pq)
  post_batch block_number modified_gas_price (none, b) = done (quietly w pq b (ok tt))
  post_batch block_number modified_gas_price (some finalized_batch, b) =
      finalize_batch w pq b block_number finalized_batch modified_gas_price >>= λ finished.
      after_finalization finalized_batch finished

  abbrev pub extract_and_post : Batcher pq → ℕ → ℕ → Run (Finished w pq)
  extract_and_post b block_number modified_gas_price =
      extract_batch_if_ready pq w.config b block_number modified_gas_price >>= λ extracted.
      post_batch block_number modified_gas_price extracted

  -- Messages that were sent before those of what follows.
  abbrev pub sent_before : Reaction pq → Finished w pq → Finished w pq
  sent_before earlier (r, result) =
      (record { state = r.state; sent = earlier.sent ++ r.sent }, result)

  -- After the check of the disabled verifiers: the batch, at the modified gas price.
  abbrev pub with_verifiers : Batcher pq → ℕ → ℕ → Result ℕ String → Run (Finished w pq)
  with_verifiers b block_number gas_price (err text) =
      done (quietly w pq b (err (disabled_verifiers_error text)))
  with_verifiers b block_number gas_price (ok new_disable_verifiers) =
      let checked = with_disabled_verifiers b new_disable_verifiers in
      u256_mul gas_price gas_price_percentage_multiplier >>= λ product.
      extract_and_post checked.state block_number (product / percentage_divider) >>= λ finished.
      done (sent_before checked finished)

  abbrev pub with_gas_price : Batcher pq → ℕ → Result ℕ String → Run (Finished w pq)
  with_gas_price b block_number (err _) = done (quietly w pq b (err gas_price_error))
  with_gas_price b block_number (ok gas_price) =
      calculate_fee_per_proof_with_gas_price w.config.amount_of_proofs_for_min_max_fee gas_price
      >>= λ min_max_fee.
          with_verifiers (record b { current_min_max_fee = min_max_fee }) block_number gas_price
            (disabled_verifiers w.disabled_verifiers)

  unfoldable pub handle_new_block : Batcher pq → ℕ → Run (Finished w pq)
  handle_new_block b block_number = with_gas_price b block_number (get_gas_price w)
