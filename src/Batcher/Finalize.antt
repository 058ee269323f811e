-- ===== src/Batcher/Finalize.antt =====
-- Posting a batch, lib.rs and connection.rs: from the Merkle tree over the upload and the task on
-- Ethereum to the answers to the clients.
pub mod Errors
pub mod Returns
pub mod Books
use Prim.Native.String.{String}
use Prim.Native.String
use aligned_layer.Prelude.{
  ℕ, suc, ◌^◌, Option, none, some, List, [], ◌∷◌, ◌++◌, map, ltb, if◌then◌else◌, length, Run, done,
  panic, ◌>>=◌, Result, ok, err, map_err,
}
use aligned_layer.Sdk.Types.{
  VerificationData, VerificationDataCommitment, batch_inclusion_data, batch_reset,
}
use aligned_layer.Sdk.Merkle.{hash_data, new_batch_inclusion_data}
use aligned_layer.Batcher.Queue.{BatchQueue, BatchQueueEntry}
use aligned_layer.Batcher.State.{Sent, Batcher, Reaction}
use aligned_layer.Batcher.Replace.{tell}
use aligned_layer.Batcher.Posting.{update_user_states_from_queue_state}
use aligned_layer.Batcher.Restore.{senders}
use aligned_layer.Batcher.Cleanup.{cleanup_user_states_after_successful_submission}
use aligned_layer.Batcher.Removal.{flush_queue_and_clear_nonce_cache}
use aligned_layer.Batcher.Errors.{
  BatcherError, task_creation_error, batch_upload_error, serialization_error, ws_sink_empty,
  transaction_send_error, state_corrupted_and_flushed, submission_insufficient_balance,
}
use aligned_layer.Batcher.Retry.{
  RetryError, transient, inner, retry_function, create_new_task_retryable,
  simulate_create_new_task_retryable,
}
use aligned_layer.Batcher.Gas.{fee_params_of}
use aligned_layer.Sdk.Constants.{ethereum_call_max_retries}
use aligned_layer.Batcher.World.{NewTask, Bucket, World}

infixl 65 ◌<>◌
abbrev pub ◌<>◌ : String → String → String
s <> t = String.◌++◌ s t

-- The commitments of the proofs, the leaves of the tree.
abbrev pub commitments : List BatchQueueEntry → List VerificationDataCommitment
commitments = map (λ (e : BatchQueueEntry). e.verification_data_commitment)

abbrev pub batch_verification_data : List BatchQueueEntry → List VerificationData
batch_verification_data = map (λ e. e.nonced_verification_data.verification_data)

-- Every client of the batch is told that the batch was reset.
abbrev pub tell_reset : List BatchQueueEntry → List Sent
tell_reset [] = []
tell_reset (e ∷ es) = tell e.messaging_sink batch_reset ++ tell_reset es

module _ (w : World) where
  open w use {answers, backon, tree}

  unfoldable pub upload_batch_to_s3 : Bucket → List ℕ → String → Result (Unit {0}) BatcherError
  upload_batch_to_s3 bucket batch_bytes file_name =
      map_err (λ e. batch_upload_error (inner e))
        (retry_function backon
          (λ i. map_err transient (bucket.upload_object batch_bytes file_name i))
          ethereum_call_max_retries)

  -- The address of an upload that succeeded.
  abbrev pub url_of : Bucket → String → Result (Unit {0}) BatcherError → List String
  url_of bucket file_name (ok _) = (bucket.download_endpoint <> "/" <> file_name) ∷ []
  url_of bucket file_name (err _) = []

  abbrev pub secondary_urls : Option Bucket → List ℕ → String → List String
  secondary_urls none batch_bytes file_name = []
  secondary_urls (some bucket) batch_bytes file_name =
      url_of bucket file_name (upload_batch_to_s3 bucket batch_bytes file_name)

  abbrev pub before : String → Result String BatcherError → Result String BatcherError
  before url (ok text) = ok (url <> "," <> text)
  before url (err e) = err e

  -- `successful_urls.join(",")`, or the error if there is none.
  abbrev pub joined : List String → Result String BatcherError
  joined [] = err (batch_upload_error "Failed to upload to any S3 bucket")
  joined (url ∷ []) = ok url
  joined (url ∷ next ∷ urls) = before url (joined (next ∷ urls))

  unfoldable pub upload_batch_to_multiple_s3 : List ℕ → String → Result String BatcherError
  upload_batch_to_multiple_s3 batch_bytes file_name = joined (
      url_of w.s3 file_name (upload_batch_to_s3 w.s3 batch_bytes file_name)
      ++ secondary_urls w.s3_secondary batch_bytes file_name)

  unfoldable pub simulate_create_new_task : NewTask → Result (Unit {0}) BatcherError
  simulate_create_new_task task = map_err inner (
      retry_function backon
        (λ i.
          let (first, fallback) = w.simulate_create_new_task task i in
          simulate_create_new_task_retryable w.to_string first fallback)
        ethereum_call_max_retries)

  -- The receipt, or the error of the last attempt; the attempt to cancel a transaction that was not
  -- included changes neither the state nor the error.
  unfoldable pub create_new_task : NewTask → Result ℕ BatcherError
  create_new_task task = map_err inner (
      retry_function backon
        (λ i.
          let (first, fallback) = w.create_new_task task i in
          create_new_task_retryable w.to_string first fallback)
        ethereum_call_max_retries)

  abbrev pub Submission : Type 0
  Submission = Run (Result (Unit {0}) BatcherError)

  -- The receipt is only counted.
  abbrev pub without_receipt : Result ℕ BatcherError → Result (Unit {0}) BatcherError
  without_receipt (ok _) = ok tt
  without_receipt (err e) = err e

  -- The metric of the gas price is a `u64`.
  abbrev pub after_simulation : NewTask → Result (Unit {0}) BatcherError → Submission
  after_simulation task (err e) = done (err e)
  after_simulation task (ok _) =
      if ltb task.fee_params.gas_price (2 ^ 64)
      then done (without_receipt (create_new_task task))
      else panic

  abbrev pub after_upload :
      List ℕ → ℕ → List BatchQueueEntry → ℕ → Result String BatcherError → Submission
  after_upload batch_merkle_root num_proofs_in_batch finalized_batch gas_price (err e) =
      done (err e)
  after_upload batch_merkle_root num_proofs_in_batch finalized_batch gas_price
        (ok batch_data_pointer) =
      fee_params_of w.config num_proofs_in_batch gas_price >>= λ fee_params.
      let task : NewTask = record {
        batch_merkle_root = batch_merkle_root;
        batch_data_pointer = batch_data_pointer;
        proof_submitters = senders finalized_batch;
        fee_params = fee_params;
      } in
      after_simulation task (simulate_create_new_task task)

  unfoldable pub submit_batch :
      List ℕ → List ℕ → List (List ℕ) → List BatchQueueEntry → ℕ → Submission
  submit_batch batch_bytes batch_merkle_root leaves finalized_batch gas_price =
      after_upload batch_merkle_root (length leaves) finalized_batch gas_price
        (upload_batch_to_multiple_s3 batch_bytes (w.encode batch_merkle_root <> ".json"))

  -- The answers that were sent, and the error that ended the loop.
  abbrev pub Responses : Type 0
  Responses = List Sent × Result (Unit {0}) BatcherError

  -- The body of the loop.
  unfoldable pub send_response : tree.Tree → ℕ → BatchQueueEntry → Run Responses
  send_response batch_merkle_tree vd_batch_idx entry =
      new_batch_inclusion_data answers.keccak256 tree vd_batch_idx batch_merkle_tree
        entry.nonced_verification_data.nonce
      >>= λ response. done (elim (w.serialize_response response) [
        | err text ↦ ([], err (serialization_error text))
        | ok _ ↦ elim entry.messaging_sink [
          | none ↦ ([], err ws_sink_empty)
          | some sink ↦ ((sink, batch_inclusion_data response) ∷ [], ok tt)
        ]
      ])

  -- `for (vd_batch_idx, entry) in finalized_batch.iter().enumerate().rev()`: the entries from the
  -- index `i` on, the last one first, until an error.
  unfoldable pub send_from : tree.Tree → ℕ → List BatchQueueEntry → Run Responses
  send_from batch_merkle_tree i [] = done ([], ok tt)
  send_from batch_merkle_tree i (entry ∷ entries) =
      send_from batch_merkle_tree (suc i) entries >>= λ (sent, result). elim result [
        | err e ↦ done (sent, err e)
        | ok _ ↦
            (send_response batch_merkle_tree i entry >>= λ (last, result).
            done (sent ++ last, result))
      ]

  unfoldable pub send_batch_inclusion_data_responses :
      List BatchQueueEntry → tree.Tree → Run Responses
  send_batch_inclusion_data_responses finalized_batch batch_merkle_tree =
      send_from batch_merkle_tree 0 finalized_batch

  module _ (pq : BatchQueue) where
    -- What is left of the batcher, what was sent, and the result.
    abbrev pub Finished : Type 0
    Finished = Reaction pq × Result (Unit {0}) BatcherError

    abbrev pub quietly : Batcher pq → Result (Unit {0}) BatcherError → Finished
    quietly b result = (record { state = b; sent = [] }, result)

    -- After the submission: the recovery from a user without funds, the error, or the accounts and
    -- the answers.
    unfoldable pub after_submission :
        tree.Tree
        → Batcher pq
        → List BatchQueueEntry
        → Result (Unit {0}) BatcherError
        → Run Finished
    after_submission batch_merkle_tree b finalized_batch
          (err (transaction_send_error (submission_insufficient_balance address))) =
        let flushed = flush_queue_and_clear_nonce_cache pq w.config answers b in
        done (
          record { state = flushed.state; sent = flushed.sent ++ tell_reset finalized_batch },
          err (state_corrupted_and_flushed address),
        )
    after_submission batch_merkle_tree b finalized_batch (err e) = done (quietly b (err e))
    after_submission batch_merkle_tree b finalized_batch (ok _) = do
      let queue = b.batch_state.batch_queue
      recounted ←
          update_user_states_from_queue_state pq queue (senders finalized_batch) b.user_states
      users ←
          cleanup_user_states_after_successful_submission pq answers queue finalized_batch recounted
      (sent, result) ← send_batch_inclusion_data_responses finalized_batch batch_merkle_tree
      done (record { state = record b { user_states = users }; sent = sent }, result)

    -- With the tree of the batch, if there is one: an empty batch has none.
    abbrev pub with_tree :
        Batcher pq → ℕ → List BatchQueueEntry → ℕ → List ℕ → Option tree.Tree → Run Finished
    with_tree b block_number finalized_batch gas_price batch_bytes none =
        done (quietly b (err (task_creation_error "Failed to Build Merkle Tree: Empty Batch")))
    with_tree b block_number finalized_batch gas_price batch_bytes (some batch_merkle_tree) =
        submit_batch batch_bytes (tree.root batch_merkle_tree)
          (map (hash_data answers.keccak256) (commitments finalized_batch)) finalized_batch
          gas_price
        >>= λ result.
            after_submission batch_merkle_tree
              (record b { last_uploaded_batch_block = block_number }) finalized_batch result

    abbrev pub with_bytes :
        Batcher pq → ℕ → List BatchQueueEntry → ℕ → Result (List ℕ) String → Run Finished
    with_bytes b block_number finalized_batch gas_price (err text) =
        done (quietly b (err (task_creation_error text)))
    with_bytes b block_number finalized_batch gas_price (ok batch_bytes) =
        with_tree b block_number finalized_batch gas_price batch_bytes
          (tree.build (commitments finalized_batch))

    unfoldable pub finalize_batch : Batcher pq → ℕ → List BatchQueueEntry → ℕ → Run Finished
    finalize_batch b block_number finalized_batch gas_price =
        with_bytes b block_number finalized_batch gas_price
          (w.serialize_batch (batch_verification_data finalized_batch))
