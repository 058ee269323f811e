-- ===== src/Batcher/Finalize/Books.antt =====
-- `finalize_batch` right after a batch was taken off the queue: that it returns, and what becomes of
-- the books.
use Prim.Native.String.{String}
use aligned_layer.Prelude.{
  ℕ, ◌^◌, ◌<◌, ◌≡◌, refl, true, false, not, some, List, [], ◌∷◌, map, arith, ◌==◌, Run, done,
  Result, ok, err, usize_mod, length, length-map, all,
}
use aligned_layer.Sdk.Types.{BatchInclusionData}
use aligned_layer.Sdk.Merkle.{hash_data}
use aligned_layer.Batcher.Queue.{BatchQueue, BatchQueueEntry}
use aligned_layer.Batcher.Queue.Loops.{batch_bytes}
use aligned_layer.Batcher.State.{Batcher, set_queue}
use aligned_layer.Batcher.Accounts.{IsSound}
use aligned_layer.Batcher.Posting.{limits_of}
use aligned_layer.Batcher.Posting.Recount.{touched}
use aligned_layer.Batcher.Posting.Settled.{update_user_states_from_queue_state-IsConsistent}
use aligned_layer.Batcher.Restore.{senders}
use aligned_layer.Batcher.Cleanup.Kept.{
  cleanup_user_states_after_successful_submission-IsConsistent,
}
use aligned_layer.Batcher.Removal.Kept.{
  flush_queue_and_clear_nonce_cache-IsSound, flush_queue_and_clear_nonce_cache_empty,
}
use aligned_layer.Batcher.Errors.{
  BatcherError, task_creation_error, state_corrupted_and_flushed, transaction_send_error,
  submission_insufficient_balance,
}
use aligned_layer.Batcher.World.{World}
use aligned_layer.Batcher.Finalize.{
  commitments, batch_verification_data, with_bytes, send_batch_inclusion_data_responses, Finished,
  quietly, after_submission, finalize_batch,
}
use aligned_layer.Batcher.Finalize.Errors.{keeps}
use aligned_layer.Batcher.Finalize.Returns.{submit_batch_returns, send_from_lem}
use aligned_layer.Batcher.NewBlock.Extracted.{TakesBatch}

not_sender :
    (a : ℕ) (es : List BatchQueueEntry)
    → touched a (senders es) ≡ false
    → all (λ e. not (e.sender == a)) es ≡ true
not_sender a [] h = refl
not_sender a (e ∷ es) h = ground (arith, not_sender a es)

module _ (w : World) (pq : BatchQueue) (b : Batcher pq) (block_number gas_price : ℕ)
    (finalized : List BatchQueueEntry) (rest : pq.Queue) where
  open w use {tree}
  open pq use {iter}

  -- The batcher without the batch, while it posts it; its last block is `last`.
  abbrev pub posting : ℕ → Batcher pq
  posting last = record (set_queue pq b rest) {
    posting_batch = true;
    last_uploaded_batch_block = last;
  }

  -- The failed batch changed nothing else; or all was flushed; or the books agree with what is left.
  pub data Finalized : Finished w pq → Type 0 where
    failed :
        (last : ℕ) (e : BatcherError)
        → keeps {A = Unit {0}} (err e) ≡ true
        → Finalized (quietly w pq (posting last) (err e))
    flushed :
        (r : Finished w pq) (address : ℕ)
        → IsSound pq r.0.state
        → r.1 ≡ err (state_corrupted_and_flushed address)
        → iter r.0.state.batch_state.batch_queue ≡ []
        → Finalized r
    posted :
        (r : Finished w pq)
        → IsSound pq r.0.state
        → r.1 ≡ ok tt
        → r.0.state.batch_state.batch_queue ≡ rest
        → Finalized r

  abbrev pub Finalizes : Run (Finished w pq) → Type 0
  Finalizes m = (r : Finished w pq) × (m ≡ done r) × Finalized r

  after_error :
      (t : tree.Tree) (last : ℕ) (e : BatcherError)
      → keeps {A = Unit {0}} (err e) ≡ true
      → Finalizes (after_submission w pq t (posting last) finalized (err e))
  unfolding after_submission
  after_error t last (transaction_send_error (submission_insufficient_balance address)) k = (
    _,
    refl,
    flushed _ address
        (flush_queue_and_clear_nonce_cache-IsSound pq w.config w.answers (posting last)) refl
        (flush_queue_and_clear_nonce_cache_empty pq w.config w.answers (posting last)),
  )
  after_error t last e k = (_, refl, failed last e k)

  module _ (h : IsSound pq b) (gas : gas_price < 2 ^ 64)
      (fits : batch_bytes (iter b.batch_state.batch_queue) < usize_mod)
      (takes : TakesBatch pq b (limits_of w.config gas_price) finalized rest)
      (cost : w.config.aggregator_gas_cost < 2 ^ 128)
      (multiplier : w.config.aggregator_fee_percentage_multiplier < 2 ^ 62)
      (serializes : (d : BatchInclusionData)
        → (bytes : List ℕ) × (w.serialize_response d ≡ ok bytes)) where
    after_success :
        (t : tree.Tree) (last : ℕ)
        → tree.build (commitments finalized) ≡ some t
        → Finalizes (after_submission w pq t (posting last) finalized (ok tt))
    unfolding after_submission send_batch_inclusion_data_responses
    after_success t last built =
        let (recounted, updated, books) =
          update_user_states_from_queue_state-IsConsistent pq b (limits_of w.config gas_price)
            (senders finalized) h (omega arith) fits takes.extracted
            (λ a s. not_sender a finalized s) takes.fees_left takes.length_left in
        let (users, cleaned, books') =
          cleanup_user_states_after_successful_submission-IsConsistent pq w.answers rest finalized
            recounted books takes.fees_left takes.length_left in
        let (sent, answered, _) =
          send_from_lem w serializes (commitments finalized) t 0 finalized built
            (omega (
              arith,
              length-map (λ (e : BatchQueueEntry). e.verification_data_commitment) finalized,
            ))
            takes.answerable in
        (
          (record { state = record (posting last) { user_states = users }; sent = sent }, ok tt),
          rw (updated, cleaned, answered) refl,
          posted _ books' refl refl,
        )

    after_result :
        (t : tree.Tree) (last : ℕ) (r : Result (Unit {0}) BatcherError)
        → tree.build (commitments finalized) ≡ some t
        → keeps r ≡ true
        → Finalizes (after_submission w pq t (posting last) finalized r)
    after_result t last (ok _) built k = after_success t last built
    after_result t last (err e) built k = after_error t last e k

    built_tree :
        (es : List BatchQueueEntry)
        → 0 < length es
        → (t : tree.Tree) × (tree.build (commitments es) ≡ some t)
    built_tree [] n = absurd (omega arith)
    built_tree (e ∷ es) n = tree.build_some e.verification_data_commitment (commitments es)

    -- The batcher right after the extraction.
    abbrev pub taken : Batcher pq
    taken = record (set_queue pq b rest) { posting_batch = true }

    by_bytes :
        (r : Result (List ℕ) String)
        → Finalizes (with_bytes w pq taken block_number finalized gas_price r)
    by_bytes (err text) =
        (_, refl, failed b.last_uploaded_batch_block (task_creation_error text) refl)
    by_bytes (ok bytes) =
        let (t, built) = built_tree finalized takes.some_proof in
        let (r, submitted, k) =
          submit_batch_returns w bytes (tree.root t)
            (map (hash_data w.answers.keccak256) (commitments finalized)) finalized gas_price
            (omega (
              arith,
              takes.some_proof,
              length-map (hash_data w.answers.keccak256) (commitments finalized),
              length-map (λ (e : BatchQueueEntry). e.verification_data_commitment) finalized,
            ))
            gas cost multiplier in
        let (fin, run, cases) = after_result t block_number r built k in
        (fin, rw (built, submitted) run, cases)

    pub finalize_batch_cases :
        Finalizes (finalize_batch w pq taken block_number finalized gas_price)
    unfolding finalize_batch
    finalize_batch_cases = by_bytes (w.serialize_batch (batch_verification_data finalized))
