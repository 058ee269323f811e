-- ===== src/Batcher/NewBlock/Posts.antt =====
-- A new block from the extraction of a batch on, lib.rs: the books and the queue after it.
use aligned_layer.Prelude.{
  ℕ, ◌^◌, ◌≤◌, ◌<◌, ◌≡◌, refl, sym, ap, subst, ◌∙◌, inl, inr, Bool, true, false, List, [], Perm,
  ◌++◌, arith, Run, done, ◌>>=◌, Result, ok, err, u256_mod, usize_mod, length, total, >>=-eq-done,
  done-injective,
}
use aligned_layer.Sdk.Types.{BatchInclusionData}
use aligned_layer.Batcher.Queue.{BatchQueue, BatchQueueEntry, Item, fee_of}
use aligned_layer.Batcher.Queue.Batches.{entries}
use aligned_layer.Batcher.Queue.Loops.{batch_bytes}
use aligned_layer.Batcher.State.{Batcher, Reaction, set_queue}
use aligned_layer.Batcher.Accounts.{IsSound}
use aligned_layer.Batcher.Posting.{limits_of, update_user_states_from_queue_state}
use aligned_layer.Batcher.Restore.{restore_proofs_after_batch_failure, restore_loop, senders}
use aligned_layer.Batcher.Restore.Undone.{restore_proofs_after_batch_failure-IsSound}
use aligned_layer.Batcher.Errors.{BatcherError, state_corrupted_and_flushed}
use aligned_layer.Batcher.World.{World}
use aligned_layer.Batcher.Finalize.{Finished, quietly}
use aligned_layer.Batcher.Finalize.Errors.{keeps}
use aligned_layer.Batcher.Finalize.Books.{
  posting, Finalized, failed, flushed, posted, finalize_batch_cases,
}
use aligned_layer.Batcher.NewBlock.{after_finalization, post_batch, extract_and_post}
use aligned_layer.Batcher.NewBlock.Extracted.{sinks, TakesBatch, extract_batch_if_ready_cases}

-- The queue is not longer than its greatest size, its entries fit the numbers that they are counted
-- in, and each has a client.
pub record Fits (xs : List Item) (max_size : ℕ) : Type 0 where
  pub bytes : batch_bytes xs < usize_mod
  pub fees : total (λ x. fee_of x.0) xs < u256_mod
  pub entries : length xs < usize_mod
  pub room : length xs ≤ max_size
  pub answerable : sinks xs ≡ true

module _ (w : World) (pq : BatchQueue) where
  open pq use {Queue, iter, iter-clear}

  abbrev pub FitsQueue : Batcher pq → Type 0
  FitsQueue b = Fits (iter b.batch_state.batch_queue) b.batch_state.max_size

  -- A run that returns with books that agree with the queue, and the mark of posting at `mark`.
  abbrev pub Keeps : Bool → Run (Finished w pq) → Type 0
  Keeps mark m =
      (r : Finished w pq) × (m ≡ done r) × IsSound pq r.0.state × (r.0.state.posting_batch ≡ mark)

  -- What becomes of the queue: all is left, and there is no batch or the batch has failed; or a batch
  -- is posted and the others are left; or all is flushed.
  pub data Outcome (before after : List Item) : Result (Unit {0}) BatcherError → Type 0 where
    no_batch : Perm after before → Outcome before after (ok tt)
    batch_restored : (e : BatcherError) → Perm after before → Outcome before after (err e)
    batch_posted :
        (finalized : List BatchQueueEntry)
        → Perm (entries before) (finalized ++ entries after)
        → Outcome before after (ok tt)
    queue_flushed :
        (address : ℕ)
        → after ≡ []
        → Outcome before after (err (state_corrupted_and_flushed address))

  -- The same, with what becomes of the queue of `b`.
  abbrev pub Posts : Batcher pq → Bool → Run (Finished w pq) → Type 0
  Posts b mark m =
      (r : Finished w pq) × (m ≡ done r)
      × IsSound pq r.0.state
      × (r.0.state.posting_batch ≡ mark)
      × Outcome (iter b.batch_state.batch_queue) (iter r.0.state.batch_state.batch_queue) r.1

  -- The restoration does not touch the mark.
  restored_posting :
      (b : Batcher pq) (finalized : List BatchQueueEntry) (r : Reaction pq)
      → restore_proofs_after_batch_failure pq b finalized ≡ done r
      → r.state.posting_batch ≡ b.posting_batch
  unfolding restore_proofs_after_batch_failure
  restored_posting b finalized r h =
      let (s, _, rest) =
        >>=-eq-done
          (restore_loop pq
            (record {
              batch_state = b.batch_state;
              user_states = b.user_states;
              sent = [];
              restored_entries = [];
            })
            finalized)
          _ h in
      let (users, _, fin) =
        >>=-eq-done
          (update_user_states_from_queue_state pq s.batch_state.batch_queue
            (senders s.restored_entries) s.user_states)
          _ rest in
      ap (λ (z : Reaction pq). z.state.posting_batch) (sym (done-injective fin))

  module _ (b : Batcher pq) (block_number gas_price : ℕ) (h : IsSound pq b)
      (gas : gas_price < 2 ^ 64) (fits : FitsQueue b) where
    -- The clauses of `after_finalization` for an error after which the batch is restored.
    restores :
        (finalized : List BatchQueueEntry) (r : Reaction pq) (e : BatcherError)
        → keeps {A = Unit {0}} (err e) ≡ true
        → after_finalization w pq finalized (r, err e) ≡ (
            restore_proofs_after_batch_failure pq
              (record r.state { posting_batch = false })
              finalized
            >>= λ restored.
                done (record { state = restored.state; sent = r.sent ++ restored.sent }, err e))
    unfolding after_finalization
    restores finalized r (state_corrupted_and_flushed a) k = cc
    restores finalized r e k = refl

    after_failure :
        (finalized : List BatchQueueEntry) (rest : Queue) (last : ℕ) (e : BatcherError)
        → keeps {A = Unit {0}} (err e) ≡ true
        → TakesBatch pq b (limits_of w.config gas_price) finalized rest
        → Posts b false (
            after_finalization w pq finalized
              (quietly w pq (posting w pq b block_number gas_price finalized rest last) (err e)))
    after_failure finalized rest last e k takes =
        let before : Batcher pq = record b {
          posting_batch = false;
          last_uploaded_batch_block = last;
        } in
        let r : Reaction pq = record {
          state = posting w pq b block_number gas_price finalized rest last;
          sent = [];
        } in
        let (restored, run, again, sound, quiet) =
          restore_proofs_after_batch_failure-IsSound pq before (limits_of w.config gas_price) h
            (omega arith) fits.bytes fits.fees fits.entries fits.room takes.extracted in
        (
          (record { state = restored.state; sent = [] ++ restored.sent }, err e),
          restores finalized r e k
              ∙ ap
                  (λ (m : Run (Reaction pq)). m >>= λ restored.
                    done (record { state = restored.state; sent = [] ++ restored.sent }, err e))
                  run,
          sound,
          restored_posting (set_queue pq before rest) finalized restored run,
          batch_restored e again,
        )

    after_flush :
        (finalized : List BatchQueueEntry) (r : Reaction pq)
        (result : Result (Unit {0}) BatcherError) (address : ℕ)
        → IsSound pq r.state
        → result ≡ err (state_corrupted_and_flushed address)
        → iter r.state.batch_state.batch_queue ≡ []
        → Posts b false (after_finalization w pq finalized (r, result))
    unfolding after_finalization
    after_flush finalized r result address sound e empty =
        subst (λ z. Posts b false (after_finalization w pq finalized (r, z))) (sym e)
          (_, refl, sound, refl, queue_flushed address empty)

    after_success :
        (finalized : List BatchQueueEntry) (r : Reaction pq)
        (result : Result (Unit {0}) BatcherError)
        → IsSound pq r.state
        → result ≡ ok tt
        → Perm
            (entries (iter b.batch_state.batch_queue))
            (finalized ++ entries (iter r.state.batch_state.batch_queue))
        → Posts b false (after_finalization w pq finalized (r, result))
    unfolding after_finalization
    after_success finalized r result sound e parted =
        subst (λ z. Posts b false (after_finalization w pq finalized (r, z))) (sym e)
          (_, refl, sound, refl, batch_posted finalized parted)

    after_cases :
        (finalized : List BatchQueueEntry) (rest : Queue) (r : Finished w pq)
        → TakesBatch pq b (limits_of w.config gas_price) finalized rest
        → Finalized w pq b block_number gas_price finalized rest r
        → Posts b false (after_finalization w pq finalized r)
    after_cases finalized rest _ takes (failed last e k) =
        after_failure finalized rest last e k takes
    after_cases finalized rest _ takes (flushed (r, result) address sound e empty) =
        after_flush finalized r result address sound e empty
    after_cases finalized rest _ takes (posted (r, result) sound e left) =
        after_success finalized r result sound e (
          subst
            (λ q. Perm (entries (iter b.batch_state.batch_queue)) (finalized ++ entries (iter q)))
            (sym left) takes.parted)

    module _ (cost : w.config.aggregator_gas_cost < 2 ^ 128)
        (multiplier : w.config.aggregator_fee_percentage_multiplier < 2 ^ 62)
        (serializes : (d : BatchInclusionData)
          → (bytes : List ℕ) × (w.serialize_response d ≡ ok bytes)) where
      -- If the books agree with the queue, the gas price is below 2 ^ 64, the queue fits the
      -- numbers that it is counted in and its greatest size and each entry has a client, the gas
      -- of the aggregator is below 2 ^ 128 and its multiplier below 2 ^ 62, and the answers
      -- serialize, then the steps from the extraction of a batch on return, the books agree with
      -- the queue after them, and the mark of posting is what it was. No proof is lost or
      -- doubled: without a batch or after a failed one the queue holds what it held; when a
      -- batch is posted, the batch and what is left are what was there; otherwise the queue is
      -- empty, and the error says that it was flushed.
      pub extract_and_post_lem :
          Posts b b.posting_batch (extract_and_post w pq b block_number gas_price)
      unfolding post_batch
      extract_and_post_lem =
          elim (extract_batch_if_ready_cases pq w.config b block_number gas_price h (omega arith)
            fits.bytes fits.fees fits.entries fits.answerable) [
              | inl (b', run, sound, same, whole) ↦
                  (quietly w pq b' (ok tt), rw run refl, sound, same, no_batch whole)
              | inr (finalized, rest, run, idle, takes) ↦
                  let (fin, ran, cases) =
                    finalize_batch_cases w pq b block_number gas_price finalized rest h gas
                      fits.bytes takes cost multiplier serializes in
                  let (r, after, sound, cleared, outcome) =
                    after_cases finalized rest fin takes cases in
                  (r, rw (run, ran) after, sound, cleared ∙ sym idle, outcome)
            ]
