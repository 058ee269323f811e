-- ===== src/Batcher/Posting/Ready.antt =====
-- When `extract_batch_if_ready` makes a batch.
use aligned_layer.Prelude.{
  ℕ, ◌+◌, ◌%◌, ◌^◌, ◌≤◌, ◌<◌, ◌≡◌, sym, ap, ◌∙◌, true, false, Option, none, some, List, arith, done,
  ◌>>=◌, >>=-eq-done, done-injective, usize_mod,
}
use aligned_layer.Batcher.Queue.{
  BatchQueue, BatchQueueEntry, Extracted, batch, batch_cost_too_high, extract_batch_directly,
}
use aligned_layer.Batcher.Queue.Loops.{batch_bytes}
use aligned_layer.Batcher.Queue.Batches.{IsAcceptable, extract_batch_directly-IsAcceptable}
use aligned_layer.Batcher.State.{Config, Batcher}
use aligned_layer.Batcher.Accounts.{IsSound}
use aligned_layer.Batcher.Posting.{limits_of, settle, extract_batch_if_ready}

module _ (pq : BatchQueue) where
  open pq use {Queue, iter}

  ready_cases :
      (c : Config) (b : Batcher pq) (block_number gas_price : ℕ) (finalized : List BatchQueueEntry)
      (b' : Batcher pq)
      → extract_batch_if_ready pq c b block_number gas_price ≡ done (some finalized, b')
      → (b.posting_batch ≡ false)
        × ((b.last_uploaded_batch_block + c.min_block_interval) % 2 ^ 64 ≤ block_number)
        × (extract_batch_directly pq b.batch_state.batch_queue (limits_of c gas_price)
              >>= (λ r. done (settle pq b r))
            ≡ done (some finalized, b'))
  unfolding extract_batch_if_ready
  ready_cases c b block_number gas_price finalized b' e = ground arith

  settle_cases :
      (b b' : Batcher pq) (r : Extracted) (q : Queue) (finalized : List BatchQueueEntry)
      → settle pq b (r, q) ≡ (some finalized, b')
      → (r ≡ batch finalized) × (b'.posting_batch ≡ true) × (b'.batch_state.batch_queue ≡ q)
  settle_cases b b' (batch f) q finalized e = (
    ap
        (λ (z : Option (List BatchQueueEntry) × Batcher pq). elim z.0 [
          | some g ↦ batch g
          | none ↦ batch_cost_too_high
        ])
        e,
    ap (λ (z : Option (List BatchQueueEntry) × Batcher pq). z.1.posting_batch) (sym e),
    ap (λ (z : Option (List BatchQueueEntry) × Batcher pq). z.1.batch_state.batch_queue) (sym e),
  )
  settle_cases b b' batch_cost_too_high q finalized e =
      let no : none ≡ some finalized =
        ap (λ (z : Option (List BatchQueueEntry) × Batcher pq). z.0) e in
      cc

  -- If the books agree with the queue, the gas price is below 2 ^ 128 and the bytes of the queue
  -- fit a `usize`, then a batch is made only while none is being posted and after the minimal
  -- number of blocks; it is acceptable, and the mark is set that a batch is being posted.
  pub extract_batch_if_ready_lem :
      (c : Config) (b : Batcher pq) (block_number gas_price : ℕ) {finalized : List BatchQueueEntry}
      {b' : Batcher pq}
      → IsSound pq b
      → gas_price < 2 ^ 128
      → batch_bytes (iter b.batch_state.batch_queue) < usize_mod
      → extract_batch_if_ready pq c b block_number gas_price ≡ done (some finalized, b')
      → (b.posting_batch ≡ false)
        × ((b.last_uploaded_batch_block + c.min_block_interval) % 2 ^ 64 ≤ block_number)
        × IsAcceptable (limits_of c gas_price) finalized
        × (b'.posting_batch ≡ true)
  extract_batch_if_ready_lem c b block_number gas_price {finalized} {b'} h gas fits e =
      let q = b.batch_state.batch_queue in
      let (idle, late, made) = ready_cases c b block_number gas_price finalized b' e in
      let ((r, rest), run, fin) =
        >>=-eq-done (extract_batch_directly pq q (limits_of c gas_price)) _ made in
      let (is_batch, posting, _) = settle_cases b b' r rest finalized (done-injective fin) in
      (
        idle,
        late,
        extract_batch_directly-IsAcceptable pq q (limits_of c gas_price) h.distinct gas fits
            h.priced (run ∙ ap (λ (x : Extracted). done (x, rest)) is_batch),
        posting,
      )
