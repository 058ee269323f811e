-- ===== src/Batcher/NewBlock/Charged.antt =====
-- What the task of a batch charges for each proof.
use aligned_layer.Prelude.{
  ℕ, ◌^◌, ◌<◌, ◌≡◌, sym, subst, ◌∙◌, true, some, List, done, done-injective, usize_mod, length, all,
  leb,
}
use aligned_layer.Batcher.Queue.{BatchQueue, BatchQueueEntry, fee_of}
use aligned_layer.Batcher.Queue.Loops.{batch_bytes, fee_per_proof, calculate_fee_per_proof_lem}
use aligned_layer.Batcher.State.{Config, Batcher}
use aligned_layer.Batcher.Accounts.{IsSound}
use aligned_layer.Batcher.Posting.{limits_of, extract_batch_if_ready}
use aligned_layer.Batcher.Posting.Ready.{extract_batch_if_ready_lem}
use aligned_layer.Batcher.Gas.{CreateNewTaskFeeParams, fee_params_of}
use aligned_layer.Batcher.Gas.Bounds.{fee_params_of-calculate_fee_per_proof}

-- If the books agree with the queue, the gas price is below 2 ^ 128, the bytes of the queue fit
-- a `usize`, a batch is made and the fees of its task are computed, then the fee that the task
-- charges for each proof is at most the fee of each entry of the batch.
pub extract_batch_if_ready-fee_params_of :
    (pq : BatchQueue) (c : Config) (b : Batcher pq) (block_number gas_price : ℕ)
    {finalized : List BatchQueueEntry} {b' : Batcher pq} {p : CreateNewTaskFeeParams}
    → IsSound pq b
    → gas_price < 2 ^ 128
    → batch_bytes (pq.iter b.batch_state.batch_queue) < usize_mod
    → extract_batch_if_ready pq c b block_number gas_price ≡ done (some finalized, b')
    → fee_params_of c (length finalized) gas_price ≡ done p
    → all (λ e. leb p.fee_per_proof (fee_of e)) finalized ≡ true
extract_batch_if_ready-fee_params_of pq c b block_number gas_price {finalized} {b'} {p} h gas fits
      made params =
    let (_, _, ok_batch, _) =
      extract_batch_if_ready_lem pq c b block_number gas_price h gas fits made in
    let l = limits_of c gas_price in
    let same : fee_per_proof l (length finalized) ≡ p.fee_per_proof = done-injective (
      sym (calculate_fee_per_proof_lem l (length finalized) ok_batch.some_proof gas)
      ∙ fee_params_of-calculate_fee_per_proof c (length finalized) gas_price p params) in
    subst (λ fee. all (λ e. leb fee (fee_of e)) finalized ≡ true) same ok_batch.pays
