-- ===== src/Batcher/NewBlock/Kept.antt =====
-- The books over a whole run of `handle_new_block`.
use native.Mathlib.Nat.{div-le_self}
use Prim.Native.String.{String}
use aligned_layer.Prelude.{
  ℕ, ◌+◌, ◌*◌, ◌/◌, ◌%◌, ◌^◌, ◌<◌, ◌≡◌, ◌==◌, refl, sym, subst, ◌∙◌, inl, inr, Bool, List, arith,
  done, Result, ok, err, u128_mod, Bool-cases, ne→eqb,
}
use aligned_layer.Sdk.Constants.{
  default_constant_gas_cost, additional_submission_gas_cost_per_proof,
  gas_price_percentage_multiplier, percentage_divider,
}
use aligned_layer.Sdk.Types.{BatchInclusionData}
use aligned_layer.Sdk.Fees.{calculate_fee_per_proof_with_gas_price}
use aligned_layer.Batcher.Queue.{BatchQueue}
use aligned_layer.Batcher.State.{Batcher}
use aligned_layer.Batcher.Accounts.{IsSound}
use aligned_layer.Batcher.Removal.{flush_queue_and_clear_nonce_cache}
use aligned_layer.Batcher.Removal.Kept.{flush_queue_and_clear_nonce_cache-IsSound}
use aligned_layer.Batcher.Errors.{gas_price_error, disabled_verifiers_error}
use aligned_layer.Batcher.Gas.Bounds.{u256_mul-done, two_bound}
use aligned_layer.Batcher.World.{World}
use aligned_layer.Batcher.Finalize.{quietly}
use aligned_layer.Batcher.NewBlock.{
  get_gas_price, disabled_verifiers, with_disabled_verifiers, with_verifiers, with_gas_price,
  sent_before, handle_new_block,
}
use aligned_layer.Batcher.NewBlock.Posts.{Fits, FitsQueue, Keeps, extract_and_post_lem}

pub calculate_fee_per_proof_with_gas_price_returns :
    (n gas_price : ℕ)
    → 0 < n
    → gas_price < 2 ^ 64
    → (fee : ℕ) × (calculate_fee_per_proof_with_gas_price n gas_price ≡ done fee)
unfolding calculate_fee_per_proof_with_gas_price
calculate_fee_per_proof_with_gas_price_returns n gas_price h g =
    let gas : ℕ =
      (default_constant_gas_cost + additional_submission_gas_cost_per_proof * n % u128_mod)
      % u128_mod in
    let small : gas / n < 2 ^ 128 = omega (arith, div-le_self gas n) in
    let product : gas / n * gas_price < 2 ^ 192 = two_bound (gas / n) gas_price small g in
    (
      gas / n * gas_price * gas_price_percentage_multiplier / percentage_divider,
      rw
          (
            ne→eqb n 0 (λ e. omega arith),
            u256_mul-done (gas / n) gas_price (omega arith),
            u256_mul-done (gas / n * gas_price) gas_price_percentage_multiplier (omega arith),
          )
          refl,
    )

module _ (w : World) (pq : BatchQueue) where
  open pq use {Queue, iter, iter-clear}

  flushed_Fits :
      (b : Batcher pq)
      → FitsQueue w pq (flush_queue_and_clear_nonce_cache pq w.config w.answers b).state
  unfolding flush_queue_and_clear_nonce_cache
  flushed_Fits b =
      subst (λ xs. Fits xs b.batch_state.max_size) (sym (iter-clear b.batch_state.batch_queue))
        (record {
          bytes = omega arith;
          fees = omega arith;
          entries = omega arith;
          room = omega arith;
          answerable = refl;
        })

  flushed_posting :
      (b : Batcher pq)
      → (flush_queue_and_clear_nonce_cache pq w.config w.answers b).state.posting_batch
        ≡ b.posting_batch
  unfolding flush_queue_and_clear_nonce_cache
  flushed_posting b = refl

  -- Sound books of a queue that fits, with the mark of posting at `mark`.
  abbrev Ready : Bool → Batcher pq → Type 0
  Ready mark b = IsSound pq b × FitsQueue w pq b × (b.posting_batch ≡ mark)

  checked :
      (b : Batcher pq) (new_disable_verifiers : ℕ)
      → IsSound pq b
      → FitsQueue w pq b
      → Ready b.posting_batch (with_disabled_verifiers w pq b new_disable_verifiers).state
  unfolding with_disabled_verifiers
  checked b new_disable_verifiers h fits =
      let b' : Batcher pq = record b { disabled_verifiers = new_disable_verifiers } in
      elim (Bool-cases (new_disable_verifiers == b.disabled_verifiers)) [
        | inl same ↦ rw same (h, fits, refl)
        | inr other ↦ rw other (
          flush_queue_and_clear_nonce_cache-IsSound pq w.config w.answers b',
          flushed_Fits b',
          flushed_posting b',
        )
      ]

  module _ (cost : w.config.aggregator_gas_cost < 2 ^ 128)
      (multiplier : w.config.aggregator_fee_percentage_multiplier < 2 ^ 62)
      (proofs : 0 < w.config.amount_of_proofs_for_min_max_fee)
      (serializes : (d : BatchInclusionData)
        → (bytes : List ℕ) × (w.serialize_response d ≡ ok bytes)) where
    by_verifiers :
        (b : Batcher pq) (block_number gas_price : ℕ) (r : Result ℕ String)
        → IsSound pq b
        → FitsQueue w pq b
        → gas_price * 110 / 100 < 2 ^ 64
        → Keeps w pq b.posting_batch (with_verifiers w pq b block_number gas_price r)
    by_verifiers b block_number gas_price (err text) h fits gas =
        (quietly w pq b (err (disabled_verifiers_error text)), refl, h, refl)
    by_verifiers b block_number gas_price (ok new_disable_verifiers) h fits gas =
        let s = (with_disabled_verifiers w pq b new_disable_verifiers).state in
        let (sound, fits', same) = checked b new_disable_verifiers h fits in
        let ((r, result), run, books, mark, _) =
          extract_and_post_lem w pq s block_number (gas_price * 110 / 100) sound gas fits' cost
            multiplier serializes in
        (
          sent_before w pq (with_disabled_verifiers w pq b new_disable_verifiers) (r, result),
          rw (u256_mul-done gas_price gas_price_percentage_multiplier (omega arith), run) refl,
          books,
          mark ∙ same,
        )

    by_gas_price :
        (b : Batcher pq) (block_number : ℕ) (r : Result ℕ String)
        → IsSound pq b
        → FitsQueue w pq b
        → ((gas_price : ℕ) → r ≡ ok gas_price → gas_price * 110 / 100 < 2 ^ 64)
        → Keeps w pq b.posting_batch (with_gas_price w pq b block_number r)
    by_gas_price b block_number (err text) h fits gas =
        (quietly w pq b (err gas_price_error), refl, h, refl)
    by_gas_price b block_number (ok gas_price) h fits gas =
        let modified : gas_price * 110 / 100 < 2 ^ 64 = gas gas_price refl in
        let (fee, run) =
          calculate_fee_per_proof_with_gas_price_returns w.config.amount_of_proofs_for_min_max_fee
            gas_price proofs (omega arith) in
        let b' : Batcher pq = record b { current_min_max_fee = fee } in
        let (r, ran, books, mark) =
          by_verifiers b' block_number gas_price (disabled_verifiers w.disabled_verifiers) h fits
            modified in
        (r, rw run ran, books, mark)

    -- If the gas of the aggregator is below 2 ^ 128 and its multiplier below 2 ^ 62, the least
    -- fee is computed for at least one proof, the answers to the clients serialize, the books
    -- agree with the queue, the queue fits the numbers that it is counted in and its greatest
    -- size, each entry has a client, and the gas price of the nodes, raised by a tenth, is below
    -- 2 ^ 64, then a new block is handled to the end: whether there is a batch, whether it is
    -- posted, fails and is restored, or everything is flushed, the books agree with the queue
    -- after it, and the mark of posting is what it was.
    pub handle_new_block-IsSound :
        (b : Batcher pq) (block_number : ℕ)
        → IsSound pq b
        → FitsQueue w pq b
        → ((gas_price : ℕ) → get_gas_price w ≡ ok gas_price → gas_price * 110 / 100 < 2 ^ 64)
        → Keeps w pq b.posting_batch (handle_new_block w pq b block_number)
    unfolding handle_new_block
    handle_new_block-IsSound b block_number = by_gas_price b block_number (get_gas_price w)
