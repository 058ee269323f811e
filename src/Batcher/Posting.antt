-- ===== src/Batcher/Posting.antt =====
-- From the queue to a batch, lib.rs: `extract_batch_if_ready`, which runs at each new block, and
-- the two functions that set the accounts right after a batch.
pub mod Ready
pub mod Recount
pub mod Settled
use aligned_layer.Prelude.{
  ℕ, ◌+◌, ◌%◌, ◌^◌, ◌≡◌, Bool, true, false, Option, none, some, List, [], ◌∷◌, ltb, leb, ◌==◌,
  if◌then◌else◌, Run, done, ◌>>=◌, u256_max, u256_add, usize_add,
}
use aligned_layer.PriorityQueue.{PriorityQueue}
use aligned_layer.Batcher.Queue.{
  BatchQueue, BatchQueueEntry, Item, fee_of, Limits, Extracted, batch, batch_cost_too_high,
  extract_batch_directly,
}
use aligned_layer.Batcher.State.{
  UserState, UserStates, insert_user, Config, constant_gas_cost, Batcher, BatchState, set_queue,
}

-- The limits of the batcher at a gas price.
abbrev pub limits_of : Config → ℕ → Limits
limits_of c gas_price = record {
  gas_price = gas_price;
  max_batch_byte_size = c.max_batch_byte_size;
  max_batch_proof_qty = c.max_batch_proof_qty;
  constant_gas_cost = constant_gas_cost c;
}

-- `(proof_count, max_fee_limit, total_fees_in_queue)`
abbrev pub UserData : Type 0
UserData = ℕ × ℕ × ℕ

-- `entry(addr).or_insert((0, max_fee, U256::zero()))`
abbrev pub data_or : ℕ → Option UserData → UserData
data_or max_fee none = (0, max_fee, 0)
data_or max_fee (some d) = d

-- One turn of the loop, on the data of the entry's sender.
abbrev pub with_entry : BatchQueueEntry → UserData → Run UserData
with_entry entry (proof_count, max_fee_limit, total_fees) =
    u256_add total_fees (fee_of entry) >>= λ fees. done (
      usize_add proof_count 1,
      (if ltb (fee_of entry) max_fee_limit then fee_of entry else max_fee_limit),
      fees,
    )

unfoldable pub user_data_from : (ℕ → Option UserData) → List Item → Run (ℕ → Option UserData)
user_data_from known [] = done known
user_data_from known (x ∷ xs) = with_entry x.0 (data_or (fee_of x.0) (known x.0.sender)) >>= λ d.
    user_data_from (λ a. if a == x.0.sender then some d else known a) xs

-- `UserState` of a user after the queue has changed.
abbrev pub updated_user : UserState → Option UserData → UserState
updated_user user (some (proof_count, min_max_fee_in_queue, total_fees_in_queue)) = record user {
  proofs_in_batch = proof_count;
  total_fees_in_queue = total_fees_in_queue;
  last_max_fee_limit = min_max_fee_in_queue;
}
updated_user user none = record user {
  proofs_in_batch = 0;
  total_fees_in_queue = 0;
  last_max_fee_limit = u256_max;
}

module _ (pq : BatchQueue) where
  open pq use {Queue, iter, len}

  unfoldable pub calculate_new_user_states_data : Queue → Run (ℕ → Option UserData)
  unfolding user_data_from
  calculate_new_user_states_data batch_queue = user_data_from (λ _. none) (iter batch_queue)

  -- The loop over the affected users, in the order of the set.
  unfoldable pub update_user_states_from_queue_state : Queue → List ℕ → UserStates → Run UserStates
  update_user_states_from_queue_state queue [] users = done users
  update_user_states_from_queue_state queue (addr ∷ affected_users) users = elim (users addr) [
    | none ↦ update_user_states_from_queue_state queue affected_users users
    | some user ↦
        (calculate_new_user_states_data queue >>= λ current.
        update_user_states_from_queue_state queue affected_users
          (insert_user addr (updated_user user (current addr)) users))
  ]

  -- What the extraction of a batch means for the batcher.
  abbrev pub settle : Batcher pq → Extracted × Queue → Option (List BatchQueueEntry) × Batcher pq
  settle b (batch finalized_batch, queue) =
      (some finalized_batch, record (set_queue pq b queue) { posting_batch = true })
  settle b (batch_cost_too_high, queue) =
      (none, record (set_queue pq b queue) { posting_batch = false })

  -- The block numbers are `u64`.
  unfoldable pub extract_batch_if_ready :
      Config → Batcher pq → ℕ → ℕ → Run (Option (List BatchQueueEntry) × Batcher pq)
  extract_batch_if_ready c b block_number gas_price =
      if ltb (len b.batch_state.batch_queue) 1
      then done (none, b)
      else if ltb block_number ((b.last_uploaded_batch_block + c.min_block_interval) % 2 ^ 64)
      then done (none, b)
      else if b.posting_batch
      then done (none, b)
      else extract_batch_directly pq b.batch_state.batch_queue (limits_of c gas_price) >>= λ r.
          done (settle b r)
