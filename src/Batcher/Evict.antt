-- ===== src/Batcher/Evict.antt =====
-- Making room in a full queue: the eviction in `handle_submit_proof_msg`, lib.rs, and the two
-- functions that settle the account of the evicted user.
pub mod Deadlock
use aligned_layer.Prelude.{
  ℕ, ◌+◌, ◌≡◌, Bool, true, false, not, ◌&&◌, Option, none, some, List, [], ◌∷◌, ◌++◌, ltb, ◌==◌,
  if◌then◌else◌, Run, done, panic, ◌>>=◌, ◌>>◌, u256_sub, usize_sub, find, keep,
}
use aligned_layer.Sdk.Types.{SubmitProofResponseMessage, underpriced_proof}
use aligned_layer.PriorityQueue.{PriorityQueue}
use aligned_layer.Batcher.Queue.{BatchQueue, BatchQueueEntry, Item, fee_of, nonce_of, same_entry}
use aligned_layer.Batcher.State.{
  UserState, UserStates, insert_user, remove_user, Answers, Sent, Held, read_held, write_lock,
  read_lock, Batcher, Reaction, set_queue,
}
use aligned_layer.Batcher.Replace.{tell}

-- `iter().filter(..).next_back()`: the last item of the sender, in the order of the iterator.
abbrev pub last_of : ℕ → List Item → Option BatchQueueEntry
last_of addr [] = none
last_of addr (x ∷ xs) = elim (last_of addr xs) [
  | some e ↦ some e
  | none ↦ if x.0.sender == addr then some x.0 else none
]

-- The account of a user without one of the proofs.
unfoldable pub without_proof : UserState → BatchQueueEntry → ℕ → Run UserState
without_proof user removed limit = do
  nonce ← u256_sub user.nonce 1
  fees ← u256_sub user.total_fees_in_queue (fee_of removed)
  done (record {
    nonce = nonce;
    last_max_fee_limit = limit;
    total_fees_in_queue = fees;
    proofs_in_batch = usize_sub user.proofs_in_batch 1;
  })

-- `eviction_candidates`
abbrev pub eviction_candidates : ℕ → List Item → List ℕ
eviction_candidates new_proof_fee [] = []
eviction_candidates new_proof_fee (x ∷ xs) =
    if ltb (fee_of x.0) new_proof_fee
    then x.0.sender ∷ eviction_candidates new_proof_fee xs
    else eviction_candidates new_proof_fee xs

-- The entry of the candidate that goes: the first one with a lower fee.
abbrev pub target_entry : ℕ → ℕ → List Item → Option Item
target_entry new_proof_fee candidate =
    find (λ x. x.0.sender == candidate && ltb (fee_of x.0) new_proof_fee)

module _ (pq : BatchQueue) where
  open pq use {Queue, iter, remove}

  -- `update_evicted_user_state_with_lock`; `held` says what the task holds of the map's lock.
  unfoldable pub update_evicted_user_state_with_lock :
      Held → UserStates → UserState → BatchQueueEntry → Queue → Run UserStates
  update_evicted_user_state_with_lock held users user removed queue =
      elim (last_of removed.sender (iter queue)) [
        | none ↦ (write_lock held >> done (remove_user removed.sender users))
        | some last ↦ do
          user' ← without_proof user removed (fee_of last)
          done (insert_user removed.sender user' users)
      ]

  -- `update_evicted_user_state_async`; a user without a state stays without.
  unfoldable pub update_evicted_user_state_async :
      Held → UserStates → BatchQueueEntry → Queue → Run UserStates
  update_evicted_user_state_async held users removed queue =
      elim (last_of removed.sender (iter queue)) [
        | none ↦ (write_lock held >> done (remove_user removed.sender users))
        | some last ↦
            (read_lock held >> elim (users removed.sender) [
              | none ↦ done users
              | some user ↦ do
                user' ← without_proof user removed (fee_of last)
                done (insert_user removed.sender user' users)
            ])
      ]

  -- The body for a candidate whose lock is free. `none` goes on to the next candidate. The guard
  -- of the map, made in the head of the `if let`, is still held here.
  unfoldable pub evict_from : Batcher pq → ℕ → ℕ → UserState → Run (Option (Reaction pq))
  evict_from b new_proof_fee candidate user =
      elim (target_entry new_proof_fee candidate (iter b.batch_state.batch_queue)) [
        | none ↦ done none
        | some target ↦
            let (found, queue) = remove b.batch_state.batch_queue target.0 in
            elim found [
              | none ↦ done none
              | some removed ↦ do
                users ←
                    update_evicted_user_state_with_lock read_held b.user_states user removed.0 queue
                done (
                    some (record {
                      state = record (set_queue pq b queue) { user_states = users };
                      sent = tell removed.0.messaging_sink underpriced_proof;
                    }))
            ]
      ]

  -- The loop over the candidates. The submitter's own state is locked already.
  unfoldable pub evict : Answers → Batcher pq → ℕ → ℕ → List ℕ → Run (Option (Reaction pq))
  evict w b submitter new_proof_fee [] = done none
  evict w b submitter new_proof_fee (candidate ∷ candidates) =
      let rest = evict w b submitter new_proof_fee candidates in
      elim (b.user_states candidate) [
        | none ↦ rest
        | some user ↦
            if not (candidate == submitter) && w.user_lock_is_free candidate
            then (evict_from b new_proof_fee candidate user >>= λ r. elim r [
              | none ↦ rest
              | some reaction ↦ done (some reaction)
            ])
            else rest
      ]
