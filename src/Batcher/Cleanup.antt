-- ===== src/Batcher/Cleanup.antt =====
-- `cleanup_user_states_after_successful_submission`, lib.rs: after a batch is posted, the limit of
-- each of its users without a proof in the queue is lifted.
pub mod Kept
use aligned_layer.Prelude.{
  ℕ, Option, none, some, List, [], ◌∷◌, if◌then◌else◌, Run, done, ◌>>=◌, u256_max,
}
use aligned_layer.Batcher.Queue.{BatchQueue, BatchQueueEntry}
use aligned_layer.Batcher.State.{UserState, UserStates, insert_user, Answers}
use aligned_layer.Batcher.Posting.{UserData, calculate_new_user_states_data}
use aligned_layer.Batcher.Restore.{senders}

abbrev pub without_limit : UserState → UserState
without_limit user = record user { last_max_fee_limit = u256_max }

-- The loop over the users; a user whose lock is not free is skipped.
unfoldable pub cleanup_loop : Answers → (ℕ → Option UserData) → List ℕ → UserStates → UserStates
cleanup_loop w current [] users = users
cleanup_loop w current (addr ∷ addrs) users = elim (current addr) [
  | some _ ↦ cleanup_loop w current addrs users
  | none ↦ elim (users addr) [
    | none ↦ cleanup_loop w current addrs users
    | some user ↦
        cleanup_loop w current addrs
          (if w.user_lock_is_free addr then insert_user addr (without_limit user) users else users)
  ]
]

unfoldable pub cleanup_user_states_after_successful_submission :
    (pq : BatchQueue) → Answers → pq.Queue → List BatchQueueEntry → UserStates → Run UserStates
cleanup_user_states_after_successful_submission pq w queue finalized_batch users =
    if w.batch_lock_in_time
    then (calculate_new_user_states_data pq queue >>= λ current.
        done (cleanup_loop w current (senders finalized_batch) users))
    else done users
