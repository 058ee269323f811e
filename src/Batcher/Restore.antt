-- ===== src/Batcher/Restore.antt =====
-- Putting the proofs of a batch that could not be posted back into the queue:
-- `restore_proofs_after_batch_failure`, lib.rs. The task holds the lock of the map of users for
-- writing until the queue is restored.
pub mod Undone
pub mod Deadlock
use aligned_layer.Prelude.{
  ℕ, ◌≡◌, Bool, true, false, Option, none, some, List, [], ◌∷◌, ◌++◌, ltb, if◌then◌else◌, Run, done,
  ◌>>=◌,
}
use aligned_layer.Sdk.Types.{underpriced_proof}
use aligned_layer.PriorityQueue.{PriorityQueue}
use aligned_layer.Batcher.Queue.{BatchQueue, BatchQueueEntry, fee_of, priority_of}
use aligned_layer.Batcher.State.{
  UserStates, Sent, Held, write_held, BatchState, is_queue_full, Batcher, Reaction,
}
use aligned_layer.Batcher.Replace.{tell}
use aligned_layer.Batcher.Evict.{update_evicted_user_state_async}
use aligned_layer.Batcher.Posting.{update_user_states_from_queue_state}

-- `map(|entry| entry.sender)`; the set of them is a list, in which a user may stand twice.
abbrev pub senders : List BatchQueueEntry → List ℕ
senders [] = []
senders (e ∷ es) = e.sender ∷ senders es

module _ (pq : BatchQueue) where
  open pq use {Queue, push, peek, pop}

  -- The variables of the loop.
  pub record Restoring : Type 0 where
    pub batch_state : BatchState pq
    pub user_states : UserStates
    pub sent : List Sent
    pub restored_entries : List BatchQueueEntry

  abbrev pub put_in : Restoring → BatchQueueEntry → Restoring
  put_in s entry = record s {
    batch_state = record s.batch_state {
      batch_queue = push s.batch_state.batch_queue entry (priority_of entry);
    };
    restored_entries = s.restored_entries ++ entry ∷ [];
  }

  -- One turn of the loop.
  unfoldable pub restore_one : Restoring → BatchQueueEntry → Run Restoring
  restore_one s entry =
      if is_queue_full pq s.batch_state
      then elim (peek s.batch_state.batch_queue) [
        | none ↦ done (put_in s entry)
        | some (lowest_entry, _) ↦
            if ltb (fee_of lowest_entry) (fee_of entry)
            then elim (pop s.batch_state.batch_queue) [
              | none ↦ done (put_in s entry)
              | some ((evicted_entry, _), queue) ↦ do
                users ←
                    update_evicted_user_state_async pq write_held s.user_states evicted_entry queue
                done (
                    put_in
                      (record {
                        batch_state = record {
                          batch_queue = queue;
                          max_size = s.batch_state.max_size;
                        };
                        user_states = users;
                        sent = s.sent ++ tell evicted_entry.messaging_sink underpriced_proof;
                        restored_entries = s.restored_entries;
                      })
                      entry)
            ]
            else done s
      ]
      else done (put_in s entry)

  unfoldable pub restore_loop : Restoring → List BatchQueueEntry → Run Restoring
  restore_loop s [] = done s
  restore_loop s (entry ∷ failed_batch) =
      restore_one s entry >>= λ next. restore_loop next failed_batch

  unfoldable pub restore_proofs_after_batch_failure :
      Batcher pq → List BatchQueueEntry → Run (Reaction pq)
  restore_proofs_after_batch_failure b failed_batch = do
    s ←
        restore_loop
          (record {
            batch_state = b.batch_state;
            user_states = b.user_states;
            sent = [];
            restored_entries = [];
          })
          failed_batch
    users ←
        update_user_states_from_queue_state pq s.batch_state.batch_queue
          (senders s.restored_entries) s.user_states
    done (record {
      state = record b { batch_state = s.batch_state; user_states = users };
      sent = s.sent;
    })
