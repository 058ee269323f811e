-- ===== src/Batcher/Restore/Deadlock.antt =====
-- An eviction during the restoration of a batch.
use aligned_layer.Prelude.{◌<◌, ◌≡◌, refl, true, some, List, [], ◌∷◌, arith, Run}
use aligned_layer.Batcher.Queue.{BatchQueue, BatchQueueEntry, Item, fee_of}
use aligned_layer.Batcher.State.{UserStates, write_held, is_queue_full, Batcher}
use aligned_layer.Batcher.Evict.{update_evicted_user_state_async}
use aligned_layer.Batcher.Restore.{
  Restoring, restore_one, restore_loop, restore_proofs_after_batch_failure,
}

module _ (pq : BatchQueue) where
  open pq use {Queue, iter, peek, pop, peek_some}

  -- Both branches ask for the lock that the task holds.
  update_evicted_user_state_async-deadlock :
      (users : UserStates) (removed : BatchQueueEntry) (queue : Queue)
      → update_evicted_user_state_async pq write_held users removed queue ≡ Run.deadlock
  unfolding update_evicted_user_state_async
  update_evicted_user_state_async-deadlock users removed queue = ground arith

  restore_one-deadlock :
      (s : Restoring pq) (entry : BatchQueueEntry) (lowest : Item)
      → is_queue_full pq s.batch_state ≡ true
      → peek s.batch_state.batch_queue ≡ some lowest
      → fee_of lowest.0 < fee_of entry
      → restore_one pq s entry ≡ Run.deadlock
  unfolding restore_one
  restore_one-deadlock s entry lowest full seen less =
      let (rest, popped) = peek_some s.batch_state.batch_queue lowest seen in
      ground (arith, update_evicted_user_state_async-deadlock s.user_states lowest.0 rest)

  -- If the queue is full and the item that it shows has a lower fee than the first proof of a
  -- failed batch, then the restoration of the batch waits for ever: the eviction asks for the
  -- lock of the map of users, which the task holds for writing.
  pub restore_proofs_after_batch_failure-deadlock :
      (b : Batcher pq) (entry : BatchQueueEntry) (failed_batch : List BatchQueueEntry)
      (lowest : Item)
      → is_queue_full pq b.batch_state ≡ true
      → peek b.batch_state.batch_queue ≡ some lowest
      → fee_of lowest.0 < fee_of entry
      → restore_proofs_after_batch_failure pq b (entry ∷ failed_batch) ≡ Run.deadlock
  unfolding restore_proofs_after_batch_failure restore_loop
  restore_proofs_after_batch_failure-deadlock b entry failed_batch lowest full seen less =
      let start : Restoring pq = record {
        batch_state = b.batch_state;
        user_states = b.user_states;
        sent = [];
        restored_entries = [];
      } in
      rw (restore_one-deadlock start entry lowest full seen less) refl
