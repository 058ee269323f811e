-- ===== src/Batcher/Removal.antt =====
-- Removing proofs from the queue, lib.rs: all proofs of a user whose funds are unlocked, and all
-- proofs when the batcher resets itself.
pub mod Kept
use aligned_layer.Prelude.{
  ℕ, ◌≡◌, Bool, true, false, Option, none, some, List, [], ◌∷◌, ◌++◌, ltb, ◌==◌, if◌then◌else◌,
}
use aligned_layer.Sdk.Types.{SubmitProofResponseMessage, user_funds_unlocked, batch_reset}
use aligned_layer.PriorityQueue.{PriorityQueue}
use aligned_layer.Batcher.Queue.{BatchQueue, BatchQueueEntry, Item}
use aligned_layer.Batcher.State.{
  UserState, UserStates, new_user_state, insert_user, remove_user, Config,
  get_nonpaying_replacement_addr, Answers, Sent, Batcher, Reaction, set_queue,
}
use aligned_layer.Batcher.Replace.{tell}

-- Each client is told.
abbrev pub tell_all : SubmitProofResponseMessage → List Item → List Sent
tell_all m [] = []
tell_all m (x ∷ xs) = tell x.0.messaging_sink m ++ tell_all m xs

-- `user_has_proofs_in_queue`
unfoldable pub user_has_proofs_in_queue : Answers → UserStates → ℕ → Bool
user_has_proofs_in_queue w users user_address = elim (users user_address) [
  | none ↦ false
  | some user ↦ if w.user_lock_in_time then ltb 0 user.proofs_in_batch else false
]

abbrev pub no_users : UserStates
no_users a = none

-- The users after the reset: none, but for the one who pays for others.
unfoldable pub users_after_reset : Config → Answers → UserStates
users_after_reset c w = elim (get_nonpaying_replacement_addr c) [
  | none ↦ no_users
  | some addr ↦ elim (w.user_nonce_on_ethereum addr) [
    | none ↦ no_users
    | some nonce ↦ insert_user addr (new_user_state nonce) no_users
  ]
]

module _ (pq : BatchQueue) where
  open pq use {iter, clear, extract_if}

  unfoldable pub remove_user_proofs_and_reset_state : Answers → Batcher pq → ℕ → Reaction pq
  remove_user_proofs_and_reset_state w b user_address =
      let removed = extract_if b.batch_state.batch_queue (λ x. x.0.sender == user_address) in
      if w.batch_lock_in_time
      then record {
        state = record (set_queue pq b removed.1) {
          user_states = remove_user user_address b.user_states;
        };
        sent = tell_all user_funds_unlocked removed.0;
      }
      else record { state = b; sent = [] }

  unfoldable pub flush_queue_and_clear_nonce_cache : Config → Answers → Batcher pq → Reaction pq
  flush_queue_and_clear_nonce_cache c w b = record {
    state = record (set_queue pq b (clear b.batch_state.batch_queue)) {
      user_states = users_after_reset c w;
    };
    sent = tell_all batch_reset (iter b.batch_state.batch_queue);
  }
