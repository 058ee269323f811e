-- ===== src/Examples/Posting.antt =====
-- A batch from a batcher with one proof in its queue.
use aligned_layer.Prelude.{
  ℕ, ◌+◌, ◌%◌, ◌^◌, ◌≤◌, ◌<◌, ◌≡◌, refl, sym, true, false, some, [], ◌∷◌, arith, done, ne→eqb, all,
  not, eqb→ne, ◌==◌, Run, Perm,
}
use aligned_layer.Sdk.Types.{cbor_size_upper_bound}
use aligned_layer.Batcher.Queue.{
  calculate_fee_per_proof, calculate_batch_size, should_remove, reject_one, reject_loop, drain,
  put_back, finish_extraction, extract_batch_directly,
}
use aligned_layer.Batcher.Queue.Batches.{IsAcceptable}
use aligned_layer.Batcher.Queue.Loops.{batch_bytes}
use aligned_layer.Batcher.Queue.ListQueue.{list_queue}
use aligned_layer.Batcher.State.{Batcher, constant_gas_cost}
use aligned_layer.Batcher.Accounts.{IsConsistent}
use aligned_layer.Batcher.Posting.{limits_of, extract_batch_if_ready}
use aligned_layer.Batcher.Posting.Ready.{extract_batch_if_ready_lem}
use aligned_layer.Examples.Data.{entry, one_item, a_config, a_batcher}
use aligned_layer.Batcher.Posting.{update_user_states_from_queue_state}
use aligned_layer.Batcher.Posting.Recount.{touched}
use aligned_layer.Batcher.Posting.Settled.{update_user_states_from_queue_state-IsConsistent}
use aligned_layer.Batcher.State.{UserStates}
use aligned_layer.Batcher.Queue.{batch}
use aligned_layer.Examples.Data.{small_limits}
use aligned_layer.Batcher.Cleanup.{cleanup_user_states_after_successful_submission}
use aligned_layer.Batcher.Cleanup.Kept.{
  cleanup_user_states_after_successful_submission-IsConsistent,
}
use aligned_layer.Examples.Data.{some_answers}
use aligned_layer.Batcher.Restore.{restore_proofs_after_batch_failure}
use aligned_layer.Batcher.Restore.Undone.{restore_proofs_after_batch_failure-IsSound}
use aligned_layer.Batcher.Restore.Deadlock.{restore_proofs_after_batch_failure-deadlock}
use aligned_layer.Batcher.State.{Reaction, set_queue}
use aligned_layer.Batcher.Accounts.{IsSound}
use aligned_layer.Examples.Data.{full_batcher, item}
use aligned_layer.Examples.Books.{one_item-IsConsistent, is_full}

-- A batch of the one proof at block 3.
abbrev pub after_batch : Batcher list_queue
after_batch = record a_batcher {
  batch_state = record { batch_queue = []; max_size = 10 };
  posting_batch = true;
}

pub makes_batch :
    extract_batch_if_ready list_queue a_config a_batcher 3 0
    ≡ done (some (entry 0 9000 ∷ []), after_batch)
unfolding extract_batch_if_ready constant_gas_cost extract_batch_directly reject_loop should_remove
    calculate_fee_per_proof calculate_batch_size reject_one finish_extraction drain put_back
    cbor_size_upper_bound
makes_batch = refl

pub one_item_fits : batch_bytes one_item < 2 ^ 64
unfolding cbor_size_upper_bound
one_item_fits = omega arith

extract_batch_if_ready_lem_example :
    (a_batcher.posting_batch ≡ false)
    × ((a_batcher.last_uploaded_batch_block + a_config.min_block_interval) % 2 ^ 64 ≤ 3)
    × IsAcceptable (limits_of a_config 0) (entry 0 9000 ∷ [])
    × (after_batch.posting_batch ≡ true)
extract_batch_if_ready_lem_example =
    extract_batch_if_ready_lem list_queue a_config a_batcher 3 0 one_item-IsConsistent (omega arith)
      one_item_fits makes_batch

takes_all :
    extract_batch_directly list_queue one_item small_limits ≡ done (batch (entry 0 9000 ∷ []), [])
unfolding extract_batch_directly reject_loop should_remove calculate_fee_per_proof
    calculate_batch_size reject_one finish_extraction drain put_back cbor_size_upper_bound
takes_all = refl

affects_user :
    (a : ℕ) → touched a (5 ∷ []) ≡ false → all (λ e. not (e.sender == a)) (entry 0 9000 ∷ []) ≡ true
affects_user a t =
    let other : (a == 5) ≡ false = ground arith in
    rw (ne→eqb 5 a (λ e. eqb→ne a 5 other (sym e))) refl

update_user_states_from_queue_state-IsConsistent_example :
    (users : UserStates) × (update_user_states_from_queue_state list_queue []
        (5 ∷ [])
        a_batcher.user_states
      ≡ done users)
    × IsConsistent [] users
update_user_states_from_queue_state-IsConsistent_example =
    update_user_states_from_queue_state-IsConsistent list_queue a_batcher small_limits (5 ∷ [])
      one_item-IsConsistent (omega arith) one_item_fits takes_all affects_user (omega arith)
      (omega arith)

restore_proofs_after_batch_failure-IsSound_example :
    (r : Reaction list_queue) × (restore_proofs_after_batch_failure list_queue
        (set_queue list_queue a_batcher [])
        (entry 0 9000 ∷ [])
      ≡ done r)
    × Perm r.state.batch_state.batch_queue one_item
    × IsSound list_queue r.state
    × (r.sent ≡ [])
restore_proofs_after_batch_failure-IsSound_example =
    restore_proofs_after_batch_failure-IsSound list_queue a_batcher small_limits
      one_item-IsConsistent (omega arith) one_item_fits (omega arith) (omega arith) (omega arith)
      takes_all

restore_proofs_after_batch_failure-deadlock_example :
    restore_proofs_after_batch_failure list_queue full_batcher (entry 1 9500 ∷ []) ≡ Run.deadlock
restore_proofs_after_batch_failure-deadlock_example =
    restore_proofs_after_batch_failure-deadlock list_queue full_batcher (entry 1 9500) []
      (item 0 9000) is_full refl (omega arith)

cleanup_user_states_after_successful_submission-IsConsistent_example :
    (users : UserStates) × (cleanup_user_states_after_successful_submission list_queue some_answers
        one_item
        (entry 0 9000 ∷ [])
        a_batcher.user_states
      ≡ done users)
    × IsConsistent one_item users
cleanup_user_states_after_successful_submission-IsConsistent_example =
    cleanup_user_states_after_successful_submission-IsConsistent list_queue some_answers one_item
      (entry 0 9000 ∷ []) a_batcher.user_states one_item-IsConsistent (omega arith) (omega arith)
