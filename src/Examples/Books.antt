-- ===== src/Examples/Books.antt =====
-- A batcher with one proof in its queue, and what each operation makes of its books.
use aligned_layer.Prelude.{
  ◌<◌, ◌+◌, ◌*◌, none, u256_mod, Bool-cases, inl, inr, ap, ◌==◌, ℕ, ◌≡◌, ◌≢◌, ◌⊎◌, refl, sym, true,
  false, some, [], arith, Run, done, ne→eqb,
}
use aligned_layer.Sdk.Types.{cbor_size_upper_bound, commitment, GetLastMaxFeeResponseMessage}
use aligned_layer.Batcher.Queue.ListQueue.{list_queue}
use aligned_layer.Batcher.State.{
  has_to_pay, insert_user, Reaction, get_entry, get_user_min_fee_in_batch,
  replacement_entry_is_valid, is_queue_full,
}
use aligned_layer.Batcher.Checks.{
  validate_message, msg_covers_minimum_max_fee, msg_user_balance_is_locked,
  verify_user_has_enough_balance, verify_proof_if_enabled,
}
use aligned_layer.Batcher.Replace.{
  min_bump, replace_entry, replace_found, handle_replacement_message,
}
use aligned_layer.Batcher.Evict.Deadlock.{make_room-deadlock}
use aligned_layer.Batcher.Accounts.{
  proofs_of, least_of, or_max, IsConsistent, IsSound, insert_user-matches,
}
use aligned_layer.Batcher.Submit.{
  payer_of, accept, make_room, submit_next, check_user, lock_user, find_user, admit,
  handle_submit_proof_msg,
}
use aligned_layer.Batcher.Submit.Handler.{
  handle_replacement_message-IsSound, handle_submit_proof_msg-IsSound,
}
use aligned_layer.Sdk.Constants.{default_max_fee_per_proof}
use aligned_layer.Batcher.State.{UserState}
use aligned_layer.Batcher.Submit.Endings.{Ending}
use aligned_layer.Batcher.Submit.Answered.{handle_submit_proof_msg-Ending}
use aligned_layer.Batcher.Submit.Returns.{handle_submit_proof_msg_returns}
use aligned_layer.Batcher.Submit.Safety.{IsAdmitted, handle_submit_proof_msg-IsAdmitted}
use aligned_layer.Batcher.Queries.{handle_get_last_max_fee, asked_address}
use aligned_layer.Batcher.Queries.Fees.{handle_get_last_max_fee_lem}
use aligned_layer.Batcher.Removal.{
  no_users, remove_user_proofs_and_reset_state, flush_queue_and_clear_nonce_cache,
}
use aligned_layer.Batcher.Removal.Kept.{
  remove_user_proofs_and_reset_state-IsSound, flush_queue_and_clear_nonce_cache-IsSound,
}
use aligned_layer.Examples.Data.{
  nonced, a_signature, one_item, a_config, some_answers, a_user, a_batcher, full_batcher, message,
  returned, no_reaction,
}
use aligned_layer.Examples.Batches.{one_item-IsDistinct, one_item-FeesFall}

pub one_item-IsConsistent : IsConsistent one_item (insert_user 5 a_user no_users)
one_item-IsConsistent = record {
  distinct = one_item-IsDistinct;
  priced = refl;
  falls = one_item-FeesFall;
  users_match =
      insert_user-matches 5 a_user no_users one_item
        (record { proofs = refl; total_fees = refl; limit = refl; nonces = refl })
        (λ a other. nobody a other);
}
  where
    nobody : (a : ℕ) → a ≢ 5 → proofs_of a one_item ≡ 0
    nobody a other = rw (ne→eqb 5 a (λ e. other (sym e))) refl

-- The next proof of the user is accepted.
abbrev pub accepted : Reaction list_queue
accepted =
    returned no_reaction
      (handle_submit_proof_msg list_queue a_config some_answers a_batcher (message 1 8000) 9)

pub accepts :
    handle_submit_proof_msg list_queue a_config some_answers a_batcher (message 1 8000) 9
    ≡ done accepted
unfolding handle_submit_proof_msg validate_message cbor_size_upper_bound payer_of has_to_pay admit
    msg_covers_minimum_max_fee msg_user_balance_is_locked find_user lock_user check_user
    verify_user_has_enough_balance submit_next verify_proof_if_enabled make_room is_queue_full
    accept commitment
accepts = refl

pub has_room : is_queue_full list_queue a_batcher.batch_state ≡ false
unfolding is_queue_full
has_room = refl

handle_submit_proof_msg-IsSound_example : IsSound list_queue accepted.state
handle_submit_proof_msg-IsSound_example =
    handle_submit_proof_msg-IsSound list_queue a_config some_answers a_batcher (message 1 8000) 9
      one_item-IsConsistent has_room (omega arith) accepts

handle_submit_proof_msg-Ending_example : Ending list_queue a_batcher.batch_state 9 1 accepted
handle_submit_proof_msg-Ending_example =
    handle_submit_proof_msg-Ending list_queue a_config some_answers a_batcher (message 1 8000) 9
      one_item-IsConsistent has_room accepts

handle_submit_proof_msg-IsAdmitted_example :
    (accepted.state.batch_state ≡ a_batcher.batch_state)
    ⊎ IsAdmitted list_queue a_config some_answers a_batcher (message 1 8000)
handle_submit_proof_msg-IsAdmitted_example =
    handle_submit_proof_msg-IsAdmitted list_queue a_config some_answers a_batcher (message 1 8000) 9
      one_item-IsConsistent accepts

-- The pending proof is replaced.
abbrev replaced : Reaction list_queue
replaced = returned no_reaction (
    handle_replacement_message list_queue a_config some_answers a_batcher a_user 5 (nonced 0 9900)
      a_signature 9)

replaces :
    handle_replacement_message list_queue a_config some_answers a_batcher a_user 5
      (nonced 0 9900)
      a_signature
      9
    ≡ done replaced
unfolding handle_replacement_message get_entry min_bump replace_found verify_proof_if_enabled
    replacement_entry_is_valid replace_entry get_user_min_fee_in_batch commitment
replaces = refl

handle_replacement_message-IsSound_example : IsSound list_queue replaced.state
handle_replacement_message-IsSound_example =
    handle_replacement_message-IsSound list_queue a_config some_answers a_batcher a_user 5
      (nonced 0 9900) a_signature 9 one_item-IsConsistent refl replaces

pub is_full : is_queue_full list_queue full_batcher.batch_state ≡ true
unfolding is_queue_full
is_full = refl

-- The user 6 offers more than the user 5, whose only entry would go.
make_room-deadlock_example :
    make_room list_queue some_answers full_batcher a_user (nonced 0 9500) a_signature 6 9
    ≡ Run.deadlock
make_room-deadlock_example =
    make_room-deadlock list_queue some_answers full_batcher a_user (nonced 0 9500) a_signature 6 9 5
      [] one_item-IsConsistent is_full refl (λ e. absurd (omega arith)) refl refl

asks : asked_address a_config 5 ≡ some 5
unfolding asked_address
asks = refl

answers_limit :
    handle_get_last_max_fee a_config some_answers a_batcher.user_states 5
    ≡ GetLastMaxFeeResponseMessage.last_max_fee 9000
unfolding handle_get_last_max_fee
answers_limit = refl

handle_get_last_max_fee_lem_example : 9000 ≡ or_max (least_of 5 one_item)
handle_get_last_max_fee_lem_example =
    handle_get_last_max_fee_lem list_queue a_config some_answers a_batcher 5 5 9000
      one_item-IsConsistent asks answers_limit

remove_user_proofs_and_reset_state-IsSound_example :
    IsSound list_queue
      (remove_user_proofs_and_reset_state list_queue some_answers a_batcher 5).state
remove_user_proofs_and_reset_state-IsSound_example =
    remove_user_proofs_and_reset_state-IsSound list_queue some_answers a_batcher 5
      one_item-IsConsistent

flush_queue_and_clear_nonce_cache-IsSound_example :
    IsSound list_queue
      (flush_queue_and_clear_nonce_cache list_queue a_config some_answers a_batcher).state
flush_queue_and_clear_nonce_cache-IsSound_example =
    flush_queue_and_clear_nonce_cache-IsSound list_queue a_config some_answers a_batcher

fees_fit :
    (a : ℕ) (u : UserState)
    → a_batcher.user_states a ≡ some u
    → u.total_fees_in_queue + (8000 + default_max_fee_per_proof * 100) < u256_mod
fees_fit a u e = elim (Bool-cases (a == 5)) [
  | inl own ↦
      let known : some a_user ≡ some u = rw own at e in
      let same : a_user ≡ u = cc in
      omega (arith, ap (λ (v : UserState). v.total_fees_in_queue) same)
  | inr other ↦ let missing : none ≡ some u = rw other at e in cc
]

handle_submit_proof_msg_returns_example :
    (r : Reaction list_queue) × (handle_submit_proof_msg list_queue a_config some_answers a_batcher
        (message 1 8000)
        9
      ≡ done r)
handle_submit_proof_msg_returns_example =
    handle_submit_proof_msg_returns list_queue a_config some_answers a_batcher (message 1 8000) 9
      has_room refl fees_fit (omega arith) (omega arith)
