-- ===== src/Batcher/Submit/Answered.antt =====
-- Each phase of `handle_submit_proof_msg`, with the ways in which it may end.
use aligned_layer.Prelude.{ℕ, ◌≡◌, refl, sym, subst, false, some, arith, done, ltb}
use aligned_layer.Sdk.Types.{
  NoncedVerificationData, Signature, SubmitProofMessage, proof_replaced,
  invalid_replacement_message, invalid_nonce, underpriced_proof, server_busy, invalid_max_fee,
  eth_rpc_error, insufficient_balance, add_to_batch_error,
}
use aligned_layer.Batcher.Queue.{BatchQueue, BatchQueueEntry, fee_of}
use aligned_layer.Batcher.State.{
  UserState, Config, Answers, Batcher, Reaction, get_entry, is_queue_full,
  replacement_entry_is_valid,
}
use aligned_layer.Batcher.Checks.{
  verify_proof_if_enabled, verify_user_has_enough_balance, validate_message,
  msg_covers_minimum_max_fee, msg_user_balance_is_locked,
}
use aligned_layer.Batcher.Replace.{
  min_bump, replacement_of, tell, replace_found, handle_replacement_message,
}
use aligned_layer.Batcher.Accounts.{IsSound}
use aligned_layer.Batcher.Submit.{
  payer_of, submit_next, check_user, lock_user, find_user, admit, handle_submit_proof_msg,
}
use aligned_layer.Batcher.Submit.Cases.{with_new_user, make_room_cases}
use aligned_layer.Batcher.Submit.Handler.{with_new_user-IsSound}
use aligned_layer.Batcher.Submit.Endings.{
  check-Returns, Ending, refused, accept-Ending, Ends, reply-Ends, replace_entry-Ends,
}
use aligned_layer.Prelude.{done-Returns, if-Returns, option-Returns, >>=-Returns}

module _ (pq : BatchQueue) where
  replace_found-Ends :
      (c : Config) (w : Answers) (b : Batcher pq) (user : UserState) (addr : ℕ)
      (entry : BatchQueueEntry) (nonced : NoncedVerificationData) (signature : Signature) (sink : ℕ)
      → IsSound pq b
      → get_entry pq b.batch_state addr nonced.nonce ≡ some entry
      → Ends pq b.batch_state sink nonced.nonce
          (replace_found pq c w b user entry nonced signature sink)
  unfolding replace_found
  replace_found-Ends c w b user addr entry nonced signature sink h got =
      let Q = Ending pq b.batch_state sink nonced.nonce in
      check-Returns Q (verify_proof_if_enabled c w b.disabled_verifiers nonced.verification_data) _
        _ (λ m. reply-Ends pq b.batch_state sink nonced.nonce b m refl)
        (λ _.
          if-Returns Q
            (replacement_entry_is_valid pq b.batch_state
              (replacement_of w entry nonced signature sink))
            _ _
            (λ _.
              replace_entry-Ends pq b user addr sink entry
                (replacement_of w entry nonced signature sink) h got refl refl)
            (λ _. done-Returns Q _ (
              refused (tell entry.messaging_sink proof_replaced) invalid_replacement_message refl
                refl)))

  replacement-Ends :
      (c : Config) (w : Answers) (b : Batcher pq) (user : UserState) (addr : ℕ)
      (nonced : NoncedVerificationData) (signature : Signature) (sink : ℕ)
      → IsSound pq b
      → Ends pq b.batch_state sink nonced.nonce
          (handle_replacement_message pq c w b user addr nonced signature sink)
  unfolding handle_replacement_message
  replacement-Ends c w b user addr nonced signature sink h =
      let Q = Ending pq b.batch_state sink nonced.nonce in
      if-Returns Q w.batch_lock_in_time _ _
        (λ _.
          option-Returns Q (get_entry pq b.batch_state addr nonced.nonce) _ _
            (λ _. reply-Ends pq b.batch_state sink nonced.nonce b invalid_nonce refl)
            (λ entry got. >>=-Returns Q (min_bump c (fee_of entry)) _ (λ least _.
              if-Returns Q (ltb nonced.max_fee least) _ _
                (λ _. reply-Ends pq b.batch_state sink nonced.nonce b underpriced_proof refl)
                (λ _. replace_found-Ends c w b user addr entry nonced signature sink h got))))
        (λ _. reply-Ends pq b.batch_state sink nonced.nonce b server_busy refl)

  submit_next-Ends :
      (c : Config) (w : Answers) (b : Batcher pq) (user : UserState)
      (nonced : NoncedVerificationData) (signature : Signature) (addr sink : ℕ)
      → IsSound pq b
      → is_queue_full pq b.batch_state ≡ false
      → b.user_states addr ≡ some user
      → nonced.nonce ≡ user.nonce
      → Ends pq b.batch_state sink nonced.nonce
          (submit_next pq c w b user nonced signature addr sink)
  unfolding submit_next
  submit_next-Ends c w b user nonced signature addr sink h room known n =
      let Q = Ending pq b.batch_state sink nonced.nonce in
      if-Returns Q (ltb user.last_max_fee_limit nonced.max_fee) _ _
        (λ _. reply-Ends pq b.batch_state sink nonced.nonce b invalid_max_fee refl)
        (λ _.
          check-Returns Q
            (verify_proof_if_enabled c w b.disabled_verifiers nonced.verification_data) _ _
            (λ m. reply-Ends pq b.batch_state sink nonced.nonce b m refl)
            (λ _.
              if-Returns Q w.batch_lock_in_time _ _
                (λ _.
                  subst (Ends pq b.batch_state sink nonced.nonce)
                    (sym (make_room_cases pq w b user nonced signature addr sink room))
                    (accept-Ending pq w b user nonced signature addr sink h known n))
                (λ _. reply-Ends pq b.batch_state sink nonced.nonce b server_busy refl)))

  check_user-Ends :
      (c : Config) (w : Answers) (b : Batcher pq) (user : UserState)
      (nonced : NoncedVerificationData) (signature : Signature) (addr sink : ℕ)
      → IsSound pq b
      → is_queue_full pq b.batch_state ≡ false
      → b.user_states addr ≡ some user
      → Ends pq b.batch_state sink nonced.nonce
          (check_user pq c w b user nonced signature addr sink)
  unfolding check_user
  check_user-Ends c w b user nonced signature addr sink h room known =
      let Q = Ending pq b.batch_state sink nonced.nonce in
      option-Returns Q (w.user_balance addr) _ _
        (λ _. reply-Ends pq b.batch_state sink nonced.nonce b eth_rpc_error refl)
        (λ balance _.
          >>=-Returns Q
            (verify_user_has_enough_balance balance user.total_fees_in_queue nonced.max_fee) _
            (λ enough _.
              if-Returns Q enough _ _
                (λ _.
                  if-Returns Q (ltb user.nonce nonced.nonce) _ _
                    (λ _. reply-Ends pq b.batch_state sink nonced.nonce b invalid_nonce refl)
                    (λ not_above.
                      if-Returns Q (ltb nonced.nonce user.nonce) _ _
                        (λ _. replacement-Ends c w b user addr nonced signature sink h)
                        (λ not_below.
                          submit_next-Ends c w b user nonced signature addr sink h room known
                            (ground arith))))
                (λ _.
                  reply-Ends pq b.batch_state sink nonced.nonce b (insufficient_balance addr)
                    refl)))

  lock_user-Ends :
      (c : Config) (w : Answers) (b : Batcher pq) (nonced : NoncedVerificationData)
      (signature : Signature) (addr sink : ℕ)
      → IsSound pq b
      → is_queue_full pq b.batch_state ≡ false
      → Ends pq b.batch_state sink nonced.nonce (lock_user pq c w b nonced signature addr sink)
  unfolding lock_user
  lock_user-Ends c w b nonced signature addr sink h room =
      let Q = Ending pq b.batch_state sink nonced.nonce in
      if-Returns Q w.get_user_in_time _ _
        (λ _.
          option-Returns Q (b.user_states addr) _ _
            (λ _. reply-Ends pq b.batch_state sink nonced.nonce b add_to_batch_error refl)
            (λ user known.
              if-Returns Q w.user_lock_in_time _ _
                (λ _. check_user-Ends c w b user nonced signature addr sink h room known)
                (λ _. reply-Ends pq b.batch_state sink nonced.nonce b server_busy refl)))
        (λ _. reply-Ends pq b.batch_state sink nonced.nonce b server_busy refl)

  find_user-Ends :
      (c : Config) (w : Answers) (b : Batcher pq) (nonced : NoncedVerificationData)
      (signature : Signature) (addr sink : ℕ)
      → IsSound pq b
      → is_queue_full pq b.batch_state ≡ false
      → Ends pq b.batch_state sink nonced.nonce (find_user pq c w b nonced signature addr sink)
  unfolding find_user with_new_user
  find_user-Ends c w b nonced signature addr sink h room =
      let Q = Ending pq b.batch_state sink nonced.nonce in
      if-Returns Q w.check_user_in_time _ _
        (λ _.
          option-Returns Q (b.user_states addr) _ _
            (λ missing.
              option-Returns Q (w.user_nonce_on_ethereum addr) _ _
                (λ _. reply-Ends pq b.batch_state sink nonced.nonce b eth_rpc_error refl)
                (λ nonce _.
                  if-Returns Q w.insert_user_in_time _ _
                    (λ _.
                      lock_user-Ends c w (with_new_user pq b addr nonce) nonced signature addr sink
                        (with_new_user-IsSound pq b addr nonce h missing) room)
                    (λ _. reply-Ends pq b.batch_state sink nonced.nonce b server_busy refl)))
            (λ user _. lock_user-Ends c w b nonced signature addr sink h room))
        (λ _. reply-Ends pq b.batch_state sink nonced.nonce b server_busy refl)

  admit-Ends :
      (c : Config) (w : Answers) (b : Batcher pq) (signature : Signature) (sink : ℕ)
      (payer : ℕ × NoncedVerificationData)
      → IsSound pq b
      → is_queue_full pq b.batch_state ≡ false
      → Ends pq b.batch_state sink payer.1.nonce (admit pq c w b signature sink payer)
  unfolding admit
  admit-Ends c w b signature sink (addr, nonced) h room =
      let Q = Ending pq b.batch_state sink nonced.nonce in
      if-Returns Q (msg_covers_minimum_max_fee b.current_min_max_fee nonced.max_fee) _ _
        (λ _.
          check-Returns Q (msg_user_balance_is_locked w addr) _ _
            (λ m. reply-Ends pq b.batch_state sink nonced.nonce b m refl)
            (λ _. find_user-Ends c w b nonced signature addr sink h room))
        (λ _. reply-Ends pq b.batch_state sink nonced.nonce b underpriced_proof refl)

  payer_of-nonce :
      (c : Config) (addr : ℕ) (nonced : NoncedVerificationData) (p : ℕ × NoncedVerificationData)
      → payer_of c addr nonced ≡ done p
      → p.1.nonce ≡ nonced.nonce
  unfolding payer_of
  payer_of-nonce c addr nonced p e = ground arith

  handle_submit_proof_msg-Ends :
      (c : Config) (w : Answers) (b : Batcher pq) (m : SubmitProofMessage) (sink : ℕ)
      → IsSound pq b
      → is_queue_full pq b.batch_state ≡ false
      → Ends pq b.batch_state sink m.verification_data.nonce
          (handle_submit_proof_msg pq c w b m sink)
  unfolding handle_submit_proof_msg
  handle_submit_proof_msg-Ends c w b m sink h room =
      let Q = Ending pq b.batch_state sink m.verification_data.nonce in
      check-Returns Q (validate_message c w m) _ _
        (λ response. reply-Ends pq b.batch_state sink m.verification_data.nonce b response refl)
        (λ addr. >>=-Returns Q (payer_of c addr m.verification_data) _ (λ p paid.
          subst (λ n. Ends pq b.batch_state sink n (admit pq c w b m.signature sink p))
            (payer_of-nonce c addr m.verification_data p paid)
            (admit-Ends c w b m.signature sink p h room)))

  -- If the books agree with the queue, which is not full, and the handler of a submission
  -- returns, then the submission has ended in one of three ways: its client is answered, as the
  -- last message that is sent, and the queue and its greatest size are as they were; or nothing
  -- is sent, and the queue has one entry more, with the nonce of the message and the client's
  -- sink; or an entry of the same sender and nonce is replaced by such an entry, and only the
  -- client of the old entry is told.
  pub handle_submit_proof_msg-Ending :
      (c : Config) (w : Answers) (b : Batcher pq) (m : SubmitProofMessage) (sink : ℕ)
      {r : Reaction pq}
      → IsSound pq b
      → is_queue_full pq b.batch_state ≡ false
      → handle_submit_proof_msg pq c w b m sink ≡ done r
      → Ending pq b.batch_state sink m.verification_data.nonce r
  handle_submit_proof_msg-Ending c w b m sink {r} h room e =
      (handle_submit_proof_msg-Ends c w b m sink h room).holds r e
