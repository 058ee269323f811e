-- ===== src/Batcher/Submit/Handler.antt =====
-- The books and the whole of `handle_submit_proof_msg`, phase by phase.
use aligned_layer.Prelude.{
  ℕ, ◌+◌, ◌<◌, ◌≡◌, refl, sym, subst, ◌∙◌, inl, inr, false, none, some, [], done, >>=-eq-done,
  usize_mod, length,
}
use aligned_layer.Sdk.Types.{NoncedVerificationData, SubmitProofMessage, Signature, proof_replaced}
use aligned_layer.Batcher.Queue.{BatchQueue}
use aligned_layer.Batcher.State.{
  UserState, new_user_state, Config, Answers, Batcher, Reaction, is_queue_full,
}
use aligned_layer.Batcher.Replace.{replacement_of, handle_replacement_message, tell}
use aligned_layer.Batcher.Accounts.{UserMatches, IsSound, insert_user-matches}
use aligned_layer.Batcher.Submit.{
  payer_of, submit_next, check_user, lock_user, find_user, handle_submit_proof_msg,
}
use aligned_layer.Batcher.Submit.Accept.{accept-IsSound}
use aligned_layer.Batcher.Submit.Replaced.{replace_entry-IsSound}
use aligned_layer.Batcher.Submit.Cases.{
  replace_found_cases, replacement_cases, submit_next_cases, check_user_cases, lock_user_cases,
  make_room_cases, find_user_cases, admit_cases, handle_cases, no_proofs, with_new_user,
  known_nonce,
}

module _ (pq : BatchQueue) where
  open pq use {iter}

  -- A state that is not changed stays sound.
  unchanged : {b : Batcher pq} (r : Reaction pq) → IsSound pq b → r.state ≡ b → IsSound pq r.state
  unchanged r h same = subst (IsSound pq) (sym same) h

  -- If the books agree with the queue, the handler of replacements is given the state of the
  -- user at `addr`, and it returns, then the books agree with the queue after it, whether the
  -- proof was replaced or not.
  pub handle_replacement_message-IsSound :
      (c : Config) (w : Answers) (b : Batcher pq) (user : UserState) (addr : ℕ)
      (nonced : NoncedVerificationData) (signature : Signature) (sink : ℕ) {r : Reaction pq}
      → IsSound pq b
      → b.user_states addr ≡ some user
      → handle_replacement_message pq c w b user addr nonced signature sink ≡ done r
      → IsSound pq r.state
  handle_replacement_message-IsSound c w b user addr nonced signature sink {r} h known e =
      elim (replacement_cases pq c w b user addr nonced signature sink r e) [
        | inl same ↦ unchanged r h same
        | inr (entry, got, e') ↦
            elim (replace_found_cases pq c w b user entry nonced signature sink r e') [
              | inl same ↦ unchanged r h same
              | inr (valid, e'') ↦
                  replace_entry-IsSound pq b user addr entry
                    (replacement_of w entry nonced signature sink)
                    (tell entry.messaging_sink proof_replaced) h known got refl valid e''
            ]
      ]

  submit_next-IsSound :
      (c : Config) (w : Answers) (b : Batcher pq) (user : UserState)
      (nonced : NoncedVerificationData) (signature : Signature) (addr sink : ℕ) {r : Reaction pq}
      → IsSound pq b
      → b.user_states addr ≡ some user
      → nonced.nonce ≡ user.nonce
      → is_queue_full pq b.batch_state ≡ false
      → length (iter b.batch_state.batch_queue) + 1 < usize_mod
      → submit_next pq c w b user nonced signature addr sink ≡ done r
      → IsSound pq r.state
  submit_next-IsSound c w b user nonced signature addr sink {r} h known n room bound e =
      elim (submit_next_cases pq c w b user nonced signature addr sink r e) [
        | inl same ↦ unchanged r h same
        | inr (limit, e') ↦
            accept-IsSound pq w b user nonced signature addr sink [] h known n limit bound
              (sym (make_room_cases pq w b user nonced signature addr sink room) ∙ e')
      ]

  check_user-IsSound :
      (c : Config) (w : Answers) (b : Batcher pq) (user : UserState)
      (nonced : NoncedVerificationData) (signature : Signature) (addr sink : ℕ) {r : Reaction pq}
      → IsSound pq b
      → b.user_states addr ≡ some user
      → is_queue_full pq b.batch_state ≡ false
      → length (iter b.batch_state.batch_queue) + 1 < usize_mod
      → check_user pq c w b user nonced signature addr sink ≡ done r
      → IsSound pq r.state
  check_user-IsSound c w b user nonced signature addr sink {r} h known room bound e =
      elim (check_user_cases pq c w b user nonced signature addr sink r e) [
        | inl same ↦ unchanged r h same
        | inr (inl e') ↦
            handle_replacement_message-IsSound c w b user addr nonced signature sink h known e'
        | inr (inr (n, e')) ↦
            submit_next-IsSound c w b user nonced signature addr sink h known n room bound e'
      ]

  pub lock_user-IsSound :
      (c : Config) (w : Answers) (b : Batcher pq) (nonced : NoncedVerificationData)
      (signature : Signature) (addr sink : ℕ) {r : Reaction pq}
      → IsSound pq b
      → is_queue_full pq b.batch_state ≡ false
      → length (iter b.batch_state.batch_queue) + 1 < usize_mod
      → lock_user pq c w b nonced signature addr sink ≡ done r
      → IsSound pq r.state
  lock_user-IsSound c w b nonced signature addr sink {r} h room bound e =
      elim (lock_user_cases pq c w b nonced signature addr sink r e) [
        | inl same ↦ unchanged r h same
        | inr (user, known, e') ↦
            check_user-IsSound c w b user nonced signature addr sink h known room bound e'
      ]

  -- A new state for a user without one agrees with the queue, which has no entry of the user.
  pub with_new_user-IsSound :
      (b : Batcher pq) (addr nonce : ℕ)
      → IsSound pq b
      → b.user_states addr ≡ none
      → IsSound pq (with_new_user pq b addr nonce)
  unfolding with_new_user
  with_new_user-IsSound b addr nonce h missing =
      let xs = iter b.batch_state.batch_queue in
      record {
        distinct = h.distinct;
        priced = h.priced;
        falls = h.falls;
        users_match =
            insert_user-matches addr (new_user_state nonce) b.user_states xs
              (no_proofs addr nonce xs (subst (UserMatches addr xs) missing (h.users_match addr)))
              (λ a _. h.users_match a);
      }

  find_user-IsSound :
      (c : Config) (w : Answers) (b : Batcher pq) (nonced : NoncedVerificationData)
      (signature : Signature) (addr sink : ℕ) {r : Reaction pq}
      → IsSound pq b
      → is_queue_full pq b.batch_state ≡ false
      → length (iter b.batch_state.batch_queue) + 1 < usize_mod
      → find_user pq c w b nonced signature addr sink ≡ done r
      → IsSound pq r.state
  unfolding with_new_user
  find_user-IsSound c w b nonced signature addr sink {r} h room bound e =
      elim (find_user_cases pq c w b nonced signature addr sink r e) [
        | inl same ↦ unchanged r h same
        | inr (inl e') ↦ lock_user-IsSound c w b nonced signature addr sink h room bound e'
        | inr (inr (missing, e')) ↦
            let nonce = known_nonce (w.user_nonce_on_ethereum addr) in
            lock_user-IsSound c w (with_new_user pq b addr nonce) nonced signature addr sink
              (with_new_user-IsSound b addr nonce h missing) room bound e'
      ]

  -- If the queue is not full, one more entry can be counted in a `usize`, and the handler
  -- returns, then books that agreed with the queue before agree with it after, whichever way the
  -- message was answered.
  pub handle_submit_proof_msg-IsSound :
      (c : Config) (w : Answers) (b : Batcher pq) (m : SubmitProofMessage) (sink : ℕ)
      {r : Reaction pq}
      → IsSound pq b
      → is_queue_full pq b.batch_state ≡ false
      → length (iter b.batch_state.batch_queue) + 1 < usize_mod
      → handle_submit_proof_msg pq c w b m sink ≡ done r
      → IsSound pq r.state
  handle_submit_proof_msg-IsSound c w b m sink {r} h room bound e =
      elim (handle_cases pq c w b m sink r e) [
        | inl same ↦ unchanged r h same
        | inr (addr, valid, e') ↦
            let ((payer, nonced), paid, admitted) =
              >>=-eq-done (payer_of c addr m.verification_data) _ e' in
            elim (admit_cases pq c w b m.signature sink payer nonced r admitted) [
              | inl same ↦ unchanged r h same
              | inr found ↦ find_user-IsSound c w b nonced m.signature payer sink h room bound found
            ]
      ]
