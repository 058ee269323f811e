-- ===== src/Batcher/Submit/Endings.antt =====
-- How a submission ends, for its client and for the queue.
use aligned_layer.Prelude.{
  ℕ, ◌≡◌, refl, sym, ap, subst, ◌∙◌, some, List, [], ◌∷◌, ◌++◌, ◌==◌, ◌&&◌, find, Perm, arith, Run,
  done, >>=-eq-done, done-injective, u256_add, u256_sub,
}
use aligned_layer.Sdk.Types.{
  NoncedVerificationData, Signature, SubmitProofResponseMessage, commitment, proof_replaced,
}
use aligned_layer.Batcher.Queue.{
  BatchQueue, BatchQueueEntry, Item, new_entry, fee_of, nonce_of, priority_of,
}
use aligned_layer.Batcher.Queue.Extract.{push_fresh}
use aligned_layer.Batcher.State.{
  UserState, BatchState, Answers, Sent, Batcher, Reaction, reply, get_entry,
}
use aligned_layer.Batcher.Checks.{Check, passes, refuses}
use aligned_layer.Batcher.Replace.{tell, replace_entry}
use aligned_layer.Batcher.Accounts.{Accounts, UserMatches, IsSound}
use aligned_layer.Batcher.Accounts.Grow.{copies_zero, sender_of}
use aligned_layer.Batcher.Submit.{with_proof, accept}
use aligned_layer.Prelude.{Returns, done-Returns, >>=-Returns}
use aligned_layer.Batcher.Submit.Replaced.{get_entry_lem, replace_queue, replace_entry_fields}

module _ {A : Type 0} (Q : A → Type 0) where
  pub check-Returns :
      {B : Type 0} (c : Check B) (f : SubmitProofResponseMessage → Run A) (g : B → Run A)
      → ((m : SubmitProofResponseMessage) → Returns Q (f m))
      → ((a : B) → Returns Q (g a))
      → Returns Q (elim c [ refuses m ↦ f m | passes a ↦ g a ])
  check-Returns (passes a) f g h k = k a
  check-Returns (refuses m) f g h k = h m

module _ (pq : BatchQueue) where
  open pq use {iter}

  abbrev items : Batcher pq → List Item
  items b = iter b.batch_state.batch_queue

  -- The message is refused and answered; or it has a new entry with the client's sink; or its
  -- entry takes the place of one of the same sender and nonce, whose client is told.
  pub data Ending (s : BatchState pq) (sink nonce : ℕ) (r : Reaction pq) : Type 0 where
    refused :
        (told : List Sent) (m : SubmitProofResponseMessage)
        → r.sent ≡ told ++ (sink, m) ∷ []
        → r.state.batch_state ≡ s
        → Ending s sink nonce r
    entered :
        (x : Item)
        → x.0.messaging_sink ≡ some sink
        → nonce_of x.0 ≡ nonce
        → r.sent ≡ []
        → Perm (items r.state) (x ∷ iter s.batch_queue)
        → Ending s sink nonce r
    replaced :
        (old new : Item) (rest : List Item)
        → new.0.messaging_sink ≡ some sink
        → nonce_of new.0 ≡ nonce
        → (new.0.sender ≡ old.0.sender) × (nonce_of old.0 ≡ nonce)
        → r.sent ≡ tell old.0.messaging_sink proof_replaced
        → Perm (iter s.batch_queue) (old ∷ rest)
        → Perm (items r.state) (new ∷ rest)
        → Ending s sink nonce r

  pub accept-Ending :
      (w : Answers) (b : Batcher pq) (user : UserState) (nonced : NoncedVerificationData)
      (signature : Signature) (addr sink : ℕ)
      → IsSound pq b
      → b.user_states addr ≡ some user
      → nonced.nonce ≡ user.nonce
      → Returns
          (Ending b.batch_state sink nonced.nonce)
          (accept pq w b user nonced signature addr sink [])
  unfolding accept
  accept-Ending w b user nonced signature addr sink h known n =
      let entry =
        new_entry nonced (commitment w.keccak256 nonced.verification_data) sink signature addr in
      let account : Accounts addr user (items b) =
        subst (UserMatches addr (items b)) known (h.users_match addr) in
      >>=-Returns (Ending b.batch_state sink nonced.nonce) (with_proof user nonced) _ (λ user' _.
        done-Returns (Ending b.batch_state sink nonced.nonce) _ (
          entered (entry, priority_of entry) refl refl refl
            (push_fresh pq b.batch_state.batch_queue (entry, priority_of entry)
              (copies_zero entry user.nonce (items b) account.nonces (omega arith)))))

  module _ (s : BatchState pq) (sink nonce : ℕ) where
    abbrev pub Ends : Run (Reaction pq) → Type 0
    Ends = Returns (Ending s sink nonce)

    pub reply-Ends :
        (b' : Batcher pq) (m : SubmitProofResponseMessage)
        → b'.batch_state ≡ s
        → Ends (reply pq b' sink m)
    reply-Ends b' m same = done-Returns (Ending s sink nonce) _ (refused [] m refl same)

  replace_entry_told :
      (b : Batcher pq) (user : UserState) (entry new : BatchQueueEntry) (sent : List Sent)
      (r : Reaction pq)
      → replace_entry pq b user entry new sent ≡ done r
      → r.sent ≡ sent
  unfolding replace_entry
  replace_entry_told b user entry new sent r e =
      let (difference, _, e') = >>=-eq-done (u256_sub (fee_of new) (fee_of entry)) _ e in
      let (fees, _, fin) = >>=-eq-done (u256_add user.total_fees_in_queue difference) _ e' in
      ap (λ (x : Reaction pq). x.sent) (sym (done-injective fin))

  pub replace_entry-Ends :
      (b : Batcher pq) (user : UserState) (addr sink : ℕ) (entry new : BatchQueueEntry)
      → IsSound pq b
      → get_entry pq b.batch_state addr (nonce_of new) ≡ some entry
      → new.sender ≡ entry.sender
      → new.messaging_sink ≡ some sink
      → Ends b.batch_state sink
          (nonce_of new)
          (replace_entry pq b user entry new (tell entry.messaging_sink proof_replaced))
  replace_entry-Ends b user addr sink entry new h got s to = record {
    holds = λ r e.
        let q = b.batch_state.batch_queue in
        let (user', users, queue, _, _, _, _, _) =
          replace_entry_fields pq b user entry new (tell entry.messaging_sink proof_replaced) e in
        let (old, found, same, own, nonces) =
          get_entry_lem pq b.batch_state addr (nonce_of new) entry got in
        let found' : find (λ y. y.0.sender == new.sender && nonce_of y.0 == nonce_of new) (iter q)
            ≡ some old =
          subst
            (λ a. find (λ y. y.0.sender == a && nonce_of y.0 == nonce_of new) (iter q) ≡ some old)
            (sym (s ∙ own)) found in
        let (rest, front, ends) = replace_queue pq q old new h.distinct found' in
        replaced old (new, priority_of new) rest to refl
          (s ∙ ap sender_of (sym same), ap nonce_of same ∙ nonces)
          (replace_entry_told b user entry new (tell entry.messaging_sink proof_replaced) r e
            ∙ ap (λ (x : BatchQueueEntry). tell x.messaging_sink proof_replaced) (sym same))
          front (subst (λ k. Perm (iter k) ((new, priority_of new) ∷ rest)) (sym queue) ends);
  }
