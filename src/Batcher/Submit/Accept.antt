-- ===== src/Batcher/Submit/Accept.antt =====
-- The books and the last phase of `handle_submit_proof_msg`.
use mathlib.Core.List.Perm
use aligned_layer.Prelude.{
  ℕ, ◌+◌, ◌≤◌, ◌<◌, ◌≡◌, subst, some, List, [], ◌∷◌, arith, done, done-injective, >>=-eq-done,
  usize_mod, length,
}
use aligned_layer.Sdk.Types.{NoncedVerificationData, Signature, commitment}
use aligned_layer.Batcher.Queue.{BatchQueue, Item, new_entry, priority_of}
use aligned_layer.Batcher.Queue.Extract.{push_fresh}
use aligned_layer.Batcher.State.{UserState, Answers, Sent, Batcher, Reaction}
use aligned_layer.Batcher.Accounts.{proofs_of, Accounts, UserMatches, IsSound, IsConsistent-perm}
use aligned_layer.Batcher.Accounts.Grow.{copies_zero, grown-IsConsistent}
use aligned_layer.Batcher.Submit.{with_proof, accept}

proofs_of-le-length : (a : ℕ) (xs : List Item) → proofs_of a xs ≤ length xs
proofs_of-le-length a [] = omega arith
proofs_of-le-length a (x ∷ xs) = ground (arith, proofs_of-le-length a xs)

-- What `with_proof` returns, if it returns.
with_proof_fields :
    (user u' : UserState) (nonced : NoncedVerificationData)
    → user.proofs_in_batch + 1 < usize_mod
    → with_proof user nonced ≡ done u'
    → (u'.nonce ≡ nonced.nonce + 1)
      × (u'.last_max_fee_limit ≡ nonced.max_fee)
      × (u'.total_fees_in_queue ≡ user.total_fees_in_queue + nonced.max_fee)
      × (u'.proofs_in_batch ≡ user.proofs_in_batch + 1)
unfolding with_proof
with_proof_fields user u' nonced h e = ground arith

module _ (pq : BatchQueue) where
  open pq use {iter, push}

  -- If the books agree with the queue, the state is that of the user at `addr`, the nonce is the
  -- one that it expects, the fee is within the user's limit, one more entry can be counted in a
  -- `usize`, and the last phase of a submission returns, then the books agree with the queue
  -- that holds the new entry.
  pub accept-IsSound :
      (w : Answers) (b : Batcher pq) (user : UserState) (nonced : NoncedVerificationData)
      (signature : Signature) (addr sink : ℕ) (sent : List Sent) {r : Reaction pq}
      → IsSound pq b
      → b.user_states addr ≡ some user
      → nonced.nonce ≡ user.nonce
      → nonced.max_fee ≤ user.last_max_fee_limit
      → length (iter b.batch_state.batch_queue) + 1 < usize_mod
      → accept pq w b user nonced signature addr sink sent ≡ done r
      → IsSound pq r.state
  unfolding accept
  accept-IsSound w b user nonced signature addr sink sent {r} h known n l bound e =
      let q = b.batch_state.batch_queue in
      let entry =
        new_entry nonced (commitment w.keccak256 nonced.verification_data) sink signature addr in
      let account : Accounts addr user (iter q) =
        subst (UserMatches addr (iter q)) known (h.users_match addr) in
      let (u', run, fin) = >>=-eq-done (with_proof user nonced) _ e in
      let (n', l', t', p') =
        with_proof_fields user u' nonced
          (omega (arith, account.proofs, proofs_of-le-length addr (iter q))) run in
      let fresh =
        push_fresh pq q (entry, priority_of entry)
          (copies_zero entry user.nonce (iter q) account.nonces (omega arith)) in
      subst (λ x. IsSound pq x.state) (done-injective fin)
        (IsConsistent-perm (Perm.symm fresh)
          (grown-IsConsistent entry user u' (iter q) b.user_states h known n l n' l' t' p'))
