-- ===== src/Batcher/Tasks/Frame.antt =====
-- A submission leaves the states of all other users alone.
use aligned_layer.Prelude.{
  ℕ, ◌≡◌, ◌≢◌, refl, sym, ap, subst, ◌∙◌, inl, inr, false, Option, List, [], ne→eqb, done,
  >>=-eq-done, done-injective,
}
use aligned_layer.Sdk.Types.{NoncedVerificationData, Signature, proof_replaced}
use aligned_layer.Batcher.Queue.{BatchQueue}
use aligned_layer.Batcher.State.{
  UserState, UserStates, insert_user, Config, Answers, Sent, Batcher, Reaction, is_queue_full,
}
use aligned_layer.Batcher.Replace.{replacement_of, tell, handle_replacement_message}
use aligned_layer.Batcher.Submit.{with_proof, accept, lock_user}
use aligned_layer.Batcher.Submit.Replaced.{get_entry_lem, replace_entry_fields}
use aligned_layer.Batcher.Submit.Cases.{
  replace_found_cases, replacement_cases, submit_next_cases, check_user_cases, lock_user_cases,
  make_room_cases,
}

pub insert_user_other :
    (addr a : ℕ) (u : UserState) (users : UserStates)
    → a ≢ addr
    → insert_user addr u users a ≡ users a
insert_user_other addr a u users other = rw (ne→eqb a addr other) refl

module _ (pq : BatchQueue) (a : ℕ) where
  -- The state of the user `a`.
  abbrev own : Batcher pq → Option UserState
  own b = b.user_states a

  same_state : {b : Batcher pq} (r : Reaction pq) → r.state ≡ b → own r.state ≡ own b
  same_state r same = ap own same

  accept_other :
      (w : Answers) (b : Batcher pq) (user : UserState) (nonced : NoncedVerificationData)
      (signature : Signature) (addr sink : ℕ) (sent : List Sent) {r : Reaction pq}
      → a ≢ addr
      → accept pq w b user nonced signature addr sink sent ≡ done r
      → own r.state ≡ own b
  unfolding accept
  accept_other w b user nonced signature addr sink sent {r} other e =
      let (u', run, fin) = >>=-eq-done (with_proof user nonced) _ e in
      sym (ap (λ (x : Reaction pq). own x.state) (done-injective fin))
      ∙ insert_user_other addr a u' b.user_states other

  replacement_other :
      (c : Config) (w : Answers) (b : Batcher pq) (user : UserState) (addr : ℕ)
      (nonced : NoncedVerificationData) (signature : Signature) (sink : ℕ) {r : Reaction pq}
      → a ≢ addr
      → handle_replacement_message pq c w b user addr nonced signature sink ≡ done r
      → own r.state ≡ own b
  replacement_other c w b user addr nonced signature sink {r} other e =
      elim (replacement_cases pq c w b user addr nonced signature sink r e) [
        | inl same ↦ same_state r same
        | inr (entry, got, e') ↦
            elim (replace_found_cases pq c w b user entry nonced signature sink r e') [
              | inl same ↦ same_state r same
              | inr (valid, e'') ↦
                  let (_, _, _, sender, _) =
                    get_entry_lem pq b.batch_state addr nonced.nonce entry got in
                  let (user', users, _, _, _, _, _, _) =
                    replace_entry_fields pq b user entry
                      (replacement_of w entry nonced signature sink)
                      (tell entry.messaging_sink proof_replaced) e'' in
                  ap (λ (m : UserStates). m a) users
                  ∙ insert_user_other entry.sender a user' b.user_states
                      (subst (λ k. a ≢ k) (sym sender) other)
            ]
      ]

  pub lock_user_other :
      (c : Config) (w : Answers) (b : Batcher pq) (nonced : NoncedVerificationData)
      (signature : Signature) (addr sink : ℕ) {r : Reaction pq}
      → a ≢ addr
      → is_queue_full pq b.batch_state ≡ false
      → lock_user pq c w b nonced signature addr sink ≡ done r
      → own r.state ≡ own b
  lock_user_other c w b nonced signature addr sink {r} other room e =
      elim (lock_user_cases pq c w b nonced signature addr sink r e) [
        | inl same ↦ same_state r same
        | inr (user, known, e') ↦
            elim (check_user_cases pq c w b user nonced signature addr sink r e') [
              | inl same ↦ same_state r same
              | inr (inl replaced) ↦
                  replacement_other c w b user addr nonced signature sink other replaced
              | inr (inr (n, next)) ↦
                  elim (submit_next_cases pq c w b user nonced signature addr sink r next) [
                    | inl same ↦ same_state r same
                    | inr (limit, made) ↦
                        accept_other w b user nonced signature addr sink [] other
                          (sym (make_room_cases pq w b user nonced signature addr sink room) ∙ made)
                  ]
            ]
      ]
