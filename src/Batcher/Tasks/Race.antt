-- ===== src/Batcher/Tasks/Race.antt =====
-- Two tasks of one user whose state is not known yet.
use aligned_layer.Prelude.{
  ℕ, ◌≡◌, ◌≢◌, refl, sym, ap, subst, ◌∙◌, true, none, some, List, [], ◌∷◌, Run, eq_self, done,
  ◌>>=◌, if◌then◌else◌,
}
use aligned_layer.Sdk.Types.{server_busy}
use aligned_layer.Batcher.Queue.{BatchQueue}
use aligned_layer.Batcher.State.{new_user_state, insert_user, Config, Answers, Batcher, Reaction}
use aligned_layer.Batcher.Accounts.{proofs_of, Accounts, UserMatches, IsSound}
use aligned_layer.Batcher.Submit.{lock_user}
use aligned_layer.Batcher.Submit.Cases.{with_new_user}
use aligned_layer.Batcher.Tasks.{
  looking, creating, locking, over, at_phase, Task, ends, goes_on, looked_up, look, with_nonce,
  create, finished, finish, take_turn, this_task, later_task, Reach, start, next,
}

module _ (pq : BatchQueue) (c : Config) where
  open pq use {iter}

  -- A new state for a user with an entry in the queue does not agree with the queue.
  with_new_user-unsound :
      (b : Batcher pq) (addr n : ℕ)
      → proofs_of addr (iter b.batch_state.batch_queue) ≢ 0
      → ¬ IsSound pq (with_new_user pq b addr n)
  unfolding with_new_user
  with_new_user-unsound b addr n some_proof h =
      let found : insert_user addr (new_user_state n) b.user_states addr ≡ some (new_user_state n) =
        rw (eq_self addr) refl in
      let account : Accounts addr (new_user_state n) (iter b.batch_state.batch_queue) =
        subst (UserMatches addr (iter b.batch_state.batch_queue)) found (h.users_match addr) in
      some_proof (sym account.proofs)

  look_unknown :
      (w : Answers) (b : Batcher pq) (t : Task)
      → w.check_user_in_time ≡ true
      → b.user_states t.addr ≡ none
      → take_turn pq c w b (at_phase t looking) ≡ done (goes_on pq b t creating)
  unfolding take_turn look
  look_unknown w b t free missing =
      ap
        (λ v. done (
          if v
          then looked_up pq b (at_phase t looking) (b.user_states t.addr)
          else ends pq b (at_phase t looking) server_busy))
        free
      ∙ ap (λ o. done (looked_up pq b (at_phase t looking) o)) missing

  create_known :
      (w : Answers) (b : Batcher pq) (t : Task) (n : ℕ)
      → w.insert_user_in_time ≡ true
      → w.user_nonce_on_ethereum t.addr ≡ some n
      → take_turn pq c w b (at_phase t creating)
        ≡ done (goes_on pq (with_new_user pq b t.addr n) t locking)
  unfolding take_turn create with_new_user
  create_known w b t n free known =
      ap (λ o. done (with_nonce pq w b (at_phase t creating) o)) known
      ∙ ap
          (λ v. done (
            if v
            then goes_on pq (with_new_user pq b t.addr n) t locking
            else ends pq b t server_busy))
          free

  finish_locked :
      (w : Answers) (b : Batcher pq) (t : Task) (r : Reaction pq)
      → lock_user pq c w b t.nonced t.signature t.addr t.sink ≡ done r
      → take_turn pq c w b (at_phase t locking) ≡ done (finished pq t r)
  unfolding take_turn finish
  finish_locked w b t r locked =
      ap (λ (m : Run (Reaction pq)). m >>= λ r. done (finished pq t r)) locked

  -- If two tasks are about the same user, who has no state, the locks are free, Ethereum knows
  -- the nonce, and the first task alone, once it has created the state, leaves an entry of the
  -- user in the queue, then there is an order of the turns of both tasks after which the books
  -- do not agree with the queue.
  pub two_tasks-unsound :
      (w : Answers) (b : Batcher pq) (t u : Task) (n : ℕ) (r : Reaction pq)
      → w.check_user_in_time ≡ true
      → w.insert_user_in_time ≡ true
      → w.user_nonce_on_ethereum t.addr ≡ some n
      → u.addr ≡ t.addr
      → b.user_states t.addr ≡ none
      → lock_user pq c w (with_new_user pq b t.addr n) t.nonced t.signature t.addr t.sink ≡ done r
      → proofs_of t.addr (iter r.state.batch_state.batch_queue) ≢ 0
      → (b' : Batcher pq) × (ts : List Task) × Reach pq c b
          (at_phase t looking ∷ at_phase u looking ∷ [])
          b'
          ts
        × ¬ IsSound pq b'
  two_tasks-unsound w b t u n r look_free insert_free known same missing locked some_proof =
      let missing' : b.user_states u.addr ≡ none = ap b.user_states same ∙ missing in
      let known' : w.user_nonce_on_ethereum u.addr ≡ some n =
        ap w.user_nonce_on_ethereum same ∙ known in
      let step₁ =
        this_task w b (at_phase t looking) (at_phase u looking ∷ []) (goes_on pq b t creating)
          (look_unknown w b t look_free missing) in
      let step₂ = later_task (at_phase t creating) (
        this_task w b (at_phase u looking) [] (goes_on pq b u creating)
          (look_unknown w b u look_free missing')) in
      let step₃ =
        this_task w b (at_phase t creating) (at_phase u creating ∷ [])
          (goes_on pq (with_new_user pq b t.addr n) t locking)
          (create_known w b t n insert_free known) in
      let step₄ =
        this_task w (with_new_user pq b t.addr n) (at_phase t locking) (at_phase u creating ∷ [])
          (finished pq t r) (finish_locked w (with_new_user pq b t.addr n) t r locked) in
      let step₅ = later_task (at_phase t over) (
        this_task w r.state (at_phase u creating) []
          (goes_on pq (with_new_user pq r.state u.addr n) u locking)
          (create_known w r.state u n insert_free known')) in
      (
        with_new_user pq r.state u.addr n,
        at_phase t over ∷ at_phase u locking ∷ [],
        next (next (next (next (next start step₁) step₂) step₃) step₄) step₅,
        with_new_user-unsound r.state u.addr n (
            subst (λ a. proofs_of a (iter r.state.batch_state.batch_queue) ≢ 0) (sym same)
              some_proof),
      )
