-- ===== src/Batcher/Tasks/Phases.antt =====
-- A task that is alone and the phases of `handle_submit_proof_msg`.
use aligned_layer.Prelude.{
  ℕ, ◌≡◌, refl, sym, ap, ◌∙◌, inl, inr, true, none, Run, done, panic, deadlock, ◌>>=◌, Bool-cases,
  Option-cases, ◌⊎◌, arith,
}
use aligned_layer.Sdk.Types.{SubmitProofResponseMessage, server_busy, eth_rpc_error}
use aligned_layer.Batcher.Queue.{BatchQueue}
use aligned_layer.Batcher.State.{
  Config, Answers, Batcher, Reaction, reply, new_user_state, insert_user,
}
use aligned_layer.Batcher.Submit.{find_user, lock_user}
use aligned_layer.Batcher.Tasks.{
  Task, looking, creating, locking, over, at_phase, Turn, look, create, finish, take_turn, finished,
  ends, goes_on,
}

module _ (pq : BatchQueue) (c : Config) (w : Answers) where
  -- The state after the turns of a task, one after the other.
  abbrev pub turns : ℕ → Batcher pq → Task → Run (Batcher pq)
  turns ℕ.zero b t = done b
  turns (ℕ.suc n) b t = take_turn pq c w b t >>= λ r. turns n r.state r.task

  abbrev pub state_of : Run (Reaction pq) → Run (Batcher pq)
  state_of m = m >>= λ r. done r.state

  abbrev then_turns : ℕ → Turn pq → Run (Batcher pq)
  then_turns n r = turns n r.state r.task

  over_turns : (n : ℕ) (b : Batcher pq) (t : Task) → turns n b (at_phase t over) ≡ done b
  unfolding take_turn
  over_turns ℕ.zero b t = refl
  over_turns (ℕ.suc n) b t = over_turns n b t

  -- A last turn, and turns that change nothing any more.
  finish_turns :
      (n : ℕ) (b : Batcher pq) (t : Task)
      → turns (ℕ.suc n) b (at_phase t locking)
        ≡ state_of (lock_user pq c w b t.nonced t.signature t.addr t.sink)
  unfolding take_turn finish
  finish_turns n b t = by_run (lock_user pq c w b t.nonced t.signature t.addr t.sink)
    where
      by_run :
          (m : Run (Reaction pq))
          → ((m >>= λ r. done (finished pq t r)) >>= λ r. turns n r.state r.task) ≡ state_of m
      by_run (done r) = over_turns n r.state t
      by_run panic = refl
      by_run deadlock = refl

  look_cases :
      (b : Batcher pq) (t : Task)
      → ((look pq w b t ≡ ends pq b t server_busy)
          × (find_user pq c w b t.nonced t.signature t.addr t.sink ≡ reply pq b t.sink server_busy))
        ⊎ ((look pq w b t ≡ goes_on pq b t locking)
            × (find_user pq c w b t.nonced t.signature t.addr t.sink
                ≡ lock_user pq c w b t.nonced t.signature t.addr t.sink))
        ⊎ ((look pq w b t ≡ goes_on pq b t creating)
            × (w.check_user_in_time ≡ true)
            × (b.user_states t.addr ≡ none))
  unfolding look find_user
  look_cases b t = ground arith

  abbrev inserted : Batcher pq → ℕ → ℕ → Batcher pq
  inserted b addr n = record b { user_states = insert_user addr (new_user_state n) b.user_states }

  create_cases :
      (b : Batcher pq) (t : Task)
      → w.check_user_in_time ≡ true
      → b.user_states t.addr ≡ none
      → ((m : SubmitProofResponseMessage) × (create pq w b t ≡ ends pq b t m)
          × (find_user pq c w b t.nonced t.signature t.addr t.sink ≡ reply pq b t.sink m))
        ⊎ ((n : ℕ) × (create pq w b t ≡ goes_on pq (inserted b t.addr n) t locking)
            × (find_user pq c w b t.nonced t.signature t.addr t.sink
                ≡ lock_user pq c w (inserted b t.addr n) t.nonced t.signature t.addr t.sink))
  unfolding create find_user
  create_cases b t free missing = elim (Option-cases (w.user_nonce_on_ethereum t.addr)) [
    | inl unknown ↦ inl (eth_rpc_error, ground arith, ground arith)
    | inr (n, known) ↦ elim (Bool-cases w.insert_user_in_time) [
      | inl soon ↦ inr (n, ground arith, ground arith)
      | inr late ↦ inl (server_busy, ground arith, ground arith)
    ]
  ]

  -- A task that takes its turns one after the other leaves the state that the handler leaves.
  pub turns-find_user :
      (b : Batcher pq) (t : Task)
      → turns 3 b (at_phase t looking)
        ≡ state_of (find_user pq c w b t.nonced t.signature t.addr t.sink)
  unfolding take_turn look create
  turns-find_user b t = elim (look_cases b t) [
    | inl (looked, found) ↦ ap (then_turns 2) looked ∙ over_turns 2 b t ∙ sym (ap state_of found)
    | inr (inl (looked, found)) ↦
        ap (then_turns 2) looked ∙ finish_turns 1 b t ∙ sym (ap state_of found)
    | inr (inr (looked, free, missing)) ↦ elim (create_cases b t free missing) [
      | inl (m, created, found) ↦
          ap (then_turns 2) looked
          ∙ ap (then_turns 1) created
          ∙ over_turns 1 b t
          ∙ sym (ap state_of found)
      | inr (n, created, found) ↦
          ap (then_turns 2) looked
          ∙ ap (then_turns 1) created
          ∙ finish_turns 0 (inserted b t.addr n) t
          ∙ sym (ap state_of found)
    ]
  ]
