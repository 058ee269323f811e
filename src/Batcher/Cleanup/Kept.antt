-- ===== src/Batcher/Cleanup/Kept.antt =====
-- The books after the cleanup.
use aligned_layer.Prelude.{
  ℕ, ◌<◌, ◌≡◌, refl, sym, ap, subst, ◌⊎◌, inl, inr, Option, none, some, List, [], ◌∷◌, arith,
  if◌then◌else◌, done, u256_mod, usize_mod, length, total, Bool-cases, Option-cases,
}
use aligned_layer.Batcher.Queue.{BatchQueue, BatchQueueEntry, Item, fee_of}
use aligned_layer.Batcher.State.{UserState, UserStates, insert_user, Answers}
use aligned_layer.Batcher.Accounts.{
  proofs_of, or_max, Accounts, UserMatches, IsConsistent, insert_user-matches,
}
use aligned_layer.Batcher.Queries.Fees.{least_of_nobody}
use aligned_layer.Batcher.Posting.{UserData, calculate_new_user_states_data}
use aligned_layer.Batcher.Posting.Recount.{Counts, user_data_from_lem}
use aligned_layer.Batcher.Restore.{senders}
use aligned_layer.Batcher.Cleanup.{
  without_limit, cleanup_loop, cleanup_user_states_after_successful_submission,
}

-- A user without an entry has no limit.
without_limit-Accounts :
    (a : ℕ) (u : UserState) (xs : List Item)
    → proofs_of a xs ≡ 0
    → Accounts a u xs
    → Accounts a (without_limit u) xs
without_limit-Accounts a u xs none_left h = record {
  proofs = h.proofs;
  total_fees = h.total_fees;
  limit = sym (ap or_max (least_of_nobody a xs none_left));
  nonces = h.nonces;
}

-- Every user's state agrees with the items.
abbrev AllMatch : List Item → UserStates → Type 0
AllMatch xs users = (a : ℕ) → UserMatches a xs (users a)

cleaned :
    (w : Answers) (addr : ℕ) (user : UserState) (users : UserStates) (xs : List Item)
    → proofs_of addr xs ≡ 0
    → users addr ≡ some user
    → AllMatch xs users
    → AllMatch xs
        (if w.user_lock_is_free addr then insert_user addr (without_limit user) users else users)
cleaned w addr user users xs none_left known h = elim (Bool-cases (w.user_lock_is_free addr)) [
  | inr held ↦ rw held h
  | inl free ↦ rw free (
      insert_user-matches addr (without_limit user) users xs
        (without_limit-Accounts addr user xs none_left (subst (UserMatches addr xs) known (h addr)))
        (λ a _. h a))
]

-- One turn of the loop.
cleanup_step :
    (w : Answers) (current : ℕ → Option UserData) (addr : ℕ) (addrs : List ℕ) (users : UserStates)
    → (cleanup_loop w current (addr ∷ addrs) users ≡ cleanup_loop w current addrs users)
      ⊎ ((user : UserState) × (current addr ≡ none)
          × (users addr ≡ some user)
          × (cleanup_loop w current (addr ∷ addrs) users
              ≡ cleanup_loop w current addrs (
                  if w.user_lock_is_free addr
                  then insert_user addr (without_limit user) users
                  else users)))
unfolding cleanup_loop
cleanup_step w current addr addrs users = elim (Option-cases (current addr)) [
  | inr (d, busy) ↦ inl (ground arith)
  | inl idle ↦ elim (Option-cases (users addr)) [
    | inl missing ↦ inl (ground arith)
    | inr (user, known) ↦ inr (user, idle, known, ground arith)
  ]
]

cleanup_loop-AllMatch :
    (w : Answers) (current : ℕ → Option UserData) (addrs : List ℕ) (users : UserStates)
    (xs : List Item)
    → ((a : ℕ) → Counts a none (current a) xs)
    → AllMatch xs users
    → AllMatch xs (cleanup_loop w current addrs users)
unfolding cleanup_loop
cleanup_loop-AllMatch w current [] users xs counts h = h
cleanup_loop-AllMatch w current (addr ∷ addrs) users xs counts h =
    elim (cleanup_step w current addr addrs users) [
      | inl same ↦
          subst (AllMatch xs) (sym same) (cleanup_loop-AllMatch w current addrs users xs counts h)
      | inr (user, idle, known, same) ↦
          let c : Counts addr none none xs =
            subst (λ o. Counts addr none o xs) idle (counts addr) in
          subst (AllMatch xs) (sym same) (
            cleanup_loop-AllMatch w current addrs _ xs counts
              (cleaned w addr user users xs (omega (arith, c.count)) known h))
    ]

-- If the states agree with the queue, its fees add up to less than 2 ^ 256 and its length fits a
-- `usize`, then the cleanup after any batch returns, and the states agree with the queue after
-- it, whichever locks are free.
pub cleanup_user_states_after_successful_submission-IsConsistent :
    (pq : BatchQueue) (w : Answers) (q : pq.Queue) (finalized_batch : List BatchQueueEntry)
    (users : UserStates)
    → IsConsistent (pq.iter q) users
    → total (λ x. fee_of x.0) (pq.iter q) < u256_mod
    → length (pq.iter q) < usize_mod
    → (users' : UserStates) × (cleanup_user_states_after_successful_submission pq w q
          finalized_batch users
        ≡ done users')
      × IsConsistent (pq.iter q) users'
unfolding cleanup_user_states_after_successful_submission calculate_new_user_states_data
cleanup_user_states_after_successful_submission-IsConsistent pq w q finalized_batch users h small
      few =
    let (current, run, counts) =
      user_data_from_lem (λ _. none) (pq.iter q) (λ a. omega arith) (λ a. omega arith) in
    elim (Bool-cases w.batch_lock_in_time) [
      | inr held ↦ (users, rw held refl, h)
      | inl free ↦ (
        cleanup_loop w current (senders finalized_batch) users,
        rw free (rw run refl),
        record {
          distinct = h.distinct;
          priced = h.priced;
          falls = h.falls;
          users_match =
              cleanup_loop-AllMatch w current (senders finalized_batch) users (pq.iter q) counts
                h.users_match;
        },
      )
    ]
