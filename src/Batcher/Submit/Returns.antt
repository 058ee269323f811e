-- ===== src/Batcher/Submit/Returns.antt =====
-- When `handle_submit_proof_msg` returns: no number overflows and no lock is waited for.
use aligned_layer.Prelude.{
  ℕ, ◌+◌, ◌*◌, ◌≤◌, ◌<◌, ◌≡◌, refl, ap, inl, inr, Bool, true, false, ◌&&◌, some, List, [], ◌∷◌,
  arith, ltb, ◌==◌, Run, done, panic, ◌>>=◌, u256_mod, all, Bool-cases, Option-cases, eq_self, find,
}
use aligned_layer.Sdk.Constants.{default_max_fee_per_proof}
use aligned_layer.Sdk.Types.{NoncedVerificationData, SubmitProofMessage, Signature, proof_replaced}
use aligned_layer.Batcher.Queue.{BatchQueue, BatchQueueEntry, Item, fee_of, nonce_of}
use aligned_layer.Batcher.State.{
  UserState, new_user_state, Config, has_to_pay, get_nonpaying_replacement_addr, Answers, Sent,
  Batcher, Reaction, reply, get_entry, is_queue_full, entry_of,
}
use aligned_layer.Batcher.Checks.{
  Check, passes, refuses, validate_message, verify_user_has_enough_balance,
}
use aligned_layer.Batcher.Replace.{
  tell, min_bump, replacement_of, replace_entry, replace_found, handle_replacement_message,
}
use aligned_layer.Batcher.Submit.Cases.{with_new_user}
use aligned_layer.Batcher.Submit.{
  payer_of, with_proof, accept, make_room, submit_next, check_user, lock_user, find_user, admit,
  handle_submit_proof_msg,
}

abbrev pub is_done {ℓ} : {A : Type ℓ} → Run A → Bool
is_done (done _) = true
is_done _ = false

-- The fee can be raised by the percentage.
abbrev pub can_bump : Config → Item → Bool
can_bump c x = ltb (fee_of x.0 + fee_of x.0 * c.min_bump_percentage) u256_mod

done_of {ℓ} : {A : Type ℓ} (m : Run A) → is_done m ≡ true → (a : A) × (m ≡ done a)
done_of (done a) h = (a, refl)
done_of panic h = cc
done_of Run.deadlock h = cc

no_pay_configured :
    (c : Config) (addr : ℕ)
    → has_to_pay c addr ≡ false
    → (payer : ℕ) × (get_nonpaying_replacement_addr c ≡ some payer)
unfolding has_to_pay get_nonpaying_replacement_addr
no_pay_configured c addr h = elim (Option-cases c.non_paying_config) [
  | inl missing ↦ absurd (ground arith)
  | inr (n, known) ↦ (n.replacement, ground arith)
]

-- The payer is always known, and the fee is the client's or the set one.
payer_of_returns :
    (c : Config) (addr : ℕ) (nonced : NoncedVerificationData)
    → (payer : ℕ) × (paid : NoncedVerificationData) × (payer_of c addr nonced ≡ done (payer, paid))
      × (paid.nonce ≡ nonced.nonce)
      × (paid.max_fee ≤ nonced.max_fee + default_max_fee_per_proof * 100)
unfolding payer_of
payer_of_returns c addr nonced = elim (Bool-cases (has_to_pay c addr)) [
  | inl pays ↦ (addr, nonced, rw pays refl, refl, omega arith)
  | inr free ↦
      let (payer, known) = no_pay_configured c addr free in
      (
        payer,
        record nonced { max_fee = default_max_fee_per_proof * 100 },
        rw (free, known) refl,
        refl,
        omega arith,
      )
]

module _ (pq : BatchQueue) where
  open pq use {iter}

  accept_returns :
      (w : Answers) (b : Batcher pq) (user : UserState) (nonced : NoncedVerificationData)
      (signature : Signature) (addr sink : ℕ) (sent : List Sent)
      → user.total_fees_in_queue + nonced.max_fee < u256_mod
      → nonced.nonce + 1 < u256_mod
      → is_done (accept pq w b user nonced signature addr sink sent) ≡ true
  unfolding accept with_proof
  accept_returns w b user nonced signature addr sink sent h k = ground arith

  submit_next_returns :
      (c : Config) (w : Answers) (b : Batcher pq) (user : UserState)
      (nonced : NoncedVerificationData) (signature : Signature) (addr sink : ℕ)
      → is_queue_full pq b.batch_state ≡ false
      → user.total_fees_in_queue + nonced.max_fee < u256_mod
      → nonced.nonce + 1 < u256_mod
      → is_done (submit_next pq c w b user nonced signature addr sink) ≡ true
  unfolding submit_next make_room
  submit_next_returns c w b user nonced signature addr sink room h k =
      ground (arith, accept_returns w b user nonced signature addr sink [] h k)

  replace_entry_returns :
      (b : Batcher pq) (user : UserState) (entry new : BatchQueueEntry) (sent : List Sent)
      → fee_of entry ≤ fee_of new
      → user.total_fees_in_queue + fee_of new < u256_mod
      → is_done (replace_entry pq b user entry new sent) ≡ true
  unfolding replace_entry
  replace_entry_returns b user entry new sent le h = ground arith

  replace_found_returns :
      (c : Config) (w : Answers) (b : Batcher pq) (user : UserState) (entry : BatchQueueEntry)
      (nonced : NoncedVerificationData) (signature : Signature) (sink : ℕ)
      → fee_of entry ≤ nonced.max_fee
      → user.total_fees_in_queue + nonced.max_fee < u256_mod
      → is_done (replace_found pq c w b user entry nonced signature sink) ≡ true
  unfolding replace_found
  replace_found_returns c w b user entry nonced signature sink le h = ground (
    arith,
    replace_entry_returns b user entry (replacement_of w entry nonced signature sink)
        (tell entry.messaging_sink proof_replaced) le h,
  )

  found_can_bump :
      (c : Config) (a n : ℕ) (entry : BatchQueueEntry) (b : Batcher pq)
      → all (can_bump c) (iter b.batch_state.batch_queue) ≡ true
      → get_entry pq b.batch_state a n ≡ some entry
      → fee_of entry + fee_of entry * c.min_bump_percentage < u256_mod
  unfolding get_entry
  found_can_bump c a n entry b h e = in_list (iter b.batch_state.batch_queue) h e
    where
      in_list :
          (xs : List Item)
          → all (can_bump c) xs ≡ true
          → entry_of (find (λ x. x.0.sender == a && nonce_of x.0 == n) xs) ≡ some entry
          → fee_of entry + fee_of entry * c.min_bump_percentage < u256_mod
      in_list [] h e = cc
      in_list (x ∷ xs) h e = ground (arith, in_list xs)

  handle_replacement_message_returns :
      (c : Config) (w : Answers) (b : Batcher pq) (user : UserState) (addr : ℕ)
      (nonced : NoncedVerificationData) (signature : Signature) (sink : ℕ)
      → all (can_bump c) (iter b.batch_state.batch_queue) ≡ true
      → user.total_fees_in_queue + nonced.max_fee < u256_mod
      → is_done (handle_replacement_message pq c w b user addr nonced signature sink) ≡ true
  unfolding handle_replacement_message min_bump
  handle_replacement_message_returns c w b user addr nonced signature sink all_bump h =
      elim (Option-cases (get_entry pq b.batch_state addr nonced.nonce)) [
        | inl missing ↦ ground arith
        | inr (entry, found) ↦ ground (
          arith,
          found_can_bump c addr nonced.nonce entry b all_bump found,
          replace_found_returns c w b user entry nonced signature sink,
        )
      ]

  check_user_returns :
      (c : Config) (w : Answers) (b : Batcher pq) (user : UserState)
      (nonced : NoncedVerificationData) (signature : Signature) (addr sink : ℕ)
      → is_queue_full pq b.batch_state ≡ false
      → all (can_bump c) (iter b.batch_state.batch_queue) ≡ true
      → user.total_fees_in_queue + nonced.max_fee < u256_mod
      → nonced.nonce + 1 < u256_mod
      → is_done (check_user pq c w b user nonced signature addr sink) ≡ true
  unfolding check_user verify_user_has_enough_balance
  check_user_returns c w b user nonced signature addr sink room bump h k = ground (
    arith,
    submit_next_returns c w b user nonced signature addr sink room h k,
    handle_replacement_message_returns c w b user addr nonced signature sink bump h,
  )

  lock_user_returns :
      (c : Config) (w : Answers) (b : Batcher pq) (nonced : NoncedVerificationData)
      (signature : Signature) (addr sink : ℕ)
      → is_queue_full pq b.batch_state ≡ false
      → all (can_bump c) (iter b.batch_state.batch_queue) ≡ true
      → ((u : UserState)
          → b.user_states addr ≡ some u
          → u.total_fees_in_queue + nonced.max_fee < u256_mod)
      → nonced.nonce + 1 < u256_mod
      → is_done (lock_user pq c w b nonced signature addr sink) ≡ true
  unfolding lock_user
  lock_user_returns c w b nonced signature addr sink room bump h k =
      elim (Option-cases (b.user_states addr)) [
        | inl missing ↦ ground arith
        | inr (user, known) ↦ ground (
          arith,
          check_user_returns c w b user nonced signature addr sink room bump (h user known) k,
        )
      ]

  lock_new_user_returns :
      (c : Config) (w : Answers) (b : Batcher pq) (nonced : NoncedVerificationData)
      (signature : Signature) (addr sink nonce : ℕ)
      → is_queue_full pq b.batch_state ≡ false
      → all (can_bump c) (iter b.batch_state.batch_queue) ≡ true
      → nonced.max_fee < u256_mod
      → nonced.nonce + 1 < u256_mod
      → is_done (lock_user pq c w (with_new_user pq b addr nonce) nonced signature addr sink) ≡ true
  unfolding with_new_user
  lock_new_user_returns c w b nonced signature addr sink nonce room bump f k =
      lock_user_returns c w (with_new_user pq b addr nonce) nonced signature addr sink room bump
        (λ u e.
          let fresh : some (new_user_state nonce) ≡ some u = rw (eq_self addr) at e in
          let same : new_user_state nonce ≡ u = cc in
          omega (arith, ap (λ (v : UserState). v.total_fees_in_queue) same))
        k

  find_user_returns :
      (c : Config) (w : Answers) (b : Batcher pq) (nonced : NoncedVerificationData)
      (signature : Signature) (addr sink : ℕ)
      → is_queue_full pq b.batch_state ≡ false
      → all (can_bump c) (iter b.batch_state.batch_queue) ≡ true
      → ((u : UserState)
          → b.user_states addr ≡ some u
          → u.total_fees_in_queue + nonced.max_fee < u256_mod)
      → nonced.max_fee < u256_mod
      → nonced.nonce + 1 < u256_mod
      → is_done (find_user pq c w b nonced signature addr sink) ≡ true
  unfolding find_user with_new_user
  find_user_returns c w b nonced signature addr sink room bump h f k =
      elim (Option-cases (w.user_nonce_on_ethereum addr)) [
        | inl silent ↦
            ground (arith, lock_user_returns c w b nonced signature addr sink room bump h k)
        | inr (nonce, answer) ↦ ground (
          arith,
          lock_user_returns c w b nonced signature addr sink room bump h k,
          lock_new_user_returns c w b nonced signature addr sink nonce room bump f k,
        )
      ]

  admit_returns :
      (c : Config) (w : Answers) (b : Batcher pq) (signature : Signature) (sink addr : ℕ)
      (nonced : NoncedVerificationData)
      → is_done (find_user pq c w b nonced signature addr sink) ≡ true
      → is_done (admit pq c w b signature sink (addr, nonced)) ≡ true
  unfolding admit
  admit_returns c w b signature sink addr nonced h = ground arith

  payer_admitted :
      (c : Config) (w : Answers) (b : Batcher pq) (signature : Signature) (sink addr : ℕ)
      (nonced : NoncedVerificationData)
      → is_queue_full pq b.batch_state ≡ false
      → all (can_bump c) (iter b.batch_state.batch_queue) ≡ true
      → ((a : ℕ) (u : UserState)
          → b.user_states a ≡ some u
          → u.total_fees_in_queue + (nonced.max_fee + default_max_fee_per_proof * 100) < u256_mod)
      → nonced.max_fee + default_max_fee_per_proof * 100 < u256_mod
      → nonced.nonce + 1 < u256_mod
      → is_done (payer_of c addr nonced >>= admit pq c w b signature sink) ≡ true
  payer_admitted c w b signature sink addr nonced room bump h f k =
      let (payer, paid, pays, n, fee) = payer_of_returns c addr nonced in
      rw pays (
        admit_returns c w b signature sink payer paid (
          find_user_returns c w b paid signature payer sink room bump
            (λ u e. omega (arith, h payer u e)) (omega arith) (omega arith)))

  -- If the queue is not full, the fee of each entry can be raised by the percentage below 2 ^
  -- 256, the fees of each user with those of the message and of one who need not pay stay below
  -- 2 ^ 256, and the nonce can be advanced, then the handler returns, whatever the answers are.
  pub handle_submit_proof_msg_returns :
      (c : Config) (w : Answers) (b : Batcher pq) (m : SubmitProofMessage) (sink : ℕ)
      → is_queue_full pq b.batch_state ≡ false
      → all (can_bump c) (iter b.batch_state.batch_queue) ≡ true
      → ((a : ℕ) (u : UserState)
          → b.user_states a ≡ some u
          → u.total_fees_in_queue + (m.verification_data.max_fee + default_max_fee_per_proof * 100)
            < u256_mod)
      → m.verification_data.max_fee + default_max_fee_per_proof * 100 < u256_mod
      → m.verification_data.nonce + 1 < u256_mod
      → (r : Reaction pq) × (handle_submit_proof_msg pq c w b m sink ≡ done r)
  unfolding handle_submit_proof_msg
  handle_submit_proof_msg_returns c w b m sink room bump h f k =
      done_of (handle_submit_proof_msg pq c w b m sink) (by_check (validate_message c w m))
    where
      by_check :
          (x : Check ℕ)
          → is_done (elim x as (λ _. Run (Reaction pq)) [
            | refuses n ↦ reply pq b sink n
            | passes addr ↦ payer_of c addr m.verification_data >>= admit pq c w b m.signature sink
          ])
            ≡ true
      by_check (refuses n) = refl
      by_check (passes addr) =
          payer_admitted c w b m.signature sink addr m.verification_data room bump h f k
