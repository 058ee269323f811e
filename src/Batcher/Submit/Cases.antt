-- ===== src/Batcher/Submit/Cases.antt =====
-- The ways through each phase of `handle_submit_proof_msg` that change the state.
use aligned_layer.Prelude.{
  ℕ, ◌≤◌, ◌≡◌, ◌⊎◌, refl, sym, ap, inl, inr, true, false, Option, none, some, List, [], ◌∷◌, arith,
  done, done-injective, ◌>>=◌,
}
use aligned_layer.Sdk.Types.{NoncedVerificationData, SubmitProofMessage, Signature, proof_replaced}
use aligned_layer.Batcher.Queue.{BatchQueue, BatchQueueEntry, Item}
use aligned_layer.Batcher.State.{
  UserState, new_user_state, insert_user, Config, Answers, Batcher, Reaction, reply, get_entry,
  is_queue_full, replacement_entry_is_valid,
}
use aligned_layer.Batcher.Checks.{Check, passes, refuses, validate_message}
use aligned_layer.Batcher.Replace.{
  replacement_of, replace_entry, replace_found, tell, handle_replacement_message,
}
use aligned_layer.Batcher.Accounts.{proofs_of, fees_of, least_of, or_max, is_below, Accounts}
use aligned_layer.Batcher.Submit.{
  payer_of, accept, make_room, submit_next, check_user, lock_user, find_user, admit,
  handle_submit_proof_msg,
}

-- The nonce of a user on Ethereum, where there is an answer.
pub known_nonce : Option ℕ → ℕ
known_nonce none = 0
known_nonce (some n) = n

pub no_proofs :
    (a : ℕ) (n : ℕ) (xs : List Item) → proofs_of a xs ≡ 0 → Accounts a (new_user_state n) xs
no_proofs a n xs h =
    let (f, l, k) = empty_account a n xs h in
    record { proofs = sym h; total_fees = sym f; limit = sym (ap or_max l); nonces = k }
  where
    empty_account :
        (a n : ℕ) (xs : List Item)
        → proofs_of a xs ≡ 0
        → (fees_of a xs ≡ 0) × (least_of a xs ≡ none) × (is_below a n xs ≡ true)
    empty_account a n [] h = (refl, refl, refl)
    empty_account a n (x ∷ xs) h = ground (arith, empty_account a n xs)

module _ (pq : BatchQueue) where
  -- A user without a state gets a new one.
  unfoldable pub with_new_user : Batcher pq → ℕ → ℕ → Batcher pq
  with_new_user b addr nonce = record b {
    user_states = insert_user addr (new_user_state nonce) b.user_states;
  }

  -- A valid replacement is made, or the state stays.
  pub replace_found_cases :
      (c : Config) (w : Answers) (b : Batcher pq) (user : UserState) (entry : BatchQueueEntry)
      (nonced : NoncedVerificationData) (signature : Signature) (sink : ℕ) (r : Reaction pq)
      → replace_found pq c w b user entry nonced signature sink ≡ done r
      → (r.state ≡ b)
        ⊎ ((replacement_entry_is_valid pq b.batch_state
                (replacement_of w entry nonced signature sink)
              ≡ true)
            × (replace_entry pq b user entry
                  (replacement_of w entry nonced signature sink)
                  (tell entry.messaging_sink proof_replaced)
                ≡ done r))
  unfolding replace_found
  replace_found_cases c w b user entry nonced signature sink r e = ground arith

  pub replacement_cases :
      (c : Config) (w : Answers) (b : Batcher pq) (user : UserState) (addr : ℕ)
      (nonced : NoncedVerificationData) (signature : Signature) (sink : ℕ) (r : Reaction pq)
      → handle_replacement_message pq c w b user addr nonced signature sink ≡ done r
      → (r.state ≡ b)
        ⊎ ((entry : BatchQueueEntry) × (get_entry pq b.batch_state addr nonced.nonce ≡ some entry)
            × (replace_found pq c w b user entry nonced signature sink ≡ done r))
  unfolding handle_replacement_message
  replacement_cases c w b user addr nonced signature sink r e = ground arith

  pub submit_next_cases :
      (c : Config) (w : Answers) (b : Batcher pq) (user : UserState)
      (nonced : NoncedVerificationData) (signature : Signature) (addr sink : ℕ) (r : Reaction pq)
      → submit_next pq c w b user nonced signature addr sink ≡ done r
      → (r.state ≡ b)
        ⊎ ((nonced.max_fee ≤ user.last_max_fee_limit)
            × (make_room pq w b user nonced signature addr sink ≡ done r))
  unfolding submit_next
  submit_next_cases c w b user nonced signature addr sink r e = ground arith

  pub check_user_cases :
      (c : Config) (w : Answers) (b : Batcher pq) (user : UserState)
      (nonced : NoncedVerificationData) (signature : Signature) (addr sink : ℕ) (r : Reaction pq)
      → check_user pq c w b user nonced signature addr sink ≡ done r
      → (r.state ≡ b)
        ⊎ (handle_replacement_message pq c w b user addr nonced signature sink ≡ done r)
        ⊎ ((nonced.nonce ≡ user.nonce)
            × (submit_next pq c w b user nonced signature addr sink ≡ done r))
  unfolding check_user
  check_user_cases c w b user nonced signature addr sink r e = ground arith

  pub lock_user_cases :
      (c : Config) (w : Answers) (b : Batcher pq) (nonced : NoncedVerificationData)
      (signature : Signature) (addr sink : ℕ) (r : Reaction pq)
      → lock_user pq c w b nonced signature addr sink ≡ done r
      → (r.state ≡ b)
        ⊎ ((user : UserState) × (b.user_states addr ≡ some user)
            × (check_user pq c w b user nonced signature addr sink ≡ done r))
  unfolding lock_user
  lock_user_cases c w b nonced signature addr sink r e = ground arith

  pub make_room_cases :
      (w : Answers) (b : Batcher pq) (user : UserState) (nonced : NoncedVerificationData)
      (signature : Signature) (addr sink : ℕ)
      → is_queue_full pq b.batch_state ≡ false
      → make_room pq w b user nonced signature addr sink
        ≡ accept pq w b user nonced signature addr sink []
  unfolding make_room
  make_room_cases w b user nonced signature addr sink room = rw room refl

  pub find_user_cases :
      (c : Config) (w : Answers) (b : Batcher pq) (nonced : NoncedVerificationData)
      (signature : Signature) (addr sink : ℕ) (r : Reaction pq)
      → find_user pq c w b nonced signature addr sink ≡ done r
      → (r.state ≡ b)
        ⊎ (lock_user pq c w b nonced signature addr sink ≡ done r)
        ⊎ ((b.user_states addr ≡ none)
            × (lock_user pq c w
                  (with_new_user b addr (known_nonce (w.user_nonce_on_ethereum addr)))
                  nonced
                  signature
                  addr
                  sink
                ≡ done r))
  unfolding find_user with_new_user known_nonce
  find_user_cases c w b nonced signature addr sink r e = ground arith

  pub admit_cases :
      (c : Config) (w : Answers) (b : Batcher pq) (signature : Signature) (sink addr : ℕ)
      (nonced : NoncedVerificationData) (r : Reaction pq)
      → admit pq c w b signature sink (addr, nonced) ≡ done r
      → (r.state ≡ b) ⊎ (find_user pq c w b nonced signature addr sink ≡ done r)
  unfolding admit
  admit_cases c w b signature sink addr nonced r e = ground arith

  pub handle_cases :
      (c : Config) (w : Answers) (b : Batcher pq) (m : SubmitProofMessage) (sink : ℕ)
      (r : Reaction pq)
      → handle_submit_proof_msg pq c w b m sink ≡ done r
      → (r.state ≡ b)
        ⊎ ((addr : ℕ) × (validate_message c w m ≡ passes addr)
            × (payer_of c addr m.verification_data >>= admit pq c w b m.signature sink ≡ done r))
  unfolding handle_submit_proof_msg
  handle_cases c w b m sink r e = by_check (validate_message c w m) refl e
    where
      by_check :
          (x : Check ℕ)
          → validate_message c w m ≡ x
          → (elim x [
            | refuses n ↦ reply pq b sink n
            | passes addr ↦ payer_of c addr m.verification_data >>= admit pq c w b m.signature sink
          ])
            ≡ done r
          → (r.state ≡ b)
            ⊎ ((addr : ℕ) × (validate_message c w m ≡ passes addr)
                × (payer_of c addr m.verification_data >>= admit pq c w b m.signature sink
                    ≡ done r))
      by_check (refuses n) q f = inl (ap (λ (k : Reaction pq). k.state) (sym (done-injective f)))
      by_check (passes addr) q f = inr (addr, q, f)
