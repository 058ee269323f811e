-- ===== src/Batcher/Submit/Safety.antt =====
-- What a message must satisfy before `handle_submit_proof_msg` changes the queue.
use aligned_layer.Prelude.{
  ℕ, ◌+◌, ◌≤◌, ◌≡◌, ◌⊎◌, ap, subst, inl, inr, Bool, true, false, Option, none, some, arith, leb,
  done, >>=-eq-done, eqb→eq,
}
use aligned_layer.Sdk.Types.{
  NoncedVerificationData, SubmitProofMessage, Signature, VerificationData, cbor_size_upper_bound,
}
use aligned_layer.Batcher.Queue.{BatchQueue, BatchQueueEntry}
use aligned_layer.Batcher.State.{UserState, Config, Answers, Batcher, BatchState, Reaction}
use aligned_layer.Batcher.Checks.{
  passes, refuses, validate_message, msg_user_balance_is_locked, msg_covers_minimum_max_fee,
  msg_chain_id_is_valid, msg_batcher_payment_addr_is_valid, msg_proof_size_is_valid,
  msg_signature_is_valid, verify_user_has_enough_balance, verify_proof_if_enabled,
}
use aligned_layer.Batcher.Replace.{replace_found}
use aligned_layer.Batcher.Accounts.{fees_of, UserMatches, IsSound}
use aligned_layer.Batcher.Submit.{
  payer_of, submit_next, check_user, lock_user, find_user, admit, handle_submit_proof_msg,
}
use aligned_layer.Batcher.Submit.Handler.{with_new_user-IsSound}
use aligned_layer.Batcher.Submit.Cases.{
  replacement_cases, check_user_cases, lock_user_cases, find_user_cases, admit_cases, handle_cases,
  with_new_user, known_nonce,
}

-- The balance is known and pays the amount.
abbrev pub is_covered : Option ℕ → ℕ → Bool
is_covered none amount = false
is_covered (some balance) amount = leb amount balance

-- The proof is verified beforehand, unless the batcher leaves that to the operators.
abbrev pub is_verified : Config → Answers → ℕ → VerificationData → Bool
is_verified c w disabled_verifiers vd = elim (verify_proof_if_enabled c w disabled_verifiers vd) [
  | passes _ ↦ true
  | refuses _ ↦ false
]

-- The message `m` is one for the batcher `b`: it is meant for this chain and this contract, it is
-- not too large and it is signed; the payer offers the least fee, and has locked funds that cover
-- all fees of the payer's proofs in the queue; and the proof is verified.
pub record IsAdmitted (pq : BatchQueue) (c : Config) (w : Answers) (b : Batcher pq)
    (m : SubmitProofMessage) : Type 0 where
  pub chain_id : m.verification_data.chain_id ≡ c.chain_id
  pub payment_service_addr : m.verification_data.payment_service_addr ≡ c.payment_service_addr
  pub size : cbor_size_upper_bound m.verification_data ≤ c.max_proof_size
  pub addr : ℕ
  pub signer : w.signer m.verification_data m.signature ≡ some addr
  pub payer : ℕ
  pub nonced : NoncedVerificationData
  pub pays : payer_of c addr m.verification_data ≡ done (payer, nonced)
  pub min_max_fee : b.current_min_max_fee ≤ nonced.max_fee
  pub funds_locked : w.balance_is_unlocked payer ≡ false
  pub funds :
      is_covered
        (w.user_balance payer)
        (fees_of payer (pq.iter b.batch_state.batch_queue) + nonced.max_fee)
      ≡ true
  pub verified : is_verified c w b.disabled_verifiers nonced.verification_data ≡ true

validate_message_passes :
    (c : Config) (w : Answers) (m : SubmitProofMessage) (addr : ℕ)
    → validate_message c w m ≡ passes addr
    → (m.verification_data.chain_id ≡ c.chain_id)
      × (m.verification_data.payment_service_addr ≡ c.payment_service_addr)
      × (cbor_size_upper_bound m.verification_data ≤ c.max_proof_size)
      × (w.signer m.verification_data m.signature ≡ some addr)
unfolding validate_message msg_chain_id_is_valid msg_batcher_payment_addr_is_valid
    msg_proof_size_is_valid msg_signature_is_valid
validate_message_passes c w m addr e = ground (
  arith,
  eqb→eq m.verification_data.chain_id c.chain_id,
  eqb→eq m.verification_data.payment_service_addr c.payment_service_addr,
)

module _ (pq : BatchQueue) where
  open pq use {iter}

  abbrev queue_of : Batcher pq → BatchState pq
  queue_of b = b.batch_state

  -- The balance covers the fees in the queue with the new one, and the proof is verified.
  abbrev IsPaid : Config → Answers → Batcher pq → NoncedVerificationData → ℕ → Type 0
  IsPaid c w b nonced payer =
      (is_covered (w.user_balance payer)
          (fees_of payer (iter b.batch_state.batch_queue) + nonced.max_fee)
        ≡ true)
      × (is_verified c w b.disabled_verifiers nonced.verification_data ≡ true)

  replace_found_verified :
      (c : Config) (w : Answers) (b : Batcher pq) (user : UserState) (entry : BatchQueueEntry)
      (nonced : NoncedVerificationData) (signature : Signature) (sink : ℕ) (r : Reaction pq)
      → replace_found pq c w b user entry nonced signature sink ≡ done r
      → (r.state ≡ b) ⊎ (is_verified c w b.disabled_verifiers nonced.verification_data ≡ true)
  unfolding replace_found
  replace_found_verified c w b user entry nonced signature sink r e = ground arith

  submit_next_verified :
      (c : Config) (w : Answers) (b : Batcher pq) (user : UserState)
      (nonced : NoncedVerificationData) (signature : Signature) (addr sink : ℕ) (r : Reaction pq)
      → submit_next pq c w b user nonced signature addr sink ≡ done r
      → (r.state ≡ b) ⊎ (is_verified c w b.disabled_verifiers nonced.verification_data ≡ true)
  unfolding submit_next
  submit_next_verified c w b user nonced signature addr sink r e = ground arith

  check_user_covered :
      (c : Config) (w : Answers) (b : Batcher pq) (user : UserState)
      (nonced : NoncedVerificationData) (signature : Signature) (addr sink : ℕ) (r : Reaction pq)
      → check_user pq c w b user nonced signature addr sink ≡ done r
      → (r.state ≡ b)
        ⊎ (is_covered (w.user_balance addr) (user.total_fees_in_queue + nonced.max_fee) ≡ true)
  unfolding check_user verify_user_has_enough_balance
  check_user_covered c w b user nonced signature addr sink r e = ground arith

  -- The checks against the user's state.
  check_user-safe :
      (c : Config) (w : Answers) (b : Batcher pq) (user : UserState)
      (nonced : NoncedVerificationData) (signature : Signature) (addr sink : ℕ) (r : Reaction pq)
      → check_user pq c w b user nonced signature addr sink ≡ done r
      → (r.state ≡ b)
        ⊎ ((is_covered (w.user_balance addr) (user.total_fees_in_queue + nonced.max_fee) ≡ true)
            × (is_verified c w b.disabled_verifiers nonced.verification_data ≡ true))
  check_user-safe c w b user nonced signature addr sink r e =
      elim (check_user_covered c w b user nonced signature addr sink r e) [
        | inl same ↦ inl same
        | inr covered ↦ elim (check_user_cases pq c w b user nonced signature addr sink r e) [
          | inl same ↦ inl same
          | inr (inr (_, e')) ↦
              elim (submit_next_verified c w b user nonced signature addr sink r e') [
                | inl same ↦ inl same
                | inr verified ↦ inr (covered, verified)
              ]
          | inr (inl e') ↦ elim (replacement_cases pq c w b user addr nonced signature sink r e') [
            | inl same ↦ inl same
            | inr (entry, _, e'') ↦
                elim (replace_found_verified c w b user entry nonced signature sink r e'') [
                  | inl same ↦ inl same
                  | inr verified ↦ inr (covered, verified)
                ]
          ]
        ]
      ]

  lock_user-safe :
      (c : Config) (w : Answers) (b : Batcher pq) (nonced : NoncedVerificationData)
      (signature : Signature) (addr sink : ℕ) (r : Reaction pq)
      → IsSound pq b
      → lock_user pq c w b nonced signature addr sink ≡ done r
      → (r.state ≡ b) ⊎ IsPaid c w b nonced addr
  lock_user-safe c w b nonced signature addr sink r h e =
      elim (lock_user_cases pq c w b nonced signature addr sink r e) [
        | inl same ↦ inl same
        | inr (user, known, e') ↦
            elim (check_user-safe c w b user nonced signature addr sink r e') [
              | inl same ↦ inl same
              | inr (covered, verified) ↦ inr (
                subst (λ n. is_covered (w.user_balance addr) (n + nonced.max_fee) ≡ true)
                    (subst (UserMatches addr (iter b.batch_state.batch_queue)) known
                      (h.users_match addr)).total_fees
                    covered,
                verified,
              )
            ]
      ]

  find_user-safe :
      (c : Config) (w : Answers) (b : Batcher pq) (nonced : NoncedVerificationData)
      (signature : Signature) (addr sink : ℕ) (r : Reaction pq)
      → IsSound pq b
      → find_user pq c w b nonced signature addr sink ≡ done r
      → (r.state.batch_state ≡ b.batch_state) ⊎ IsPaid c w b nonced addr
  unfolding with_new_user
  find_user-safe c w b nonced signature addr sink r h e =
      elim (find_user_cases pq c w b nonced signature addr sink r e) [
        | inl same ↦ inl (ap queue_of same)
        | inr (inl e') ↦ elim (lock_user-safe c w b nonced signature addr sink r h e') [
          | inl same ↦ inl (ap queue_of same)
          | inr paid ↦ inr paid
        ]
        | inr (inr (missing, e')) ↦
            let nonce = known_nonce (w.user_nonce_on_ethereum addr) in
            elim (lock_user-safe c w (with_new_user pq b addr nonce) nonced signature addr sink r
              (with_new_user-IsSound pq b addr nonce h missing) e') [
                | inl same ↦ inl (ap queue_of same)
                | inr paid ↦ inr paid
              ]
      ]

  admit-locked :
      (c : Config) (w : Answers) (b : Batcher pq) (signature : Signature) (sink addr : ℕ)
      (nonced : NoncedVerificationData) (r : Reaction pq)
      → admit pq c w b signature sink (addr, nonced) ≡ done r
      → (r.state ≡ b)
        ⊎ ((b.current_min_max_fee ≤ nonced.max_fee) × (w.balance_is_unlocked addr ≡ false))
  unfolding admit msg_covers_minimum_max_fee msg_user_balance_is_locked
  admit-locked c w b signature sink addr nonced r e = ground arith

  -- If the books agree with the queue and the handler returns, then it leaves the queue as it
  -- was or the message is admitted.
  pub handle_submit_proof_msg-IsAdmitted :
      (c : Config) (w : Answers) (b : Batcher pq) (m : SubmitProofMessage) (sink : ℕ)
      {r : Reaction pq}
      → IsSound pq b
      → handle_submit_proof_msg pq c w b m sink ≡ done r
      → (r.state.batch_state ≡ b.batch_state) ⊎ IsAdmitted pq c w b m
  handle_submit_proof_msg-IsAdmitted c w b m sink {r} h e =
      elim (handle_cases pq c w b m sink r e) [
        | inl same ↦ inl (ap queue_of same)
        | inr (addr, valid, e') ↦
            let ((payer, nonced), pays, admitted) =
              >>=-eq-done (payer_of c addr m.verification_data) _ e' in
            elim (admit-locked c w b m.signature sink payer nonced r admitted) [
              | inl same ↦ inl (ap queue_of same)
              | inr (least, locked) ↦
                  elim (admit_cases pq c w b m.signature sink payer nonced r admitted) [
                    | inl same ↦ inl (ap queue_of same)
                    | inr found ↦
                        elim (find_user-safe c w b nonced m.signature payer sink r h found) [
                          | inl same ↦ inl same
                          | inr (covered, verified) ↦
                              let (chain, contract, size, signer) =
                                validate_message_passes c w m addr valid in
                              inr (record {
                                chain_id = chain;
                                payment_service_addr = contract;
                                size = size;
                                addr = addr;
                                signer = signer;
                                payer = payer;
                                nonced = nonced;
                                pays = pays;
                                min_max_fee = least;
                                funds_locked = locked;
                                funds = covered;
                                verified = verified;
                              })
                        ]
                  ]
            ]
      ]
