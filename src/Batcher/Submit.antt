-- ===== src/Batcher/Submit.antt =====
-- `handle_submit_proof_msg`, lib.rs, in its phases: the checks of the message, the state of the
-- user, the checks against that state, room in the queue, and the new entry.

pub mod Accept
pub mod Replaced
pub mod Cases
pub mod Handler
pub mod Safety
pub mod Returns
pub mod Endings
pub mod Answered
use aligned_layer.Prelude.{
  ℕ, ◌+◌, ◌*◌, ◌≡◌, Bool, true, false, Option, none, some, List, [], ◌∷◌, ◌++◌, ltb, leb, ◌==◌,
  if◌then◌else◌, Run, done, panic, ◌>>=◌, unwrap, u256_add, usize_add,
}
use aligned_layer.Sdk.Constants.{default_max_fee_per_proof}
use aligned_layer.Sdk.Types.{
  NoncedVerificationData, SubmitProofMessage, Signature, commitment, SubmitProofResponseMessage,
  server_busy, eth_rpc_error, insufficient_balance, invalid_nonce, invalid_max_fee,
  underpriced_proof, add_to_batch_error,
}
use aligned_layer.PriorityQueue.{PriorityQueue}
use aligned_layer.Batcher.Queue.{BatchQueue, new_entry, priority_of}
use aligned_layer.Batcher.State.{
  UserState, new_user_state, insert_user, Config, has_to_pay, get_nonpaying_replacement_addr,
  Answers, Sent, Batcher, BatchState, Reaction, reply, is_queue_full, set_queue,
}
use aligned_layer.Batcher.Checks.{
  Check, passes, refuses, validate_message, msg_covers_minimum_max_fee, msg_user_balance_is_locked,
  verify_user_has_enough_balance, verify_proof_if_enabled,
}
use aligned_layer.Batcher.Replace.{handle_replacement_message}
use aligned_layer.Batcher.Evict.{evict, eviction_candidates}

-- Who pays, and for which data: the fee of one who need not pay is set to a high value.
unfoldable pub payer_of : Config → ℕ → NoncedVerificationData → Run (ℕ × NoncedVerificationData)
payer_of c addr_in_msg nonced =
    if has_to_pay c addr_in_msg
    then done (addr_in_msg, nonced)
    else (unwrap (get_nonpaying_replacement_addr c) >>= λ addr.
        done (addr, record nonced { max_fee = default_max_fee_per_proof * 100 }))

-- The user's state once a proof is in the queue.
unfoldable pub with_proof : UserState → NoncedVerificationData → Run UserState
with_proof user nonced = do
  nonce ← u256_add nonced.nonce 1
  fees ← u256_add user.total_fees_in_queue nonced.max_fee
  done (record {
    nonce = nonce;
    last_max_fee_limit = nonced.max_fee;
    total_fees_in_queue = fees;
    proofs_in_batch = usize_add user.proofs_in_batch 1;
  })

module _ (pq : BatchQueue) where
  open pq use {push, iter}

  -- `add_to_batch`; the size of the batch is computed for the metrics, and never fails.
  unfoldable pub add_to_batch :
      Answers → Batcher pq → NoncedVerificationData → Signature → ℕ → ℕ → Batcher pq
  add_to_batch w b nonced signature addr sink =
      let entry =
        new_entry nonced (commitment w.keccak256 nonced.verification_data) sink signature addr in
      set_queue pq b (push b.batch_state.batch_queue entry (priority_of entry))

  -- The last phase: the entry is added, and the user's state follows.
  unfoldable pub accept :
      Answers
      → Batcher pq
      → UserState
      → NoncedVerificationData
      → Signature
      → ℕ
      → ℕ
      → List Sent
      → Run (Reaction pq)
  unfolding add_to_batch with_proof
  accept w b user nonced signature addr sink sent =
      let b' = add_to_batch w b nonced signature addr sink in
      with_proof user nonced >>= λ user'. done (record {
        state = record b' { user_states = insert_user addr user' b'.user_states };
        sent = sent;
      })

  -- Room in the queue, by an eviction if it is full.
  unfoldable pub make_room :
      Answers
      → Batcher pq
      → UserState
      → NoncedVerificationData
      → Signature
      → ℕ
      → ℕ
      → Run (Reaction pq)
  make_room w b user nonced signature addr sink =
      if is_queue_full pq b.batch_state
      then (evict pq w b addr nonced.max_fee
            (eviction_candidates nonced.max_fee (iter b.batch_state.batch_queue))
          >>= λ evicted. elim evicted [
            | none ↦ reply pq b sink underpriced_proof
            | some r ↦ accept w r.state user nonced signature addr sink r.sent
          ])
      else accept w b user nonced signature addr sink []

  -- A message with the nonce that is expected.
  unfoldable pub submit_next :
      Config
      → Answers
      → Batcher pq
      → UserState
      → NoncedVerificationData
      → Signature
      → ℕ
      → ℕ
      → Run (Reaction pq)
  submit_next c w b user nonced signature addr sink =
      if ltb user.last_max_fee_limit nonced.max_fee
      then reply pq b sink invalid_max_fee
      else elim (verify_proof_if_enabled c w b.disabled_verifiers nonced.verification_data) [
        | refuses m ↦ reply pq b sink m
        | passes _ ↦
            if w.batch_lock_in_time
            then make_room w b user nonced signature addr sink
            else reply pq b sink server_busy
      ]

  -- The checks against the state of the user, whose lock is held.
  unfoldable pub check_user :
      Config
      → Answers
      → Batcher pq
      → UserState
      → NoncedVerificationData
      → Signature
      → ℕ
      → ℕ
      → Run (Reaction pq)
  check_user c w b user nonced signature addr sink = elim (w.user_balance addr) [
    | none ↦ reply pq b sink eth_rpc_error
    | some balance ↦ do
      enough ← verify_user_has_enough_balance balance user.total_fees_in_queue nonced.max_fee
      if enough
          then (if ltb user.nonce nonced.nonce
              then reply pq b sink invalid_nonce
              else (if ltb nonced.nonce user.nonce
                  then handle_replacement_message pq c w b user addr nonced signature sink
                  else submit_next c w b user nonced signature addr sink))
          else reply pq b sink (insufficient_balance addr)
  ]

  -- The state of the user is looked up again once it is known to be there.
  unfoldable pub lock_user :
      Config → Answers → Batcher pq → NoncedVerificationData → Signature → ℕ → ℕ → Run (Reaction pq)
  lock_user c w b nonced signature addr sink =
      if w.get_user_in_time
      then elim (b.user_states addr) [
        | none ↦ reply pq b sink add_to_batch_error
        | some user ↦
            if w.user_lock_in_time
            then check_user c w b user nonced signature addr sink
            else reply pq b sink server_busy
      ]
      else reply pq b sink server_busy

  -- A user without a state gets one with the nonce that Ethereum knows.
  unfoldable pub find_user :
      Config → Answers → Batcher pq → NoncedVerificationData → Signature → ℕ → ℕ → Run (Reaction pq)
  find_user c w b nonced signature addr sink =
      if w.check_user_in_time
      then elim (b.user_states addr) [
        | some user ↦ lock_user c w b nonced signature addr sink
        | none ↦ elim (w.user_nonce_on_ethereum addr) [
          | none ↦ reply pq b sink eth_rpc_error
          | some nonce ↦
              if w.insert_user_in_time
              then lock_user c w
                  (record b { user_states = insert_user addr (new_user_state nonce) b.user_states })
                  nonced signature addr sink
              else reply pq b sink server_busy
        ]
      ]
      else reply pq b sink server_busy

  -- The checks once it is known who pays.
  unfoldable pub admit :
      Config → Answers → Batcher pq → Signature → ℕ → ℕ × NoncedVerificationData → Run (Reaction pq)
  admit c w b signature sink (addr, nonced) =
      if msg_covers_minimum_max_fee b.current_min_max_fee nonced.max_fee
      then elim (msg_user_balance_is_locked w addr) [
        | refuses m ↦ reply pq b sink m
        | passes _ ↦ find_user c w b nonced signature addr sink
      ]
      else reply pq b sink underpriced_proof

  unfoldable pub handle_submit_proof_msg :
      Config → Answers → Batcher pq → SubmitProofMessage → ℕ → Run (Reaction pq)
  handle_submit_proof_msg c w b client_msg sink = elim (validate_message c w client_msg) [
    | refuses m ↦ reply pq b sink m
    | passes addr_in_msg ↦
        payer_of c addr_in_msg client_msg.verification_data
        >>= admit c w b client_msg.signature sink
  ]
