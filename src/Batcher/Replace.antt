-- ===== src/Batcher/Replace.antt =====
-- `handle_replacement_message`, lib.rs: a pending proof is replaced by one with a higher fee. The
-- caller holds the lock of the user's state, and the task takes that of the batch.
use aligned_layer.Prelude.{
  ℕ, ◌/◌, Option, none, some, List, [], ◌∷◌, ◌++◌, ltb, if◌then◌else◌, Run, done, ◌>>=◌, u256_add,
  u256_sub, u256_mul,
}
use aligned_layer.Sdk.Types.{
  NoncedVerificationData, Signature, commitment, SubmitProofResponseMessage, server_busy,
  invalid_nonce, underpriced_proof, invalid_replacement_message, proof_replaced,
}
use aligned_layer.Batcher.Queue.{BatchQueue, BatchQueueEntry, fee_of}
use aligned_layer.Batcher.State.{
  UserState, insert_user, Config, Answers, Sent, Batcher, Reaction, reply, get_entry,
  get_user_min_fee_in_batch, replacement_entry_is_valid, set_queue,
}
use aligned_layer.Batcher.Checks.{passes, refuses, verify_proof_if_enabled}

-- The lowest fee that replaces `original_max_fee`.
unfoldable pub min_bump : Config → ℕ → Run ℕ
min_bump c original_max_fee = do
  scaled ← u256_mul original_max_fee c.min_bump_percentage
  u256_add original_max_fee (scaled / 100)

-- The entry that takes the place of `entry`.
abbrev pub replacement_of :
    Answers → BatchQueueEntry → NoncedVerificationData → Signature → ℕ → BatchQueueEntry
replacement_of w entry nonced signature sink = record {
  nonced_verification_data = nonced;
  verification_data_commitment = commitment w.keccak256 nonced.verification_data;
  messaging_sink = some sink;
  signature = signature;
  sender = entry.sender;
}

-- The client of the old entry is told of its replacement.
abbrev pub tell : Option ℕ → SubmitProofResponseMessage → List Sent
tell none m = []
tell (some sink) m = (sink, m) ∷ []

module _ (pq : BatchQueue) where
  open pq use {push, remove}

  -- The old entry goes, the new one comes, and the user's state follows the queue.
  unfoldable pub replace_entry :
      Batcher pq → UserState → BatchQueueEntry → BatchQueueEntry → List Sent → Run (Reaction pq)
  replace_entry b user entry replacement sent =
      let removed = (remove b.batch_state.batch_queue replacement).1 in
      let max_fee = fee_of replacement in
      let queue =
        push removed replacement
          (record { max_fee = max_fee; nonce = replacement.nonced_verification_data.nonce }) in
      let b' = set_queue pq b queue in
      let limit = get_user_min_fee_in_batch pq b'.batch_state replacement.sender in
      do
        fee_difference ← u256_sub max_fee (fee_of entry)
        fees ← u256_add user.total_fees_in_queue fee_difference
        done (record {
          state = record b' {
            user_states =
                insert_user replacement.sender
                  (record user { last_max_fee_limit = limit; total_fees_in_queue = fees })
                  b.user_states;
          };
          sent = sent;
        })

  -- The entry is found and the fee is high enough.
  unfoldable pub replace_found :
      Config
      → Answers
      → Batcher pq
      → UserState
      → BatchQueueEntry
      → NoncedVerificationData
      → Signature
      → ℕ
      → Run (Reaction pq)
  replace_found c w b user entry nonced signature sink =
      elim (verify_proof_if_enabled c w b.disabled_verifiers nonced.verification_data) [
        | refuses m ↦ reply pq b sink m
        | passes _ ↦
            let replacement = replacement_of w entry nonced signature sink in
            let told = tell entry.messaging_sink proof_replaced in
            if replacement_entry_is_valid pq b.batch_state replacement
            then replace_entry b user entry replacement told
            else done
                (record { state = b; sent = told ++ (sink, invalid_replacement_message) ∷ [] })
      ]

  unfoldable pub handle_replacement_message :
      Config
      → Answers
      → Batcher pq
      → UserState
      → ℕ
      → NoncedVerificationData
      → Signature
      → ℕ
      → Run (Reaction pq)
  handle_replacement_message c w b user addr nonced signature sink =
      if w.batch_lock_in_time
      then elim (get_entry pq b.batch_state addr nonced.nonce) [
        | none ↦ reply pq b sink invalid_nonce
        | some entry ↦ do
          least ← min_bump c (fee_of entry)
          if ltb nonced.max_fee least
              then reply pq b sink underpriced_proof
              else replace_found c w b user entry nonced signature sink
      ]
      else reply pq b sink server_busy
