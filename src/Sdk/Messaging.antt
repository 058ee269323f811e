-- ===== src/Sdk/Messaging.antt =====
-- crates/sdk/src/communication: how a client sends its proofs over a websocket, and what it makes of
-- the answers. A stream is the list of what arrives before the connection ends.
pub mod Verified
use Prim.Native.String.{String}
use Prim.Native.String
use aligned_layer.Prelude.{
  ℕ, Bool, true, false, Option, none, some, List, [], ◌∷◌, ◌++◌, ltb, ◌==◌, if◌then◌else◌, Run,
  done, ◌>>=◌, unwrap, Result, ok, err, u256_add,
}
use aligned_layer.Sdk.Types.{
  VerificationData, NoncedVerificationData, Signature, SubmitProofMessage,
  VerificationDataCommitment, commitment, BatchInclusionData, SubmitProofResponseMessage,
}
use aligned_layer.Sdk.Types
use aligned_layer.Sdk.Merkle.{BatchTree}
use aligned_layer.Sdk.Errors
use aligned_layer.Sdk.Errors.{SubmitError}

infixl 65 ◌<>◌
abbrev pub ◌<>◌ : String → String → String
s <> t = String.◌++◌ s t

-- `tungstenite::Message`
pub data Message : Type 0 where
  text binary ping pong : List ℕ → Message
  close : Option String → Message

-- What the next element of a stream is: a message, or an error of the connection.
abbrev pub Stream : Type 0
Stream = List (Result Message String)

-- What a client has from outside: the serialization, its wallet, and what becomes of what it sends.
pub record Client : Type 0 where
  pub cbor_serialize : SubmitProofMessage → Result (List ℕ) String
  pub cbor_deserialize : List ℕ → Result SubmitProofResponseMessage String
  pub into_data : Message → List ℕ
  pub chain_id : ℕ
  pub sign_typed_data : NoncedVerificationData → Option Signature
  pub send : List ℕ → Result (Unit {0}) String
  pub close : Result (Unit {0}) String

-- The proofs that were sent, or the error that ended the sending.
abbrev pub Sending : Type 0
Sending = List (Result NoncedVerificationData SubmitError)

pub record AlignedVerificationData : Type 0 where
  pub verification_data_commitment : VerificationDataCommitment
  pub batch_merkle_root : List ℕ
  pub batch_inclusion_proof : List (List ℕ)
  pub index_in_batch : ℕ

-- What the client has in the end: an answer for each proof, up to the first error.
abbrev pub Received : Type 0
Received = List (Result AlignedVerificationData SubmitError)

-- `AlignedVerificationData::new`
abbrev pub new_aligned_verification_data :
    VerificationDataCommitment → BatchInclusionData → AlignedVerificationData
new_aligned_verification_data verification_data_commitment inclusion_data = record {
  verification_data_commitment = verification_data_commitment;
  batch_merkle_root = inclusion_data.batch_merkle_root;
  batch_inclusion_proof = inclusion_data.batch_inclusion_proof;
  index_in_batch = inclusion_data.index_in_batch;
}

-- `into_iter().rev()`
abbrev pub reverse_onto {ℓ} : {A : Type ℓ} → List A → List A → List A
reverse_onto [] ys = ys
reverse_onto (x ∷ xs) ys = reverse_onto xs (x ∷ ys)

-- `NoncedVerificationData::new`
abbrev pub new_nonced_verification_data : VerificationData → ℕ → ℕ → ℕ → ℕ → NoncedVerificationData
new_nonced_verification_data verification_data nonce max_fee chain_id payment_service_addr =
    record {
      verification_data = verification_data;
      nonce = nonce;
      max_fee = max_fee;
      chain_id = chain_id;
      payment_service_addr = payment_service_addr;
    }

-- The greater of the nonces; what is no proof is passed over.
abbrev pub bigger_nonce : ℕ → Result NoncedVerificationData SubmitError → ℕ
bigger_nonce biggest_nonce (err _) = biggest_nonce
bigger_nonce biggest_nonce (ok d) = if ltb biggest_nonce d.nonce then d.nonce else biggest_nonce

abbrev pub biggest_from : ℕ → Sending → ℕ
biggest_from biggest_nonce [] = biggest_nonce
biggest_from biggest_nonce (d ∷ ds) = biggest_from (bigger_nonce biggest_nonce d) ds

unfoldable pub get_biggest_nonce : Sending → ℕ
get_biggest_nonce sent_verification_data = biggest_from 0 sent_verification_data

abbrev pub has_nonce : ℕ → Result NoncedVerificationData SubmitError → Option NoncedVerificationData
has_nonce nonce (err _) = none
has_nonce nonce (ok d) = if d.nonce == nonce then some d else none

-- The element of the list at hand, if no later one has the nonce.
abbrev pub taken_here :
    Option NoncedVerificationData → Sending → Option (NoncedVerificationData × Sending)
taken_here none ds = none
taken_here (some found) ds = some (found, ds)

abbrev pub taken_from :
    ℕ
    → Result NoncedVerificationData SubmitError
    → Sending
    → Option (NoncedVerificationData × Sending)
    → Option (NoncedVerificationData × Sending)
taken_from nonce d ds (some (found, rest)) = some (found, d ∷ rest)
taken_from nonce d ds none = taken_here (has_nonce nonce d) ds

-- The last proof of the list with this nonce, and the list without it.
unfoldable pub take_last : ℕ → Sending → Option (NoncedVerificationData × Sending)
take_last nonce [] = none
take_last nonce (d ∷ ds) = taken_from nonce d ds (take_last nonce ds)

-- The error that an answer stands for.
unfoldable pub handle_response :
    Result SubmitProofResponseMessage String → Result BatchInclusionData SubmitError
handle_response (ok (Types.batch_inclusion_data batch_inclusion_data)) = ok batch_inclusion_data
handle_response (ok Types.invalid_nonce) = err Errors.invalid_nonce
handle_response (ok Types.invalid_signature) = err Errors.invalid_signature
handle_response (ok Types.proof_too_large) = err Errors.proof_too_large
handle_response (ok Types.invalid_max_fee) = err Errors.invalid_max_fee
handle_response (ok (Types.insufficient_balance addr)) = err (Errors.insufficient_balance addr)
handle_response (ok Types.invalid_chain_id) = err Errors.invalid_chain_id
handle_response (ok Types.invalid_replacement_message) = err Errors.invalid_replacement_message
handle_response (ok Types.add_to_batch_error) = err Errors.add_to_batch_error
handle_response (ok Types.eth_rpc_error) = err (
    Errors.ethereum_provider_error
      "Batcher experienced Eth RPC connection error. Funds have not been spent.")
handle_response (ok (Types.invalid_payment_service_address received_addr expected_addr)) =
    err (Errors.invalid_payment_service_address received_addr expected_addr)
handle_response (ok (Types.invalid_proof reason)) = err (Errors.invalid_proof reason)
handle_response (ok (Types.create_new_task_error merkle_root error)) = err (
    Errors.batch_submission_failed (
      "Could not create task with merkle root " <> merkle_root <> ", failed with error: " <> error))
handle_response (ok (Types.protocol_version _)) = err (
    Errors.unexpected_batcher_response
      "Batcher responded with protocol version instead of batch inclusion data. Funds have not been spent.")
handle_response (ok Types.batch_reset) = err Errors.proof_queue_flushed
handle_response (ok (Types.error e)) = err (Errors.generic_error e)
handle_response (ok Types.underpriced_proof) = err Errors.invalid_max_fee
handle_response (ok Types.server_busy) =
    err (Errors.generic_error "Server is busy processing requests, please retry")
handle_response (ok Types.user_funds_unlocked) = err Errors.user_funds_unlocked
handle_response (ok Types.proof_replaced) = err Errors.proof_replaced
handle_response (err e) = err (Errors.serialization_error e)

-- `is_binary() || is_close()`
abbrev pub is_response : Result Message String → Bool
is_response (ok (binary _)) = true
is_response (ok (close _)) = true
is_response (ok _) = false
is_response (err _) = true

-- The hash function and the tree are those of the batcher.
module _ (keccak256 : List ℕ → List ℕ) (tree : BatchTree keccak256) (cl : Client) where
  -- One turn of the loop for each proof.
  unfoldable pub send_loop : ℕ → ℕ → Sending → ℕ → List VerificationData → Run Sending
  send_loop payment_service_addr max_fee sent nonce [] = done (reverse_onto sent [])
  send_loop payment_service_addr max_fee sent nonce (verification_data_i ∷ rest) =
      let verification_data =
        new_nonced_verification_data verification_data_i nonce max_fee cl.chain_id
          payment_service_addr in
      u256_add nonce 1 >>= λ next_nonce.
      unwrap (cl.sign_typed_data verification_data) >>= λ signature.
      elim (cl.cbor_serialize
        (record { verification_data = verification_data; signature = signature })) [
          | err e ↦ done (sent ++ err (Errors.serialization_error e) ∷ [])
          | ok msg_bin ↦ elim (cl.send msg_bin) [
            | err e ↦ done (sent ++ err (Errors.websocket_connection_error e) ∷ [])
            | ok _ ↦
                send_loop payment_service_addr max_fee (sent ++ ok verification_data ∷ [])
                  next_nonce rest
          ]
        ]

  unfoldable pub send_messages : ℕ → List VerificationData → ℕ → ℕ → Run Sending
  send_messages payment_service_addr verification_data max_fee nonce =
      send_loop payment_service_addr max_fee [] nonce verification_data

  unfoldable pub handle_batcher_response : Message → Result BatchInclusionData SubmitError
  handle_batcher_response msg = handle_response (cl.cbor_deserialize (cl.into_data msg))

  -- The commitment of the proof, and the proofs that are still waited for.
  abbrev pub matched :
      Option (NoncedVerificationData × Sending)
      → Result (VerificationDataCommitment × Sending) SubmitError
  matched none = err Errors.invalid_proof_inclusion_data
  matched (some (found, rest)) = ok (commitment keccak256 found.verification_data, rest)

  unfoldable pub match_batcher_response_with_stored_verification_data :
      BatchInclusionData → Sending → Result (VerificationDataCommitment × Sending) SubmitError
  match_batcher_response_with_stored_verification_data batch_inclusion_data sent =
      matched (take_last batch_inclusion_data.user_nonce sent)

  unfoldable pub verify_proof_inclusion : VerificationDataCommitment → BatchInclusionData → Bool
  verify_proof_inclusion verification_data_commitment d =
      tree.verify d.batch_inclusion_proof d.batch_merkle_root d.index_in_batch
        verification_data_commitment

  unfoldable pub process_batcher_response :
      BatchInclusionData → VerificationDataCommitment → Result AlignedVerificationData SubmitError
  process_batcher_response batch_inclusion_data verification_data_commitment =
      if verify_proof_inclusion verification_data_commitment batch_inclusion_data
      then ok (new_aligned_verification_data verification_data_commitment batch_inclusion_data)
      else err Errors.invalid_proof_inclusion_data

  -- What a turn of the loop leaves: the result that is pushed, and the list unless it breaks.
  abbrev pub Turn : Type 0
  Turn = Result AlignedVerificationData SubmitError × Option Sending

  abbrev pub after_process :
      ℕ → BatchInclusionData → Sending → Result AlignedVerificationData SubmitError → Turn
  after_process last_proof_nonce d rest (err e) = (err e, none)
  after_process last_proof_nonce d rest (ok aligned) =
      (ok aligned, if d.user_nonce == last_proof_nonce then none else some rest)

  abbrev pub after_match :
      ℕ → BatchInclusionData → Result (VerificationDataCommitment × Sending) SubmitError → Turn
  after_match last_proof_nonce d (err e) = (err e, none)
  after_match last_proof_nonce d (ok (related_verification_data, rest)) =
      after_process last_proof_nonce d rest (process_batcher_response d related_verification_data)

  abbrev pub after_response : ℕ → Sending → Result BatchInclusionData SubmitError → Turn
  after_response last_proof_nonce sent (err e) = (err e, none)
  after_response last_proof_nonce sent (ok d) =
      after_match last_proof_nonce d (match_batcher_response_with_stored_verification_data d sent)

  abbrev pub turn : ℕ → Message → Sending → Turn
  turn last_proof_nonce (close (some close_msg)) sent =
      (err (Errors.websocket_closed_unexpectedly_error close_msg), none)
  turn last_proof_nonce (close none) sent = (
    err (
        Errors.generic_error "Connection was closed before receive() processed all sent messages "),
    none,
  )
  turn last_proof_nonce msg sent =
      after_response last_proof_nonce sent (handle_batcher_response msg)

  -- The result is pushed, and the loop breaks or goes on.
  abbrev pub pushed : (Sending → Received) → Turn → Received
  pushed continue (result, none) = result ∷ []
  pushed continue (result, some rest) = result ∷ continue rest

  unfoldable pub receive_loop : ℕ → Stream → Sending → Received
  receive_loop last_proof_nonce [] sent = []
  receive_loop last_proof_nonce (err _ ∷ stream) sent = []
  receive_loop last_proof_nonce (ok msg ∷ stream) sent =
      pushed (receive_loop last_proof_nonce stream) (turn last_proof_nonce msg sent)

  unfoldable pub receive : Stream → Sending → Received
  receive stream sent_verification_data_rev =
      receive_loop (get_biggest_nonce sent_verification_data_rev) stream sent_verification_data_rev
