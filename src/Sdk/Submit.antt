-- ===== src/Sdk/Submit.antt =====
-- crates/sdk/src: `submit_multiple` and what it is made of (verification_layer/mod.rs), the protocol
-- version (communication/protocol.rs) and the wait for a verification (communication/batch.rs).
pub mod Waiting
use Prim.Native.String.{String}
use aligned_layer.Prelude.{
  ℕ, suc, ◌*◌, Bool, false, Option, none, some, List, [], ◌∷◌, ◌++◌, ltb, keep, length,
  if◌then◌else◌, Run, done, ◌>>=◌, Result, ok, err,
}
use aligned_layer.Sdk.Constants.{instant_max_fee_batch_size, default_max_fee_batch_size}
use aligned_layer.Sdk.Types.{VerificationData, SubmitProofResponseMessage, protocol_version}
use aligned_layer.Sdk.Merkle.{BatchTree}
use aligned_layer.Sdk.Errors.{
  SubmitError, protocol_version_mismatch, unexpected_batcher_response, serialization_error,
  missing_required_parameter, generic_error, websocket_connection_error, batch_verification_timeout,
}
use aligned_layer.Sdk.Fees.{calculate_fee_per_proof_with_gas_price}
use aligned_layer.Sdk.Messaging.{
  Message, Stream, Client, Received, AlignedVerificationData, is_response, send_messages, receive,
}

abbrev pub expected_protocol_version : ℕ
expected_protocol_version = 4

-- The first message, if there is one.
abbrev pub first_message : Stream → Option Message
first_message [] = none
first_message (err _ ∷ stream) = none
first_message (ok msg ∷ stream) = some msg

abbrev pub rest_of : Stream → Stream
rest_of [] = []
rest_of (_ ∷ stream) = stream

-- What the version message says.
abbrev pub checked_version :
    Result SubmitProofResponseMessage String → Result (Unit {0}) SubmitError
checked_version (ok (protocol_version version)) =
    if ltb expected_protocol_version version
    then err (protocol_version_mismatch version expected_protocol_version)
    else ok tt
checked_version (ok _) =
    err (unexpected_batcher_response "Batcher did not respond with the protocol version")
checked_version (err e) = err (serialization_error e)

unfoldable pub check_protocol_version : Client → Stream → Result (Unit {0}) SubmitError
check_protocol_version cl ws_read = elim (first_message ws_read) [
  | none ↦ err (unexpected_batcher_response "Batcher did not respond with the protocol version")
  | some msg ↦ checked_version (cl.cbor_deserialize (cl.into_data msg))
]

module _ (keccak256 : List ℕ → List ℕ) (tree : BatchTree keccak256) (cl : Client) where
  -- After the answers: the connection is closed.
  abbrev pub closing : Received → Result (Unit {0}) String → Received
  closing result (ok _) = result
  closing result (err e) = err (generic_error e) ∷ []

  abbrev pub checked_submission :
      ℕ → Stream → List VerificationData → ℕ → ℕ → Result (Unit {0}) SubmitError → Run (Received)
  checked_submission payment_service_addr ws_read verification_data max_fee nonce (err e) =
      done (err e ∷ [])
  checked_submission payment_service_addr ws_read [] max_fee nonce (ok _) =
      done (err (missing_required_parameter "verification_data") ∷ [])
  checked_submission payment_service_addr ws_read (d ∷ ds) max_fee nonce (ok _) =
      if ltb 10000 (length (d ∷ ds))
      then done (err (generic_error "Trying to submit too many proofs at once") ∷ [])
      else send_messages keccak256 tree cl payment_service_addr (d ∷ ds) max_fee nonce >>= λ sent.
          done
            (closing (receive keccak256 tree cl (keep is_response (rest_of ws_read)) sent) cl.close)

  -- `_submit_multiple`, on an open connection.
  unfoldable pub submit_on_connection : ℕ → Stream → List VerificationData → ℕ → ℕ → Run (Received)
  submit_on_connection payment_service_addr ws_read verification_data max_fee nonce =
      checked_submission payment_service_addr ws_read verification_data max_fee nonce
        (check_protocol_version cl ws_read)

  -- The connection is that of `connect_async`.
  unfoldable pub submit_multiple :
      Result Stream String → ℕ → List VerificationData → ℕ → ℕ → Run (Received)
  submit_multiple (err e) payment_service_addr verification_data max_fee nonce =
      done (err (websocket_connection_error e) ∷ [])
  submit_multiple (ok ws_read) payment_service_addr verification_data max_fee nonce =
      submit_on_connection payment_service_addr ws_read verification_data max_fee nonce

  abbrev pub first_answer :
      (SubmitError → String) → Received → Result AlignedVerificationData SubmitError
  first_answer to_string (ok d ∷ _) = ok d
  first_answer to_string (err e ∷ _) = err (generic_error (to_string e))
  first_answer to_string [] = err (generic_error "No response from the batcher")

  -- `submit`; the texts of the errors are those of their `Display`.
  unfoldable pub submit :
      (SubmitError → String)
      → Result Stream String
      → ℕ
      → VerificationData
      → ℕ
      → ℕ
      → Run (Result AlignedVerificationData SubmitError)
  submit to_string connection payment_service_addr verification_data max_fee nonce =
      submit_multiple connection payment_service_addr (verification_data ∷ []) max_fee nonce
      >>= λ answers. done (first_answer to_string answers)

abbrev retries : ℕ
retries = 10

abbrev time_between_retries : ℕ
time_between_retries = 10

-- `is_ok_and(|r| r)`
abbrev pub is_verified : Result Bool String → Bool
is_verified (ok r) = r
is_verified (err _) = false

-- `for _ in 0..RETRIES`, from the attempt `i` on.
abbrev pub wait_from : (ℕ → Result Bool String) → ℕ → ℕ → Result (Unit {0}) SubmitError
wait_from is_proof_verified i ℕ.zero =
    err (batch_verification_timeout (time_between_retries * retries))
wait_from is_proof_verified i (suc left) =
    let rest = wait_from is_proof_verified (suc i) left in
    if is_verified (is_proof_verified i) then ok tt else rest

-- What the contract answers at each attempt is a parameter.
unfoldable pub await_batch_verification : (ℕ → Result Bool String) → Result (Unit {0}) SubmitError
await_batch_verification is_proof_verified = wait_from is_proof_verified 0 retries

-- The loop over the proofs that were answered, up to the first that is not verified in time; the
-- contract's answers depend on the proof.
abbrev pub first_timeout :
    (AlignedVerificationData → ℕ → Result Bool String) → Received → Option SubmitError
first_timeout is_proof_verified [] = none
first_timeout is_proof_verified (err _ ∷ answers) = first_timeout is_proof_verified answers
first_timeout is_proof_verified (ok d ∷ answers) =
    elim (await_batch_verification (is_proof_verified d)) [
      | ok _ ↦ first_timeout is_proof_verified answers
      | err e ↦ some e
    ]

-- `submit_multiple_and_wait_verification`, after the submission.
unfoldable pub after_wait : (AlignedVerificationData → ℕ → Result Bool String) → Received → Received
after_wait is_proof_verified answers = elim (first_timeout is_proof_verified answers) [
  | none ↦ answers
  | some e ↦ answers ++ err e ∷ []
]

module _ (keccak256 : List ℕ → List ℕ) (tree : BatchTree keccak256) (cl : Client) where
  unfoldable pub submit_multiple_and_wait_verification :
      (AlignedVerificationData → ℕ → Result Bool String)
      → Result Stream String
      → ℕ
      → List VerificationData
      → ℕ
      → ℕ
      → Run Received
  submit_multiple_and_wait_verification is_proof_verified connection payment_service_addr
        verification_data max_fee nonce =
      submit_multiple keccak256 tree cl connection payment_service_addr verification_data max_fee
        nonce
      >>= λ answers. done (after_wait is_proof_verified answers)

  unfoldable pub submit_and_wait_verification :
      (SubmitError → String)
      → (AlignedVerificationData → ℕ → Result Bool String)
      → Result Stream String
      → ℕ
      → VerificationData
      → ℕ
      → ℕ
      → Run (Result AlignedVerificationData SubmitError)
  submit_and_wait_verification to_string is_proof_verified connection payment_service_addr
        verification_data max_fee nonce =
      submit_multiple_and_wait_verification is_proof_verified connection payment_service_addr
        (verification_data ∷ []) max_fee nonce
      >>= λ answers. done (first_answer keccak256 tree cl to_string answers)

-- `FeeEstimationType`
pub data FeeEstimationType : Type 0 where
  default instant : FeeEstimationType
  custom : ℕ → FeeEstimationType

pub data FeeEstimateError : Type 0 where
  ethereum_provider_error ethereum_gas_price_error fee_estimate_parse_error :
      String → FeeEstimateError

-- The node and its gas price are answers.
unfoldable pub estimate_fee_per_proof_with_rpc :
    ℕ → Result (Unit {0}) String → Result ℕ String → Run (Result ℕ FeeEstimateError)
estimate_fee_per_proof_with_rpc num_proofs_in_batch (err e) gas_price =
    done (err (ethereum_provider_error e))
estimate_fee_per_proof_with_rpc num_proofs_in_batch (ok _) (err e) =
    done (err (ethereum_gas_price_error e))
estimate_fee_per_proof_with_rpc num_proofs_in_batch (ok _) (ok gas_price) =
    calculate_fee_per_proof_with_gas_price num_proofs_in_batch gas_price >>= λ fee_per_proof.
    done (ok fee_per_proof)

unfoldable pub estimate_fee :
    FeeEstimationType → Result (Unit {0}) String → Result ℕ String → Run (Result ℕ FeeEstimateError)
estimate_fee default provider gas_price =
    estimate_fee_per_proof_with_rpc default_max_fee_batch_size provider gas_price
estimate_fee instant provider gas_price =
    estimate_fee_per_proof_with_rpc instant_max_fee_batch_size provider gas_price
estimate_fee (custom n) provider gas_price = estimate_fee_per_proof_with_rpc n provider gas_price
