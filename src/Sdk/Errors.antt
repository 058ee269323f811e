-- ===== src/Sdk/Errors.antt =====
-- crates/sdk/src/common/errors.rs: the errors of a submission. The errors of other packages are given
-- by their texts.
use Prim.Native.String.{String}
use aligned_layer.Prelude.{ℕ}
use aligned_layer.Sdk.Types.{ProofInvalidReason}

pub data SubmitError : Type 0 where
  websocket_connection_error websocket_closed_unexpectedly_error : String → SubmitError
  io_error : String → String → SubmitError
  serialization_error ethereum_provider_error hex_decoding_error : String → SubmitError
  wallet_signer_error missing_required_parameter : String → SubmitError
  unsupported_proving_system invalid_ethereum_address : String → SubmitError
  protocol_version_mismatch : ℕ → ℕ → SubmitError
  batch_verified_event_stream_error : String → SubmitError
  batch_verification_timeout : ℕ → SubmitError
  no_response_from_batcher : SubmitError
  unexpected_batcher_response : String → SubmitError
  empty_verification_data_commitments empty_verification_data_list : SubmitError
  invalid_nonce invalid_max_fee proof_queue_flushed invalid_signature : SubmitError
  invalid_chain_id : SubmitError
  invalid_proof : ProofInvalidReason → SubmitError
  proof_too_large invalid_replacement_message : SubmitError
  insufficient_balance : ℕ → SubmitError
  invalid_payment_service_address : ℕ → ℕ → SubmitError
  batch_submission_failed : String → SubmitError
  add_to_batch_error invalid_proof_inclusion_data : SubmitError
  get_nonce_error : String → SubmitError
  batch_queue_limit_exceeded_error : SubmitError
  generic_error : String → SubmitError
  user_funds_unlocked proof_replaced : SubmitError
