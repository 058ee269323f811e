-- ===== src/Sdk/Queries/Errors.antt =====
-- The errors of the questions of a client, crates/sdk/src/common/errors.rs.
use Prim.Native.String.{String}
use aligned_layer.Prelude.{ℕ}

pub data GetNonceError : Type 0 where
  eth_rpc_error connection_failed serialization_error unexpected_response invalid_request :
      String → GetNonceError
  protocol_mismatch : ℕ → ℕ → GetNonceError
  generic_error : String → GetNonceError

pub data GetLastMaxFeeError : Type 0 where
  connection_failed serialization_error unexpected_response invalid_request :
      String → GetLastMaxFeeError
  protocol_mismatch : ℕ → ℕ → GetLastMaxFeeError
  generic_error : String → GetLastMaxFeeError

pub data VerificationError : Type 0 where
  hex_decoding_error ethereum_provider_error ethereum_call_error : String → VerificationError
  ethereum_not_a_contract : ℕ → VerificationError

pub data ChainIdError : Type 0 where
  ethereum_provider_error ethereum_call_error : String → ChainIdError

pub data PaymentError : Type 0 where
  send_error submit_error : String → PaymentError
  payment_failed : PaymentError

pub data BalanceError : Type 0 where
  ethereum_provider_error ethereum_call_error : String → BalanceError
