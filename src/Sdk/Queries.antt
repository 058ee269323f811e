-- ===== src/Sdk/Queries.antt =====
-- The questions of a client to the batcher, `get_nonce_from_batcher` and `get_last_max_fee`,
-- crates/sdk/src/verification_layer/mod.rs.
pub mod Errors
pub mod Chain
use Prim.Native.String.{String}
use aligned_layer.Prelude.{ℕ, Bool, true, false, Option, none, some, List, keep, Result, ok, err}
use aligned_layer.Sdk.Types.{GetNonceResponseMessage, GetLastMaxFeeResponseMessage, ClientMessage}
use aligned_layer.Sdk.Errors.{SubmitError, protocol_version_mismatch}
use aligned_layer.Sdk.Messaging.{Message, Stream, Client, binary}
use aligned_layer.Sdk.Submit.{first_message, rest_of, check_protocol_version}
use aligned_layer.Sdk.Queries.Errors.{GetNonceError, GetLastMaxFeeError}

-- `is_binary`; an error of the stream is not filtered out.
abbrev pub is_binary : Result Message String → Bool
is_binary (ok (binary _)) = true
is_binary (ok _) = false
is_binary (err _) = true

-- The errors that both questions have.
pub record Failures (E : Type 0) : Type 0 where
  pub connection_failed : String → E
  pub serialization_error : String → E
  pub unexpected_response : String → E
  pub protocol_mismatch : ℕ → ℕ → E

abbrev pub nonce_failures : Failures GetNonceError
nonce_failures = record {
  connection_failed = GetNonceError.connection_failed;
  serialization_error = GetNonceError.serialization_error;
  unexpected_response = GetNonceError.unexpected_response;
  protocol_mismatch = GetNonceError.protocol_mismatch;
}

abbrev pub fee_failures : Failures GetLastMaxFeeError
fee_failures = record {
  connection_failed = GetLastMaxFeeError.connection_failed;
  serialization_error = GetLastMaxFeeError.serialization_error;
  unexpected_response = GetLastMaxFeeError.unexpected_response;
  protocol_mismatch = GetLastMaxFeeError.protocol_mismatch;
}

-- What the answer to the question stands for.
abbrev pub read_nonce : Result GetNonceResponseMessage String → Result ℕ GetNonceError
read_nonce (ok (GetNonceResponseMessage.nonce nonce)) = ok nonce
read_nonce (ok (GetNonceResponseMessage.eth_rpc_error e)) = err (GetNonceError.eth_rpc_error e)
read_nonce (ok (GetNonceResponseMessage.invalid_request e)) = err (GetNonceError.invalid_request e)
read_nonce (ok GetNonceResponseMessage.server_busy) =
    err (GetNonceError.generic_error "Server is busy processing requests, please retry")
read_nonce (err _) = err (GetNonceError.serialization_error "Failed to deserialize batcher message")

abbrev pub read_fee : Result GetLastMaxFeeResponseMessage String → Result ℕ GetLastMaxFeeError
read_fee (ok (GetLastMaxFeeResponseMessage.last_max_fee last_max_fee)) = ok last_max_fee
read_fee (ok (GetLastMaxFeeResponseMessage.invalid_request e)) =
    err (GetLastMaxFeeError.invalid_request e)
read_fee (ok GetLastMaxFeeResponseMessage.server_busy) =
    err (GetLastMaxFeeError.generic_error "Server is busy processing requests, please retry")
read_fee (err _) =
    err (GetLastMaxFeeError.serialization_error "Failed to deserialize batcher message")

abbrev pub version_failure : {E : Type 0} → Failures E → SubmitError → E
version_failure f (protocol_version_mismatch current expected) =
    f.protocol_mismatch current expected
version_failure f _ = f.unexpected_response "Unexpected response, expected protocol version"

module _ {E : Type 0} (f : Failures E) (cl : Client) where
  -- The first binary message after the version.
  abbrev pub with_answer : (List ℕ → Result ℕ E) → Option Message → Result ℕ E
  with_answer read none = err (
      f.connection_failed
        "Connection was closed without close message before receiving all messages")
  with_answer read (some msg) = read (cl.into_data msg)

  abbrev pub after_send : (List ℕ → Result ℕ E) → Stream → Result (Unit {0}) String → Result ℕ E
  after_send read ws_read (err _) =
      err (f.connection_failed "Ws connection failed to send message to batcher")
  after_send read ws_read (ok _) = with_answer read (first_message (keep is_binary ws_read))

  abbrev pub with_message : (List ℕ → Result ℕ E) → Stream → Result (List ℕ) String → Result ℕ E
  with_message read ws_read (err _) = err (f.serialization_error "Failed to serialize msg")
  with_message read ws_read (ok msg_bin) = after_send read ws_read (cl.send msg_bin)

  abbrev pub after_check :
      (List ℕ → Result ℕ E)
      → Stream
      → Result (List ℕ) String
      → Result (Unit {0}) SubmitError
      → Result ℕ E
  after_check read ws_read msg_bin (err e) = err (version_failure f e)
  after_check read ws_read msg_bin (ok _) = with_message read (rest_of ws_read) msg_bin

  -- The whole exchange, on the connection of `connect_async`.
  unfoldable pub ask :
      (List ℕ → Result ℕ E) → Result Stream String → Result (List ℕ) String → Result ℕ E
  ask read (err _) msg_bin = err (f.connection_failed "Ws connection to batcher failed")
  ask read (ok ws_read) msg_bin =
      after_check read ws_read msg_bin (check_protocol_version cl ws_read)

module _ (cl : Client) (cbor_serialize : ClientMessage → Result (List ℕ) String) where
  unfoldable pub get_nonce_from_batcher :
      (List ℕ → Result GetNonceResponseMessage String)
      → Result Stream String
      → ℕ
      → Result ℕ GetNonceError
  get_nonce_from_batcher cbor_deserialize connection address =
      ask nonce_failures cl (λ bytes. read_nonce (cbor_deserialize bytes)) connection
        (cbor_serialize (ClientMessage.get_nonce_for_address address))

  unfoldable pub get_last_max_fee :
      (List ℕ → Result GetLastMaxFeeResponseMessage String)
      → Result Stream String
      → ℕ
      → Result ℕ GetLastMaxFeeError
  get_last_max_fee cbor_deserialize connection address =
      ask fee_failures cl (λ bytes. read_fee (cbor_deserialize bytes)) connection
        (cbor_serialize (ClientMessage.get_last_max_fee address))
