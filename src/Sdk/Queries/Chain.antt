-- ===== src/Sdk/Queries/Chain.antt =====
-- The questions of a client to Ethereum and its payments, crates/sdk/src/verification_layer/mod.rs.
-- What a node and the contracts answer is a parameter.
use Prim.Native.String.{String}
use aligned_layer.Prelude.{
  ℕ, ◌^◌, Bool, Option, none, some, List, [], ◌∷◌, concat, ltb, if◌then◌else◌, Run, done, ◌>>=◌,
  Result, ok, err,
}
use aligned_layer.Sdk.Types.{VerificationDataCommitment}
use aligned_layer.Sdk.Messaging.{AlignedVerificationData}
use aligned_layer.Sdk.Queries.Errors.{
  GetNonceError, VerificationError, ChainIdError, PaymentError, BalanceError,
}

-- `U256::as_u64`
unfoldable pub as_u64 : ℕ → Run ℕ
as_u64 n = if ltb n (2 ^ 64) then done n else Run.panic

-- A contract is called through a provider, of which each may fail: `on_provider`, `on_contract` and
-- `on_call` are what the failures stand for.
abbrev pub call_contract :
    {A E : Type 0}
    → (String → E)
    → (String → E)
    → (String → E)
    → Result (Unit {0}) String
    → Result (Unit {0}) String
    → Result A String
    → Result A E
call_contract on_provider on_contract on_call (err e) contract result = err (on_provider e)
call_contract on_provider on_contract on_call (ok _) (err e) result = err (on_contract e)
call_contract on_provider on_contract on_call (ok _) (ok _) (err e) = err (on_call e)
call_contract on_provider on_contract on_call (ok _) (ok _) (ok a) = ok a

-- The user's nonce in the contract.
unfoldable pub get_nonce_from_ethereum :
    Result (Unit {0}) String → Result (Unit {0}) String → Result ℕ String → Result ℕ GetNonceError
get_nonce_from_ethereum provider contract user_nonces =
    call_contract GetNonceError.eth_rpc_error GetNonceError.eth_rpc_error
      GetNonceError.eth_rpc_error provider contract user_nonces

unfoldable pub get_balance_in_aligned :
    Result (Unit {0}) String → Result (Unit {0}) String → Result ℕ String → Result ℕ BalanceError
get_balance_in_aligned provider contract user_balances =
    call_contract BalanceError.ethereum_provider_error BalanceError.ethereum_call_error
      BalanceError.ethereum_call_error provider contract user_balances

-- The number is cast, and panics if it is too large.
abbrev pub cast : {E : Type 0} → Result ℕ E → Run (Result ℕ E)
cast (err e) = done (err e)
cast (ok n) = as_u64 n >>= λ k. done (ok k)

unfoldable pub get_unlock_block_time :
    Result (Unit {0}) String
    → Result (Unit {0}) String
    → Result ℕ String
    → Run (Result ℕ BalanceError)
get_unlock_block_time provider contract user_unlock_block = cast (
    call_contract BalanceError.ethereum_provider_error BalanceError.ethereum_call_error
      BalanceError.ethereum_call_error provider contract user_unlock_block)

unfoldable pub get_chain_id :
    Result (Unit {0}) String → Result ℕ String → Run (Result ℕ ChainIdError)
get_chain_id provider chain_id = cast (
    call_contract ChainIdError.ethereum_provider_error ChainIdError.ethereum_provider_error
      ChainIdError.ethereum_call_error provider (ok tt) chain_id)

-- The arguments of `verify_batch_inclusion`.
pub record BatchInclusionCall : Type 0 where
  pub verification_data_comm : VerificationDataCommitment
  pub batch_merkle_root : List ℕ
  pub merkle_proof : List ℕ
  pub index_in_batch : ℕ
  pub payment_service_addr : ℕ

-- The path is joined to the bytes that the contract reads.
abbrev pub batch_inclusion_call : AlignedVerificationData → ℕ → BatchInclusionCall
batch_inclusion_call d payment_service_addr = record {
  verification_data_comm = d.verification_data_commitment;
  batch_merkle_root = d.batch_merkle_root;
  merkle_proof = concat d.batch_inclusion_proof;
  index_in_batch = d.index_in_batch;
  payment_service_addr = payment_service_addr;
}

-- `aligned_service_manager`: there has to be code at the address.
abbrev pub aligned_service_manager :
    ℕ → Result (List ℕ) String → Result (Unit {0}) VerificationError
aligned_service_manager contract_address (err e) = err (VerificationError.ethereum_provider_error e)
aligned_service_manager contract_address (ok []) =
    err (VerificationError.ethereum_not_a_contract contract_address)
aligned_service_manager contract_address (ok (_ ∷ _)) = ok tt

abbrev pub called : Result Bool String → Result Bool VerificationError
called (err e) = err (VerificationError.ethereum_call_error e)
called (ok b) = ok b

abbrev pub with_service_manager :
    (BatchInclusionCall → Result Bool String)
    → AlignedVerificationData
    → ℕ
    → Result (Unit {0}) VerificationError
    → Result Bool VerificationError
with_service_manager verify_batch_inclusion d payment_service_addr (err e) = err e
with_service_manager verify_batch_inclusion d payment_service_addr (ok _) =
    called (verify_batch_inclusion (batch_inclusion_call d payment_service_addr))

-- `is_proof_verified`, with the code at the address of the service manager.
unfoldable pub is_proof_verified :
    (BatchInclusionCall → Result Bool String)
    → ℕ
    → ℕ
    → AlignedVerificationData
    → Result (Unit {0}) String
    → Result (List ℕ) String
    → Result Bool VerificationError
is_proof_verified verify_batch_inclusion contract_address payment_service_addr d (err e) code =
    err (VerificationError.ethereum_provider_error e)
is_proof_verified verify_batch_inclusion contract_address payment_service_addr d (ok _) code =
    with_service_manager verify_batch_inclusion d payment_service_addr
      (aligned_service_manager contract_address code)

-- What is sent to the payment service: money, or a call.
pub data Payment : Type 0 where
  transfer : ℕ → ℕ → ℕ → Payment
  unlock lock : Payment
  withdraw : ℕ → Payment

-- The sending, the wait for the receipt, and the receipt if there is one.
abbrev pub PaymentResult : Type 0
PaymentResult = Result (Result (Option ℕ) String) String

abbrev pub receipt_or : PaymentError → PaymentResult → Result ℕ PaymentError
receipt_or without (err e) = err (PaymentError.send_error e)
receipt_or without (ok (err e)) = err (PaymentError.submit_error e)
receipt_or without (ok (ok (some receipt))) = ok receipt
receipt_or without (ok (ok none)) = err without

module _ (send : Payment → PaymentResult) where
  unfoldable pub deposit_to_aligned : ℕ → ℕ → ℕ → Result ℕ PaymentError
  deposit_to_aligned amount from payment_service_address =
      receipt_or PaymentError.payment_failed (send (transfer from payment_service_address amount))

  unfoldable pub unlock_balance_in_aligned : Result ℕ PaymentError
  unlock_balance_in_aligned = receipt_or (PaymentError.submit_error "") (send unlock)

  unfoldable pub lock_balance_in_aligned : Result ℕ PaymentError
  lock_balance_in_aligned = receipt_or (PaymentError.submit_error "") (send lock)

  unfoldable pub withdraw_balance_from_aligned : ℕ → Result ℕ PaymentError
  withdraw_balance_from_aligned amount =
      receipt_or (PaymentError.submit_error "") (send (withdraw amount))
