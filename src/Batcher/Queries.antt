-- ===== src/Batcher/Queries.antt =====
-- The two queries of a client, lib.rs: `handle_get_nonce_for_address_msg` and
-- `handle_get_last_max_fee`. They read the state of a user and change nothing.
pub mod Fees
use Prim.Native.String.{String}
use aligned_layer.Prelude.{
  ℕ, ◌≡◌, Bool, true, false, Option, none, some, ltb, if◌then◌else◌, u256_max,
}
use aligned_layer.Sdk.Types.{GetNonceResponseMessage, GetLastMaxFeeResponseMessage}
use aligned_layer.Batcher.State.{
  UserState, UserStates, Config, Answers, has_to_pay, get_nonpaying_replacement_addr,
}

abbrev no_configuration : String
no_configuration = "There isn't a non-paying configuration loaded."

-- The address whose state is read, if there is one.
unfoldable pub asked_address : Config → ℕ → Option ℕ
unfolding has_to_pay get_nonpaying_replacement_addr
asked_address c address =
    if has_to_pay c address then some address else get_nonpaying_replacement_addr c

-- The nonce is the cached one, or that of Ethereum.
unfoldable pub nonce_of_user : Answers → UserStates → ℕ → GetNonceResponseMessage
nonce_of_user w users address =
    if w.check_user_in_time
    then elim (users address) [
      | some user ↦
          if w.user_lock_in_time
          then GetNonceResponseMessage.nonce user.nonce
          else GetNonceResponseMessage.server_busy
      | none ↦ elim (w.user_nonce_on_ethereum address) [
        | some n ↦ GetNonceResponseMessage.nonce n
        | none ↦ GetNonceResponseMessage.eth_rpc_error "Eth RPC error"
      ]
    ]
    else GetNonceResponseMessage.server_busy

unfoldable pub handle_get_nonce_for_address_msg :
    Config → Answers → UserStates → ℕ → GetNonceResponseMessage
unfolding asked_address nonce_of_user
handle_get_nonce_for_address_msg c w users address = elim (asked_address c address) [
  | none ↦ GetNonceResponseMessage.invalid_request no_configuration
  | some payer ↦ nonce_of_user w users payer
]

-- A user without proofs in the queue has no limit.
unfoldable pub max_fee_of_user : Answers → UserStates → ℕ → GetLastMaxFeeResponseMessage
max_fee_of_user w users address =
    if w.check_user_in_time
    then elim (users address) [
      | none ↦ GetLastMaxFeeResponseMessage.last_max_fee u256_max
      | some user ↦
          if w.user_lock_in_time
          then GetLastMaxFeeResponseMessage.last_max_fee
              (if ltb 0 user.proofs_in_batch then user.last_max_fee_limit else u256_max)
          else GetLastMaxFeeResponseMessage.server_busy
    ]
    else GetLastMaxFeeResponseMessage.server_busy

unfoldable pub handle_get_last_max_fee :
    Config → Answers → UserStates → ℕ → GetLastMaxFeeResponseMessage
unfolding asked_address max_fee_of_user
handle_get_last_max_fee c w users address = elim (asked_address c address) [
  | none ↦ GetLastMaxFeeResponseMessage.invalid_request no_configuration
  | some payer ↦ max_fee_of_user w users payer
]
