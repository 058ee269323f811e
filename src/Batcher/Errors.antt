-- ===== src/Batcher/Errors.antt =====
-- crates/batcher/src/types/errors.rs: the errors of the batcher. A text that is made from an address
-- alone is given by the address.
use Prim.Native.String.{String, ◌++◌}
use aligned_layer.Prelude.{
  ℕ, ◌+◌, ◌*◌, Option, none, some, List, [], ◌∷◌, leb, ◌==◌, if◌then◌else◌, length,
}

pub data TransactionSendError : Type 0 where
  no_proof_submitters no_fee_per_proof insufficient_fee_for_aggregator : TransactionSendError
  submission_insufficient_balance : ℕ → TransactionSendError
  batch_already_submitted insufficient_funds only_batcher_allowed : TransactionSendError
  generic : String → TransactionSendError

-- The error of a signature is that of the package `ethers`; its text stands for it.
pub data BatcherError : Type 0 where
  tcp_listener_error connection_error batch_verified_event_stream_error : String → BatcherError
  ethereum_subscription_error signature_error batch_upload_error : String → BatcherError
  task_creation_error : String → BatcherError
  receipt_not_found_error : BatcherError
  transaction_send_error : TransactionSendError → BatcherError
  max_retries_reached_error : BatcherError
  serialization_error : String → BatcherError
  gas_price_error : BatcherError
  disabled_verifiers_error : String → BatcherError
  batch_cost_too_high ws_sink_empty : BatcherError
  address_not_found_in_user_states : ℕ → BatcherError
  queue_remove_error : String → BatcherError
  state_corrupted_and_flushed : ℕ → BatcherError
  ethereum_provider_error : String → BatcherError

-- The number that bytes stand for, the highest first.
abbrev big_endian : ℕ → List ℕ → ℕ
big_endian acc [] = acc
big_endian acc (byte ∷ bytes) = big_endian (256 * acc + byte) bytes

abbrev take : ℕ → List ℕ → List ℕ
take ℕ.zero xs = []
take (ℕ.suc n) [] = []
take (ℕ.suc n) (x ∷ xs) = x ∷ take n xs

abbrev drop : ℕ → List ℕ → List ℕ
drop ℕ.zero xs = xs
drop (ℕ.suc n) [] = []
drop (ℕ.suc n) (x ∷ xs) = drop n xs

-- `From<Bytes> for TransactionSendError`. The text of the bytes is `0x` and two digits for each
-- byte, so its first ten characters are those of four bytes, and the characters from 34 to 74 are
-- those of the bytes from 16 to 36. The text itself is made by the package `ethers`.
module _ (to_string : List ℕ → String) where
  -- The code of the error, and none where there are too few bytes.
  abbrev pub str_code : List ℕ → Option ℕ
  str_code e = if leb 4 (length e) then some (big_endian 0 (take 4 e)) else none

  -- The first parameter after the code.
  abbrev pub first_address : List ℕ → ℕ
  first_address e = if leb 36 (length e) then big_endian 0 (take 20 (drop 16 e)) else 0

  abbrev unknown : List ℕ → TransactionSendError
  unknown e = generic ("Unknown bytestring error: " ++ to_string e)

  abbrev error_of_code : List ℕ → ℕ → TransactionSendError
  error_of_code e code =
      if code == 0xc43ac290
      then no_proof_submitters
      else if code == 0xa3a8658a
      then no_fee_per_proof
      else if code == 0x7899ec71
      then insufficient_fee_for_aggregator
      else if code == 0x3102f10c
      then batch_already_submitted
      else if code == 0x5c54305e
      then insufficient_funds
      else if code == 0x152bc288
      then only_batcher_allowed
      else if code == 0x4f779ceb
      then submission_insufficient_balance (first_address e)
      else unknown e

  unfoldable pub error_of_revert : List ℕ → TransactionSendError
  error_of_revert e = elim (str_code e) [ none ↦ unknown e | some code ↦ error_of_code e code ]
