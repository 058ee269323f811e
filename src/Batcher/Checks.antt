-- ===== src/Batcher/Checks.antt =====
-- The checks of a message before it reaches the queue, `lib.rs`: each lets it pass, or names the
-- response that it is refused with.
use Prim.Native.Nat.{bit_and}
use aligned_layer.Prelude.{
  ℕ, ◌^◌, Bool, true, false, not, none, some, ltb, leb, ◌==◌, if◌then◌else◌, Run, done, panic,
  u256_add,
}
use aligned_layer.Sdk.Types.{
  ProvingSystemId, as_u8, VerificationData, SubmitProofMessage, cbor_size_upper_bound,
  SubmitProofResponseMessage, invalid_proof, invalid_signature, proof_too_large,
  insufficient_balance, invalid_chain_id, invalid_payment_service_address, rejected_proof,
  disabled_verifier,
}
use aligned_layer.Batcher.State.{Config, Answers}

-- What a check decides.
pub data Check {ℓ} (A : Type ℓ) : Type ℓ where
  passes : A → Check A
  refuses : SubmitProofResponseMessage → Check A

infixl 5 ◌>>=◌ ◌>>◌
abbrev pub ◌>>=◌ {ℓ κ} : {A : Type ℓ} {B : Type κ} → Check A → (A → Check B) → Check B
passes a >>= f = f a
refuses m >>= f = refuses m

abbrev pub ◌>>◌ {ℓ} : {B : Type ℓ} → Check (Unit {0}) → Check B → Check B
m >> k = m >>= λ _. k

abbrev require : Bool → SubmitProofResponseMessage → Check (Unit {0})
require true m = passes tt
require false m = refuses m

unfoldable pub msg_chain_id_is_valid : Config → SubmitProofMessage → Check (Unit {0})
msg_chain_id_is_valid c m = require (m.verification_data.chain_id == c.chain_id) invalid_chain_id

unfoldable pub msg_batcher_payment_addr_is_valid : Config → SubmitProofMessage → Check (Unit {0})
msg_batcher_payment_addr_is_valid c m =
    require (m.verification_data.payment_service_addr == c.payment_service_addr) (
      invalid_payment_service_address m.verification_data.payment_service_addr
        c.payment_service_addr)

unfoldable pub msg_proof_size_is_valid : Config → SubmitProofMessage → Check (Unit {0})
msg_proof_size_is_valid c m =
    require (not (ltb c.max_proof_size (cbor_size_upper_bound m.verification_data))) proof_too_large

unfoldable pub msg_signature_is_valid : Answers → SubmitProofMessage → Check ℕ
msg_signature_is_valid w m = elim (w.signer m.verification_data m.signature) [
  | none ↦ refuses invalid_signature
  | some addr ↦ passes addr
]

unfoldable pub msg_user_balance_is_locked : Answers → ℕ → Check (Unit {0})
msg_user_balance_is_locked w addr =
    require (not (w.balance_is_unlocked addr)) (insufficient_balance addr)

-- The checks at the head of `handle_submit_proof_msg`; the result is the address that signed.
unfoldable pub validate_message : Config → Answers → SubmitProofMessage → Check ℕ
unfolding msg_chain_id_is_valid msg_batcher_payment_addr_is_valid msg_proof_size_is_valid
    msg_signature_is_valid
validate_message c w m = do
  msg_chain_id_is_valid c m
  msg_batcher_payment_addr_is_valid c m
  msg_proof_size_is_valid c m
  msg_signature_is_valid w m

unfoldable pub msg_covers_minimum_max_fee : ℕ → ℕ → Bool
msg_covers_minimum_max_fee current_min_max_fee msg_max_fee = leb current_min_max_fee msg_max_fee

-- The sum of two `U256` panics if it overflows.
unfoldable pub verify_user_has_enough_balance : ℕ → ℕ → ℕ → Run Bool
verify_user_has_enough_balance user_balance user_accumulated_fee new_msg_max_fee =
    elim (u256_add user_accumulated_fee new_msg_max_fee) [
      | done required_balance ↦ done (leb required_balance user_balance)
      | panic ↦ panic
      | Run.deadlock ↦ Run.deadlock
    ]

-- `zk_utils::is_verifier_disabled`: the bit of the proving system.
unfoldable pub is_verifier_disabled : ℕ → ProvingSystemId → Bool
is_verifier_disabled disabled_verifiers system =
    not (bit_and disabled_verifiers (2 ^ as_u8 system) == 0)

unfoldable pub verify_proof_if_enabled : Config → Answers → ℕ → VerificationData → Check (Unit {0})
unfolding is_verifier_disabled
verify_proof_if_enabled c w disabled_verifiers vd =
    if c.pre_verification_is_enabled
    then (require (not (is_verifier_disabled disabled_verifiers vd.proving_system))
          (invalid_proof (disabled_verifier vd.proving_system))
        >> require (w.verify vd) (invalid_proof rejected_proof))
    else passes tt
