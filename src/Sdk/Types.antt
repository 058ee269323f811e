-- ===== src/Sdk/Types.antt =====
-- crates/sdk/src/common/types.rs: what a client submits. Bytes, addresses and words are numbers.
use Prim.Native.String.{String}
use aligned_layer.Prelude.{ℕ, Option, none, some, List, [], ◌∷◌, ◌++◌, length, usize_add}

pub data ProvingSystemId : Type 0 where
  gnark_plonk_bls12_381 gnark_plonk_bn254 gnark_groth16_bn254 : ProvingSystemId
  sp1 risc0 circom_groth16_bn256 : ProvingSystemId

-- `proving_system as u8`
abbrev pub as_u8 : ProvingSystemId → ℕ
as_u8 gnark_plonk_bls12_381 = 0
as_u8 gnark_plonk_bn254 = 1
as_u8 gnark_groth16_bn254 = 2
as_u8 sp1 = 3
as_u8 risc0 = 4
as_u8 circom_groth16_bn256 = 5

pub record VerificationData : Type 0 where
  pub proving_system : ProvingSystemId
  pub proof : List ℕ
  pub pub_input : Option (List ℕ)
  pub verification_key : Option (List ℕ)
  pub vm_program_code : Option (List ℕ)
  pub proof_generator_addr : ℕ

pub record NoncedVerificationData : Type 0 where
  pub verification_data : VerificationData
  pub nonce : ℕ
  pub max_fee : ℕ
  pub chain_id : ℕ
  pub payment_service_addr : ℕ

-- `ethers::types::Signature`
pub record Signature : Type 0 where
  pub r : ℕ
  pub s : ℕ
  pub v : ℕ

pub record SubmitProofMessage : Type 0 where
  pub verification_data : NoncedVerificationData
  pub signature : Signature

-- `if let Some(ref bytes) = field { total_size += bytes.len() }`
abbrev add_len : ℕ → Option (List ℕ) → ℕ
add_len total_size none = total_size
add_len total_size (some bytes) = usize_add total_size (length bytes)

abbrev cbor_overhead_bytes : ℕ
cbor_overhead_bytes = 1024

unfoldable pub cbor_size_upper_bound : NoncedVerificationData → ℕ
cbor_size_upper_bound d =
    let vd = d.verification_data in
    let with_proof = usize_add 0 (length vd.proof) in
    let with_input = add_len with_proof vd.pub_input in
    let with_key = add_len with_input vd.verification_key in
    let with_code = add_len with_key vd.vm_program_code in usize_add with_code cbor_overhead_bytes

pub record VerificationDataCommitment : Type 0 where
  pub proof_commitment : List ℕ
  pub pub_input_commitment : List ℕ
  pub proving_system_aux_data_commitment : List ℕ
  pub proof_generator_addr : ℕ

abbrev zeros : ℕ → List ℕ
zeros = elim [ ℕ.zero ↦ [] | ℕ.suc (n → rest) ↦ 0 ∷ rest ]

-- The hash function is that of the `sha3` package.
module _ (keccak256 : List ℕ → List ℕ) where
  abbrev commit_input : Option (List ℕ) → List ℕ
  commit_input none = zeros 32
  commit_input (some pub_input) = keccak256 pub_input

  abbrev commit_aux : ℕ → Option (List ℕ) → Option (List ℕ) → List ℕ
  commit_aux byte (some code) key = keccak256 (code ++ byte ∷ [])
  commit_aux byte none (some key) = keccak256 (key ++ byte ∷ [])
  commit_aux byte none none = zeros 32

  -- `From<VerificationData> for VerificationDataCommitment`
  unfoldable pub commitment : VerificationData → VerificationDataCommitment
  commitment vd = record {
    proof_commitment = keccak256 vd.proof;
    pub_input_commitment = commit_input vd.pub_input;
    proving_system_aux_data_commitment =
        commit_aux (as_u8 vd.proving_system) vd.vm_program_code vd.verification_key;
    proof_generator_addr = vd.proof_generator_addr;
  }

pub data ProofInvalidReason : Type 0 where
  rejected_proof verifier_not_supported : ProofInvalidReason
  disabled_verifier : ProvingSystemId → ProofInvalidReason

-- The inclusion proof is a path of a Merkle tree, which belongs to the package `lambdaworks_crypto`.
pub record BatchInclusionData : Type 0 where
  pub batch_merkle_root : List ℕ
  pub batch_inclusion_proof : List (List ℕ)
  pub index_in_batch : ℕ
  pub user_nonce : ℕ

pub data SubmitProofResponseMessage : Type 0 where
  batch_inclusion_data : BatchInclusionData → SubmitProofResponseMessage
  protocol_version : ℕ → SubmitProofResponseMessage
  create_new_task_error : String → String → SubmitProofResponseMessage
  invalid_proof : ProofInvalidReason → SubmitProofResponseMessage
  batch_reset : SubmitProofResponseMessage
  error : String → SubmitProofResponseMessage
  invalid_nonce invalid_signature proof_too_large : SubmitProofResponseMessage
  invalid_max_fee : SubmitProofResponseMessage
  insufficient_balance : ℕ → SubmitProofResponseMessage
  invalid_chain_id invalid_replacement_message : SubmitProofResponseMessage
  add_to_batch_error eth_rpc_error : SubmitProofResponseMessage
  invalid_payment_service_address : ℕ → ℕ → SubmitProofResponseMessage
  underpriced_proof server_busy user_funds_unlocked proof_replaced : SubmitProofResponseMessage

pub data GetNonceResponseMessage : Type 0 where
  nonce : ℕ → GetNonceResponseMessage
  eth_rpc_error : String → GetNonceResponseMessage
  invalid_request : String → GetNonceResponseMessage
  server_busy : GetNonceResponseMessage

pub data GetLastMaxFeeResponseMessage : Type 0 where
  last_max_fee : ℕ → GetLastMaxFeeResponseMessage
  invalid_request : String → GetLastMaxFeeResponseMessage
  server_busy : GetLastMaxFeeResponseMessage

pub data ClientMessage : Type 0 where
  get_nonce_for_address : ℕ → ClientMessage
  submit_proof : SubmitProofMessage → ClientMessage
  get_last_max_fee : ℕ → ClientMessage
