-- ===== src/Aggregation/Fetcher.antt =====
-- The fetching of proofs, aggregation_mode/src/backend/fetcher.rs, with SP1 as the engine.
pub mod Limits
use Prim.Native.String.{String}
use aligned_layer.Prelude.{
  ℕ, ◌+◌, Bool, true, false, Option, none, some, List, [], ◌∷◌, ◌++◌, ltb, length, if◌then◌else◌,
  Run, done, ◌>>=◌, unwrap, Result, ok, err,
}
use aligned_layer.Sdk.Types.{VerificationData, ProvingSystemId, sp1}
use aligned_layer.Aggregation.Programs.{Sp1Sdk, Sp1ProofWithPubValuesAndElf}

-- An event of a new batch: where its data is, and the block that it stands in.
pub record NewBatch : Type 0 where
  pub batch_data_pointer : String
  pub block_number : Option ℕ

pub data ProofsFetcherError : Type 0 where
  get_logs get_block_number : String → ProofsFetcherError

module _ (keccak256 : List ℕ → List ℕ) (sdk : Sp1Sdk) (setup : List ℕ → sdk.Vk)
    (deserialize : List ℕ → Option sdk.Proof) where
  abbrev pub if_verified :
      sdk.Proof
      → sdk.Vk
      → Result (Unit {0}) String
      → Option (Sp1ProofWithPubValuesAndElf keccak256 sdk)
  if_verified proof vk (err e) = none
  if_verified proof vk (ok _) = some (record { proof_with_pub_values = proof; vk = vk })

  -- `SP1ProofWithPubValuesAndElf::new`; its errors are only logged.
  unfoldable pub new_proof : sdk.Proof → List ℕ → Option (Sp1ProofWithPubValuesAndElf keccak256 sdk)
  new_proof proof elf =
      if sdk.is_compressed proof
      then if_verified proof (setup elf) (sdk.verify proof (setup elf))
      else none

  abbrev pub from_proof :
      List ℕ → Option sdk.Proof → Option (Sp1ProofWithPubValuesAndElf keccak256 sdk)
  from_proof elf none = none
  from_proof elf (some proof) = new_proof proof elf

  abbrev pub from_code :
      List ℕ → Option (List ℕ) → Option (Sp1ProofWithPubValuesAndElf keccak256 sdk)
  from_code proof none = none
  from_code proof (some elf) = from_proof elf (deserialize proof)

  abbrev pub of_system :
      VerificationData → ProvingSystemId → Option (Sp1ProofWithPubValuesAndElf keccak256 sdk)
  of_system p sp1 = from_code p.proof p.vm_program_code
  of_system p _ = none

  abbrev pub push_some :
      Option (Sp1ProofWithPubValuesAndElf keccak256 sdk)
      → List (Sp1ProofWithPubValuesAndElf keccak256 sdk)
      → List (Sp1ProofWithPubValuesAndElf keccak256 sdk)
  push_some none proofs = proofs
  push_some (some p) proofs = p ∷ proofs

  -- The proofs of SP1 of a batch that verify.
  unfoldable pub compatible :
      List VerificationData → List (Sp1ProofWithPubValuesAndElf keccak256 sdk)
  compatible [] = []
  compatible (p ∷ data') = push_some (of_system p p.proving_system) (compatible data')

  -- The proofs, and the block that the next aggregation starts at.
  abbrev pub Fetched : Type 0
  Fetched = List (Sp1ProofWithPubValuesAndElf keccak256 sdk) × ℕ

  -- The batch fits, or the loop ends before it.
  abbrev pub if_fits :
      Bool
      → (List (Sp1ProofWithPubValuesAndElf keccak256 sdk) → Run Fetched)
      → Option ℕ
      → List (Sp1ProofWithPubValuesAndElf keccak256 sdk)
      → List (Sp1ProofWithPubValuesAndElf keccak256 sdk)
      → Run Fetched
  if_fits true continue block_number proofs proofs_to_add =
      unwrap block_number >>= λ log_block_number. done (proofs, log_block_number)
  if_fits false continue block_number proofs proofs_to_add = continue (proofs ++ proofs_to_add)

  abbrev pub with_data :
      (List (Sp1ProofWithPubValuesAndElf keccak256 sdk) → Run Fetched)
      → ℕ
      → Option ℕ
      → List (Sp1ProofWithPubValuesAndElf keccak256 sdk)
      → Result (List VerificationData) String
      → Run Fetched
  with_data continue limit block_number proofs (err e) = continue proofs
  with_data continue limit block_number proofs (ok data') =
      if_fits (ltb limit (length proofs + length (compatible data'))) continue block_number proofs
        (compatible data')

  -- The loop over the events; what is downloaded is a parameter.
  unfoldable pub fetch_loop :
      (String → Result (List VerificationData) String)
      → ℕ
      → ℕ
      → List NewBatch
      → List (Sp1ProofWithPubValuesAndElf keccak256 sdk)
      → Run Fetched
  fetch_loop download limit current_block [] proofs = done (proofs, current_block)
  fetch_loop download limit current_block (batch ∷ logs) proofs =
      with_data (fetch_loop download limit current_block logs) limit batch.block_number proofs
        (download batch.batch_data_pointer)

  abbrev pub with_batches :
      (String → Result (List VerificationData) String)
      → ℕ
      → ℕ
      → Result (List NewBatch) String
      → Run (Result Fetched ProofsFetcherError)
  with_batches download limit current_block (err e) = done (err (get_logs e))
  with_batches download limit current_block (ok logs) =
      fetch_loop download limit current_block logs [] >>= λ r. done (ok r)

  -- The events between two blocks are an answer of the node.
  abbrev pub with_block_number :
      (ℕ → ℕ → Result (List NewBatch) String)
      → (String → Result (List VerificationData) String)
      → ℕ
      → ℕ
      → Result ℕ String
      → Run (Result Fetched ProofsFetcherError)
  with_block_number query download last_aggregated_block limit (err e) =
      done (err (get_block_number e))
  with_block_number query download last_aggregated_block limit (ok current_block) =
      if ltb current_block last_aggregated_block
      then done (err (get_block_number "Invalid last processed block"))
      else with_batches download limit current_block (query last_aggregated_block current_block)

  unfoldable pub fetch :
      (ℕ → ℕ → Result (List NewBatch) String)
      → (String → Result (List VerificationData) String)
      → ℕ
      → ℕ
      → Result ℕ String
      → Run (Result Fetched ProofsFetcherError)
  fetch query download last_aggregated_block limit current_block =
      with_block_number query download last_aggregated_block limit current_block
