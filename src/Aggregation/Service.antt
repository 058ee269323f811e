-- ===== src/Aggregation/Service.antt =====
-- The service of the aggregation mode, aggregation_mode/src/backend: mod.rs and merkle_tree.rs, with
-- SP1 as its engine.
pub mod Agrees
use Prim.Native.String.{String}
use aligned_layer.Prelude.{
  ℕ, Bool, true, false, Option, none, some, List, [], ◌∷◌, map, if◌then◌else◌, Run, done, ◌>>=◌,
  Result, ok, err,
}
use aligned_layer.Sdk.Merkle.{MerkleTree}
use aligned_layer.Aggregation.Blob.{construct_blob}
use aligned_layer.Aggregation.Commitment.{hash_new_parent}
use aligned_layer.Aggregation.Check.{bytes_eq}
use aligned_layer.Aggregation.Programs.{
  Sp1Sdk, Sp1ProofWithPubValuesAndElf, Sp1AggregationError, aggregate_proofs,
  hash_vk_and_pub_inputs,
}
use aligned_layer.Aggregation.Fetcher.{ProofsFetcherError}

-- The errors; of those of the engines, the ones of SP1.
pub data AggregatedProofSubmissionError : Type 0 where
  building_blob_commitment building_blob_proof : AggregatedProofSubmissionError
  building_blob_versioned_hash building_merkle_root : AggregatedProofSubmissionError
  risc0_encoding_seal receipt_error : String → AggregatedProofSubmissionError
  send_verify_aggregated_proof_transaction : String → AggregatedProofSubmissionError
  fetching_proofs : ProofsFetcherError → AggregatedProofSubmissionError
  zkvm_aggregation : Sp1AggregationError → AggregatedProofSubmissionError
  merkle_root_mismatch : AggregatedProofSubmissionError

-- What can go wrong after the bytes of the blob are made.
pub data SendError : Type 0 where
  no_commitment no_proof no_versioned_hash : SendError
  transaction : String → SendError

-- The tree over the proofs; what becomes of a blob and its proof is a parameter.
module _ (keccak256 : List ℕ → List ℕ) (sdk : Sp1Sdk)
    (tree : MerkleTree (hash_vk_and_pub_inputs keccak256 sdk) (hash_new_parent keccak256))
    (field_elements_per_blob : ℕ)
    (send : List ℕ → Sp1ProofWithPubValuesAndElf keccak256 sdk → Result (Unit {0}) SendError) where
  abbrev pub Proofs : Type 0
  Proofs = List (Sp1ProofWithPubValuesAndElf keccak256 sdk)

  abbrev pub with_leaves_of : Proofs → Option tree.Tree → Option (tree.Tree × List (List ℕ))
  with_leaves_of proofs none = none
  with_leaves_of proofs (some merkle_tree) =
      some (merkle_tree, map (hash_vk_and_pub_inputs keccak256 sdk) proofs)

  unfoldable pub compute_proofs_merkle_root : Proofs → Option (tree.Tree × List (List ℕ))
  compute_proofs_merkle_root proofs = with_leaves_of proofs (tree.build proofs)

  abbrev pub Submitted : Type 0
  Submitted = Run (Result (Unit {0}) AggregatedProofSubmissionError)

  abbrev pub error_of : SendError → AggregatedProofSubmissionError
  error_of no_commitment = building_blob_commitment
  error_of no_proof = building_blob_proof
  error_of no_versioned_hash = building_blob_versioned_hash
  error_of (transaction e) = send_verify_aggregated_proof_transaction e

  abbrev pub sent_result :
      Result (Unit {0}) SendError → Result (Unit {0}) AggregatedProofSubmissionError
  sent_result (ok _) = ok tt
  sent_result (err e) = err (error_of e)

  -- The roots of the program and of the service are compared.
  abbrev pub with_aggregated :
      List ℕ
      → List (List ℕ)
      → Result (Sp1ProofWithPubValuesAndElf keccak256 sdk × List ℕ) Sp1AggregationError
      → Submitted
  with_aggregated merkle_root leaves (err e) = done (err (zkvm_aggregation e))
  with_aggregated merkle_root leaves (ok (aggregated_proof, zkvm_merkle_root)) =
      if bytes_eq zkvm_merkle_root merkle_root
      then (construct_blob field_elements_per_blob leaves >>= λ blob.
          done (sent_result (send blob aggregated_proof)))
      else done (err merkle_root_mismatch)

  abbrev pub with_merkle_root : Proofs → ℕ → Option (tree.Tree × List (List ℕ)) → Submitted
  with_merkle_root proofs proofs_per_chunk none = done (err building_merkle_root)
  with_merkle_root proofs proofs_per_chunk (some (merkle_tree, leaves)) =
      aggregate_proofs keccak256 sdk proofs proofs_per_chunk >>= λ r.
      with_aggregated (tree.root merkle_tree) leaves r

  abbrev pub with_fetched : ℕ → Result Proofs ProofsFetcherError → Submitted
  with_fetched proofs_per_chunk (err e) = done (err (fetching_proofs e))
  with_fetched proofs_per_chunk (ok []) = done (ok tt)
  with_fetched proofs_per_chunk (ok (p ∷ ps)) =
      with_merkle_root (p ∷ ps) proofs_per_chunk (compute_proofs_merkle_root (p ∷ ps))

  -- What the fetcher returned is a parameter.
  unfoldable pub aggregate_and_submit_proofs_on_chain :
      ℕ → Result Proofs ProofsFetcherError → Submitted
  aggregate_and_submit_proofs_on_chain proofs_per_chunk fetched =
      with_fetched proofs_per_chunk fetched
