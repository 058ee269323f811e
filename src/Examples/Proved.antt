-- ===== src/Examples/Proved.antt =====
-- A small prover, which runs the programs, and an aggregation of two proofs.
use Prim.Native.String.{String}
use aligned_layer.Prelude.{
  ℕ, ◌≡◌, ◌≢◌, refl, ap, true, Option, none, some, List, [], ◌∷◌, Run, done, panic, deadlock,
  Result, ok, err,
}
use aligned_layer.Sdk.Merkle.{MerkleTree}
use aligned_layer.Aggregation.Blob.{zeros, construct_blob, write_chunks, copy_from_slice}
use aligned_layer.Aggregation.Commitment.{sp1_commitment, hash_new_parent, words_to_be_bytes}
use aligned_layer.Aggregation.Programs.{
  Sp1Sdk, Sp1ProofWithPubValuesAndElf, user_proofs_aggregator_program_vk_hash,
  user_proofs_aggregator, chunk_aggregator, hash_vk_and_pub_inputs, aggregate_proofs,
  run_user_proofs_aggregator, run_chunk_aggregator,
}
use aligned_layer.Aggregation.Service.{
  merkle_root_mismatch, compute_proofs_merkle_root, aggregate_and_submit_proofs_on_chain,
}
use aligned_layer.Aggregation.Service.Agrees.{aggregate_and_submit_proofs_on_chain-ne-mismatch}

-- A hash that is always the same, and the trees with that hash as their root.
abbrev pub keccak256 : List ℕ → List ℕ
keccak256 bytes = 1 ∷ zeros 31

module _ {Data : Type 0} (hash : Data → List ℕ) where
  abbrev pub build : List Data → Option (List Data)
  build [] = none
  build (x ∷ xs) = some (x ∷ xs)

  abbrev pub one_root_tree : MerkleTree hash (hash_new_parent keccak256)
  one_root_tree = record {
    Tree = List Data;
    build = build;
    root = λ t. 1 ∷ zeros 31;
    get_proof_by_pos = λ t i. some [];
    verify = λ proof root i x. true;
    build_none = refl;
    build_some = λ x xs. (x ∷ xs, refl);
    proof_some = λ xs t i built inside. ([], refl);
    verify_proof = λ xs t i x p built at proof. refl;
  }

abbrev pub outcome : Run (List ℕ) → Result (List ℕ) String
outcome (done values) = ok values
outcome panic = err "panic"
outcome deadlock = err "deadlock"

outcome-eq-ok : (run : Run (List ℕ)) (values : List ℕ) → outcome run ≡ ok values → run ≡ done values
outcome-eq-ok (done v) values h = let e : v ≡ values = cc in ap done e
outcome-eq-ok panic values h = cc
outcome-eq-ok deadlock values h = cc

abbrev pub program_tree : MerkleTree (sp1_commitment keccak256) (hash_new_parent keccak256)
program_tree = one_root_tree (sp1_commitment keccak256)

abbrev pub hash_tree : MerkleTree (λ leaf. leaf) (hash_new_parent keccak256)
hash_tree = one_root_tree (λ leaf. leaf)

-- A proof is the public values that the program commits.
abbrev pub small_sdk : Sp1Sdk
small_sdk = record {
  Proof = List ℕ;
  Vk = List ℕ;
  hash_u32 = λ vk. vk;
  hash_bytes = words_to_be_bytes;
  hash_bytes_lem = λ vk. refl;
  public_values = λ p. p;
  is_compressed = λ p. true;
  user_vk = user_proofs_aggregator_program_vk_hash;
  chunk_vk = 1 ∷ [];
  prove_user = λ input proofs.
      outcome (user_proofs_aggregator keccak256 program_tree hash_tree (λ p. true) input);
  prove_chunk =
      λ input proofs. outcome (chunk_aggregator keccak256 program_tree hash_tree (λ p. true) input);
  verify = λ p vk. ok tt;
}

abbrev pub a_proof : ℕ → Sp1ProofWithPubValuesAndElf keccak256 small_sdk
a_proof n = record { proof_with_pub_values = n ∷ []; vk = 3 ∷ [] }

abbrev proofs_tree :
    MerkleTree (hash_vk_and_pub_inputs keccak256 small_sdk) (hash_new_parent keccak256)
proofs_tree = one_root_tree (hash_vk_and_pub_inputs keccak256 small_sdk)

aggregate_and_submit_proofs_on_chain-ne-mismatch_example :
    aggregate_and_submit_proofs_on_chain keccak256 small_sdk proofs_tree 4
      (λ blob p. ok tt)
      1
      (ok (a_proof 5 ∷ a_proof 6 ∷ []))
    ≢ done (err merkle_root_mismatch)
aggregate_and_submit_proofs_on_chain-ne-mismatch_example =
    aggregate_and_submit_proofs_on_chain-ne-mismatch keccak256 small_sdk program_tree hash_tree
      (λ p. true) proofs_tree
      (λ input proofs p proved.
        outcome-eq-ok (chunk_aggregator keccak256 program_tree hash_tree (λ p. true) input) p
          proved)
      (λ t. refl) (λ proofs t t' built built'. refl) 4 (λ blob p. ok tt) 1
      (ok (a_proof 5 ∷ a_proof 6 ∷ []))

-- The aggregation goes through.
runs :
    aggregate_and_submit_proofs_on_chain keccak256 small_sdk proofs_tree 4
      (λ blob p. ok tt)
      1
      (ok (a_proof 5 ∷ a_proof 6 ∷ []))
    ≡ done (ok tt)
unfolding aggregate_and_submit_proofs_on_chain compute_proofs_merkle_root aggregate_proofs
    run_user_proofs_aggregator run_chunk_aggregator user_proofs_aggregator chunk_aggregator
    hash_vk_and_pub_inputs construct_blob write_chunks copy_from_slice
runs = refl
