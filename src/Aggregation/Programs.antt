-- ===== src/Aggregation/Programs.antt =====
-- The programs that are proved with SP1, aggregation_mode/aggregation_programs/sp1/src
-- (user_proofs_aggregator_main.rs, chunk_aggregator_main.rs), and the service that has them proved,
-- aggregation_mode/src: aggregators/sp1_aggregator.rs, aggregators/mod.rs and backend/mod.rs.
pub mod Roots
use Prim.Native.String.{String}
use aligned_layer.Prelude.{
  ℕ, ◌≡◌, Bool, true, false, ◌&&◌, Option, none, some, List, [], ◌∷◌, ◌++◌, map, all, length, leb,
  ◌==◌, if◌then◌else◌, take, concat, chunks, Run, done, panic, ◌>>=◌, unwrap, Result, ok, err,
}
use aligned_layer.Sdk.Merkle.{MerkleTree}
use aligned_layer.Aggregation.Blob.{construct_blob}
use aligned_layer.Aggregation.Commitment.{
  Sp1VkAndPubInputs, sp1_commitment, hash_new_parent, id_bytes, sp1, words_to_be_bytes,
}
use aligned_layer.Aggregation.Check.{bytes_eq}

abbrev pub user_proofs_aggregator_program_vk_hash : List ℕ
user_proofs_aggregator_program_vk_hash =
    1783055897 ∷ 486133361 ∷ 187778113 ∷ 1130718359 ∷ 781594768 ∷ 1430967573 ∷ 1107098593
    ∷ 1119970919 ∷ []

-- What is proved and what is not: the package `sp1_sdk`. A program is proved for its input, and the
-- two programs have their verification keys.
pub record Sp1Sdk : Type 1 where
  pub Proof : Type 0
  pub Vk : Type 0
  pub hash_u32 : Vk → List ℕ
  pub hash_bytes : Vk → List ℕ
  -- "The hash as bytes": those of its words.
  pub hash_bytes_lem : (vk : Vk) → hash_bytes vk ≡ words_to_be_bytes (hash_u32 vk)
  pub public_values : Proof → List ℕ
  pub is_compressed : Proof → Bool
  pub user_vk : Vk
  pub chunk_vk : Vk
  pub prove_user : List Sp1VkAndPubInputs → List Proof → Result Proof String
  pub prove_chunk : List (Sp1VkAndPubInputs × List (List ℕ)) → List Proof → Result Proof String
  pub verify : Proof → Vk → Result (Unit {0}) String

pub data Sp1AggregationError : Type 0 where
  verification prove : String → Sp1AggregationError
  unsupported_proof : Sp1AggregationError

module _ (keccak256 : List ℕ → List ℕ) where
  -- The trees over what a program is given and over hashes.
  abbrev pub ProgramTree : Type 1
  ProgramTree = MerkleTree (sp1_commitment keccak256) (hash_new_parent keccak256)

  abbrev pub HashTree : Type 1
  HashTree = MerkleTree (λ leaf. leaf) (hash_new_parent keccak256)

  module _ (program_tree : ProgramTree) (hash_tree : HashTree)
      (verifies : Sp1VkAndPubInputs → Bool) where
    -- `verify_sp1_proof` does not return if the proof does not verify.
    abbrev pub verify_sp1_proof : Sp1VkAndPubInputs → Run (Unit {0})
    verify_sp1_proof proof = if verifies proof then done tt else panic

    abbrev pub verify_all : List Sp1VkAndPubInputs → Run (Unit {0})
    verify_all [] = done tt
    verify_all (proof ∷ proofs) = verify_sp1_proof proof >>= λ _. verify_all proofs

    -- The program that verifies the proofs of a chunk: what it commits.
    unfoldable pub user_proofs_aggregator : List Sp1VkAndPubInputs → Run (List ℕ)
    user_proofs_aggregator proofs_vk_and_pub_inputs = verify_all proofs_vk_and_pub_inputs >>= λ _.
        unwrap (program_tree.build proofs_vk_and_pub_inputs) >>= λ merkle_tree.
        done (program_tree.root merkle_tree)

    abbrev pub assert : Bool → Run (Unit {0})
    assert b = if b then done tt else panic

    -- The loop over the chunks; the result is the leaves.
    abbrev pub verify_chunks :
        List (List ℕ) → List (Sp1VkAndPubInputs × List (List ℕ)) → Run (List (List ℕ))
    verify_chunks leaves [] = done leaves
    verify_chunks leaves ((proof, leaves_commitment) ∷ rest) =
        assert (bytes_eq proof.vk user_proofs_aggregator_program_vk_hash) >>= λ _.
        assert (length proof.public_inputs == 32) >>= λ _.
        unwrap (hash_tree.build leaves_commitment) >>= λ merkle_tree.
        assert (bytes_eq (hash_tree.root merkle_tree) proof.public_inputs) >>= λ _.
        verify_sp1_proof proof >>= λ _. verify_chunks (leaves ++ leaves_commitment) rest

    -- The program that verifies the proofs of all chunks: what it commits.
    unfoldable pub chunk_aggregator : List (Sp1VkAndPubInputs × List (List ℕ)) → Run (List ℕ)
    chunk_aggregator proofs_and_leaves_commitment =
        verify_chunks [] proofs_and_leaves_commitment >>= λ leaves.
        unwrap (hash_tree.build leaves) >>= λ merkle_tree. done (hash_tree.root merkle_tree)

  module _ (sdk : Sp1Sdk) where
    pub record Sp1ProofWithPubValuesAndElf : Type 0 where
      pub proof_with_pub_values : sdk.Proof
      pub vk : sdk.Vk

    unfoldable pub hash_vk_and_pub_inputs : Sp1ProofWithPubValuesAndElf → List ℕ
    hash_vk_and_pub_inputs p =
        keccak256 (id_bytes sp1 ++ sdk.hash_bytes p.vk ++ sdk.public_values p.proof_with_pub_values)

    -- What is written to the input of a program.
    abbrev pub input_of : Sp1ProofWithPubValuesAndElf → Sp1VkAndPubInputs
    input_of p = record {
      vk = sdk.hash_u32 p.vk;
      public_inputs = sdk.public_values p.proof_with_pub_values;
    }

    abbrev pub compressed : Sp1ProofWithPubValuesAndElf → Bool
    compressed p = sdk.is_compressed p.proof_with_pub_values

    abbrev pub verified_again :
        sdk.Vk
        → sdk.Proof
        → Result (Unit {0}) String
        → Result Sp1ProofWithPubValuesAndElf Sp1AggregationError
    verified_again vk proof (err e) = err (verification e)
    verified_again vk proof (ok _) = ok (record { proof_with_pub_values = proof; vk = vk })

    -- A proof is verified once more.
    abbrev pub after_proving :
        sdk.Vk → Result sdk.Proof String → Result Sp1ProofWithPubValuesAndElf Sp1AggregationError
    after_proving vk (err e) = err (prove e)
    after_proving vk (ok proof) = verified_again vk proof (sdk.verify proof vk)

    unfoldable pub run_user_proofs_aggregator :
        List Sp1ProofWithPubValuesAndElf → Result Sp1ProofWithPubValuesAndElf Sp1AggregationError
    run_user_proofs_aggregator proofs =
        if all compressed proofs
        then after_proving sdk.user_vk
            (sdk.prove_user (map input_of proofs) (map (λ p. p.proof_with_pub_values) proofs))
        else err unsupported_proof

    -- A proof of a chunk, with the commitments of its proofs.
    abbrev pub Chunk : Type 0
    Chunk = Sp1ProofWithPubValuesAndElf × List (List ℕ)

    abbrev pub chunk_input : Chunk → Sp1VkAndPubInputs × List (List ℕ)
    chunk_input (p, leaves_commitment) = (input_of p, leaves_commitment)

    unfoldable pub run_chunk_aggregator :
        List Chunk → Result Sp1ProofWithPubValuesAndElf Sp1AggregationError
    run_chunk_aggregator proofs =
        if all (λ c. compressed c.0) proofs
        then after_proving sdk.chunk_vk
            (sdk.prove_chunk (map chunk_input proofs) (map (λ c. c.0.proof_with_pub_values) proofs))
        else err unsupported_proof

    abbrev pub push_chunk :
        List (List ℕ)
        → Result (List Chunk) Sp1AggregationError
        → Result Sp1ProofWithPubValuesAndElf Sp1AggregationError
        → Result (List Chunk) Sp1AggregationError
    push_chunk leaves_commitment rest (err e) = err e
    push_chunk leaves_commitment (err e) (ok agg_proof) = err e
    push_chunk leaves_commitment (ok agg_proofs) (ok agg_proof) =
        ok ((agg_proof, leaves_commitment) ∷ agg_proofs)

    -- The loop over the chunks.
    abbrev pub aggregate_chunks :
        List (List Sp1ProofWithPubValuesAndElf) → Result (List Chunk) Sp1AggregationError
    aggregate_chunks [] = ok []
    aggregate_chunks (chunk ∷ rest) =
        push_chunk (map hash_vk_and_pub_inputs chunk) (aggregate_chunks rest)
          (run_user_proofs_aggregator chunk)

    -- `public_values.read::<[u8; 32]>()`
    abbrev pub read_root :
        Result Sp1ProofWithPubValuesAndElf Sp1AggregationError
        → Run (Result (Sp1ProofWithPubValuesAndElf × List ℕ) Sp1AggregationError)
    read_root (err e) = done (err e)
    read_root (ok agg_proof) =
        let public_values = sdk.public_values agg_proof.proof_with_pub_values in
        if leb 32 (length public_values)
        then done (ok (agg_proof, take 32 public_values))
        else panic

    abbrev pub after_chunks :
        Result (List Chunk) Sp1AggregationError
        → Run (Result (Sp1ProofWithPubValuesAndElf × List ℕ) Sp1AggregationError)
    after_chunks (err e) = done (err e)
    after_chunks (ok agg_proofs) = read_root (run_chunk_aggregator agg_proofs)

    -- `aggregate_proofs` of SP1; `chunks(0)` panics.
    unfoldable pub aggregate_proofs :
        List Sp1ProofWithPubValuesAndElf
        → ℕ
        → Run (Result (Sp1ProofWithPubValuesAndElf × List ℕ) Sp1AggregationError)
    aggregate_proofs proofs proofs_per_chunk =
        if proofs_per_chunk == 0
        then panic
        else after_chunks (aggregate_chunks (chunks proofs_per_chunk proofs))
