-- ===== src/Sdk/Merkle.antt =====
-- crates/sdk/src/common/types.rs: the Merkle tree over the commitments of a batch, and what a client
-- is told about its place in it. The tree belongs to the package `lambdaworks_crypto`; its interface
-- takes the hash functions of `VerificationCommitmentBatch`.
use aligned_layer.Prelude.{
  ℕ, ◌/◌, ◌%◌, ◌^◌, ◌<◌, ◌≡◌, Bool, true, Option, none, some, List, [], ◌∷◌, ◌++◌, length,
  get_elem?, Run, ◌>>=◌, done, unwrap,
}
use aligned_layer.Sdk.Types.{VerificationDataCommitment, BatchInclusionData}

-- The last `n` bytes of a number, the highest first.
abbrev to_bytes : ℕ → ℕ → List ℕ
to_bytes ℕ.zero number = []
to_bytes (ℕ.suc n) number = number / 256 ^ n % 256 ∷ to_bytes n number

module _ (keccak256 : List ℕ → List ℕ) where
  -- `VerificationCommitmentBatch::hash_data`
  unfoldable pub hash_data : VerificationDataCommitment → List ℕ
  hash_data leaf = keccak256 (
      leaf.proof_commitment
      ++ leaf.pub_input_commitment
      ++ leaf.proving_system_aux_data_commitment
      ++ to_bytes 20 leaf.proof_generator_addr)

  -- `VerificationCommitmentBatch::hash_new_parent`
  unfoldable pub hash_new_parent : List ℕ → List ℕ → List ℕ
  hash_new_parent child_1 child_2 = keccak256 (child_1 ++ child_2)

-- The operations that the batcher and its clients call, over the two hash functions of a backend,
-- and their documented behaviour.
pub record MerkleTree {Data : Type 0} (hash_leaf : Data → List ℕ)
    (hash_parent : List ℕ → List ℕ → List ℕ) : Type 1 where
  pub Tree : Type 0
  pub build : List Data → Option Tree
  pub root : Tree → List ℕ
  pub get_proof_by_pos : Tree → ℕ → Option (List (List ℕ))
  pub verify : List (List ℕ) → List ℕ → ℕ → Data → Bool
  -- "Creates a Merkle tree from a list of unhashed leaves. Returns `None` if there is none."
  pub build_none : build [] ≡ none
  pub build_some : (x : Data) (xs : List Data) → (t : Tree) × (build (x ∷ xs) ≡ some t)
  -- "Returns a Merkle proof for the element at the position."
  pub proof_some :
      (xs : List Data) (t : Tree) (i : ℕ)
      → build xs ≡ some t
      → i < length xs
      → (p : List (List ℕ)) × (get_proof_by_pos t i ≡ some p)
  -- "Verifies a Merkle proof of inclusion": that of a leaf passes, at the position of the leaf.
  pub verify_proof :
      (xs : List Data) (t : Tree) (i : ℕ) (x : Data) (p : List (List ℕ))
      → build xs ≡ some t
      → get_elem? xs i ≡ some x
      → get_proof_by_pos t i ≡ some p
      → verify p (root t) i x ≡ true

-- The tree of a batch.
abbrev pub BatchTree : (List ℕ → List ℕ) → Type 1
BatchTree keccak256 = MerkleTree (hash_data keccak256) (hash_new_parent keccak256)

-- `BatchInclusionData::new`
unfoldable pub new_batch_inclusion_data :
    (keccak256 : List ℕ → List ℕ) (mt : BatchTree keccak256)
    → ℕ
    → mt.Tree
    → ℕ
    → Run BatchInclusionData
new_batch_inclusion_data keccak256 mt verification_data_batch_index batch_merkle_tree user_nonce =
    unwrap (mt.get_proof_by_pos batch_merkle_tree verification_data_batch_index) >>= λ proof.
    done (record {
      batch_merkle_root = mt.root batch_merkle_tree;
      batch_inclusion_proof = proof;
      index_in_batch = verification_data_batch_index;
      user_nonce = user_nonce;
    })
