-- ===== src/Aggregation/Service/Agrees.antt =====
-- The service and the programs agree on the root of an aggregation.
use aligned_layer.Prelude.{
  ℕ, ◌≡◌, ◌≢◌, refl, sym, ap, ◌∙◌, Bool, true, Option, none, some, List, [], ◌∷◌, map, length, done,
  >>=-eq-done, done-injective, Result, ok, err,
}
use aligned_layer.Sdk.Merkle.{MerkleTree}
use aligned_layer.Aggregation.Blob.{construct_blob}
use aligned_layer.Aggregation.Commitment.{Sp1VkAndPubInputs, hash_new_parent}
use aligned_layer.Aggregation.Check.{bytes_eq}
use aligned_layer.Aggregation.Check.Found.{bytes_eq_self}
use aligned_layer.Aggregation.Programs.{
  Sp1Sdk, Sp1ProofWithPubValuesAndElf, Sp1AggregationError, ProgramTree, HashTree, chunk_aggregator,
  aggregate_proofs, hash_vk_and_pub_inputs,
}
use aligned_layer.Aggregation.Programs.Roots.{aggregate_proofs-root}
use aligned_layer.Aggregation.Fetcher.{ProofsFetcherError}
use aligned_layer.Aggregation.Service.{
  SendError, no_commitment, no_proof, no_versioned_hash, transaction, merkle_root_mismatch,
  compute_proofs_merkle_root, with_leaves_of, sent_result, with_aggregated, with_merkle_root,
  with_fetched, Proofs, aggregate_and_submit_proofs_on_chain,
}

module _ (keccak256 : List ℕ → List ℕ) (sdk : Sp1Sdk) (program_tree : ProgramTree keccak256)
    (hash_tree : HashTree keccak256) (verifies : Sp1VkAndPubInputs → Bool)
    (tree : MerkleTree (hash_vk_and_pub_inputs keccak256 sdk) (hash_new_parent keccak256))
    (proves : (input : List (Sp1VkAndPubInputs × List (List ℕ))) (proofs : List sdk.Proof)
        (p : sdk.Proof)
      → sdk.prove_chunk input proofs ≡ ok p
      → chunk_aggregator keccak256 program_tree hash_tree verifies input
        ≡ done (sdk.public_values p))
    (root_size : (t : hash_tree.Tree) → length (hash_tree.root t) ≡ 32)
    (same_root : (proofs : List (Sp1ProofWithPubValuesAndElf keccak256 sdk)) (t : tree.Tree)
        (t' : hash_tree.Tree)
      → tree.build proofs ≡ some t
      → hash_tree.build (map (hash_vk_and_pub_inputs keccak256 sdk) proofs) ≡ some t'
      → tree.root t ≡ hash_tree.root t')
    (field_elements_per_blob : ℕ)
    (send : List ℕ → Sp1ProofWithPubValuesAndElf keccak256 sdk → Result (Unit {0}) SendError) where
  sent_result-ne-mismatch :
      (r : Result (Unit {0}) SendError)
      → sent_result keccak256 sdk tree field_elements_per_blob send r ≢ err merkle_root_mismatch
  sent_result-ne-mismatch (ok _) h = cc
  sent_result-ne-mismatch (err no_commitment) h = cc
  sent_result-ne-mismatch (err no_proof) h = cc
  sent_result-ne-mismatch (err no_versioned_hash) h = cc
  sent_result-ne-mismatch (err (transaction e)) h = cc

  with_aggregated-ne-mismatch :
      (proofs : Proofs keccak256 sdk tree field_elements_per_blob send) (proofs_per_chunk : ℕ)
      (t : tree.Tree) (leaves : List (List ℕ))
      (r : Result (Sp1ProofWithPubValuesAndElf keccak256 sdk × List ℕ) Sp1AggregationError)
      → aggregate_proofs keccak256 sdk proofs proofs_per_chunk ≡ done r
      → tree.build proofs ≡ some t
      → with_aggregated keccak256 sdk tree field_elements_per_blob send (tree.root t) leaves r
        ≢ done (err merkle_root_mismatch)
  with_aggregated-ne-mismatch proofs k t leaves (err e) run built h = cc
  with_aggregated-ne-mismatch proofs k t leaves (ok (p, root)) run built h =
      let agree : root ≡ tree.root t =
        aggregate_proofs-root keccak256 sdk program_tree hash_tree verifies tree proves root_size
          same_root proofs k p root t run built in
      let same : bytes_eq root (tree.root t) ≡ true =
        ap (bytes_eq root) (sym agree) ∙ bytes_eq_self root in
      let (blob, _, h') =
        >>=-eq-done (construct_blob field_elements_per_blob leaves)
          (λ blob. done (sent_result keccak256 sdk tree field_elements_per_blob send (send blob p)))
          (rw same at h) in
      sent_result-ne-mismatch (send blob p) (done-injective h')

  with_merkle_root-ne-mismatch :
      (proofs : Proofs keccak256 sdk tree field_elements_per_blob send) (proofs_per_chunk : ℕ)
      (o : Option tree.Tree)
      → tree.build proofs ≡ o
      → with_merkle_root keccak256 sdk tree field_elements_per_blob send proofs proofs_per_chunk
          (with_leaves_of keccak256 sdk tree field_elements_per_blob send proofs o)
        ≢ done (err merkle_root_mismatch)
  with_merkle_root-ne-mismatch proofs k none built h = cc
  with_merkle_root-ne-mismatch proofs k (some t) built h =
      let leaves = map (hash_vk_and_pub_inputs keccak256 sdk) proofs in
      let (r, run, rest) =
        >>=-eq-done (aggregate_proofs keccak256 sdk proofs k)
          (with_aggregated keccak256 sdk tree field_elements_per_blob send (tree.root t) leaves)
          h in
      with_aggregated-ne-mismatch proofs k t leaves r run built rest

  with_fetched-ne-mismatch :
      (proofs_per_chunk : ℕ)
      (fetched : Result (Proofs keccak256 sdk tree field_elements_per_blob send) ProofsFetcherError)
      → with_fetched keccak256 sdk tree field_elements_per_blob send proofs_per_chunk fetched
        ≢ done (err merkle_root_mismatch)
  unfolding compute_proofs_merkle_root
  with_fetched-ne-mismatch k (err e) h = cc
  with_fetched-ne-mismatch k (ok []) h = cc
  with_fetched-ne-mismatch k (ok (p ∷ ps)) h =
      with_merkle_root-ne-mismatch (p ∷ ps) k (tree.build (p ∷ ps)) refl h

  -- If a proof of the chunks has as its public values what the program of the chunks commits for
  -- its input, a root has 32 bytes, and trees of the same leaf hashes have the same root, then
  -- the service never ends with the error that the root of the program and its own root differ,
  -- whatever was fetched, however the proofs are parted into chunks and whatever becomes of the
  -- blob.
  pub aggregate_and_submit_proofs_on_chain-ne-mismatch :
      (proofs_per_chunk : ℕ)
      (fetched : Result (Proofs keccak256 sdk tree field_elements_per_blob send) ProofsFetcherError)
      → aggregate_and_submit_proofs_on_chain keccak256 sdk tree field_elements_per_blob send
          proofs_per_chunk fetched
        ≢ done (err merkle_root_mismatch)
  unfolding aggregate_and_submit_proofs_on_chain
  aggregate_and_submit_proofs_on_chain-ne-mismatch = with_fetched-ne-mismatch
