-- ===== src/Aggregation/Programs/Roots.antt =====
-- The root that the programs of SP1 commit, and the root that the service computes.
use Prim.Native.String.{String}
use mathlib.Core.List.{append_assoc, append-nil}
use aligned_layer.Prelude.{
  ℕ, ◌≡◌, ◌<◌, refl, sym, ap, ◌∙◌, inl, inr, arith, Bool, Option, none, some, List, [], ◌∷◌, ◌++◌,
  map, all, length, leb, ◌==◌, take, take_all, concat, chunks, chunks_on-Chunked, concat-Chunked,
  Run, done, panic, >>=-eq-done, done-injective, unwrap, Result, ok, err, Bool-cases, eqb→ne,
}
use aligned_layer.Sdk.Merkle.{MerkleTree}
use aligned_layer.Aggregation.Commitment.{Sp1VkAndPubInputs, hash_new_parent}
use aligned_layer.Aggregation.Check.{bytes_eq}
use aligned_layer.Aggregation.Programs.{
  Sp1Sdk, Sp1AggregationError, ProgramTree, HashTree, user_proofs_aggregator_program_vk_hash,
  assert, verify_sp1_proof, verify_chunks, chunk_aggregator, Sp1ProofWithPubValuesAndElf,
  hash_vk_and_pub_inputs, compressed, verified_again, after_proving, Chunk, chunk_input, push_chunk,
  run_user_proofs_aggregator, run_chunk_aggregator, unsupported_proof, aggregate_chunks, read_root,
  after_chunks, aggregate_proofs,
}

-- The leaves of all chunks.
abbrev pub all_leaves : {A : Type 0} → List (A × List (List ℕ)) → List (List ℕ)
all_leaves [] = []
all_leaves ((_, leaves) ∷ rest) = leaves ++ all_leaves rest

unwrap-eq-done : {A : Type 0} (o : Option A) (a : A) → unwrap o ≡ done a → o ≡ some a
unwrap-eq-done none a h = cc
unwrap-eq-done (some b) a h = ap some (done-injective h)

map-append : {A B : Type 0} (f : A → B) (xs ys : List A) → map f (xs ++ ys) ≡ map f xs ++ map f ys
map-append f [] ys = refl
map-append f (x ∷ xs) ys = ap (λ zs. f x ∷ zs) (map-append f xs ys)

module _ (keccak256 : List ℕ → List ℕ) where
  module _ (program_tree : ProgramTree keccak256) (hash_tree : HashTree keccak256)
      (verifies : Sp1VkAndPubInputs → Bool) where
    verify_chunks-eq-done :
        (leaves out : List (List ℕ)) (cs : List (Sp1VkAndPubInputs × List (List ℕ)))
        → verify_chunks keccak256 program_tree hash_tree verifies leaves cs ≡ done out
        → out ≡ leaves ++ all_leaves cs
    verify_chunks-eq-done leaves out [] h = sym (done-injective h) ∙ sym (append-nil leaves)
    verify_chunks-eq-done leaves out ((proof, own) ∷ rest) h =
        let (_, _, h₁) =
          >>=-eq-done
            (assert keccak256 program_tree hash_tree verifies
              (bytes_eq proof.vk user_proofs_aggregator_program_vk_hash))
            _ h in
        let (_, _, h₂) =
          >>=-eq-done
            (assert keccak256 program_tree hash_tree verifies (length proof.public_inputs == 32)) _
            h₁ in
        let (t, _, h₃) = >>=-eq-done (unwrap (hash_tree.build own)) _ h₂ in
        let (_, _, h₄) =
          >>=-eq-done
            (assert keccak256 program_tree hash_tree verifies
              (bytes_eq (hash_tree.root t) proof.public_inputs))
            _ h₃ in
        let (_, _, h₅) =
          >>=-eq-done (verify_sp1_proof keccak256 program_tree hash_tree verifies proof) _ h₄ in
        verify_chunks-eq-done (leaves ++ own) out rest h₅
        ∙ append_assoc leaves own (all_leaves rest)

    -- The program of the chunks commits the root of the tree of all leaves.
    pub chunk_aggregator-eq-done :
        (cs : List (Sp1VkAndPubInputs × List (List ℕ))) (root : List ℕ)
        → chunk_aggregator keccak256 program_tree hash_tree verifies cs ≡ done root
        → (t : hash_tree.Tree) × (hash_tree.build (all_leaves cs) ≡ some t)
          × (root ≡ hash_tree.root t)
    unfolding chunk_aggregator
    chunk_aggregator-eq-done cs root h =
        let (leaves, looped, h₁) =
          >>=-eq-done (verify_chunks keccak256 program_tree hash_tree verifies [] cs) _ h in
        let (t, built, h₂) = >>=-eq-done (unwrap (hash_tree.build leaves)) _ h₁ in
        (
          t,
          ap hash_tree.build (sym (verify_chunks-eq-done [] leaves cs looped))
              ∙ unwrap-eq-done (hash_tree.build leaves) t built,
          sym (done-injective h₂),
        )

  module _ (sdk : Sp1Sdk) where
    all_leaves-chunk_input :
        (cs : List (Chunk keccak256 sdk))
        → all_leaves (map (chunk_input keccak256 sdk) cs) ≡ all_leaves cs
    all_leaves-chunk_input [] = refl
    all_leaves-chunk_input ((p, leaves) ∷ cs) = ap (λ l. leaves ++ l) (all_leaves-chunk_input cs)

    push_chunk-eq-ok :
        (leaves : List (List ℕ)) (rest : Result (List (Chunk keccak256 sdk)) Sp1AggregationError)
        (r : Result (Sp1ProofWithPubValuesAndElf keccak256 sdk) Sp1AggregationError)
        (out : List (Chunk keccak256 sdk))
        → push_chunk keccak256 sdk leaves rest r ≡ ok out
        → (later : List (Chunk keccak256 sdk)) × (rest ≡ ok later)
          × (all_leaves out ≡ leaves ++ all_leaves later)
    push_chunk-eq-ok leaves rest (err e) out h = cc
    push_chunk-eq-ok leaves (err e) (ok p) out h = cc
    push_chunk-eq-ok leaves (ok later) (ok p) out h =
        let e : (p, leaves) ∷ later ≡ out = cc in (later, refl, ap all_leaves (sym e))

    -- The leaves of the chunks are the commitments of the proofs.
    aggregate_chunks-eq-ok :
        (blocks : List (List (Sp1ProofWithPubValuesAndElf keccak256 sdk)))
        (out : List (Chunk keccak256 sdk))
        → aggregate_chunks keccak256 sdk blocks ≡ ok out
        → all_leaves out ≡ map (hash_vk_and_pub_inputs keccak256 sdk) (concat blocks)
    aggregate_chunks-eq-ok [] out h = let e : [] ≡ out = cc in ap all_leaves (sym e)
    aggregate_chunks-eq-ok (block ∷ rest) out h =
        let own = map (hash_vk_and_pub_inputs keccak256 sdk) block in
        let (later, here, leaves) =
          push_chunk-eq-ok own (aggregate_chunks keccak256 sdk rest)
            (run_user_proofs_aggregator keccak256 sdk block) out h in
        leaves
        ∙ ap (λ l. own ++ l) (aggregate_chunks-eq-ok rest later here)
        ∙ sym (map-append (hash_vk_and_pub_inputs keccak256 sdk) block (concat rest))

    verified_again-eq-ok :
        (vk : sdk.Vk) (proof : sdk.Proof) (r : Result (Unit {0}) String)
        (p : Sp1ProofWithPubValuesAndElf keccak256 sdk)
        → verified_again keccak256 sdk vk proof r ≡ ok p
        → proof ≡ p.proof_with_pub_values
    verified_again-eq-ok vk proof (err e) p h = cc
    verified_again-eq-ok vk proof (ok _) p h =
        let e : record { proof_with_pub_values = proof; vk = vk } ≡ p = cc in
        ap (λ (q : Sp1ProofWithPubValuesAndElf keccak256 sdk). q.proof_with_pub_values) e

    after_proving-eq-ok :
        (vk : sdk.Vk) (r : Result sdk.Proof String) (p : Sp1ProofWithPubValuesAndElf keccak256 sdk)
        → after_proving keccak256 sdk vk r ≡ ok p
        → r ≡ ok p.proof_with_pub_values
    after_proving-eq-ok vk (err e) p h = cc
    after_proving-eq-ok vk (ok proof) p h =
        ap ok (verified_again-eq-ok vk proof (sdk.verify proof vk) p h)

    -- A proof of the chunks was made by the prover.
    run_chunk_aggregator-eq-ok :
        (cs : List (Chunk keccak256 sdk)) (p : Sp1ProofWithPubValuesAndElf keccak256 sdk)
        → run_chunk_aggregator keccak256 sdk cs ≡ ok p
        → sdk.prove_chunk
            (map (chunk_input keccak256 sdk) cs)
            (map (λ c. c.0.proof_with_pub_values) cs)
          ≡ ok p.proof_with_pub_values
    unfolding run_chunk_aggregator
    run_chunk_aggregator-eq-ok cs p h =
        elim (Bool-cases (all (λ c. compressed keccak256 sdk c.0) cs)) [
          | inr mixed ↦
              let f : ◌≡◌
                  {A = Result (Sp1ProofWithPubValuesAndElf keccak256 sdk) Sp1AggregationError}
                  (err unsupported_proof) (ok p) =
                rw mixed at h in
              cc
          | inl fine ↦ after_proving-eq-ok sdk.chunk_vk _ p (rw fine at h)
        ]

    read_root-eq-ok :
        (r : Result (Sp1ProofWithPubValuesAndElf keccak256 sdk) Sp1AggregationError)
        (p : Sp1ProofWithPubValuesAndElf keccak256 sdk) (root : List ℕ)
        → read_root keccak256 sdk r ≡ done (ok (p, root))
        → (r ≡ ok p) × (root ≡ take 32 (sdk.public_values p.proof_with_pub_values))
    read_root-eq-ok (err e) p root h = cc
    read_root-eq-ok (ok q) p root h =
        let values = sdk.public_values q.proof_with_pub_values in
        elim (Bool-cases (leb 32 (length values))) [
          | inr short ↦ cc
          | inl long ↦
              let f : ◌≡◌
                  {A = Run (
                    Result (Sp1ProofWithPubValuesAndElf keccak256 sdk × List ℕ)
                      Sp1AggregationError)}
                  (done (ok (q, take 32 values))) (done (ok (p, root))) =
                rw long at h in
              let e : q ≡ p = cc in
              let e' : take 32 values ≡ root = cc in
              (
                ap ok e,
                sym e'
                    ∙ ap
                        (λ (z : Sp1ProofWithPubValuesAndElf keccak256 sdk).
                          take 32 (sdk.public_values z.proof_with_pub_values))
                        e,
              )
        ]

    after_chunks-eq-ok :
        (r : Result (List (Chunk keccak256 sdk)) Sp1AggregationError)
        (p : Sp1ProofWithPubValuesAndElf keccak256 sdk) (root : List ℕ)
        → after_chunks keccak256 sdk r ≡ done (ok (p, root))
        → (cs : List (Chunk keccak256 sdk)) × (r ≡ ok cs)
          × (run_chunk_aggregator keccak256 sdk cs ≡ ok p)
          × (root ≡ take 32 (sdk.public_values p.proof_with_pub_values))
    after_chunks-eq-ok (err e) p root h = cc
    after_chunks-eq-ok (ok cs) p root h =
        let (run, read) = read_root-eq-ok (run_chunk_aggregator keccak256 sdk cs) p root h in
        (cs, refl, run, read)

    -- The program is proved for its input, and the root of a tree depends on the hashes of its leaves.
    module _ (program_tree : ProgramTree keccak256) (hash_tree : HashTree keccak256)
        (verifies : Sp1VkAndPubInputs → Bool)
        (tree : MerkleTree (hash_vk_and_pub_inputs keccak256 sdk) (hash_new_parent keccak256))
        (proves : (input : List (Sp1VkAndPubInputs × List (List ℕ))) (proofs : List sdk.Proof)
            (p : sdk.Proof)
          → sdk.prove_chunk input proofs ≡ ok p
          → chunk_aggregator keccak256 program_tree hash_tree verifies input
            ≡ done (sdk.public_values p))
        (root_size : (t : hash_tree.Tree) → length (hash_tree.root t) ≡ 32)
        (same_root : (proofs : List (Sp1ProofWithPubValuesAndElf keccak256 sdk)) (t : tree.Tree)
            (t' : hash_tree.Tree)
          → tree.build proofs ≡ some t
          → hash_tree.build (map (hash_vk_and_pub_inputs keccak256 sdk) proofs) ≡ some t'
          → tree.root t ≡ hash_tree.root t') where
      pub aggregate_proofs-root :
          (proofs : List (Sp1ProofWithPubValuesAndElf keccak256 sdk)) (proofs_per_chunk : ℕ)
          (p : Sp1ProofWithPubValuesAndElf keccak256 sdk) (zkvm_merkle_root : List ℕ)
          (t : tree.Tree)
          → aggregate_proofs keccak256 sdk proofs proofs_per_chunk ≡ done (ok (p, zkvm_merkle_root))
          → tree.build proofs ≡ some t
          → zkvm_merkle_root ≡ tree.root t
      unfolding aggregate_proofs
      aggregate_proofs-root proofs k p zkvm_merkle_root t h built = elim (Bool-cases (k == 0)) [
        | inl zero ↦
            let f : ◌≡◌
                {A = Run
                  (Result (Sp1ProofWithPubValuesAndElf keccak256 sdk × List ℕ) Sp1AggregationError)}
                panic (done (ok (p, zkvm_merkle_root))) =
              rw zero at h in
            cc
        | inr some_size ↦
            let positive : 0 < k = let k≢0 = eqb→ne k 0 some_size in omega arith in
            let (cs, made, run, read) =
              after_chunks-eq-ok (aggregate_chunks keccak256 sdk (chunks k proofs)) p
                zkvm_merkle_root (rw some_size at h) in
            let program =
              proves (map (chunk_input keccak256 sdk) cs) (map (λ c. c.0.proof_with_pub_values) cs)
                p.proof_with_pub_values (run_chunk_aggregator-eq-ok cs p run) in
            let (t', whole, root) =
              chunk_aggregator-eq-done program_tree hash_tree verifies
                (map (chunk_input keccak256 sdk) cs) (sdk.public_values p.proof_with_pub_values)
                program in
            let leaves : all_leaves (map (chunk_input keccak256 sdk) cs)
                ≡ map (hash_vk_and_pub_inputs keccak256 sdk) proofs =
              all_leaves-chunk_input cs
              ∙ aggregate_chunks-eq-ok (chunks k proofs) cs made
              ∙ ap (map (hash_vk_and_pub_inputs keccak256 sdk)) (
                  concat-Chunked
                    (chunks_on-Chunked (length proofs) k proofs positive (omega arith))) in
            read
            ∙ ap (take 32) root
            ∙ take_all 32 (hash_tree.root t') (omega (arith, root_size t'))
            ∙ sym (same_root proofs t t' built (ap hash_tree.build (sym leaves) ∙ whole))
      ]
