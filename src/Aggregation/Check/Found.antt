-- ===== src/Aggregation/Check/Found.antt =====
-- A client and the aggregations that the service has posted.
use aligned_layer.Prelude.{
  ℕ, suc, ◌*◌, ◌≤◌, ◌<◌, ◌≡◌, ◌≢◌, inl, inr, refl, sym, ap, subst, ◌∙◌, arith, true, false, Option,
  none, some, List, [], ◌∷◌, length, get_elem?, done, ◌>>=◌, ok, Bool-cases, Option-cases, eq_self,
  done-injective,
}
use aligned_layer.Sdk.Merkle.{MerkleTree}
use aligned_layer.Aggregation.Blob.{construct_blob, decoded_blob}
use aligned_layer.Aggregation.Blob.Payload.{AllLeaves}
use aligned_layer.Aggregation.Blob.Decoded.{construct_blob-decoded_blob}
use aligned_layer.Aggregation.Commitment.{
  hash_new_parent, data_commitment, AggregationModeVerificationData,
}
use aligned_layer.Aggregation.Check.{
  Log, Nodes, ProofStatus, verified, not_found, Fallible, bytes_eq, position,
  get_blob_data_from_verified_proof_event, with_position, with_leaves, check_logs, with_logs,
  fetch_verified_proofs_events, check_proof_verification,
}
use aligned_layer.Aggregation.Check.Honest.{
  Carries, get_blob_data_from_verified_proof_event-Carries,
}
use aligned_layer.Aggregation.Check.Verified.{position-eq-some}

pub bytes_eq_self : (xs : List ℕ) → bytes_eq xs xs ≡ true
bytes_eq_self [] = refl
bytes_eq_self (x ∷ xs) = rw (eq_self x) (bytes_eq_self xs)

nowhere_in_cons :
    (c x : List ℕ) (leaves : List (List ℕ))
    → position c (x ∷ leaves) ≡ none
    → (bytes_eq x c ≡ false) × (position c leaves ≡ none)
nowhere_in_cons c x leaves h = elim (Bool-cases (bytes_eq x c)) [
  | inl same ↦ let f : ◌≡◌ {A = Option ℕ} (some 0) none = rw same at h in cc
  | inr differ ↦ elim (Option-cases (position c leaves)) [
    | inr (i, later) ↦
        let f : ◌≡◌ {A = Option ℕ} (some (suc i)) none = rw (differ, later) at h in cc
    | inl nothing ↦ (differ, nothing)
  ]
]

-- Without a position, the commitment is nowhere.
position-eq-none :
    (c : List ℕ) (leaves : List (List ℕ)) (pos : ℕ)
    → position c leaves ≡ none
    → get_elem? leaves pos ≢ some c
position-eq-none c [] pos h e = cc
position-eq-none c (x ∷ leaves) ℕ.zero h e =
    let same : x ≡ c = cc in
    let f : bytes_eq c c ≡ false =
      subst (λ y. bytes_eq y c ≡ false) same (nowhere_in_cons c x leaves h).0 in
    let t : bytes_eq c c ≡ true = bytes_eq_self c in cc
position-eq-none c (x ∷ leaves) (suc i) h e =
    position-eq-none c leaves i (nowhere_in_cons c x leaves h).1 e

get_elem?-below :
    {A : Type 0} (xs : List A) (i : ℕ) (x : A) → get_elem? xs i ≡ some x → i < length xs
get_elem?-below [] i x e = cc
get_elem?-below (y ∷ xs) ℕ.zero x e = omega arith
get_elem?-below (y ∷ xs) (suc i) x e = omega (arith, get_elem?-below xs i x e)

module _ (nodes : Nodes) (keccak256 : List ℕ → List ℕ)
    (tree : MerkleTree (λ leaf. leaf) (hash_new_parent keccak256))
    (field_elements_per_blob : ℕ) where
  -- An event of the service: its blob was made of the leaves, its root is that of their tree, and the
  -- nodes still have the blob.
  pub record Posted (log : Log) (leaves : List (List ℕ)) : Type 0 where
    pub merkle_tree : tree.Tree
    pub built : tree.build leaves ≡ some merkle_tree
    pub hashes : AllLeaves leaves
    pub room : 32 * length leaves ≤ 31 * field_elements_per_blob
    pub blob_bytes : List ℕ
    pub written : construct_blob field_elements_per_blob leaves ≡ done blob_bytes
    pub carries : Carries nodes log (tree.root merkle_tree) blob_bytes

  pub data AllPosted : List Log → List (List (List ℕ)) → Type 0 where
    no_event : AllPosted [] []
    next_event :
        (log : Log) (leaves : List (List ℕ)) (logs : List Log) (rest : List (List (List ℕ)))
        → Posted log leaves
        → AllPosted logs rest
        → AllPosted (log ∷ logs) (leaves ∷ rest)

  -- The answer for a commitment: its path in the first aggregation that has it, if there is one.
  pub data Answer (c : List ℕ) : List (List (List ℕ)) → Fallible ProofStatus → Type 0 where
    nowhere : Answer c [] (done (ok not_found))
    in_first :
        (leaves : List (List ℕ)) (rest : List (List (List ℕ))) (t : tree.Tree) (pos : ℕ)
        (merkle_path : List (List ℕ))
        → tree.build leaves ≡ some t
        → get_elem? leaves pos ≡ some c
        → tree.get_proof_by_pos t pos ≡ some merkle_path
        → Answer c (leaves ∷ rest) (done (ok (verified (tree.root t) merkle_path)))
    in_later :
        (leaves : List (List ℕ)) (rest : List (List (List ℕ))) (r : Fallible ProofStatus)
        → ((pos : ℕ) → get_elem? leaves pos ≢ some c)
        → Answer c rest r
        → Answer c (leaves ∷ rest) r

  Posted-leaves :
      (log : Log) (leaves : List (List ℕ)) (p : Posted log leaves)
      → get_blob_data_from_verified_proof_event nodes log
        ≡ done (ok (tree.root p.merkle_tree, leaves))
  Posted-leaves log leaves p =
      let (blob, run, _, reads) =
        construct_blob-decoded_blob field_elements_per_blob leaves p.hashes p.room in
      let same : blob ≡ p.blob_bytes = done-injective (sym run ∙ p.written) in
      get_blob_data_from_verified_proof_event-Carries nodes log (tree.root p.merkle_tree)
        p.blob_bytes p.carries
      ∙ ap (λ l. done (ok (tree.root p.merkle_tree, l))) (ap decoded_blob (sym same) ∙ reads)

  first_or_later :
      (c : List ℕ) (log : Log) (leaves : List (List ℕ)) (rest : List (List (List ℕ)))
      (continue : Fallible ProofStatus) (p : Posted log leaves)
      → Answer c rest continue
      → Answer c (leaves ∷ rest) (
          with_position nodes keccak256 tree continue c
            (tree.root p.merkle_tree)
            leaves
            (position c leaves))
  first_or_later c log leaves rest continue p next = elim (Option-cases (position c leaves)) [
    | inl nothing ↦
        rw nothing
          (in_later leaves rest continue (λ pos. position-eq-none c leaves pos nothing) next)
    | inr (pos, at) ↦
        let there : get_elem? leaves pos ≡ some c = position-eq-some c leaves pos at in
        let (path, proof) =
          tree.proof_some leaves p.merkle_tree pos p.built (get_elem?-below leaves pos c there) in
        let passes : tree.verify path (tree.root p.merkle_tree) pos c ≡ true =
          tree.verify_proof leaves p.merkle_tree pos c path p.built there proof in
        rw (at, p.built, proof, passes)
          (in_first leaves rest p.merkle_tree pos path p.built there proof)
  ]

  check_logs-Answer :
      (c : List ℕ) (logs : List Log) (aggregations : List (List (List ℕ)))
      → AllPosted logs aggregations
      → Answer c aggregations (check_logs nodes keccak256 tree c logs)
  unfolding check_logs
  check_logs-Answer c _ _ no_event = nowhere
  check_logs-Answer c _ _ (next_event log leaves logs rest p ps) =
      let continue = check_logs nodes keccak256 tree c logs in
      subst
        (λ (m : Fallible (List ℕ × List (List ℕ))).
          Answer c (leaves ∷ rest) (m >>= λ r. with_leaves nodes keccak256 tree continue c r))
        (sym (Posted-leaves log leaves p))
        (first_or_later c log leaves rest continue p (check_logs-Answer c logs rest ps))

  -- If the events that are fetched are those of aggregations, each with the root of the tree of
  -- its leaves and the blob that was made of them, which the nodes still have, and the leaves
  -- fit the blob and are no zero hashes, then the answer is the path of the proof in the first
  -- aggregation that has its commitment, with the root of that aggregation, and that it is not
  -- found if none has it; it is never an error and never says that the proof is invalid.
  pub check_proof_verification-Answer :
      (verification_data : AggregationModeVerificationData) (from_block : Option ℕ)
      (logs : List Log) (aggregations : List (List (List ℕ)))
      → fetch_verified_proofs_events nodes from_block ≡ ok logs
      → AllPosted logs aggregations
      → Answer
          (data_commitment keccak256 verification_data)
          aggregations
          (check_proof_verification nodes keccak256 tree verification_data from_block)
  unfolding check_proof_verification
  check_proof_verification-Answer verification_data from_block logs aggregations fetched posted =
      subst
        (λ o.
          Answer (data_commitment keccak256 verification_data) aggregations
            (with_logs nodes keccak256 tree (data_commitment keccak256 verification_data) o))
        (sym fetched)
        (check_logs-Answer (data_commitment keccak256 verification_data) logs aggregations posted)
