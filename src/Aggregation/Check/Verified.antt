-- ===== src/Aggregation/Check/Verified.antt =====
-- What `check_proof_verification` answers.
use aligned_layer.Prelude.{
  ℕ, suc, ◌≡◌, ◌⊎◌, inl, inr, refl, ap, subst, ◌∙◌, true, Option, none, some, List, [], ◌∷◌, ◌==◌,
  get_elem?, done, Result, ok, err, Bool-cases, Option-cases, and_both, eqb→eq, >>=-eq-done,
}
use aligned_layer.Sdk.Merkle.{MerkleTree}
use aligned_layer.Aggregation.Commitment.{
  hash_new_parent, data_commitment, AggregationModeVerificationData,
}
use aligned_layer.Aggregation.Check.{
  ProofVerificationAggModeError, Log, Nodes, ProofStatus, verified, invalid, Fallible, bytes_eq,
  position, get_blob_data_from_verified_proof_event, with_proof_at, with_merkle_tree, with_position,
  with_leaves, check_logs, with_logs, fetch_verified_proofs_events, check_proof_verification,
}

pub bytes_eq→eq : (xs ys : List ℕ) → bytes_eq xs ys ≡ true → xs ≡ ys
bytes_eq→eq [] [] h = refl
bytes_eq→eq [] (y ∷ ys) h = cc
bytes_eq→eq (x ∷ xs) [] h = cc
bytes_eq→eq (x ∷ xs) (y ∷ ys) h =
    let (first, rest) = and_both (x == y) (bytes_eq xs ys) h in
    let head : x ≡ y = eqb→eq x y first in let tail : xs ≡ ys = bytes_eq→eq xs ys rest in cc

-- The position is that of the commitment.
pub position-eq-some :
    (c : List ℕ) (leaves : List (List ℕ)) (pos : ℕ)
    → position c leaves ≡ some pos
    → get_elem? leaves pos ≡ some c
position-eq-some c [] pos h = cc
position-eq-some c (x ∷ leaves) pos h = elim (Bool-cases (bytes_eq x c)) [
  | inl same ↦
      let e : x ≡ c = bytes_eq→eq x c same in
      let first : some 0 ≡ some pos = rw same at h in
      let zero : 0 ≡ pos = cc in subst (λ i. get_elem? (x ∷ leaves) i ≡ some c) zero (ap some e)
  | inr differ ↦ elim (Option-cases (position c leaves)) [
    | inl nothing ↦ let f : none ≡ some pos = rw (differ, nothing) at h in cc
    | inr (i, later) ↦
        let f : some (suc i) ≡ some pos = rw (differ, later) at h in
        let next : suc i ≡ pos = cc in
        subst (λ i. get_elem? (x ∷ leaves) i ≡ some c) next (position-eq-some c leaves i later)
  ]
]

module _ (nodes : Nodes) (keccak256 : List ℕ → List ℕ)
    (tree : MerkleTree (λ leaf. leaf) (hash_new_parent keccak256)) where
  -- An event among the ones that are read says so: the commitment is a leaf of its blob, and the path
  -- leads from it to the root of the event.
  pub record Confirms (c merkle_root : List ℕ) (merkle_path : List (List ℕ)) (log : Log)
      : Type 0 where
    pub leaves : List (List ℕ)
    pub pos : ℕ
    pub read : get_blob_data_from_verified_proof_event nodes log ≡ done (ok (merkle_root, leaves))
    pub leaf : get_elem? leaves pos ≡ some c
    pub passes : tree.verify merkle_path merkle_root pos c ≡ true

  pub data Confirmed (c merkle_root : List ℕ) (merkle_path : List (List ℕ))
      : List Log → Type 0 where
    here :
        (log : Log) (logs : List Log)
        → Confirms c merkle_root merkle_path log
        → Confirmed c merkle_root merkle_path (log ∷ logs)
    later :
        (log : Log) (logs : List Log)
        → Confirmed c merkle_root merkle_path logs
        → Confirmed c merkle_root merkle_path (log ∷ logs)

  -- The place in the blob of one event.
  with_proof_at_cases :
      (continue : Fallible ProofStatus) (c root merkle_root : List ℕ) (pos : ℕ)
      (o : Option (List (List ℕ))) (merkle_path : List (List ℕ))
      → with_proof_at nodes keccak256 tree continue c root pos o
        ≡ done (ok (verified merkle_root merkle_path))
      → (continue ≡ done (ok (verified merkle_root merkle_path)))
        ⊎ ((root ≡ merkle_root) × (tree.verify merkle_path merkle_root pos c ≡ true))
  with_proof_at_cases continue c root merkle_root pos none path h = inl h
  with_proof_at_cases continue c root merkle_root pos (some proof) path h =
      elim (Bool-cases (tree.verify proof root pos c)) [
        | inr fails ↦
            let f : done (ok invalid) ≡ done (ok (verified merkle_root path)) = rw fails at h in
            inl cc
        | inl passes ↦
            let f : done (ok (verified root proof)) ≡ done (ok (verified merkle_root path)) =
              rw passes at h in
            let e : root ≡ merkle_root = cc in let e' : proof ≡ path = cc in inr (e, cc)
      ]

  with_position_cases :
      (continue : Fallible ProofStatus) (c root merkle_root : List ℕ) (leaves : List (List ℕ))
      (merkle_path : List (List ℕ))
      → with_position nodes keccak256 tree continue c root leaves (position c leaves)
        ≡ done (ok (verified merkle_root merkle_path))
      → (continue ≡ done (ok (verified merkle_root merkle_path)))
        ⊎ ((root ≡ merkle_root)
            × ((pos : ℕ) × (get_elem? leaves pos ≡ some c)
                × (tree.verify merkle_path merkle_root pos c ≡ true)))
  with_position_cases continue c root merkle_root leaves path h =
      elim (Option-cases (position c leaves)) [
        | inl nothing ↦ inl (rw nothing at h)
        | inr (pos, at) ↦
            let f : with_merkle_tree nodes keccak256 tree continue c root pos (tree.build leaves)
                ≡ done (ok (verified merkle_root path)) =
              rw at at h in
            elim (Option-cases (tree.build leaves)) [
              | inl nothing ↦ inl (rw nothing at f)
              | inr (t, built) ↦
                  let g : with_proof_at nodes keccak256 tree continue c root pos
                        (tree.get_proof_by_pos t pos)
                      ≡ done (ok (verified merkle_root path)) =
                    rw built at f in
                  elim (with_proof_at_cases continue c root merkle_root pos
                    (tree.get_proof_by_pos t pos) path g) [
                      | inl next ↦ inl next
                      | inr (e, passes) ↦ inr (e, (pos, position-eq-some c leaves pos at, passes))
                    ]
            ]
      ]

  one_event :
      (c merkle_root : List ℕ) (merkle_path : List (List ℕ)) (log : Log) (logs : List Log)
      (r : Result (List ℕ × List (List ℕ)) ProofVerificationAggModeError)
      → get_blob_data_from_verified_proof_event nodes log ≡ done r
      → with_leaves nodes keccak256 tree (check_logs nodes keccak256 tree c logs) c r
        ≡ done (ok (verified merkle_root merkle_path))
      → (check_logs nodes keccak256 tree c logs ≡ done (ok (verified merkle_root merkle_path))
          → Confirmed c merkle_root merkle_path logs)
      → Confirmed c merkle_root merkle_path (log ∷ logs)
  one_event c merkle_root path log logs (err e) read rest next = cc
  one_event c merkle_root path log logs (ok (root, leaves)) read rest next =
      elim (with_position_cases (check_logs nodes keccak256 tree c logs) c root merkle_root leaves
        path rest) [
          | inl go_on ↦ later log logs (next go_on)
          | inr (e, (pos, leaf, passes)) ↦ here log logs (record {
            leaves = leaves;
            pos = pos;
            read = read ∙ ap (λ r. done (ok (r, leaves))) e;
            leaf = leaf;
            passes = passes;
          })
        ]

  -- A proof is said to be verified only with a path that leads from it to the root of an event.
  pub check_logs-Confirmed :
      (c merkle_root : List ℕ) (merkle_path : List (List ℕ)) (logs : List Log)
      → check_logs nodes keccak256 tree c logs ≡ done (ok (verified merkle_root merkle_path))
      → Confirmed c merkle_root merkle_path logs
  unfolding check_logs
  check_logs-Confirmed c merkle_root path [] h = cc
  check_logs-Confirmed c merkle_root path (log ∷ logs) h =
      let continue = check_logs nodes keccak256 tree c logs in
      let (r, read, rest) =
        >>=-eq-done (get_blob_data_from_verified_proof_event nodes log)
          (with_leaves nodes keccak256 tree continue c) h in
      one_event c merkle_root path log logs r read rest
        (check_logs-Confirmed c merkle_root path logs)

  with_logs-Confirmed :
      (c merkle_root : List ℕ) (merkle_path : List (List ℕ))
      (o : Result (List Log) ProofVerificationAggModeError)
      → with_logs nodes keccak256 tree c o ≡ done (ok (verified merkle_root merkle_path))
      → (logs : List Log) × (o ≡ ok logs) × Confirmed c merkle_root merkle_path logs
  with_logs-Confirmed c merkle_root path (err e) h = cc
  with_logs-Confirmed c merkle_root path (ok logs) h =
      (logs, refl, check_logs-Confirmed c merkle_root path logs h)

  -- If a client is told that its proof is verified, then one of the events that were fetched has
  -- the root that it is told, the commitment of the proof is a leaf in the blob of this event,
  -- and the path that it is told passes the verification from that leaf to the root.
  pub check_proof_verification-Confirmed :
      (verification_data : AggregationModeVerificationData) (from_block : Option ℕ)
      (merkle_root : List ℕ) (merkle_path : List (List ℕ))
      → check_proof_verification nodes keccak256 tree verification_data from_block
        ≡ done (ok (verified merkle_root merkle_path))
      → (logs : List Log) × (fetch_verified_proofs_events nodes from_block ≡ ok logs)
        × Confirmed (data_commitment keccak256 verification_data) merkle_root merkle_path logs
  unfolding check_proof_verification
  check_proof_verification-Confirmed verification_data from_block merkle_root merkle_path h =
      with_logs-Confirmed (data_commitment keccak256 verification_data) merkle_root merkle_path
        (fetch_verified_proofs_events nodes from_block) h
