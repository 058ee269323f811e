-- ===== src/Aggregation/Parents.antt =====
-- The hash of a parent node and its children.
use aligned_layer.Prelude.{
  ℕ, ◌≡◌, ◌⊎◌, not, refl, inl, inr, arith, List, [], ◌∷◌, ◌==◌, Bool-cases, eqb→eq,
}
use aligned_layer.Aggregation.Commitment.{bytes_lt, hash_new_parent}

-- Of two different lists of bytes, exactly one is below the other.
bytes_lt_total : (xs bs : List ℕ) → (bytes_lt xs bs ≡ not (bytes_lt bs xs)) ⊎ (xs ≡ bs)
bytes_lt_total [] [] = inr refl
bytes_lt_total [] (b ∷ bs) = inl refl
bytes_lt_total (a ∷ xs) [] = inl refl
bytes_lt_total (a ∷ xs) (b ∷ bs) = elim (Bool-cases (a == b)) [
  | inr differ ↦ inl (ground arith)
  | inl same ↦
      let e : a ≡ b = eqb→eq a b same in
      elim (bytes_lt_total xs bs) [ inl below ↦ inl (ground arith) | inr equal ↦ inr (cc) ]
]

-- The hash of a parent node does not depend on the order of its children.
pub hash_new_parent_comm :
    (keccak256 : List ℕ → List ℕ) (child_1 child_2 : List ℕ)
    → hash_new_parent keccak256 child_1 child_2 ≡ hash_new_parent keccak256 child_2 child_1
unfolding hash_new_parent
hash_new_parent_comm keccak256 child_1 child_2 = elim (bytes_lt_total child_1 child_2) [
  | inl below ↦
      rw below
        (elim (Bool-cases (bytes_lt child_2 child_1)) [ inl t ↦ rw t refl | inr f ↦ rw f refl ])
  | inr equal ↦ rw equal refl
]
