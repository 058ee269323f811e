-- ===== src/Examples/Wire.antt =====
-- A serialization of the place of a proof in a batch, for the examples.
use aligned_layer.Prelude.{ℕ, suc, ◌≡◌, refl, ap, ◌∙◌, List, [], ◌∷◌, ◌++◌, length, Result, ok, err}
use aligned_layer.Sdk.Types.{
  BatchInclusionData, SubmitProofResponseMessage, batch_inclusion_data, server_busy,
}
use Prim.Native.String.{String}

abbrev take : ℕ → List ℕ → List ℕ
take ℕ.zero xs = []
take (suc n) [] = []
take (suc n) (x ∷ xs) = x ∷ take n xs

abbrev drop : ℕ → List ℕ → List ℕ
drop ℕ.zero xs = xs
drop (suc n) [] = []
drop (suc n) (x ∷ xs) = drop n xs

take-append : (xs ys : List ℕ) → take (length xs) (xs ++ ys) ≡ xs
take-append [] ys = refl
take-append (x ∷ xs) ys = ap (λ zs. x ∷ zs) (take-append xs ys)

drop-append : (xs ys : List ℕ) → drop (length xs) (xs ++ ys) ≡ ys
drop-append [] ys = refl
drop-append (x ∷ xs) ys = drop-append xs ys

-- Each list after its length.
abbrev joined_lists : List (List ℕ) → List ℕ
joined_lists [] = []
joined_lists (xs ∷ xss) = length xs ∷ (xs ++ joined_lists xss)

abbrev split_lists : ℕ → List ℕ → List (List ℕ)
split_lists ℕ.zero bytes = []
split_lists (suc n) [] = []
split_lists (suc n) (k ∷ bytes) = take k bytes ∷ split_lists n (drop k bytes)

split_lists-joined_lists : (xss : List (List ℕ)) → split_lists (length xss) (joined_lists xss) ≡ xss
split_lists-joined_lists [] = refl
split_lists-joined_lists (xs ∷ xss) =
    ap (λ ys. ys ∷ split_lists (length xss) (drop (length xs) (xs ++ joined_lists xss)))
      (take-append xs (joined_lists xss))
    ∙ ap (λ bytes. xs ∷ split_lists (length xss) bytes) (drop-append xs (joined_lists xss))
    ∙ ap (λ yss. xs ∷ yss) (split_lists-joined_lists xss)

abbrev pub serialize : SubmitProofResponseMessage → List ℕ
serialize (batch_inclusion_data d) =
    d.index_in_batch
    ∷ d.user_nonce
    ∷ length d.batch_inclusion_proof
    ∷ joined_lists (d.batch_merkle_root ∷ d.batch_inclusion_proof)
serialize _ = []

abbrev with_root : ℕ → ℕ → List (List ℕ) → SubmitProofResponseMessage
with_root index nonce [] = server_busy
with_root index nonce (root ∷ proof) = batch_inclusion_data (record {
  batch_merkle_root = root;
  batch_inclusion_proof = proof;
  index_in_batch = index;
  user_nonce = nonce;
})

abbrev pub deserialize : List ℕ → Result SubmitProofResponseMessage String
deserialize (index ∷ nonce ∷ n ∷ bytes) = ok (with_root index nonce (split_lists (suc n) bytes))
deserialize _ = err "no answer"

pub deserialize-serialize :
    (d : BatchInclusionData)
    → deserialize (serialize (batch_inclusion_data d)) ≡ ok (batch_inclusion_data d)
deserialize-serialize d =
    ap (λ xss. ok (with_root d.index_in_batch d.user_nonce xss))
      (split_lists-joined_lists (d.batch_merkle_root ∷ d.batch_inclusion_proof))
