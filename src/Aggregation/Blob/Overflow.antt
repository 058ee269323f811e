-- ===== src/Aggregation/Blob/Overflow.antt =====
-- Leaves that a blob has no room for.
use aligned_layer.Prelude.{
  ℕ, suc, ◌+◌, ◌*◌, ◌≤◌, ◌<◌, ◌≡◌, refl, ap, ◌∙◌, ◌⊎◌, inl, inr, arith, List, [], ◌∷◌, length,
  concat, chunks, Chunked, chunks_on-Chunked, Run, done, panic, ◌>>=◌,
}
use aligned_layer.Aggregation.Blob.{zeros, copy_from_slice, write_chunks, construct_blob}
use aligned_layer.Aggregation.Blob.Payload.{AllLeaves, length-zeros}
use aligned_layer.Aggregation.Blob.Decoded.{length-Chunked, length-concat}

-- The copy panics, or leaves a blob that is as long as before.
copy_from_slice_cases :
    (start : ℕ) (chunk blob_data : List ℕ)
    → (copy_from_slice start chunk blob_data ≡ panic)
      ⊎ ((copied : List ℕ) × (copy_from_slice start chunk blob_data ≡ done copied)
          × (length copied ≡ length blob_data))
unfolding copy_from_slice
copy_from_slice_cases ℕ.zero [] blob_data = inr (blob_data, refl, refl)
copy_from_slice_cases ℕ.zero (b ∷ chunk) [] = inl refl
copy_from_slice_cases ℕ.zero (b ∷ chunk) (_ ∷ blob_data) =
    elim (copy_from_slice_cases 0 chunk blob_data) [
      | inl p ↦ inl (ap (λ (r : Run (List ℕ)). r >>= λ rest. done (b ∷ rest)) p)
      | inr (copied, d, len) ↦
          inr (b ∷ copied, ap (λ (r : Run (List ℕ)). r >>= λ rest. done (b ∷ rest)) d, ap suc len)
    ]
copy_from_slice_cases (suc start) chunk [] = inl refl
copy_from_slice_cases (suc start) chunk (a ∷ blob_data) =
    elim (copy_from_slice_cases start chunk blob_data) [
      | inl p ↦ inl (ap (λ (r : Run (List ℕ)). r >>= λ rest. done (a ∷ rest)) p)
      | inr (copied, d, len) ↦
          inr (a ∷ copied, ap (λ (r : Run (List ℕ)). r >>= λ rest. done (a ∷ rest)) d, ap suc len)
    ]

-- Nothing can be written after the end.
copy_from_slice_out :
    (start b : ℕ) (chunk blob_data : List ℕ)
    → length blob_data ≤ start
    → copy_from_slice start (b ∷ chunk) blob_data ≡ panic
unfolding copy_from_slice
copy_from_slice_out ℕ.zero b chunk [] h = refl
copy_from_slice_out ℕ.zero b chunk (_ ∷ blob_data) h = absurd (omega arith)
copy_from_slice_out (suc start) b chunk [] h = refl
copy_from_slice_out (suc start) b chunk (a ∷ blob_data) h =
    ap (λ (r : Run (List ℕ)). r >>= λ rest. done (a ∷ rest))
      (copy_from_slice_out start b chunk blob_data (omega arith))

write_chunks_out :
    (offset : ℕ) (blocks : List (List ℕ)) (blob_data : List ℕ)
    → 0 < length blocks
    → length blob_data + 32 ≤ offset + 32 * length blocks
    → write_chunks offset blocks blob_data ≡ panic
unfolding write_chunks
write_chunks_out offset [] blob_data some out = absurd (omega arith)
write_chunks_out offset (chunk ∷ []) blob_data some out =
    ap
      (λ (r : Run (List ℕ)). r >>= λ padded.
        copy_from_slice (offset + 1) chunk padded >>= λ written.
        write_chunks (offset + 32) [] written)
      (copy_from_slice_out offset 0 [] blob_data (omega arith))
write_chunks_out offset (chunk ∷ next ∷ rest) blob_data some out =
    elim (copy_from_slice_cases offset (0 ∷ []) blob_data) [
      | inl p ↦
          ap
            (λ (r : Run (List ℕ)). r >>= λ padded.
              copy_from_slice (offset + 1) chunk padded >>= λ written.
              write_chunks (offset + 32) (next ∷ rest) written)
            p
      | inr (padded, d, len) ↦
          ap
            (λ (r : Run (List ℕ)). r >>= λ padded.
              copy_from_slice (offset + 1) chunk padded >>= λ written.
              write_chunks (offset + 32) (next ∷ rest) written)
            d
          ∙ elim (copy_from_slice_cases (offset + 1) chunk padded) [
            | inl p ↦
                ap
                  (λ (r : Run (List ℕ)).
                    r >>= λ written. write_chunks (offset + 32) (next ∷ rest) written)
                  p
            | inr (written, d', len') ↦
                ap
                  (λ (r : Run (List ℕ)).
                    r >>= λ written. write_chunks (offset + 32) (next ∷ rest) written)
                  d'
                ∙ write_chunks_out (offset + 32) (next ∷ rest) written (omega arith) (omega arith)
          ]
    ]

-- If the leaves, each of 32 bytes that are not all 0, have more bytes than 31 for each field
-- element of a blob, then making the blob panics.
pub construct_blob_panics :
    (field_elements_per_blob : ℕ) (leaves : List (List ℕ))
    → AllLeaves leaves
    → 31 * field_elements_per_blob < 32 * length leaves
    → construct_blob field_elements_per_blob leaves ≡ panic
unfolding construct_blob
construct_blob_panics field_elements_per_blob leaves good full =
    let c : Chunked 31 (concat leaves) (chunks 31 (concat leaves)) =
      chunks_on-Chunked (length (concat leaves)) 31 (concat leaves) (omega arith) (omega arith) in
    let bytes : length (concat leaves) ≡ 32 * length leaves = length-concat leaves good in
    let least : length (concat leaves) ≤ 31 * length (chunks 31 (concat leaves)) =
      (length-Chunked c).1 in
    write_chunks_out 0 (chunks 31 (concat leaves)) (zeros (32 * field_elements_per_blob))
      (omega arith) (omega (arith, length-zeros (32 * field_elements_per_blob)))
