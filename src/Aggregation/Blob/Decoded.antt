-- ===== src/Aggregation/Blob/Decoded.antt =====
-- What is read from a blob is what was written.
use mathlib.Core.List.{append_assoc, append-nil}
use aligned_layer.Prelude.{
  ℕ, suc, ◌+◌, ◌*◌, ◌%◌, ◌-◌, ◌≤◌, ◌≡◌, refl, sym, ap, subst, ◌∙◌, arith, List, [], ◌∷◌, ◌++◌,
  length, length-append, concat, chunks, Chunked, no_chunk, last_chunk, full_chunk,
  chunks_on-Chunked, Run, done, ◌>>=◌,
}
use aligned_layer.Aggregation.Blob.{
  zeros, copy_from_slice, write_chunks, construct_blob, decoded_blob,
}
use aligned_layer.Aggregation.Blob.Payload.{
  payload, hashes, AllLeaves, decode_loop-hashes, payload-append, payload-zeros, length-zeros,
  payload-chunk, hashes-leaves,
}

copy_from_slice-zeros :
    (pre chunk : List ℕ) (n m : ℕ)
    → n ≡ length chunk + m
    → copy_from_slice (length pre) chunk (pre ++ zeros n) ≡ done (pre ++ (chunk ++ zeros m))
unfolding copy_from_slice
copy_from_slice-zeros [] [] n m e = ap (λ k. done (zeros k)) (omega arith)
copy_from_slice-zeros [] (b ∷ chunk) ℕ.zero m e = absurd (omega arith)
copy_from_slice-zeros [] (b ∷ chunk) (suc n) m e =
    ap (λ (r : Run (List ℕ)). r >>= λ rest. done (b ∷ rest))
      (copy_from_slice-zeros [] chunk n m (omega arith))
copy_from_slice-zeros (a ∷ pre) chunk n m e =
    ap (λ (r : Run (List ℕ)). r >>= λ rest. done (a ∷ rest)) (copy_from_slice-zeros pre chunk n m e)

-- A chunk and its padding are written where there was nothing.
write_one :
    (pre chunk : List ℕ) (rest : List (List ℕ)) (n m : ℕ)
    → n ≡ 1 + length chunk + m
    → write_chunks (length pre) (chunk ∷ rest) (pre ++ zeros n)
      ≡ write_chunks (length pre + 32) rest (pre ++ 0 ∷ (chunk ++ zeros m))
unfolding write_chunks
write_one pre chunk rest n m e =
    let first : copy_from_slice (length pre) (0 ∷ []) (pre ++ zeros n)
        ≡ done (pre ++ 0 ∷ zeros (length chunk + m)) =
      copy_from_slice-zeros pre (0 ∷ []) n (length chunk + m) (omega arith) in
    let at : length (pre ++ 0 ∷ []) ≡ length pre + 1 = length-append pre (0 ∷ []) in
    let second : copy_from_slice (length pre + 1) chunk (pre ++ 0 ∷ zeros (length chunk + m))
        ≡ done (pre ++ 0 ∷ (chunk ++ zeros m)) =
      subst
        (λ start.
          copy_from_slice start chunk (pre ++ 0 ∷ zeros (length chunk + m))
          ≡ done (pre ++ 0 ∷ (chunk ++ zeros m)))
        at
        (subst
          (λ l.
            copy_from_slice (length (pre ++ 0 ∷ [])) chunk l ≡ done (pre ++ 0 ∷ (chunk ++ zeros m)))
          (append_assoc pre (0 ∷ []) (zeros (length chunk + m)))
          (copy_from_slice-zeros (pre ++ 0 ∷ []) chunk (length chunk + m) m refl
            ∙ ap done (append_assoc pre (0 ∷ []) (chunk ++ zeros m)))) in
    ap
      (λ (r : Run (List ℕ)). r >>= λ padded.
        copy_from_slice (length pre + 1) chunk padded >>= λ written.
        write_chunks (length pre + 32) rest written)
      first
    ∙ ap (λ (r : Run (List ℕ)). r >>= λ written. write_chunks (length pre + 32) rest written) second

-- What a run of the loop leaves: the payload of the blob is what was there, the data and zeros.
abbrev Written : List ℕ → List ℕ → ℕ → Run (List ℕ) → Type 0
Written pre bytes n run =
    (blob : List ℕ) × (run ≡ done blob)
    × (length blob ≡ length pre + n)
    × ((k : ℕ) × (payload 0 blob ≡ payload 0 pre ++ (bytes ++ zeros k)))

write_chunks-Written :
    {bytes : List ℕ} {blocks : List (List ℕ)} (pre : List ℕ) (n : ℕ)
    → Chunked 31 bytes blocks
    → length pre % 32 ≡ 0
    → 32 * length blocks ≤ n
    → Written pre bytes n (write_chunks (length pre) blocks (pre ++ zeros n))
unfolding write_chunks
write_chunks-Written pre n no_chunk aligned room =
    let (k, e) = payload-zeros (0 + length pre) n in
    (
      pre ++ zeros n,
      refl,
      length-append pre (zeros n) ∙ ap (λ l. length pre + l) (length-zeros n),
      (k, payload-append 0 pre (zeros n) ∙ ap (λ z. payload 0 pre ++ z) e),
    )
write_chunks-Written pre n (last_chunk x xs short) aligned room =
    let m = n - (2 + length xs) in
    let (k, e) = payload-zeros (suc (length pre) + suc (length xs)) m in
    (
      pre ++ 0 ∷ (x ∷ xs ++ zeros m),
      write_one pre (x ∷ xs) [] n m (omega arith),
      omega (
        arith,
        length-append pre (0 ∷ (x ∷ xs ++ zeros m)),
        length-append xs (zeros m),
        length-zeros m,
      ),
      (
        k,
        payload-chunk pre (x ∷ xs) (zeros m) aligned short
            ∙ ap (λ z. payload 0 pre ++ (x ∷ xs ++ z)) e,
      ),
    )
write_chunks-Written pre n (full_chunk xs rest xss full c) aligned room =
    let m = n - 32 in
    let pre' = pre ++ 0 ∷ xs in
    let size : length pre' ≡ length pre + 32 = omega (arith, length-append pre (0 ∷ xs)) in
    let (blob, run, len, (k, e)) = write_chunks-Written pre' m c (omega arith) (omega arith) in
    let before : payload 0 pre' ≡ payload 0 pre ++ xs =
      ap (λ z. payload 0 (pre ++ 0 ∷ z)) (sym (append-nil xs))
      ∙ payload-chunk pre xs [] aligned (omega arith)
      ∙ ap (λ z. payload 0 pre ++ z) (append-nil xs) in
    (
      blob,
      write_one pre xs xss n m (omega arith)
          ∙ ap (λ o. write_chunks o xss (pre ++ 0 ∷ (xs ++ zeros m))) (sym size)
          ∙ ap (write_chunks (length pre') xss) (sym (append_assoc pre (0 ∷ xs) (zeros m)))
          ∙ run,
      omega arith,
      (
        k,
        e
            ∙ ap (λ z. z ++ (rest ++ zeros k)) before
            ∙ append_assoc (payload 0 pre) xs (rest ++ zeros k)
            ∙ ap (λ z. payload 0 pre ++ z) (sym (append_assoc xs rest (zeros k))),
      ),
    )

-- There are as many chunks as the bytes need.
pub length-Chunked :
    {bytes : List ℕ} {blocks : List (List ℕ)}
    → Chunked 31 bytes blocks
    → (31 * length blocks ≤ length bytes + 30) × (length bytes ≤ 31 * length blocks)
length-Chunked no_chunk = (omega arith, omega arith)
length-Chunked (last_chunk x xs short) = (omega arith, omega arith)
length-Chunked (full_chunk xs rest xss full c) =
    let (most, least) = length-Chunked c in
    (omega (arith, length-append xs rest), omega (arith, length-append xs rest))

pub length-concat :
    (leaves : List (List ℕ)) → AllLeaves leaves → length (concat leaves) ≡ 32 * length leaves
length-concat [] h = refl
length-concat (x ∷ xs) (leaf, rest) =
    omega (arith, length-append x (concat xs), leaf.size, length-concat xs rest)

-- If each leaf has 32 bytes that are not all 0, and the leaves have not more bytes than 31 for
-- each field element of a blob, then the blob is made, it has 32 bytes for each field element,
-- and what is read from it are the leaves.
pub construct_blob-decoded_blob :
    (field_elements_per_blob : ℕ) (leaves : List (List ℕ))
    → AllLeaves leaves
    → 32 * length leaves ≤ 31 * field_elements_per_blob
    → (blob : List ℕ) × (construct_blob field_elements_per_blob leaves ≡ done blob)
      × (length blob ≡ 32 * field_elements_per_blob)
      × (decoded_blob blob ≡ leaves)
unfolding construct_blob decoded_blob
construct_blob-decoded_blob field_elements_per_blob leaves good room =
    let c : Chunked 31 (concat leaves) (chunks 31 (concat leaves)) =
      chunks_on-Chunked (length (concat leaves)) 31 (concat leaves) (omega arith) (omega arith) in
    let (blob, run, len, (k, e)) =
      write_chunks-Written [] (32 * field_elements_per_blob) c refl
        (omega (arith, (length-Chunked c).0, length-concat leaves good)) in
    (
      blob,
      run,
      omega arith,
      decode_loop-hashes 0 [] blob ∙ ap (hashes []) e ∙ hashes-leaves leaves k good,
    )
