-- ===== src/Aggregation/Blob.antt =====
-- The blob that carries the leaves of an aggregation: `construct_blob` of
-- aggregation_mode/src/backend/mod.rs, as far as the bytes of the blob, and `decoded_blob` of
-- crates/sdk/src/aggregation_layer/helpers.rs.
pub mod Payload
pub mod Decoded
pub mod Overflow
use aligned_layer.Prelude.{
  ℕ, suc, ◌+◌, ◌*◌, ◌%◌, Bool, true, false, List, [], ◌∷◌, ◌++◌, ◌==◌, all, length, concat, chunks,
  Run, done, panic, ◌>>=◌,
}

-- `[0u8; n]`
abbrev pub zeros : ℕ → List ℕ
zeros ℕ.zero = []
zeros (suc n) = 0 ∷ zeros n

-- `blob_data[start..start + chunk.len()].copy_from_slice(chunk)`, which panics out of range.
unfoldable pub copy_from_slice : ℕ → List ℕ → List ℕ → Run (List ℕ)
copy_from_slice ℕ.zero [] blob_data = done blob_data
copy_from_slice ℕ.zero (b ∷ chunk) [] = panic
copy_from_slice ℕ.zero (b ∷ chunk) (_ ∷ blob_data) =
    copy_from_slice 0 chunk blob_data >>= λ rest. done (b ∷ rest)
copy_from_slice (suc start) chunk [] = panic
copy_from_slice (suc start) chunk (a ∷ blob_data) =
    copy_from_slice start chunk blob_data >>= λ rest. done (a ∷ rest)

-- The loop over the chunks.
unfoldable pub write_chunks : ℕ → List (List ℕ) → List ℕ → Run (List ℕ)
write_chunks offset [] blob_data = done blob_data
write_chunks offset (chunk ∷ rest) blob_data =
    copy_from_slice offset (0 ∷ []) blob_data >>= λ padded.
    copy_from_slice (offset + 1) chunk padded >>= λ written. write_chunks (offset + 32) rest written

-- The bytes of the blob; `BYTES_PER_BLOB` is 32 for each of the field elements of a blob.
unfoldable pub construct_blob : ℕ → List (List ℕ) → Run (List ℕ)
construct_blob field_elements_per_blob leaves =
    write_chunks 0 (chunks 31 (concat leaves)) (zeros (32 * field_elements_per_blob))

-- `[0u8; 32]`
abbrev pub is_zero_hash : List ℕ → Bool
is_zero_hash hash = all (λ b. b == 0) hash

-- After a byte of payload: the hash has 32 bytes, and is the zero hash or is pushed; or it grows.
abbrev pub after_byte : (List ℕ → List (List ℕ)) → List ℕ → Bool → Bool → List (List ℕ)
after_byte continue hash true true = []
after_byte continue hash true false = hash ∷ continue []
after_byte continue hash false _ = continue hash

abbrev pub after_pad : (List ℕ → List (List ℕ)) → List ℕ → ℕ → Bool → List (List ℕ)
after_pad continue current_hash b true = continue current_hash
after_pad continue current_hash b false =
    let hash = current_hash ++ b ∷ [] in
    after_byte continue hash (length current_hash + 1 == 32) (is_zero_hash hash)

-- The loop; `current_hash` is as far as it is written.
unfoldable pub decode_loop : ℕ → List ℕ → List ℕ → List (List ℕ)
decode_loop total_bytes_count current_hash [] = []
decode_loop total_bytes_count current_hash (b ∷ blob_data) =
    after_pad (λ hash. decode_loop (suc total_bytes_count) hash blob_data) current_hash b
      (total_bytes_count % 32 == 0)

unfoldable pub decoded_blob : List ℕ → List (List ℕ)
decoded_blob blob_data = decode_loop 0 [] blob_data
