-- ===== src/Aggregation/Check/Honest.antt =====
-- What is read of an event whose blob the nodes still have.
use Prim.Native.String.{String}
use aligned_layer.Prelude.{
  ℕ, ◌≤◌, ◌≡◌, ap, ◌∙◌, Option, some, List, le→leb, if◌then◌else◌, length, take, get_elem?, Run,
  done, panic, ◌>>=◌, unwrap, Result, ok,
}
use aligned_layer.Aggregation.Blob.{decoded_blob}
use aligned_layer.Aggregation.Check.{
  BeaconClientError, Log, BlobData, Nodes, find_blob, among_blobs, get_blob_by_versioned_hash,
  with_blob, with_header, with_block, with_number, with_provider,
  get_blob_data_from_verified_proof_event,
}

-- The nodes answer what the event asks for, up to the bytes of the blob.
pub record Carries (nodes : Nodes) (log : Log) (merkle_root blob_bytes : List ℕ) : Type 0 where
  pub provides : nodes.provider ≡ ok tt
  pub hashed : 32 ≤ length log.bytes
  pub topic : get_elem? log.topics 1 ≡ some merkle_root
  pub number : ℕ
  pub numbered : log.block_number ≡ some number
  pub parent_root : List ℕ
  pub block : nodes.get_block number ≡ ok (some (some parent_root))
  pub slot_text : String
  pub header : nodes.get_block_header_from_parent_hash parent_root ≡ ok (some slot_text)
  pub slot : ℕ
  pub parsed : nodes.parse slot_text ≡ some slot
  pub blobs : List BlobData
  pub kept : nodes.get_blobs_from_slot slot ≡ ok blobs
  pub blob_data : BlobData
  pub found : find_blob nodes (take 32 log.bytes) blobs ≡ done (some blob_data)
  pub decoded : nodes.hex_decode blob_data.blob ≡ some blob_bytes

module _ (nodes : Nodes) (log : Log) (merkle_root blob_bytes : List ℕ)
    (c : Carries nodes log merkle_root blob_bytes) where
  from_blob :
      get_blob_by_versioned_hash nodes c.slot (take 32 log.bytes) ≡ done (ok (some c.blob_data))
  unfolding get_blob_by_versioned_hash
  from_blob =
      ap (among_blobs nodes (take 32 log.bytes)) c.kept
      ∙ ap (λ (r : Run (Option BlobData)). r >>= λ found. done (ok found)) c.found

  from_header :
      with_header nodes (take 32 log.bytes) merkle_root (ok (some c.slot_text))
      ≡ done (ok (merkle_root, decoded_blob blob_bytes))
  from_header =
      ap
        (λ (o : Option ℕ). unwrap o >>= λ slot.
          get_blob_by_versioned_hash nodes slot (take 32 log.bytes) >>= λ blob.
          with_blob nodes merkle_root blob)
        c.parsed
      ∙ ap
          (λ (r : Run (Result (Option BlobData) BeaconClientError)).
            r >>= λ blob. with_blob nodes merkle_root blob)
          from_blob
      ∙ ap
          (λ (o : Option (List ℕ)).
            unwrap o >>= λ blob_bytes. done (ok (merkle_root, decoded_blob blob_bytes)))
          c.decoded

  from_number :
      with_number nodes (take 32 log.bytes) merkle_root log.block_number
      ≡ done (ok (merkle_root, decoded_blob blob_bytes))
  from_number =
      ap (with_number nodes (take 32 log.bytes) merkle_root) c.numbered
      ∙ ap (with_block nodes (take 32 log.bytes) merkle_root) c.block
      ∙ ap (with_header nodes (take 32 log.bytes) merkle_root) c.header
      ∙ from_header

  pub get_blob_data_from_verified_proof_event-Carries :
      get_blob_data_from_verified_proof_event nodes log
      ≡ done (ok (merkle_root, decoded_blob blob_bytes))
  unfolding get_blob_data_from_verified_proof_event
  get_blob_data_from_verified_proof_event-Carries =
      ap (with_provider nodes log) c.provides
      ∙ ap
          (λ b. (if b then done (take 32 log.bytes) else panic) >>= λ blob_versioned_hash.
            unwrap (get_elem? log.topics 1) >>= λ merkle_root.
            with_number nodes blob_versioned_hash merkle_root log.block_number)
          (le→leb 32 (length log.bytes) c.hashed)
      ∙ ap
          (λ (o : Option (List ℕ)). unwrap o >>= λ merkle_root.
            with_number nodes (take 32 log.bytes) merkle_root log.block_number)
          c.topic
      ∙ from_number
