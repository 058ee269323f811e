-- ===== src/Examples/Aggregated.antt =====
-- A small aggregation, its blob, and the client that looks for its proof.
use aligned_layer.Prelude.{
  ℕ, ◌*◌, ◌≡◌, refl, some, List, [], ◌∷◌, ◌++◌, arith, length, done, panic, ok,
}
use aligned_layer.Sdk.Merkle.{MerkleTree}
use aligned_layer.Aggregation.Blob.{
  zeros, construct_blob, decoded_blob, decode_loop, write_chunks, copy_from_slice,
}
use aligned_layer.Aggregation.Blob.Decoded.{construct_blob-decoded_blob}
use aligned_layer.Aggregation.Blob.Overflow.{construct_blob_panics}
use aligned_layer.Aggregation.Commitment.{
  AggregationModeVerificationData, sp1_data, data_commitment, hash_new_parent, id_bytes,
}
use aligned_layer.Aggregation.Check.{
  Log, Nodes, verified, BlobData, fetch_verified_proofs_events, check_proof_verification,
  get_blob_data_from_verified_proof_event, get_blob_by_versioned_hash, check_logs,
}
use aligned_layer.Aggregation.Check.Verified.{Confirmed, check_proof_verification-Confirmed}
use aligned_layer.Aggregation.Check.Found.{
  Posted, next_event, no_event, Answer, check_proof_verification-Answer,
}
use aligned_layer.Examples.Packages.{leaves_tree}

-- The bytes of the program id and of the public inputs make up the 30 bytes that a commitment needs.
abbrev a_proof : AggregationModeVerificationData
a_proof = sp1_data (7 ∷ zeros 20) (5 ∷ zeros 8)

abbrev a_leaf : List ℕ
a_leaf = 0 ∷ 1 ∷ 7 ∷ (zeros 20 ++ 5 ∷ zeros 8)

abbrev two_leaves : List (List ℕ)
two_leaves = (9 ∷ zeros 31) ∷ a_leaf ∷ []

abbrev parent : List ℕ → List ℕ → List ℕ
parent = hash_new_parent (λ bytes. bytes)

abbrev a_tree : MerkleTree (λ leaf. leaf) parent
a_tree = leaves_tree (λ leaf. leaf) parent

-- The bytes of the blob, with the paddings.
abbrev a_blob : List ℕ
a_blob = 0 ∷ 9 ∷ (zeros 30 ++ 0 ∷ 0 ∷ 0 ∷ 1 ∷ 7 ∷ (zeros 20 ++ 5 ∷ zeros 6) ++ zeros 64)

construct_blob-decoded_blob_example :
    (blob : List ℕ) × (construct_blob 4 two_leaves ≡ done blob)
    × (length blob ≡ 32 * 4)
    × (decoded_blob blob ≡ two_leaves)
construct_blob-decoded_blob_example =
    construct_blob-decoded_blob 4 two_leaves
      (record { size = refl; nonzero = refl }, (record { size = refl; nonzero = refl }, tt))
      (omega arith)

construct_blob_panics_example : construct_blob 2 two_leaves ≡ panic
construct_blob_panics_example =
    construct_blob_panics 2 two_leaves
      (record { size = refl; nonzero = refl }, (record { size = refl; nonzero = refl }, tt))
      (omega arith)

abbrev a_log : Log
a_log = record {
  bytes = 1 ∷ zeros 31;
  topics = [] ∷ a_tree.root two_leaves ∷ [];
  block_number = some 12;
}

abbrev a_sidecar : BlobData
a_sidecar = record { blob = "blob"; kzg_commitment = "commitment" }

abbrev nodes : Nodes
nodes = record {
  provider = ok tt;
  get_block_number = ok 20;
  get_logs = λ from_block. ok (a_log ∷ []);
  get_block = λ block_number. ok (some (some (3 ∷ [])));
  get_block_header_from_parent_hash = λ parent_root. ok (some "31");
  get_blobs_from_slot = λ slot. ok (a_sidecar ∷ []);
  parse = λ slot. some 31;
  hex_decode = λ digits. some a_blob;
  sha256 = λ bytes. zeros 32;
}

written : construct_blob 4 two_leaves ≡ done a_blob
unfolding construct_blob write_chunks copy_from_slice
written = refl

posted : Posted nodes (λ bytes. bytes) a_tree 4 a_log two_leaves
posted = record {
  merkle_tree = two_leaves;
  built = refl;
  hashes = (record { size = refl; nonzero = refl }, (record { size = refl; nonzero = refl }, tt));
  room = omega arith;
  blob_bytes = a_blob;
  written = written;
  carries = record {
    provides = refl;
    hashed = omega arith;
    topic = refl;
    number = 12;
    numbered = refl;
    parent_root = 3 ∷ [];
    block = refl;
    slot_text = "31";
    header = refl;
    slot = 31;
    parsed = refl;
    blobs = a_sidecar ∷ [];
    kept = refl;
    blob_data = a_sidecar;
    found = refl;
    decoded = refl;
  };
}

fetched : fetch_verified_proofs_events nodes (some 10) ≡ ok (a_log ∷ [])
unfolding fetch_verified_proofs_events
fetched = refl

check_proof_verification-Answer_example :
    Answer nodes
      (λ bytes. bytes)
      a_tree
      4
      (data_commitment (λ bytes. bytes) a_proof)
      (two_leaves ∷ [])
      (check_proof_verification nodes (λ bytes. bytes) a_tree a_proof (some 10))
check_proof_verification-Answer_example =
    check_proof_verification-Answer nodes (λ bytes. bytes) a_tree 4 a_proof (some 10) (a_log ∷ [])
      (two_leaves ∷ []) fetched (next_event a_log two_leaves [] [] posted no_event)

is_verified :
    check_proof_verification nodes (λ bytes. bytes) a_tree a_proof (some 10)
    ≡ done (ok (verified (a_tree.root two_leaves) two_leaves))
unfolding check_proof_verification fetch_verified_proofs_events check_logs
    get_blob_data_from_verified_proof_event get_blob_by_versioned_hash decoded_blob decode_loop
    data_commitment id_bytes
is_verified = refl

check_proof_verification-Confirmed_example :
    (logs : List Log) × (fetch_verified_proofs_events nodes (some 10) ≡ ok logs)
    × Confirmed nodes
        (λ bytes. bytes)
        a_tree
        (data_commitment (λ bytes. bytes) a_proof)
        (a_tree.root two_leaves)
        two_leaves
        logs
check_proof_verification-Confirmed_example =
    check_proof_verification-Confirmed nodes (λ bytes. bytes) a_tree a_proof (some 10)
      (a_tree.root two_leaves) two_leaves is_verified
