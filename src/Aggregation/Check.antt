-- ===== src/Aggregation/Check.antt =====
-- crates/sdk/src/aggregation_layer: `check_proof_verification` (mod.rs), the blob of an event
-- (helpers.rs), and the search for it (beacon.rs of crates/sdk/src).
pub mod Honest
pub mod Verified
pub mod Found
use Prim.Native.String.{String}
use mathlib.Core.Option
use aligned_layer.Prelude.{
  ℕ, suc, ◌+◌, ◌-◌, Bool, true, false, Option, none, some, List, [], ◌∷◌, leb, ◌==◌, ◌&&◌,
  if◌then◌else◌, length, take, get_elem?, Run, done, panic, ◌>>=◌, unwrap, Result, ok, err,
}
use aligned_layer.Sdk.Merkle.{MerkleTree}
use aligned_layer.Aggregation.Blob.{decoded_blob}
use aligned_layer.Aggregation.Commitment.{
  AggregationModeVerificationData, data_commitment, hash_new_parent,
}

pub data BeaconClientError : Type 0 where
  url reqwest_error deserialization : String → BeaconClientError
  api_error : ℕ → String → BeaconClientError

pub data ProofVerificationAggModeError : Type 0 where
  proving_system_not_supported_in_agg_mode : ProofVerificationAggModeError
  ethereum_provider_error : String → ProofVerificationAggModeError
  beacon_client : BeaconClientError → ProofVerificationAggModeError
  event_decoding merkle_tree_construction : ProofVerificationAggModeError

-- An event of the chain; `bytes` is its `data`.
pub record Log : Type 0 where
  pub bytes : List ℕ
  pub topics : List (List ℕ)
  pub block_number : Option ℕ

-- `BlobData`, as far as it is read.
pub record BlobData : Type 0 where
  pub blob : String
  pub kzg_commitment : String

pub data ProofStatus : Type 0 where
  verified : (merkle_root : List ℕ) (merkle_path : List (List ℕ)) → ProofStatus
  invalid not_found : ProofStatus

-- What the nodes answer, and the texts and hashes of packages. A block is the root of its parent on
-- the beacon chain, if it has one, and a header is the text of its slot.
pub record Nodes : Type 0 where
  pub provider : Result (Unit {0}) String
  pub get_block_number : Result ℕ String
  pub get_logs : ℕ → Result (List Log) String
  pub get_block : ℕ → Result (Option (Option (List ℕ))) String
  pub get_block_header_from_parent_hash : List ℕ → Result (Option String) BeaconClientError
  pub get_blobs_from_slot : ℕ → Result (List BlobData) BeaconClientError
  pub parse : String → Option ℕ
  pub hex_decode : String → Option (List ℕ)
  pub sha256 : List ℕ → List ℕ

abbrev pub bytes_eq : List ℕ → List ℕ → Bool
bytes_eq [] [] = true
bytes_eq [] (_ ∷ _) = false
bytes_eq (_ ∷ _) [] = false
bytes_eq (x ∷ xs) (y ∷ ys) = (x == y) && bytes_eq xs ys

abbrev kzg_versioned_hash : ℕ
kzg_versioned_hash = 1

-- `versioned_hash[0] = KZG_VERSIONED_HASH`
abbrev pub versioned : List ℕ → List ℕ
versioned [] = []
versioned (_ ∷ hash) = kzg_versioned_hash ∷ hash

-- `iter().position(|p| p.0 == proof_commitment)`
abbrev pub position : List ℕ → List (List ℕ) → Option ℕ
position proof_commitment [] = none
position proof_commitment (p ∷ leaves) =
    let rest = Option.map suc (position proof_commitment leaves) in
    if bytes_eq p proof_commitment then some 0 else rest

-- A run that may fail with an error.
abbrev pub Fallible : Type 0 → Type 0
Fallible A = Run (Result A ProofVerificationAggModeError)

module _ (nodes : Nodes) where
  -- The first of the blobs whose commitment has the hash.
  abbrev pub find_blob : List ℕ → List BlobData → Run (Option BlobData)
  find_blob blob_versioned_hash [] = done none
  find_blob blob_versioned_hash (b ∷ blobs) =
      let rest = find_blob blob_versioned_hash blobs in
      unwrap (nodes.hex_decode b.kzg_commitment) >>= λ kzg_commitment_bytes.
      if bytes_eq (versioned (nodes.sha256 kzg_commitment_bytes)) blob_versioned_hash
      then done (some b)
      else rest

  abbrev pub among_blobs :
      List ℕ
      → Result (List BlobData) BeaconClientError
      → Run (Result (Option BlobData) BeaconClientError)
  among_blobs blob_versioned_hash (err e) = done (err e)
  among_blobs blob_versioned_hash (ok blobs) =
      find_blob blob_versioned_hash blobs >>= λ found. done (ok found)

  -- `BeaconClient::get_blob_by_versioned_hash`
  unfoldable pub get_blob_by_versioned_hash :
      ℕ → List ℕ → Run (Result (Option BlobData) BeaconClientError)
  get_blob_by_versioned_hash slot blob_versioned_hash =
      among_blobs blob_versioned_hash (nodes.get_blobs_from_slot slot)

  -- The steps from the last to the first.
  abbrev pub with_blob :
      List ℕ → Result (Option BlobData) BeaconClientError → Fallible (List ℕ × List (List ℕ))
  with_blob merkle_root (err e) = done (err (beacon_client e))
  with_blob merkle_root (ok none) = done (err event_decoding)
  with_blob merkle_root (ok (some blob_data)) =
      unwrap (nodes.hex_decode blob_data.blob) >>= λ blob_bytes.
      done (ok (merkle_root, decoded_blob blob_bytes))

  abbrev pub with_header :
      List ℕ → List ℕ → Result (Option String) BeaconClientError → Fallible (List ℕ × List (List ℕ))
  with_header blob_versioned_hash merkle_root (err e) = done (err (beacon_client e))
  with_header blob_versioned_hash merkle_root (ok none) = done (err event_decoding)
  with_header blob_versioned_hash merkle_root (ok (some slot)) =
      unwrap (nodes.parse slot) >>= λ slot.
      get_blob_by_versioned_hash slot blob_versioned_hash >>= λ blob. with_blob merkle_root blob

  abbrev pub with_block :
      List ℕ → List ℕ → Result (Option (Option (List ℕ))) String → Fallible (List ℕ × List (List ℕ))
  with_block blob_versioned_hash merkle_root (err e) = done (err (ethereum_provider_error e))
  with_block blob_versioned_hash merkle_root (ok none) = done (err event_decoding)
  with_block blob_versioned_hash merkle_root (ok (some none)) = done (err event_decoding)
  with_block blob_versioned_hash merkle_root (ok (some (some beacon_parent_root))) =
      with_header blob_versioned_hash merkle_root
        (nodes.get_block_header_from_parent_hash beacon_parent_root)

  abbrev pub with_number : List ℕ → List ℕ → Option ℕ → Fallible (List ℕ × List (List ℕ))
  with_number blob_versioned_hash merkle_root none = done (err event_decoding)
  with_number blob_versioned_hash merkle_root (some block_number) =
      with_block blob_versioned_hash merkle_root (nodes.get_block block_number)

  -- `log.data[0..32]` and `log.topics[1]` panic out of range.
  abbrev pub with_provider : Log → Result (Unit {0}) String → Fallible (List ℕ × List (List ℕ))
  with_provider log (err e) = done (err (ethereum_provider_error e))
  with_provider log (ok _) =
      (if leb 32 (length log.bytes) then done (take 32 log.bytes) else panic)
      >>= λ blob_versioned_hash. unwrap (get_elem? log.topics 1) >>= λ merkle_root.
          with_number blob_versioned_hash merkle_root log.block_number

  unfoldable pub get_blob_data_from_verified_proof_event : Log → Fallible (List ℕ × List (List ℕ))
  get_blob_data_from_verified_proof_event log = with_provider log nodes.provider

  -- The first block of the filter.
  abbrev pub first_block : Option ℕ → Result ℕ ProofVerificationAggModeError
  first_block (some from_block) = ok from_block
  first_block none = elim (nodes.get_block_number) [
    | err e ↦ err (ethereum_provider_error e)
    | ok block_number ↦ ok (block_number - 7500)
  ]

  abbrev logs_from :
      Result ℕ ProofVerificationAggModeError → Result (List Log) ProofVerificationAggModeError
  logs_from (err e) = err e
  logs_from (ok from_block) = elim (nodes.get_logs from_block) [
    | err e ↦ err (ethereum_provider_error e)
    | ok logs ↦ ok logs
  ]

  unfoldable pub fetch_verified_proofs_events :
      Option ℕ → Result (List Log) ProofVerificationAggModeError
  fetch_verified_proofs_events from_block = elim nodes.provider [
    | err e ↦ err (ethereum_provider_error e)
    | ok _ ↦ logs_from (first_block from_block)
  ]

  module _ (keccak256 : List ℕ → List ℕ)
      (tree : MerkleTree (λ leaf. leaf) (hash_new_parent keccak256)) where
    abbrev pub with_proof_at :
        Fallible ProofStatus → List ℕ → List ℕ → ℕ → Option (List (List ℕ)) → Fallible ProofStatus
    with_proof_at continue proof_commitment merkle_root pos none = continue
    with_proof_at continue proof_commitment merkle_root pos (some proof) =
        if tree.verify proof merkle_root pos proof_commitment
        then done (ok (verified merkle_root proof))
        else done (ok invalid)

    abbrev pub with_merkle_tree :
        Fallible ProofStatus → List ℕ → List ℕ → ℕ → Option tree.Tree → Fallible ProofStatus
    with_merkle_tree continue proof_commitment merkle_root pos none = continue
    with_merkle_tree continue proof_commitment merkle_root pos (some merkle_tree) =
        with_proof_at continue proof_commitment merkle_root pos
          (tree.get_proof_by_pos merkle_tree pos)

    abbrev pub with_position :
        Fallible ProofStatus → List ℕ → List ℕ → List (List ℕ) → Option ℕ → Fallible ProofStatus
    with_position continue proof_commitment merkle_root leaves none = continue
    with_position continue proof_commitment merkle_root leaves (some pos) =
        with_merkle_tree continue proof_commitment merkle_root pos (tree.build leaves)

    abbrev pub with_leaves :
        Fallible ProofStatus
        → List ℕ
        → Result (List ℕ × List (List ℕ)) ProofVerificationAggModeError
        → Fallible ProofStatus
    with_leaves continue proof_commitment (err e) = done (err e)
    with_leaves continue proof_commitment (ok (merkle_root, leaves)) =
        with_position continue proof_commitment merkle_root leaves
          (position proof_commitment leaves)

    -- The loop over the events.
    unfoldable pub check_logs : List ℕ → List Log → Fallible ProofStatus
    check_logs proof_commitment [] = done (ok not_found)
    check_logs proof_commitment (log ∷ logs) =
        let continue = check_logs proof_commitment logs in
        get_blob_data_from_verified_proof_event log >>= λ r. with_leaves continue proof_commitment r

    abbrev pub with_logs :
        List ℕ → Result (List Log) ProofVerificationAggModeError → Fallible ProofStatus
    with_logs proof_commitment (err e) = done (err e)
    with_logs proof_commitment (ok logs) = check_logs proof_commitment logs

    unfoldable pub check_proof_verification :
        AggregationModeVerificationData → Option ℕ → Fallible ProofStatus
    check_proof_verification verification_data from_block =
        with_logs (data_commitment keccak256 verification_data)
          (fetch_verified_proofs_events from_block)
