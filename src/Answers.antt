-- ===== src/Answers.antt =====
-- Between the batcher and its clients: what `send_batch_inclusion_data_responses` (connection.rs of
-- the batcher) sends is what `receive` (communication/messaging.rs of the sdk) reads.
mod Matching
pub mod Delivered
pub mod Nonce
use aligned_layer.Prelude.{
  ℕ, suc, ◌<◌, Bool, true, false, not, ◌&&◌, ◌||◌, Option, none, some, List, [], ◌∷◌, ◌++◌, ltb,
  ◌==◌, if◌then◌else◌, all, Result, ok, err, ◌≡◌,
}
use aligned_layer.Sdk.Types.{SubmitProofResponseMessage, commitment}
use aligned_layer.Sdk.Messaging.{Stream, Sending, Received, AlignedVerificationData, binary}
use aligned_layer.Batcher.Queue.{BatchQueueEntry, nonce_of}
use aligned_layer.Batcher.State.{Sent}
use aligned_layer.Batcher.World.{World}

-- The client behind a sink.
module _ (sink : ℕ) where
  -- The entry is a proof of the client.
  abbrev pub is_own : BatchQueueEntry → Bool
  is_own e = elim e.messaging_sink [ none ↦ false | some k ↦ k == sink ]

  -- What arrives at the client of what the batcher sends, serialized.
  abbrev pub stream_of : (SubmitProofResponseMessage → List ℕ) → List Sent → Stream
  stream_of serialize [] = []
  stream_of serialize ((k, m) ∷ sent) =
      if k == sink
      then ok (binary (serialize m)) ∷ stream_of serialize sent
      else stream_of serialize sent

  -- The proofs that the client waits for, the last one first.
  abbrev pub waits : List BatchQueueEntry → Sending
  waits [] = []
  waits (e ∷ es) = if is_own e then ok e.nonced_verification_data ∷ waits es else waits es

  -- The nonces of the client's proofs are below `n`.
  abbrev pub own_below : ℕ → List BatchQueueEntry → Bool
  own_below n = all (λ e. not (is_own e) || ltb (nonce_of e) n)

  -- The nonces of the client's proofs fall along the batch.
  abbrev pub nonces_fall : List BatchQueueEntry → Bool
  nonces_fall [] = true
  nonces_fall (e ∷ es) = (not (is_own e) || own_below (nonce_of e) es) && nonces_fall es

abbrev pub or_empty : Option (List (List ℕ)) → List (List ℕ)
or_empty none = []
or_empty (some proof) = proof

module _ (w : World) where
  open w use {tree}

  -- The place of the entry in the tree.
  abbrev pub aligned : tree.Tree → ℕ → BatchQueueEntry → AlignedVerificationData
  aligned t i e = record {
    verification_data_commitment = e.verification_data_commitment;
    batch_merkle_root = tree.root t;
    batch_inclusion_proof = or_empty (tree.get_proof_by_pos t i);
    index_in_batch = i;
  }

  -- What the client has in the end: the place of each of its proofs, the lowest nonce first.
  abbrev pub places : ℕ → tree.Tree → ℕ → List BatchQueueEntry → Received
  places sink t i [] = []
  places sink t i (e ∷ es) =
      places sink t (suc i) es ++ (if is_own sink e then ok (aligned t i e) ∷ [] else [])

  -- The entries hold the commitments of their proofs.
  abbrev pub Committed : List BatchQueueEntry → Type 0
  Committed [] = Unit
  Committed (e ∷ es) =
      (e.verification_data_commitment
        ≡ commitment w.answers.keccak256 e.nonced_verification_data.verification_data)
      × Committed es
