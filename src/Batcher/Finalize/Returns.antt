-- ===== src/Batcher/Finalize/Returns.antt =====
-- A submission returns, and the answers to the clients of a batch are sent.
use aligned_layer.Prelude.{
  ℕ, suc, ◌+◌, ◌^◌, ◌<◌, ◌≡◌, refl, sym, subst, inl, inr, Bool, true, false, none, some, List, [],
  ◌∷◌, ◌++◌, arith, Run, done, Result, ok, err, length, all, and_both, Option-cases, lt→ltb,
}
use aligned_layer.Sdk.Types.{VerificationDataCommitment, BatchInclusionData, batch_inclusion_data}
use aligned_layer.Sdk.Merkle.{new_batch_inclusion_data}
use aligned_layer.Batcher.Queue.{BatchQueueEntry, nonce_of}
use aligned_layer.Batcher.State.{Sent}
use aligned_layer.Batcher.Restore.{senders}
use aligned_layer.Batcher.Errors.{BatcherError}
use aligned_layer.Batcher.World.{NewTask, World}
use aligned_layer.Batcher.Gas.Bounds.{fee_params_of_returns}
use aligned_layer.Batcher.Finalize.{
  ◌<>◌, upload_batch_to_multiple_s3, simulate_create_new_task, create_new_task, without_receipt,
  after_simulation, after_upload, submit_batch, send_response, send_from,
}
use aligned_layer.Batcher.Finalize.Errors.{
  keeps, simulate_create_new_task_keeps, create_new_task_keeps, upload_batch_to_multiple_s3_keeps,
}
use Prim.Native.String.{String}

abbrev pub has_sink : BatchQueueEntry → Bool
has_sink e = elim e.messaging_sink [ none ↦ false | some _ ↦ true ]

module _ (w : World) where
  open w use {answers, tree}

  -- A submission that returns without the error that the state was flushed.
  abbrev pub Submitted : Run (Result (Unit {0}) BatcherError) → Type 0
  Submitted m = (r : Result (Unit {0}) BatcherError) × (m ≡ done r) × (keeps r ≡ true)

  without_receipt_keeps :
      (r : Result ℕ BatcherError) → keeps r ≡ true → keeps (without_receipt w r) ≡ true
  without_receipt_keeps (ok _) h = refl
  without_receipt_keeps (err e) h = h

  after_simulation_returns :
      (task : NewTask) (r : Result (Unit {0}) BatcherError)
      → keeps r ≡ true
      → task.fee_params.gas_price < 2 ^ 64
      → Submitted (after_simulation w task r)
  after_simulation_returns task (err e) h g = (err e, refl, h)
  after_simulation_returns task (ok _) h g = (
    without_receipt w (create_new_task w task),
    rw (lt→ltb task.fee_params.gas_price (2 ^ 64) g) refl,
    without_receipt_keeps (create_new_task w task) (create_new_task_keeps w task),
  )

  after_upload_returns :
      (root : List ℕ) (n : ℕ) (finalized : List BatchQueueEntry) (gas_price : ℕ)
      (r : Result String BatcherError)
      → keeps r ≡ true
      → 0 < n
      → gas_price < 2 ^ 64
      → w.config.aggregator_gas_cost < 2 ^ 128
      → w.config.aggregator_fee_percentage_multiplier < 2 ^ 62
      → Submitted (after_upload w root n finalized gas_price r)
  after_upload_returns root n finalized gas_price (err e) fine some_proof h k l =
      (err e, refl, fine)
  after_upload_returns root n finalized gas_price (ok pointer) fine some_proof h k l =
      let (p, run, same) = fee_params_of_returns w.config n gas_price some_proof h k l in
      let task : NewTask = record {
        batch_merkle_root = root;
        batch_data_pointer = pointer;
        proof_submitters = senders finalized;
        fee_params = p;
      } in
      let (r, posted, fine) =
        after_simulation_returns task (simulate_create_new_task w task)
          (simulate_create_new_task_keeps w task) (subst (λ g. g < 2 ^ 64) (sym same) h) in
      (r, rw run posted, fine)

  pub submit_batch_returns :
      (batch_bytes root : List ℕ) (leaves : List (List ℕ)) (finalized : List BatchQueueEntry)
      (gas_price : ℕ)
      → 0 < length leaves
      → gas_price < 2 ^ 64
      → w.config.aggregator_gas_cost < 2 ^ 128
      → w.config.aggregator_fee_percentage_multiplier < 2 ^ 62
      → Submitted (submit_batch w batch_bytes root leaves finalized gas_price)
  unfolding submit_batch
  submit_batch_returns batch_bytes root leaves finalized gas_price =
      after_upload_returns root (length leaves) finalized gas_price
        (upload_batch_to_multiple_s3 w batch_bytes (w.encode root <> ".json"))
        (upload_batch_to_multiple_s3_keeps w batch_bytes (w.encode root <> ".json"))

  -- The answer to the entry at the index `i`.
  abbrev pub inclusion : tree.Tree → ℕ → BatchQueueEntry → List (List ℕ) → BatchInclusionData
  inclusion t i e proof = record {
    batch_merkle_root = tree.root t;
    batch_inclusion_proof = proof;
    index_in_batch = i;
    user_nonce = nonce_of e;
  }

  -- What the clients of a batch are told: the entry at each index is given its place, and the
  -- clients of the last entries come first.
  abbrev pub Answered : tree.Tree → ℕ → List BatchQueueEntry → List Sent → Type 0
  Answered t i [] sent = sent ≡ []
  Answered t i (e ∷ es) sent =
      (earlier : List Sent) × (sink : ℕ) × (proof : List (List ℕ)) × Answered t (suc i) es earlier
      × (e.messaging_sink ≡ some sink)
      × (tree.get_proof_by_pos t i ≡ some proof)
      × (sent ≡ earlier ++ (sink, batch_inclusion_data (inclusion t i e proof)) ∷ [])

  module _
      (serializes : (d : BatchInclusionData)
        → (bytes : List ℕ) × (w.serialize_response d ≡ ok bytes)) where
    send_response_lem :
        (t : tree.Tree) (i : ℕ) (e : BatchQueueEntry) (sink : ℕ) (proof : List (List ℕ))
        → e.messaging_sink ≡ some sink
        → tree.get_proof_by_pos t i ≡ some proof
        → send_response w t i e
          ≡ done ((sink, batch_inclusion_data (inclusion t i e proof)) ∷ [], ok tt)
    unfolding send_response new_batch_inclusion_data
    send_response_lem t i e sink proof s p =
        let (bytes, ok_bytes) = serializes (inclusion t i e proof) in rw (p, ok_bytes, s) refl

    pub send_from_lem :
        (xs : List VerificationDataCommitment) (t : tree.Tree) (i : ℕ)
        (entries : List BatchQueueEntry)
        → tree.build xs ≡ some t
        → i + length entries ≡ length xs
        → all has_sink entries ≡ true
        → (sent : List Sent) × (send_from w t i entries ≡ done (sent, ok tt))
          × Answered t i entries sent
    unfolding send_from
    send_from_lem xs t i [] b n s = ([], refl, refl)
    send_from_lem xs t i (e ∷ es) b n s =
        let (own, rest) = and_both (has_sink e) (all has_sink es) s in
        let (sent, run, answered) = send_from_lem xs t (suc i) es b (omega arith) rest in
        let (proof, found) = tree.proof_some xs t i b (omega arith) in
        elim (Option-cases e.messaging_sink) [
          | inl missing ↦ absurd (cc (rw missing at own))
          | inr (sink, is_sink) ↦ (
            sent ++ (sink, batch_inclusion_data (inclusion t i e proof)) ∷ [],
            rw (run, send_response_lem t i e sink proof is_sink found) refl,
            (sent, sink, proof, answered, is_sink, found, refl),
          )
        ]
