-- ===== src/Aggregation/Fetcher/Limits.antt =====
-- What a fetch returns, and when it makes no progress.
use Prim.Native.String.{String}
use aligned_layer.Prelude.{
  ℕ, ◌+◌, ◌≤◌, ◌<◌, ◌≡◌, inl, inr, ap, ◌∙◌, arith, false, Option, some, List, [], ◌∷◌, ◌++◌, ltb,
  ltb→ge, lt→ltb, length, length-append, Run, done, ◌>>=◌, >>=-eq-done, done-injective, unwrap,
  Result, ok, err, Bool-cases,
}
use aligned_layer.Sdk.Types.{VerificationData}
use aligned_layer.Aggregation.Programs.{Sp1Sdk, Sp1ProofWithPubValuesAndElf}
use aligned_layer.Aggregation.Fetcher.{
  NewBatch, ProofsFetcherError, get_block_number, compatible, Fetched, if_fits, with_data,
  fetch_loop, with_batches, with_block_number, fetch,
}

module _ (keccak256 : List ℕ → List ℕ) (sdk : Sp1Sdk) (setup : List ℕ → sdk.Vk)
    (deserialize : List ℕ → Option sdk.Proof)
    (download : String → Result (List VerificationData) String) (limit current_block : ℕ) where
  with_data_within :
      (continue : List (Sp1ProofWithPubValuesAndElf keccak256 sdk)
        → Run (Fetched keccak256 sdk setup deserialize))
      (block_number : Option ℕ) (proofs : List (Sp1ProofWithPubValuesAndElf keccak256 sdk))
      (r : Result (List VerificationData) String) (out : Fetched keccak256 sdk setup deserialize)
      → length proofs ≤ limit
      → ((ps : List (Sp1ProofWithPubValuesAndElf keccak256 sdk))
          → length ps ≤ limit
          → continue ps ≡ done out
          → length out.0 ≤ limit)
      → with_data keccak256 sdk setup deserialize continue limit block_number proofs r ≡ done out
      → length out.0 ≤ limit
  with_data_within continue block_number proofs (err e) out below next h = next proofs below h
  with_data_within continue block_number proofs (ok d) out below next h =
      let more = compatible keccak256 sdk setup deserialize d in
      elim (Bool-cases (ltb limit (length proofs + length more))) [
        | inr fits ↦
            next (proofs ++ more)
              (omega
                (arith, length-append proofs more, ltb→ge limit (length proofs + length more) fits))
              (rw fits at h)
        | inl full ↦
            let (b, _, e) =
              >>=-eq-done (unwrap block_number)
                (λ log_block_number. done (proofs, log_block_number)) (rw full at h) in
            let same : (proofs, b) ≡ out = done-injective e in
            omega (arith, ap (λ (o : Fetched keccak256 sdk setup deserialize). length o.0) same)
      ]

  fetch_loop_within :
      (logs : List NewBatch) (proofs : List (Sp1ProofWithPubValuesAndElf keccak256 sdk))
      (out : Fetched keccak256 sdk setup deserialize)
      → length proofs ≤ limit
      → fetch_loop keccak256 sdk setup deserialize download limit current_block logs proofs
        ≡ done out
      → length out.0 ≤ limit
  unfolding fetch_loop
  fetch_loop_within [] proofs out below h =
      let same : (proofs, current_block) ≡ out = done-injective h in
      omega (arith, ap (λ (o : Fetched keccak256 sdk setup deserialize). length o.0) same)
  fetch_loop_within (batch ∷ logs) proofs out below h =
      with_data_within
        (fetch_loop keccak256 sdk setup deserialize download limit current_block logs)
        batch.block_number proofs (download batch.batch_data_pointer) out below
        (λ ps below' h'. fetch_loop_within logs ps out below' h') h

  with_batches_within :
      (o : Result (List NewBatch) String) (out : Fetched keccak256 sdk setup deserialize)
      → with_batches keccak256 sdk setup deserialize download limit current_block o ≡ done (ok out)
      → length out.0 ≤ limit
  with_batches_within (err e) out h = cc
  with_batches_within (ok logs) out h =
      let (r, run, e) =
        >>=-eq-done
          (fetch_loop keccak256 sdk setup deserialize download limit current_block logs [])
          (λ (r : Fetched keccak256 sdk setup deserialize). done (ok r)) h in
      let same : r ≡ out = cc in fetch_loop_within logs [] out (omega arith) (run ∙ ap done same)

  -- A first batch with more proofs than the limit ends the loop before it.
  fetch_loop_stuck :
      (batch : NewBatch) (logs : List NewBatch) (d : List VerificationData) (b : ℕ)
      → download batch.batch_data_pointer ≡ ok d
      → limit < length (compatible keccak256 sdk setup deserialize d)
      → batch.block_number ≡ some b
      → fetch_loop keccak256 sdk setup deserialize download limit current_block (batch ∷ logs) []
        ≡ done ([], b)
  unfolding fetch_loop
  fetch_loop_stuck batch logs d b downloaded large numbered =
      let continue = fetch_loop keccak256 sdk setup deserialize download limit current_block logs in
      let more = compatible keccak256 sdk setup deserialize d in
      ap (with_data keccak256 sdk setup deserialize continue limit batch.block_number []) downloaded
      ∙ ap
          (λ full. if_fits keccak256 sdk setup deserialize full continue batch.block_number [] more)
          (lt→ltb limit (0 + length more) (omega arith))
      ∙ ap (λ o. unwrap o >>= λ log_block_number. done ([], log_block_number)) numbered

module _ (keccak256 : List ℕ → List ℕ) (sdk : Sp1Sdk) (setup : List ℕ → sdk.Vk)
    (deserialize : List ℕ → Option sdk.Proof) (query : ℕ → ℕ → Result (List NewBatch) String)
    (download : String → Result (List VerificationData) String)
    (last_aggregated_block limit : ℕ) where
  with_block_number_within :
      (current_block : Result ℕ String) (out : Fetched keccak256 sdk setup deserialize)
      → with_block_number keccak256 sdk setup deserialize query download last_aggregated_block limit
          current_block
        ≡ done (ok out)
      → length out.0 ≤ limit
  with_block_number_within (err e) out h = cc
  with_block_number_within (ok current_block) out h =
      elim (Bool-cases (ltb current_block last_aggregated_block)) [
        | inl behind ↦
            let f : ◌≡◌
                {A = Run (Result (Fetched keccak256 sdk setup deserialize) ProofsFetcherError)}
                (done (err (get_block_number "Invalid last processed block"))) (done (ok out)) =
              rw behind at h in
            cc
        | inr ahead ↦
            with_batches_within keccak256 sdk setup deserialize download limit current_block
              (query last_aggregated_block current_block) out (rw ahead at h)
      ]

  -- If a fetch returns proofs, they are not more than the limit, whatever the node and the
  -- storage answer.
  pub fetch_within_limit :
      (current_block : Result ℕ String) (out : Fetched keccak256 sdk setup deserialize)
      → fetch keccak256 sdk setup deserialize query download last_aggregated_block limit
          current_block
        ≡ done (ok out)
      → length out.0 ≤ limit
  unfolding fetch
  fetch_within_limit = with_block_number_within

  -- If the last block is not after the current one, the first event from it on stands in it, and
  -- its batch is downloaded and has more proofs of SP1 that verify than the limit, then a fetch
  -- returns no proof and the same last block, from which the next fetch starts again.
  pub fetch_stuck :
      (current_block : ℕ) (batch : NewBatch) (logs : List NewBatch) (d : List VerificationData)
      → last_aggregated_block ≤ current_block
      → query last_aggregated_block current_block ≡ ok (batch ∷ logs)
      → batch.block_number ≡ some last_aggregated_block
      → download batch.batch_data_pointer ≡ ok d
      → limit < length (compatible keccak256 sdk setup deserialize d)
      → fetch keccak256 sdk setup deserialize query download last_aggregated_block limit
          (ok current_block)
        ≡ done (ok ([], last_aggregated_block))
  unfolding fetch
  fetch_stuck current_block batch logs d ahead queried numbered downloaded large =
      let reached : ltb current_block last_aggregated_block ≡ false = ground arith in
      rw reached (
        ap (with_batches keccak256 sdk setup deserialize download limit current_block) queried
        ∙ ap (λ (m : Run (Fetched keccak256 sdk setup deserialize)). m >>= λ r. done (ok r))
            (fetch_loop_stuck keccak256 sdk setup deserialize download limit current_block batch
              logs d last_aggregated_block downloaded large numbered))
