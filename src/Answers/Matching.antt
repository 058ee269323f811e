-- ===== src/Answers/Matching.antt =====
-- The turn of `receive` at an answer of the batcher.
use aligned_layer.Prelude.{
  ℕ, ◌≡◌, refl, sym, ap, ◌∙◌, inl, inr, true, false, not, ◌||◌, Option, none, some, List, [], ◌∷◌,
  ◌++◌, arith, ltb, ◌==◌, if◌then◌else◌, get_elem?, ok, err, Bool-cases, and_both, eq→eqb,
}
use aligned_layer.Sdk.Types.{
  SubmitProofResponseMessage, commitment, BatchInclusionData, batch_inclusion_data,
  NoncedVerificationData, VerificationDataCommitment,
}
use aligned_layer.Sdk.Messaging.{
  Sending, binary, Client, has_nonce, take_last, handle_response, handle_batcher_response,
  match_batcher_response_with_stored_verification_data, verify_proof_inclusion,
  process_batcher_response, taken_here, taken_from, matched, after_response, after_match,
  after_process, new_aligned_verification_data, turn, bigger_nonce, biggest_from,
}
use aligned_layer.Sdk.Errors.{invalid_proof_inclusion_data}
use aligned_layer.Batcher.Queue.{BatchQueueEntry, nonce_of}
use aligned_layer.Batcher.State.{Sent}
use aligned_layer.Batcher.World.{World}
use aligned_layer.Batcher.Finalize.Returns.{inclusion}
use aligned_layer.Answers.{is_own, stream_of, waits, own_below, aligned, or_empty}

-- The last proof of the list is taken, if it has the nonce.
pub take_last-append :
    (nonce : ℕ) (ds : Sending) (d : NoncedVerificationData)
    → d.nonce ≡ nonce
    → take_last nonce (ds ++ ok d ∷ []) ≡ some (d, ds)
unfolding take_last
take_last-append nonce [] d e =
    let here : has_nonce nonce (ok d) ≡ some d = rw (eq→eqb d.nonce nonce e) refl in
    ap (λ (o : Option NoncedVerificationData). taken_here o []) here
take_last-append nonce (x ∷ ds) d e =
    ap (taken_from nonce x (ds ++ ok d ∷ [])) (take_last-append nonce ds d e)

pub stream_of-append :
    (sink : ℕ) (serialize : SubmitProofResponseMessage → List ℕ) (xs ys : List Sent)
    → stream_of sink serialize (xs ++ ys)
      ≡ stream_of sink serialize xs ++ stream_of sink serialize ys
stream_of-append sink serialize [] ys = refl
stream_of-append sink serialize ((k, m) ∷ xs) ys = elim (Bool-cases (k == sink)) [
  | inl own ↦
      rw own (ap (λ s. ok (binary (serialize m)) ∷ s) (stream_of-append sink serialize xs ys))
  | inr other ↦ rw other (stream_of-append sink serialize xs ys)
]

-- The greatest of nonces that are below the first.
pub biggest_from-waits :
    (sink n : ℕ) (es : List BatchQueueEntry)
    → own_below sink n es ≡ true
    → biggest_from n (waits sink es) ≡ n
biggest_from-waits sink n [] h = refl
biggest_from-waits sink n (e ∷ es) h =
    let (own, rest) =
      and_both (not (is_own sink e) || ltb (nonce_of e) n) (own_below sink n es) h in
    elim (Bool-cases (is_own sink e)) [
      | inr other ↦ rw other (biggest_from-waits sink n es rest)
      | inl mine ↦
          let below : ltb (nonce_of e) n ≡ true = rw mine at own in
          let not_above : ltb n (nonce_of e) ≡ false = ground arith in
          let same : bigger_nonce n (ok e.nonced_verification_data) ≡ n = rw not_above refl in
          rw mine
            (ap (λ k. biggest_from k (waits sink es)) same ∙ biggest_from-waits sink n es rest)
    ]

module _ (w : World) (cl : Client) (serialize : SubmitProofResponseMessage → List ℕ)
    (data_of_binary : (bytes : List ℕ) → cl.into_data (binary bytes) ≡ bytes)
    (round_trip : (d : BatchInclusionData)
      → cl.cbor_deserialize (serialize (batch_inclusion_data d))
        ≡ ok (batch_inclusion_data d)) where
  open w use {tree}

  -- The answer to the proof that the client waits for at the end of its list.
  pub turn-inclusion :
      (xs : List VerificationDataCommitment) (t : tree.Tree) (i last : ℕ) (e : BatchQueueEntry)
      (proof : List (List ℕ)) (ds : Sending)
      → tree.build xs ≡ some t
      → get_elem? xs i ≡ some e.verification_data_commitment
      → tree.get_proof_by_pos t i ≡ some proof
      → e.verification_data_commitment
        ≡ commitment w.answers.keccak256 e.nonced_verification_data.verification_data
      → turn w.answers.keccak256 tree cl last
          (binary (serialize (batch_inclusion_data (inclusion w t i e proof))))
          (ds ++ ok e.nonced_verification_data ∷ [])
        ≡ (ok (aligned w t i e), if nonce_of e == last then none else some ds)
  unfolding handle_batcher_response handle_response process_batcher_response verify_proof_inclusion
      match_batcher_response_with_stored_verification_data
  turn-inclusion xs t i last e proof ds built at_place found committed =
      let d = inclusion w t i e proof in
      let k = w.answers.keccak256 in
      let read : handle_batcher_response k tree cl (binary (serialize (batch_inclusion_data d)))
          ≡ ok d =
        ap handle_response (
          ap cl.cbor_deserialize (data_of_binary (serialize (batch_inclusion_data d)))
          ∙ round_trip d) in
      let related : match_batcher_response_with_stored_verification_data k tree cl d
            (ds ++ ok e.nonced_verification_data ∷ [])
          ≡ ok (e.verification_data_commitment, ds) =
        ap (matched k tree cl) (take_last-append (nonce_of e) ds e.nonced_verification_data refl)
        ∙ ap (λ c. ok (c, ds)) (sym committed) in
      let verified : verify_proof_inclusion k tree cl e.verification_data_commitment d ≡ true =
        tree.verify_proof xs t i e.verification_data_commitment proof built at_place found in
      let processed : process_batcher_response k tree cl d e.verification_data_commitment
          ≡ ok (aligned w t i e) =
        ap
          (λ b.
            if b
            then ok (new_aligned_verification_data e.verification_data_commitment d)
            else err invalid_proof_inclusion_data)
          verified
        ∙ ap
            (λ o. ok (record {
              verification_data_commitment = e.verification_data_commitment;
              batch_merkle_root = tree.root t;
              batch_inclusion_proof = or_empty o;
              index_in_batch = i;
            }))
            (sym found) in
      ap (after_response k tree cl last (ds ++ ok e.nonced_verification_data ∷ [])) read
      ∙ ap (after_match k tree cl last d) related
      ∙ ap (after_process k tree cl last d ds) processed
