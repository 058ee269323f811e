-- ===== src/Answers/Delivered.antt =====
-- The answers of a batch, read by one of its clients.
use mathlib.Core.List.{append-nil, append_assoc}
use aligned_layer.Prelude.{
  ℕ, suc, ◌<◌, ◌≡◌, refl, sym, ap, subst, ◌∙◌, inl, inr, Bool, true, false, not, ◌||◌, none, some,
  List, [], ◌∷◌, ◌++◌, arith, ltb, ◌==◌, if◌then◌else◌, all, get_elem?, Result, ok, done,
  Bool-cases, and_both, eq_self, length, length-map, length-append,
}
use aligned_layer.Sdk.Types.{
  SubmitProofResponseMessage, BatchInclusionData, batch_inclusion_data, VerificationDataCommitment,
}
use aligned_layer.Sdk.Messaging.{
  Stream, Sending, Received, Client, binary, receive_loop, receive, get_biggest_nonce, biggest_from,
  pushed, AlignedVerificationData,
}
use aligned_layer.Sdk.Errors.{SubmitError}
use aligned_layer.Batcher.Queue.{BatchQueueEntry, nonce_of}
use aligned_layer.Batcher.State.{Sent}
use aligned_layer.Batcher.World.{World}
use aligned_layer.Batcher.Finalize.{commitments, send_batch_inclusion_data_responses}
use aligned_layer.Batcher.Finalize.Returns.{has_sink, inclusion, Answered, send_from_lem}
use aligned_layer.Answers.{
  is_own, stream_of, waits, own_below, nonces_fall, aligned, places, Committed,
}
use aligned_layer.Answers.Matching.{stream_of-append, biggest_from-waits, turn-inclusion}

-- A batch that stands in a list of commitments from the index `i` on.
abbrev StandsAt : List VerificationDataCommitment → ℕ → List BatchQueueEntry → Type 0
StandsAt xs i [] = Unit
StandsAt xs i (e ∷ es) =
    (get_elem? xs i ≡ some e.verification_data_commitment) × StandsAt xs (suc i) es

module _ (w : World) (cl : Client) (serialize : SubmitProofResponseMessage → List ℕ)
    (data_of_binary : (bytes : List ℕ) → cl.into_data (binary bytes) ≡ bytes)
    (round_trip : (d : BatchInclusionData)
      → cl.cbor_deserialize (serialize (batch_inclusion_data d)) ≡ ok (batch_inclusion_data d))
    (sink : ℕ) where
  open w use {tree}

  abbrev read_loop : ℕ → Stream → Sending → Received
  read_loop = receive_loop w.answers.keccak256 tree cl

  -- One answer, to the proof at the end of the list: it goes on, or stops at the last nonce.
  reads_one :
      (xs : List VerificationDataCommitment) (t : tree.Tree) (i last : ℕ) (e : BatchQueueEntry)
      (proof : List (List ℕ)) (ds : Sending) (more : Stream)
      → tree.build xs ≡ some t
      → get_elem? xs i ≡ some e.verification_data_commitment
      → tree.get_proof_by_pos t i ≡ some proof
      → Committed w (e ∷ [])
      → read_loop last
          (ok (binary (serialize (batch_inclusion_data (inclusion w t i e proof)))) ∷ more)
          (ds ++ ok e.nonced_verification_data ∷ [])
        ≡ ok (aligned w t i e) ∷ (if nonce_of e == last then [] else read_loop last more ds)
  unfolding receive_loop
  reads_one xs t i last e proof ds more built at_place found (committed, _) =
      ap (pushed w.answers.keccak256 tree cl (read_loop last more)) (
        turn-inclusion w cl serialize data_of_binary round_trip xs t i last e proof ds built
          at_place found committed)
      ∙ pushed_if (read_loop last more) (nonce_of e == last) (ok (aligned w t i e)) ds
    where
      pushed_if :
          (continue : Sending → Received) (b : Bool)
          (r : Result AlignedVerificationData SubmitError) (rest : Sending)
          → pushed w.answers.keccak256 tree cl continue (r, if b then none else some rest)
            ≡ r ∷ (if b then [] else continue rest)
      pushed_if continue true r rest = refl
      pushed_if continue false r rest = refl

  own_sink : (e : BatchQueueEntry) (k : ℕ) → e.messaging_sink ≡ some k → is_own sink e ≡ (k == sink)
  own_sink e k h = rw h refl

  stream_own :
      (earlier : List Sent) (k : ℕ) (m : SubmitProofResponseMessage) (more : Stream)
      → (k == sink) ≡ true
      → stream_of sink serialize (earlier ++ (k, m) ∷ []) ++ more
        ≡ stream_of sink serialize earlier ++ ok (binary (serialize m)) ∷ more
  stream_own earlier k m more own =
      let one : stream_of sink serialize ((k, m) ∷ []) ≡ ok (binary (serialize m)) ∷ [] =
        rw own refl in
      ap (λ s. s ++ more) (stream_of-append sink serialize earlier ((k, m) ∷ []))
      ∙ append_assoc (stream_of sink serialize earlier) _ more
      ∙ ap (λ s. stream_of sink serialize earlier ++ (s ++ more)) one

  stream_other :
      (earlier : List Sent) (k : ℕ) (m : SubmitProofResponseMessage) (more : Stream)
      → (k == sink) ≡ false
      → stream_of sink serialize (earlier ++ (k, m) ∷ []) ++ more
        ≡ stream_of sink serialize earlier ++ more
  stream_other earlier k m more other =
      let none_own : stream_of sink serialize ((k, m) ∷ []) ≡ [] = rw other refl in
      ap (λ s. s ++ more) (stream_of-append sink serialize earlier ((k, m) ∷ []))
      ∙ append_assoc (stream_of sink serialize earlier) _ more
      ∙ ap (λ s. stream_of sink serialize earlier ++ (s ++ more)) none_own

  -- The client's proofs of `es` are below its last one: all their answers are read.
  reads_all :
      (xs : List VerificationDataCommitment) (t : tree.Tree) (last i : ℕ)
      (es : List BatchQueueEntry) (sent : List Sent) (ds : Sending) (more : Stream)
      → tree.build xs ≡ some t
      → StandsAt xs i es
      → Committed w es
      → Answered w t i es sent
      → own_below sink last es ≡ true
      → read_loop last (stream_of sink serialize sent ++ more) (ds ++ waits sink es)
        ≡ places w sink t i es ++ read_loop last more ds
  reads_all xs t last i [] sent ds more built at committed answered below =
      ap (λ s. read_loop last (stream_of sink serialize s ++ more) (ds ++ [])) answered
      ∙ ap (read_loop last more) (append-nil ds)
  reads_all xs t last i (e ∷ es) sent ds more built (at_place, at) (own_commitment, committed)
        (earlier, k, proof, answered, is_sink, found, whole) below =
      let m = batch_inclusion_data (inclusion w t i e proof) in
      let (own_nonce, rest_below) =
        and_both (not (is_own sink e) || ltb (nonce_of e) last) (own_below sink last es) below in
      let start =
        ap (λ s. read_loop last (stream_of sink serialize s ++ more) (ds ++ waits sink (e ∷ es)))
          whole in
      start ∙ elim (Bool-cases (k == sink)) [
        | inr other ↦
            let foreign : is_own sink e ≡ false = own_sink e k is_sink ∙ other in
            rw foreign (
              ap (λ s. read_loop last s (ds ++ waits sink es)) (stream_other earlier k m more other)
              ∙ reads_all xs t last (suc i) es earlier ds more built at committed answered
                  rest_below
              ∙ ap (λ r. r ++ read_loop last more ds)
                  (sym (append-nil (places w sink t (suc i) es))))
        | inl own ↦
            let mine : is_own sink e ≡ true = own_sink e k is_sink ∙ own in
            let lower : ltb (nonce_of e) last ≡ true = rw mine at own_nonce in
            let goes_on : (nonce_of e == last) ≡ false = ground arith in
            let one =
              reads_one xs t i last e proof ds more built at_place found (own_commitment, tt) in
            rw mine (
              ap (λ s. read_loop last s (ds ++ ok e.nonced_verification_data ∷ waits sink es))
                (stream_own earlier k m more own)
              ∙ ap
                  (λ d.
                    read_loop last
                      (stream_of sink serialize earlier ++ ok (binary (serialize m)) ∷ more) d)
                  (sym (append_assoc ds (ok e.nonced_verification_data ∷ []) (waits sink es)))
              ∙ reads_all xs t last (suc i) es earlier (ds ++ ok e.nonced_verification_data ∷ [])
                  (ok (binary (serialize m)) ∷ more) built at committed answered rest_below
              ∙ ap (λ r. places w sink t (suc i) es ++ r) (rw goes_on at one)
              ∙ sym (
                  append_assoc (places w sink t (suc i) es) (ok (aligned w t i e) ∷ [])
                    (read_loop last more ds)))
      ]

  first_nonce : (n : ℕ) → (if ltb 0 n then n else 0) ≡ n
  first_nonce n = ground arith

  -- The client reads until the answer to its last proof.
  receives :
      (xs : List VerificationDataCommitment) (t : tree.Tree) (i : ℕ) (es : List BatchQueueEntry)
      (sent : List Sent) (more : Stream)
      → tree.build xs ≡ some t
      → StandsAt xs i es
      → Committed w es
      → Answered w t i es sent
      → nonces_fall sink es ≡ true
      → 0 < length (waits sink es)
      → receive w.answers.keccak256 tree cl (stream_of sink serialize sent ++ more) (waits sink es)
        ≡ places w sink t i es
  unfolding receive get_biggest_nonce
  receives xs t i [] sent more built at committed answered falls some_own = absurd (omega arith)
  receives xs t i (e ∷ es) sent more built (at_place, at) (own_commitment, committed)
        (earlier, k, proof, answered, is_sink, found, whole) falls some_own =
      let m = batch_inclusion_data (inclusion w t i e proof) in
      let (own_falls, rest_fall) =
        and_both (not (is_own sink e) || own_below sink (nonce_of e) es) (nonces_fall sink es)
          falls in
      let start =
        ap
          (λ s.
            receive w.answers.keccak256 tree cl (stream_of sink serialize s ++ more)
              (waits sink (e ∷ es)))
          whole in
      start ∙ elim (Bool-cases (k == sink)) [
        | inr other ↦
            let foreign : is_own sink e ≡ false = own_sink e k is_sink ∙ other in
            let some_rest : 0 < length (waits sink es) = rw foreign at some_own in
            rw foreign (
              ap (λ s. receive w.answers.keccak256 tree cl s (waits sink es))
                (stream_other earlier k m more other)
              ∙ receives xs t (suc i) es earlier more built at committed answered rest_fall
                  some_rest
              ∙ sym (append-nil (places w sink t (suc i) es)))
        | inl own ↦
            let mine : is_own sink e ≡ true = own_sink e k is_sink ∙ own in
            let n = nonce_of e in
            let d = ok e.nonced_verification_data in
            let below : own_below sink n es ≡ true = rw mine at own_falls in
            let biggest : biggest_from (if ltb 0 n then n else 0) (waits sink es) ≡ n =
              ap (λ z. biggest_from z (waits sink es)) (first_nonce n)
              ∙ biggest_from-waits sink n es below in
            let stops : (n == n) ≡ true = eq_self n in
            let one =
              reads_one xs t i n e proof [] more built at_place found (own_commitment, tt) in
            rw mine (
              ap
                (λ last.
                  read_loop last (stream_of sink serialize (earlier ++ (k, m) ∷ []) ++ more)
                    (d ∷ waits sink es))
                biggest
              ∙ ap (λ s. read_loop n s (d ∷ waits sink es)) (stream_own earlier k m more own)
              ∙ reads_all xs t n (suc i) es earlier (d ∷ []) (ok (binary (serialize m)) ∷ more)
                  built at committed answered below
              ∙ ap (λ r. places w sink t (suc i) es ++ r) (rw stops at one))
      ]

  get_elem?-length :
      (before : List VerificationDataCommitment) (x : VerificationDataCommitment)
      (after : List VerificationDataCommitment)
      → get_elem? (before ++ x ∷ after) (length before) ≡ some x
  get_elem?-length [] x after = refl
  get_elem?-length (y ∷ before) x after = get_elem?-length before x after

  stands :
      (before : List VerificationDataCommitment) (es : List BatchQueueEntry)
      → StandsAt (before ++ commitments es) (length before) es
  stands before [] = tt
  stands before (e ∷ es) =
      let x = e.verification_data_commitment in
      let moved : (before ++ x ∷ []) ++ commitments es ≡ before ++ x ∷ commitments es =
        append_assoc before (x ∷ []) (commitments es) in
      let counted : length (before ++ x ∷ []) ≡ suc (length before) =
        omega (arith, length-append before (x ∷ [])) in
      (
        get_elem?-length before x (commitments es),
        subst (λ n. StandsAt (before ++ x ∷ commitments es) n es) counted
            (subst (λ xs. StandsAt xs (length (before ++ x ∷ [])) es) moved
              (stands (before ++ x ∷ []) es)),
      )

  -- If a message carries its bytes, the client reads the places of proofs as they were written
  -- and the batcher writes them so, the tree is that of the batch, each entry has a client and
  -- holds the commitment of its proof, and the nonces of the client at the sink fall along the
  -- batch, in which it has a proof, then the batcher answers the whole batch without an error,
  -- and from what reaches the client it reads the place of each of its proofs, the lowest nonce
  -- first and without an error, and nothing that comes after.
  pub send_batch_inclusion_data_responses-receive :
      (finalized_batch : List BatchQueueEntry) (t : tree.Tree) (more : Stream)
      → ((d : BatchInclusionData)
          → w.serialize_response d ≡ ok (serialize (batch_inclusion_data d)))
      → tree.build (commitments finalized_batch) ≡ some t
      → all has_sink finalized_batch ≡ true
      → Committed w finalized_batch
      → nonces_fall sink finalized_batch ≡ true
      → 0 < length (waits sink finalized_batch)
      → (sent : List Sent) × (send_batch_inclusion_data_responses w finalized_batch t
          ≡ done (sent, ok tt))
        × (receive w.answers.keccak256 tree cl
              (stream_of sink serialize sent ++ more)
              (waits sink finalized_batch)
            ≡ places w sink t 0 finalized_batch)
  unfolding send_batch_inclusion_data_responses
  send_batch_inclusion_data_responses-receive finalized_batch t more serializes built sinks
        committed falls some_own =
      let xs = commitments finalized_batch in
      let (sent, run, answered) =
        send_from_lem w (λ d. (serialize (batch_inclusion_data d), serializes d)) xs t 0
          finalized_batch built
          (omega (
            arith,
            length-map (λ (e : BatchQueueEntry). e.verification_data_commitment) finalized_batch,
          ))
          sinks in
      (
        sent,
        run,
        receives xs t 0 finalized_batch sent more built (stands [] finalized_batch) committed
            answered falls some_own,
      )
