-- ===== src/Sdk/Messaging/Verified.antt =====
-- What a client may believe of the answers that `receive`, communication/messaging.rs, returns.
use mathlib.Core.List.Perm
use aligned_layer.Prelude.{
  ℕ, ◌≡◌, refl, subst, ◌⊎◌, inl, inr, Bool, true, false, Option, none, some, List, [], ◌∷◌, ◌==◌,
  Perm, if◌then◌else◌, Result, ok, err, Bool-cases,
}
use aligned_layer.Sdk.Types.{NoncedVerificationData, commitment, BatchInclusionData}
use aligned_layer.Sdk.Merkle.{BatchTree}
use aligned_layer.Sdk.Errors.{SubmitError, invalid_proof_inclusion_data}
use aligned_layer.Sdk.Messaging.{
  Message, text, binary, ping, pong, close, Stream, Client, Sending, Received,
  AlignedVerificationData, new_aligned_verification_data, get_biggest_nonce, has_nonce, taken_here,
  taken_from, take_last, handle_batcher_response, matched,
  match_batcher_response_with_stored_verification_data, verify_proof_inclusion,
  process_batcher_response, Turn, after_process, after_match, after_response, turn, pushed,
  receive_loop, receive,
}

-- What is taken from a list, and the rest.
abbrev Takes : Sending → Option (NoncedVerificationData × Sending) → Type 0
Takes ds none = Unit
Takes ds (some (d, rest)) = Perm ds (ok d ∷ rest)

taken_here-Takes :
    (nonce : ℕ) (x : Result NoncedVerificationData SubmitError) (xs : Sending)
    → Takes (x ∷ xs) (taken_here (has_nonce nonce x) xs)
taken_here-Takes nonce (err e) xs = tt
taken_here-Takes nonce (ok d) xs = elim (Bool-cases (d.nonce == nonce)) [
  | inl same ↦ rw same (Perm.refl (ok d ∷ xs))
  | inr other ↦ rw other tt
]

taken_from-Takes :
    (nonce : ℕ) (x : Result NoncedVerificationData SubmitError) (xs : Sending)
    (o : Option (NoncedVerificationData × Sending))
    → Takes xs o
    → Takes (x ∷ xs) (taken_from nonce x xs o)
taken_from-Takes nonce x xs none h = taken_here-Takes nonce x xs
taken_from-Takes nonce x xs (some (d, rest)) h =
    Perm.trans (Perm.cons x h) (Perm.swap (ok d) x rest)

take_last-Takes : (nonce : ℕ) (ds : Sending) → Takes ds (take_last nonce ds)
unfolding take_last
take_last-Takes nonce [] = tt
take_last-Takes nonce (x ∷ xs) =
    taken_from-Takes nonce x xs (take_last nonce xs) (take_last-Takes nonce xs)

module _ (keccak256 : List ℕ → List ℕ) (tree : BatchTree keccak256) where
  -- The answer names the proof, and its path leads from the proof's commitment to the root.
  pub record IsVerified (d : NoncedVerificationData) (a : AlignedVerificationData) : Type 0 where
    pub committed : a.verification_data_commitment ≡ commitment keccak256 d.verification_data
    pub included :
        tree.verify a.batch_inclusion_proof a.batch_merkle_root a.index_in_batch
          a.verification_data_commitment
        ≡ true

  -- Each answer is of another of the proofs, until an error ends the answers.
  abbrev pub AllVerified : Sending → Received → Type 0
  AllVerified sent [] = Unit
  AllVerified sent (err e ∷ rest) = rest ≡ []
  AllVerified sent (ok a ∷ rest) =
      (d : NoncedVerificationData) × (others : Sending) × Perm sent (ok d ∷ others)
      × IsVerified d a
      × AllVerified others rest

  module _ (cl : Client) where
    abbrev IsGood : Sending → Turn keccak256 tree cl → Type 0
    IsGood sent (err e, o) = o ≡ none
    IsGood sent (ok a, o) =
        (d : NoncedVerificationData) × (others : Sending) × Perm sent (ok d ∷ others)
        × IsVerified d a
        × ((o ≡ none) ⊎ (o ≡ some others))

    next_list :
        (v : Bool) (others : Sending)
        → let o : Option Sending = if v then none else some others in (o ≡ none) ⊎ (o ≡ some others)
    next_list true others = inl refl
    next_list false others = inr refl

    processed-IsGood :
        (last : ℕ) (i : BatchInclusionData) (sent others : Sending) (d : NoncedVerificationData)
        (v : Bool)
        → Perm sent (ok d ∷ others)
        → verify_proof_inclusion keccak256 tree cl (commitment keccak256 d.verification_data) i ≡ v
        → IsGood sent (
            after_process keccak256 tree cl last i others (
              if v
              then ok (new_aligned_verification_data (commitment keccak256 d.verification_data) i)
              else err invalid_proof_inclusion_data))
    unfolding verify_proof_inclusion
    processed-IsGood last i sent others d false taken e = refl
    processed-IsGood last i sent others d true taken e = (
      d,
      others,
      taken,
      record { committed = refl; included = e },
      next_list (i.user_nonce == last) others,
    )

    matched-IsGood :
        (last : ℕ) (i : BatchInclusionData) (sent : Sending)
        (o : Option (NoncedVerificationData × Sending))
        → Takes sent o
        → IsGood sent (after_match keccak256 tree cl last i (matched keccak256 tree cl o))
    unfolding process_batcher_response
    matched-IsGood last i sent none taken = refl
    matched-IsGood last i sent (some (d, others)) taken =
        processed-IsGood last i sent others d
          (verify_proof_inclusion keccak256 tree cl (commitment keccak256 d.verification_data) i)
          taken refl

    after_response-IsGood :
        (last : ℕ) (sent : Sending) (r : Result BatchInclusionData SubmitError)
        → IsGood sent (after_response keccak256 tree cl last sent r)
    unfolding match_batcher_response_with_stored_verification_data
    after_response-IsGood last sent (err e) = refl
    after_response-IsGood last sent (ok i) =
        matched-IsGood last i sent (take_last i.user_nonce sent) (take_last-Takes i.user_nonce sent)

    turn-IsGood :
        (last : ℕ) (msg : Message) (sent : Sending)
        → IsGood sent (turn keccak256 tree cl last msg sent)
    turn-IsGood last (close (some reason)) sent = refl
    turn-IsGood last (close none) sent = refl
    turn-IsGood last (text b) sent =
        after_response-IsGood last sent (handle_batcher_response keccak256 tree cl (text b))
    turn-IsGood last (binary b) sent =
        after_response-IsGood last sent (handle_batcher_response keccak256 tree cl (binary b))
    turn-IsGood last (ping b) sent =
        after_response-IsGood last sent (handle_batcher_response keccak256 tree cl (ping b))
    turn-IsGood last (pong b) sent =
        after_response-IsGood last sent (handle_batcher_response keccak256 tree cl (pong b))

    pushed-AllVerified :
        (continue : Sending → Received) (sent : Sending) (t : Turn keccak256 tree cl)
        → ((s : Sending) → AllVerified s (continue s))
        → IsGood sent t
        → AllVerified sent (pushed keccak256 tree cl continue t)
    pushed-AllVerified continue sent (err e, none) h good = refl
    pushed-AllVerified continue sent (err e, some s) h good = cc
    pushed-AllVerified continue sent (ok a, none) h (d, others, taken, verified, _) =
        (d, others, taken, verified, tt)
    pushed-AllVerified continue sent (ok a, some s) h (d, others, taken, verified, inl e) = cc
    pushed-AllVerified continue sent (ok a, some s) h (d, others, taken, verified, inr e) =
        let same : s ≡ others = cc in
        (d, others, taken, verified, subst (λ l. AllVerified l (continue s)) same (h s))

    receive_loop-AllVerified :
        (last : ℕ) (stream : Stream) (sent : Sending)
        → AllVerified sent (receive_loop keccak256 tree cl last stream sent)
    unfolding receive_loop
    receive_loop-AllVerified last [] sent = tt
    receive_loop-AllVerified last (err e ∷ stream) sent = tt
    receive_loop-AllVerified last (ok msg ∷ stream) sent =
        pushed-AllVerified (receive_loop keccak256 tree cl last stream) sent
          (turn keccak256 tree cl last msg sent) (receive_loop-AllVerified last stream)
          (turn-IsGood last msg sent)

    -- Whatever arrives at a client, each answer without an error that `receive` returns has the
    -- commitment of a proof that the client sent and a path that passes the verification from
    -- this commitment to the root of the answer, each of another of the proofs that were sent;
    -- an error is the last of the answers.
    pub receive-AllVerified :
        (stream : Stream) (sent : Sending)
        → AllVerified sent (receive keccak256 tree cl stream sent)
    unfolding receive
    receive-AllVerified stream sent = receive_loop-AllVerified (get_biggest_nonce sent) stream sent
