-- ===== src/Sdk/Submit/Waiting.antt =====
-- The wait for a verification, crates/sdk/src/verification_layer/mod.rs.
use Prim.Native.String.{String}
use aligned_layer.Prelude.{
  ℕ, ◌≡◌, refl, ap, Bool, Option, none, some, List, [], ◌∷◌, ◌++◌, Run, done, ◌>>=◌, Result, ok,
  err,
}
use aligned_layer.Sdk.Types.{VerificationData}
use aligned_layer.Sdk.Merkle.{BatchTree}
use aligned_layer.Sdk.Errors.{SubmitError}
use aligned_layer.Sdk.Messaging.{Stream, Client, Received, AlignedVerificationData}
use aligned_layer.Sdk.Submit.{
  first_answer, submit_multiple, submit, first_timeout, after_wait,
  submit_multiple_and_wait_verification, submit_and_wait_verification,
}

module _ (keccak256 : List ℕ → List ℕ) (tree : BatchTree keccak256) (cl : Client)
    (to_string : SubmitError → String)
    (is_proof_verified : AlignedVerificationData → ℕ → Result Bool String) where
  -- The error of a wait stands behind the answers.
  first_answer-waited :
      (o : Option SubmitError) (x : Result AlignedVerificationData SubmitError) (xs : Received)
      → first_answer keccak256 tree cl to_string
          (elim o [ none ↦ x ∷ xs | some e ↦ x ∷ (xs ++ err e ∷ []) ])
        ≡ first_answer keccak256 tree cl to_string (x ∷ xs)
  first_answer-waited none x xs = refl
  first_answer-waited (some e) (ok d) xs = refl
  first_answer-waited (some e) (err e') xs = refl

  first_answer-after_wait :
      (answers : Received)
      → first_answer keccak256 tree cl to_string (after_wait is_proof_verified answers)
        ≡ first_answer keccak256 tree cl to_string answers
  unfolding after_wait
  first_answer-after_wait [] = refl
  first_answer-after_wait (x ∷ xs) =
      first_answer-waited (first_timeout is_proof_verified (x ∷ xs)) x xs

  waited :
      (m : Run Received)
      → ((m >>= λ answers. done (after_wait is_proof_verified answers)) >>= λ answers.
          done (first_answer keccak256 tree cl to_string answers))
        ≡ (m >>= λ answers. done (first_answer keccak256 tree cl to_string answers))
  waited (done answers) = ap done (first_answer-after_wait answers)
  waited Run.panic = refl
  waited Run.deadlock = refl

  -- Whatever the contract answers, a submission that waits for the verification returns what the
  -- submission that does not wait returns: that the proof is not verified in time is never told.
  pub submit_and_wait_verification-submit :
      (connection : Result Stream String) (payment_service_addr : ℕ)
      (verification_data : VerificationData) (max_fee nonce : ℕ)
      → submit_and_wait_verification keccak256 tree cl to_string is_proof_verified connection
          payment_service_addr verification_data max_fee nonce
        ≡ submit keccak256 tree cl to_string connection payment_service_addr verification_data
            max_fee nonce
  unfolding submit_and_wait_verification submit_multiple_and_wait_verification submit
  submit_and_wait_verification-submit connection payment_service_addr verification_data max_fee
        nonce =
      waited (
        submit_multiple keccak256 tree cl connection payment_service_addr (verification_data ∷ [])
          max_fee nonce)
