-- ===== src/Examples/Clients.antt =====
-- What a client asks, sends and is told.
use Prim.Native.String.{String}
use aligned_layer.Prelude.{
  ℕ, ◌≡◌, refl, none, some, Bool, false, List, [], ◌∷◌, done, Result, ok, err,
}
use aligned_layer.Sdk.Types.{
  SubmitProofResponseMessage, protocol_version, batch_inclusion_data, commitment,
  BatchInclusionData, GetNonceResponseMessage, ClientMessage, get_nonce_for_address,
}
use aligned_layer.Sdk.Merkle.{hash_data}
use aligned_layer.Sdk.Messaging.{
  Stream, Sending, Client, AlignedVerificationData, binary, close, receive, send_messages,
  send_loop, receive_loop, get_biggest_nonce, take_last, handle_response, handle_batcher_response,
  match_batcher_response_with_stored_verification_data, verify_proof_inclusion,
  process_batcher_response,
}
use aligned_layer.Sdk.Messaging.Verified.{AllVerified, receive-AllVerified}
use aligned_layer.Sdk.Submit.{
  submit, submit_and_wait_verification, submit_multiple, submit_on_connection,
  check_protocol_version,
}
use aligned_layer.Sdk.Submit.Waiting.{submit_and_wait_verification-submit}
use aligned_layer.Sdk.Queries.{get_nonce_from_batcher}
use aligned_layer.Batcher.Queue.ListQueue.{list_queue}
use aligned_layer.Batcher.Queries.{asked_address}
use aligned_layer.Batcher.Connection.{Handled, first, handle_connection}
use aligned_layer.Answers.Nonce.{Writer, responses, handle_connection-get_nonce_from_batcher}
use aligned_layer.Examples.Data.{a_proof, nonced, a_config, some_answers, a_user, a_batcher}
use aligned_layer.Examples.Wire.{serialize, deserialize}
use aligned_layer.Examples.Packages.{batch_tree}
use aligned_layer.Examples.Posted.{a_client}

-- One number is a version.
abbrev read_message : List ℕ → Result SubmitProofResponseMessage String
read_message (version ∷ []) = ok (protocol_version version)
read_message bytes = deserialize bytes

abbrev a_listener : Client
a_listener = record a_client { cbor_deserialize = read_message }

-- The only proof of its batch.
abbrev the_leaf : List ℕ
the_leaf = hash_data (λ bytes. bytes) (commitment (λ bytes. bytes) a_proof)

abbrev its_place : BatchInclusionData
its_place = record {
  batch_merkle_root = the_leaf;
  batch_inclusion_proof = the_leaf ∷ [];
  index_in_batch = 0;
  user_nonce = 0;
}

abbrev placed : Stream
placed = ok (binary (serialize (batch_inclusion_data its_place))) ∷ ok (close none) ∷ []

abbrev two_sent : Sending
two_sent = ok (nonced 1 8000) ∷ ok (nonced 0 9000) ∷ []

receive-AllVerified_example :
    AllVerified
      (λ bytes. bytes)
      batch_tree
      two_sent
      (receive (λ bytes. bytes) batch_tree a_client placed two_sent)
receive-AllVerified_example =
    receive-AllVerified (λ bytes. bytes) batch_tree a_client placed two_sent

abbrev never_verified : AlignedVerificationData → ℕ → Result Bool String
never_verified d i = ok false

abbrev a_connection : Result Stream String
a_connection = ok (ok (binary (4 ∷ [])) ∷ placed)

submit_and_wait_verification-submit_example :
    submit_and_wait_verification
      (λ bytes. bytes)
      batch_tree
      a_listener
      (λ e. "error")
      never_verified
      a_connection
      2
      a_proof
      9000
      0
    ≡ submit (λ bytes. bytes) batch_tree a_listener (λ e. "error") a_connection 2 a_proof 9000 0
submit_and_wait_verification-submit_example =
    submit_and_wait_verification-submit (λ bytes. bytes) batch_tree a_listener (λ e. "error")
      never_verified a_connection 2 a_proof 9000 0

-- The proof is never verified, and the client is told its place without an error.
unverified :
    submit_and_wait_verification
      (λ bytes. bytes)
      batch_tree
      a_listener
      (λ e. "error")
      never_verified
      a_connection
      2
      a_proof
      9000
      0
    ≡ done (
        ok (record {
          verification_data_commitment = commitment (λ bytes. bytes) a_proof;
          batch_merkle_root = the_leaf;
          batch_inclusion_proof = the_leaf ∷ [];
          index_in_batch = 0;
        }))
unfolding submit submit_multiple submit_on_connection check_protocol_version send_messages send_loop
    receive receive_loop get_biggest_nonce take_last handle_response handle_batcher_response
    match_batcher_response_with_stored_verification_data verify_proof_inclusion
    process_batcher_response hash_data commitment
unverified =
    submit_and_wait_verification-submit (λ bytes. bytes) batch_tree a_listener (λ e. "error")
      never_verified a_connection 2 a_proof 9000 0

-- An address is asked about by its number, and answered by the nonce.
abbrev write_nonce : GetNonceResponseMessage → List ℕ
write_nonce (GetNonceResponseMessage.nonce n) = n ∷ []
write_nonce _ = []

abbrev read_answer : List ℕ → Result GetNonceResponseMessage String
read_answer (n ∷ []) = ok (GetNonceResponseMessage.nonce n)
read_answer _ = err "no nonce"

abbrev write_version : SubmitProofResponseMessage → List ℕ
write_version (protocol_version version) = version ∷ []
write_version _ = []

abbrev a_writer : Writer
a_writer = record { submission = write_version; nonce = write_nonce; fee = λ m. [] }

abbrev write_question : ClientMessage → Result (List ℕ) String
write_question (get_nonce_for_address address) = ok (address ∷ [])
write_question _ = err "no question"

abbrev read_question : List ℕ → Result ClientMessage String
read_question (address ∷ []) = ok (get_nonce_for_address address)
read_question _ = err "no question"

pays : asked_address a_config 5 ≡ some 5
unfolding asked_address
pays = refl

handle_connection-get_nonce_from_batcher_example :
    (h : Handled list_queue) × (handle_connection list_queue read_question a_config a_batcher 9
        (first some_answers (5 ∷ []))
        []
      ≡ done h)
    × (h.state ≡ a_batcher)
    × (get_nonce_from_batcher a_listener write_question read_answer
          (ok (responses a_writer 9 h.sent))
          5
        ≡ ok 1)
handle_connection-get_nonce_from_batcher_example =
    handle_connection-get_nonce_from_batcher a_listener a_writer write_question read_answer
      read_question (λ bytes. refl) (λ v. refl) (λ n. refl) list_queue a_config some_answers
      a_batcher 9 5 5 a_user (5 ∷ []) refl refl refl pays refl refl refl
