-- ===== src/Answers/Nonce.antt =====
-- The nonce that a client asks for: `get_nonce_from_batcher`, crates/sdk/src/verification_layer/mod.rs,
-- at the other end of `handle_connection`, crates/batcher/src/lib.rs.
use Prim.Native.String.{String}
use aligned_layer.Prelude.{
  ℕ, ◌≡◌, refl, ap, ◌∙◌, true, arith, some, List, [], ◌∷◌, ◌==◌, eq_self, if◌then◌else◌, done,
  Result, ok,
}
use aligned_layer.Sdk.Types.{
  SubmitProofResponseMessage, protocol_version, GetNonceResponseMessage,
  GetLastMaxFeeResponseMessage, ClientMessage, get_nonce_for_address,
}
use aligned_layer.Sdk.Messaging.{Stream, Client, binary}
use aligned_layer.Sdk.Submit.{expected_protocol_version, checked_version, check_protocol_version}
use aligned_layer.Sdk.Queries.{
  nonce_failures, read_nonce, after_send, with_message, after_check, ask, get_nonce_from_batcher,
}
use aligned_layer.Sdk.Queries.Errors.{GetNonceError}
use aligned_layer.Batcher.Queue.{BatchQueue}
use aligned_layer.Batcher.State.{UserState, UserStates, Config, Answers, Batcher}
use aligned_layer.Batcher.Queries.{asked_address, nonce_of_user, handle_get_nonce_for_address_msg}
use aligned_layer.Batcher.Connection.{
  Response, to_submission, to_nonce, to_fee, Handled, handle_message, handle_messages, first,
  handle_connection,
}

-- The serialization of what the batcher sends.
pub record Writer : Type 0 where
  pub submission : SubmitProofResponseMessage → List ℕ
  pub nonce : GetNonceResponseMessage → List ℕ
  pub fee : GetLastMaxFeeResponseMessage → List ℕ

abbrev pub written : Writer → Response → List ℕ
written s (to_submission m) = s.submission m
written s (to_nonce m) = s.nonce m
written s (to_fee m) = s.fee m

-- What arrives at the client behind a sink.
abbrev pub responses : Writer → ℕ → List (ℕ × Response) → Stream
responses s sink [] = []
responses s sink ((k, m) ∷ sent) =
    if k == sink then ok (binary (written s m)) ∷ responses s sink sent else responses s sink sent

-- The cached nonce, where the locks are free.
cached_nonce :
    (w : Answers) (users : UserStates) (payer : ℕ) (u : UserState)
    → users payer ≡ some u
    → w.check_user_in_time ≡ true
    → w.user_lock_in_time ≡ true
    → nonce_of_user w users payer ≡ GetNonceResponseMessage.nonce u.nonce
unfolding nonce_of_user
cached_nonce w users payer u known free locked = rw (free, known, locked) refl

asked_nonce :
    (c : Config) (w : Answers) (users : UserStates) (address payer : ℕ) (u : UserState)
    → asked_address c address ≡ some payer
    → users payer ≡ some u
    → w.check_user_in_time ≡ true
    → w.user_lock_in_time ≡ true
    → handle_get_nonce_for_address_msg c w users address ≡ GetNonceResponseMessage.nonce u.nonce
unfolding handle_get_nonce_for_address_msg
asked_nonce c w users address payer u asked known free locked =
    let cached = cached_nonce w users payer u known free locked in ground arith

module _ (cl : Client) (s : Writer) (client_serialize : ClientMessage → Result (List ℕ) String)
    (client_deserialize : List ℕ → Result GetNonceResponseMessage String)
    (server_deserialize : List ℕ → Result ClientMessage String)
    (data_of_binary : (bytes : List ℕ) → cl.into_data (binary bytes) ≡ bytes)
    (version_read : (v : ℕ)
      → cl.cbor_deserialize (s.submission (protocol_version v)) ≡ ok (protocol_version v))
    (nonce_read : (n : ℕ)
      → client_deserialize (s.nonce (GetNonceResponseMessage.nonce n))
        ≡ ok (GetNonceResponseMessage.nonce n)) where
  -- The two messages of the batcher, as they arrive.
  abbrev exchange : GetNonceResponseMessage → Stream
  exchange m =
      ok (binary (s.submission (protocol_version expected_protocol_version)))
      ∷ ok (binary (s.nonce m))
      ∷ []

  version_checked : (m : GetNonceResponseMessage) → check_protocol_version cl (exchange m) ≡ ok tt
  unfolding check_protocol_version
  version_checked m =
      ap (λ bytes. checked_version (cl.cbor_deserialize bytes))
        (data_of_binary (s.submission (protocol_version expected_protocol_version)))
      ∙ ap checked_version (version_read expected_protocol_version)

  abbrev reads : List ℕ → Result ℕ GetNonceError
  reads bytes = read_nonce (client_deserialize bytes)

  client_reads :
      (n address : ℕ) (bytes : List ℕ)
      → client_serialize (get_nonce_for_address address) ≡ ok bytes
      → cl.send bytes ≡ ok tt
      → get_nonce_from_batcher cl client_serialize client_deserialize
          (ok (exchange (GetNonceResponseMessage.nonce n)))
          address
        ≡ ok n
  unfolding get_nonce_from_batcher ask
  client_reads n address bytes written_as sent =
      let m = GetNonceResponseMessage.nonce n in
      ap
        (after_check nonce_failures cl reads (exchange m)
          (client_serialize (get_nonce_for_address address)))
        (version_checked m)
      ∙ ap (with_message nonce_failures cl reads (ok (binary (s.nonce m)) ∷ [])) written_as
      ∙ ap (after_send nonce_failures cl reads (ok (binary (s.nonce m)) ∷ [])) sent
      ∙ ap reads (data_of_binary (s.nonce m))
      ∙ ap read_nonce (nonce_read n)

  module _ (pq : BatchQueue) (c : Config) (w : Answers) (b : Batcher pq) (sink : ℕ) where
    -- The batcher sends its version and the answer, and its state is as it was.
    abbrev answer_to : GetNonceResponseMessage → Handled pq
    answer_to m = record {
      state = b;
      sent =
          (sink, to_submission (protocol_version expected_protocol_version))
          ∷ (sink, to_nonce m)
          ∷ [];
    }

    batcher_answers :
        (address : ℕ) (bytes : List ℕ)
        → server_deserialize bytes ≡ ok (get_nonce_for_address address)
        → handle_connection pq server_deserialize c b sink (first w bytes) []
          ≡ done (answer_to (handle_get_nonce_for_address_msg c w b.user_states address))
    unfolding handle_connection handle_messages handle_message
    batcher_answers address bytes read = rw read refl

    arrives_as : (m : GetNonceResponseMessage) → responses s sink (answer_to m).sent ≡ exchange m
    arrives_as m = rw (eq_self sink) refl

    -- If a message carries its bytes, each side reads what the other writes, the question is
    -- sent, the user who is asked about, or the one who pays in the user's place, has a state,
    -- and the locks are free in time, then the batcher answers the connection of a client that
    -- asks for the nonce to its end, its state is as it was, and from what reaches the client it
    -- reads the nonce of that state.
    pub handle_connection-get_nonce_from_batcher :
        (address payer : ℕ) (u : UserState) (bytes : List ℕ)
        → client_serialize (get_nonce_for_address address) ≡ ok bytes
        → server_deserialize bytes ≡ ok (get_nonce_for_address address)
        → cl.send bytes ≡ ok tt
        → asked_address c address ≡ some payer
        → b.user_states payer ≡ some u
        → w.check_user_in_time ≡ true
        → w.user_lock_in_time ≡ true
        → (h : Handled pq) × (handle_connection pq server_deserialize c b sink (first w bytes) []
            ≡ done h)
          × (h.state ≡ b)
          × (get_nonce_from_batcher cl client_serialize client_deserialize
                (ok (responses s sink h.sent))
                address
              ≡ ok u.nonce)
    handle_connection-get_nonce_from_batcher address payer u bytes written_as read sent asked known
          free locked =
        let m = handle_get_nonce_for_address_msg c w b.user_states address in
        (
          answer_to m,
          batcher_answers address bytes read,
          refl,
          ap
                (λ stream.
                  get_nonce_from_batcher cl client_serialize client_deserialize (ok stream) address)
                (arrives_as m
                  ∙ ap exchange
                      (asked_nonce c w b.user_states address payer u asked known free locked))
              ∙ client_reads u.nonce address bytes written_as sent,
        )
