-- ===== src/Batcher/Connection.antt =====
-- A connection of a client, lib.rs: `handle_connection` and `handle_message`.
use Prim.Native.String.{String}
use aligned_layer.Prelude.{ℕ, List, [], ◌∷◌, ◌++◌, map, Run, done, ◌>>=◌, Result, ok, err}
use aligned_layer.Sdk.Types.{
  SubmitProofResponseMessage, GetNonceResponseMessage, GetLastMaxFeeResponseMessage, ClientMessage,
  get_nonce_for_address, submit_proof, get_last_max_fee, protocol_version,
}
use aligned_layer.Sdk.Submit.{expected_protocol_version}
use aligned_layer.Batcher.Queue.{BatchQueue}
use aligned_layer.Batcher.State.{Config, Answers, Sent, Batcher, Reaction}
use aligned_layer.Batcher.Submit.{handle_submit_proof_msg}
use aligned_layer.Batcher.Queries.{handle_get_nonce_for_address_msg, handle_get_last_max_fee}

-- What is sent to a client.
pub data Response : Type 0 where
  to_submission : SubmitProofResponseMessage → Response
  to_nonce : GetNonceResponseMessage → Response
  to_fee : GetLastMaxFeeResponseMessage → Response

abbrev pub submission_response : Sent → ℕ × Response
submission_response (sink, message) = (sink, to_submission message)

-- What a connection sees: the bytes of a binary message, with the answers that its task gets, or an
-- error of the stream.
pub data Arrival : Type 0 where
  arrives : Answers → List ℕ → Arrival
  broken : Arrival

-- The first message within the time, the end of the stream, or neither.
pub data First : Type 0 where
  first : Answers → List ℕ → First
  closed timed_out stream_error : First

module _ (pq : BatchQueue) where
  -- What handlers leave, and send.
  pub record Handled : Type 0 where
    pub state : Batcher pq
    pub sent : List (ℕ × Response)

  abbrev pub submitted : Reaction pq → Handled
  submitted r = record { state = r.state; sent = map submission_response r.sent }

  -- A message that is not understood is passed over.
  abbrev pub dispatch :
      Config → Answers → Batcher pq → ℕ → Result ClientMessage String → Run Handled
  dispatch c w b ws_conn_sink (err e) = done (record { state = b; sent = [] })
  dispatch c w b ws_conn_sink (ok (get_nonce_for_address address)) = done (record {
    state = b;
    sent =
        (ws_conn_sink, to_nonce (handle_get_nonce_for_address_msg c w b.user_states address)) ∷ [];
  })
  dispatch c w b ws_conn_sink (ok (submit_proof msg)) =
      handle_submit_proof_msg pq c w b msg ws_conn_sink >>= λ r. done (submitted r)
  dispatch c w b ws_conn_sink (ok (get_last_max_fee address)) = done (record {
    state = b;
    sent = (ws_conn_sink, to_fee (handle_get_last_max_fee c w b.user_states address)) ∷ [];
  })

  module _ (cbor_deserialize : List ℕ → Result ClientMessage String) (c : Config) where
    unfoldable pub handle_message : Answers → Batcher pq → List ℕ → ℕ → Run Handled
    handle_message w b message ws_conn_sink = dispatch c w b ws_conn_sink (cbor_deserialize message)

    abbrev pub after_sending : List (ℕ × Response) → Handled → Handled
    after_sending earlier h = record { state = h.state; sent = earlier ++ h.sent }

    -- `try_for_each`: the messages in their order, up to an error of the stream.
    unfoldable pub handle_messages : Batcher pq → ℕ → List Arrival → Run Handled
    handle_messages b outgoing [] = done (record { state = b; sent = [] })
    handle_messages b outgoing (broken ∷ incoming) = done (record { state = b; sent = [] })
    handle_messages b outgoing (arrives w message ∷ incoming) =
        handle_message w b message outgoing >>= λ h.
        handle_messages h.state outgoing incoming >>= λ rest. done (after_sending h.sent rest)

    abbrev pub after_version : Batcher pq → ℕ → First → List Arrival → Run Handled
    after_version b outgoing (first w message) incoming =
        handle_messages b outgoing (arrives w message ∷ incoming)
    after_version b outgoing closed incoming = done (record { state = b; sent = [] })
    after_version b outgoing timed_out incoming = done (record { state = b; sent = [] })
    after_version b outgoing stream_error incoming = done (record { state = b; sent = [] })

    -- An open connection: the version is sent, and the messages are handled; that alone, while no
    -- other task takes a turn.
    unfoldable pub handle_connection : Batcher pq → ℕ → First → List Arrival → Run Handled
    handle_connection b outgoing future_msg incoming =
        after_version b outgoing future_msg incoming >>= λ h. done (
          after_sending
            ((outgoing, to_submission (protocol_version expected_protocol_version)) ∷ []) h)
