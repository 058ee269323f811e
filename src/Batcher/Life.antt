-- ===== src/Batcher/Life.antt =====
-- The life of the batcher, lib.rs: the messages of its clients, `handle_message`, the events of
-- unlocked funds, and the new blocks, in any order, each handled to its end before the next.
use Prim.Native.String.{String}
use aligned_layer.Prelude.{
  ℕ, ◌*◌, ◌/◌, ◌^◌, ◌<◌, ◌≡◌, sym, subst, ◌∙◌, ◌&&◌, List, done, >>=-eq-done, done-injective,
  Result, ok, err, Bool-cases, inl, inr,
}
use aligned_layer.Sdk.Types.{
  BatchInclusionData, ClientMessage, get_nonce_for_address, submit_proof, get_last_max_fee,
}
use aligned_layer.Batcher.Queue.{BatchQueue}
use aligned_layer.Batcher.State.{Config, Answers, Batcher}
use aligned_layer.Batcher.Accounts.{IsSound}
use aligned_layer.Batcher.Removal.{user_has_proofs_in_queue}
use aligned_layer.Batcher.Removal.Kept.{remove_user_proofs_and_reset_state-IsSound}
use aligned_layer.Batcher.Submit.{handle_submit_proof_msg}
use aligned_layer.Batcher.Submit.Handler.{handle_submit_proof_msg-IsSound}
use aligned_layer.Batcher.Connection.{Handled, submitted, dispatch, handle_message}
use aligned_layer.Batcher.Events.{process_event}
use aligned_layer.Batcher.World.{World}
use aligned_layer.Batcher.Finalize.{Finished}
use aligned_layer.Batcher.NewBlock.{get_gas_price, handle_new_block}
use aligned_layer.Batcher.NewBlock.Posts.{FitsQueue}
use aligned_layer.Batcher.NewBlock.Kept.{handle_new_block-IsSound}
use aligned_layer.Batcher.Tasks.Turns.{HasRoom}

module _ (pq : BatchQueue) where
  -- What `handle_new_block` needs to come to its end.
  pub record IsBounded (w : World) (b : Batcher pq) : Type 0 where
    pub fits : FitsQueue w pq b
    pub cost : w.config.aggregator_gas_cost < 2 ^ 128
    pub multiplier : w.config.aggregator_fee_percentage_multiplier < 2 ^ 62
    pub proofs : 0 < w.config.amount_of_proofs_for_min_max_fee
    pub serializes :
        (d : BatchInclusionData) → (bytes : List ℕ) × (w.serialize_response d ≡ ok bytes)
    pub gas : (gas_price : ℕ) → get_gas_price w ≡ ok gas_price → gas_price * 110 / 100 < 2 ^ 64

  dispatch-IsSound :
      (c : Config) (w : Answers) (b : Batcher pq) (sink : ℕ) (m : Result ClientMessage String)
      {h : Handled pq}
      → IsSound pq b
      → HasRoom pq b
      → dispatch pq c w b sink m ≡ done h
      → IsSound pq h.state
  dispatch-IsSound c w b sink (err e) sound room run =
      subst (λ (h : Handled pq). IsSound pq h.state) (done-injective run) sound
  dispatch-IsSound c w b sink (ok (get_nonce_for_address a)) sound room run =
      subst (λ (h : Handled pq). IsSound pq h.state) (done-injective run) sound
  dispatch-IsSound c w b sink (ok (get_last_max_fee a)) sound room run =
      subst (λ (h : Handled pq). IsSound pq h.state) (done-injective run) sound
  dispatch-IsSound c w b sink (ok (submit_proof m)) sound room run =
      let (r, ran, same) =
        >>=-eq-done (handle_submit_proof_msg pq c w b m sink) (λ r. done (submitted pq r)) run in
      subst (λ (h : Handled pq). IsSound pq h.state) (done-injective same)
        (handle_submit_proof_msg-IsSound pq c w b m sink sound room.free room.counted ran)

  process_event-IsSound :
      (w : Answers) (b : Batcher pq) (user_address : ℕ)
      → IsSound pq b
      → IsSound pq (process_event pq w b user_address).state
  unfolding process_event
  process_event-IsSound w b user_address h =
      elim (Bool-cases (
        user_has_proofs_in_queue w b.user_states user_address
        && w.balance_is_unlocked user_address)) [
          | inl removed ↦
              rw removed (remove_user_proofs_and_reset_state-IsSound pq w b user_address h)
          | inr kept ↦ rw kept h
        ]

  module _ (cbor_deserialize : List ℕ → Result ClientMessage String) (c : Config) where
    pub data Step : Batcher pq → Batcher pq → Type 1 where
      a_message :
          (w : Answers) (b : Batcher pq) (message : List ℕ) (ws_conn_sink : ℕ) (h : Handled pq)
          → handle_message pq cbor_deserialize c w b message ws_conn_sink ≡ done h
          → Step b h.state
      an_event :
          (w : Answers) (b : Batcher pq) (user_address : ℕ)
          → Step b (process_event pq w b user_address).state
      a_block :
          (w : World) (b : Batcher pq) (block_number : ℕ) (r : Finished w pq)
          → w.config ≡ c
          → handle_new_block w pq b block_number ≡ done r
          → Step b r.0.state

    pub data History (b : Batcher pq) : Batcher pq → Type 1 where
      begin : History b b
      and_then : {b' b'' : Batcher pq} → History b b' → Step b' b'' → History b b''

    -- What a step needs: room for a message, and the bounds of a block.
    abbrev pub Allows : {b b' : Batcher pq} → Step b b' → Type 0
    Allows (a_message w b message sink h run) = HasRoom pq b
    Allows (an_event w b user_address) = Unit
    Allows (a_block w b block_number r same run) = IsBounded w b

    abbrev pub Within : {b b' : Batcher pq} → History b b' → Type 0
    Within begin = Unit
    Within (and_then earlier s) = Within earlier × Allows s

    Step-IsSound : {b b' : Batcher pq} (s : Step b b') → Allows s → IsSound pq b → IsSound pq b'
    unfolding handle_message
    Step-IsSound (a_message w b message sink h run) room sound =
        dispatch-IsSound c w b sink (cbor_deserialize message) sound room run
    Step-IsSound (an_event w b user_address) allowed sound =
        process_event-IsSound w b user_address sound
    Step-IsSound (a_block w b block_number r same run) fit sound =
        let (r', run', books, _) =
          handle_new_block-IsSound w pq fit.cost fit.multiplier fit.proofs fit.serializes b
            block_number sound fit.fits fit.gas in
        subst (λ (r : Finished w pq). IsSound pq r.0.state) (done-injective (sym run' ∙ run)) books

    -- If the books agree with the queue, then they do after any run of messages, events of
    -- unlocked funds and new blocks, each handled to its end, in which there is room in the
    -- queue before each message and the bounds under which a block is handled hold before each
    -- block.
    pub History-IsSound :
        {b b' : Batcher pq} (history : History b b') → Within history → IsSound pq b → IsSound pq b'
    History-IsSound begin within sound = sound
    History-IsSound (and_then earlier s) (within, allowed) sound =
        Step-IsSound s allowed (History-IsSound earlier within sound)
