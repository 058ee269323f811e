-- ===== src/Examples/Posted.antt =====
-- A new block, the fees of a task, and the answers to a client.
use Prim.Native.String.{String}
use aligned_layer.Prelude.{
  ℕ, ◌*◌, ◌/◌, ◌^◌, ◌≤◌, ◌<◌, ◌≡◌, refl, true, false, none, some, List, [], ◌∷◌, ◌++◌, arith, done,
  ok, err, all, leb, Result,
}
use aligned_layer.Sdk.Types.{VerificationDataCommitment, commitment, cbor_size_upper_bound}
use aligned_layer.Sdk.Types
use aligned_layer.Sdk.Messaging
use aligned_layer.Sdk.Fees.{calculate_fee_per_proof_with_gas_price}
use aligned_layer.Sdk.Messaging.{Client, receive}
use aligned_layer.Batcher.Queue.{BatchQueueEntry, fee_of, calculate_fee_per_proof}
use aligned_layer.Batcher.Queue.ListQueue.{list_queue}
use aligned_layer.Batcher.State.{Config, Sent, constant_gas_cost}
use aligned_layer.Batcher.Accounts.{IsSound}
use aligned_layer.Batcher.Retry.{answered, included}
use aligned_layer.Batcher.Gas.{
  calculate_bumped_gas_price, cancel_prices, CreateNewTaskFeeParams, fee_params_of,
}
use aligned_layer.Batcher.Gas.Bounds.{
  fee_params_of-calculate_fee_per_proof, rises, cancel_prices_rise,
}
use aligned_layer.Batcher.Gas.Estimate.{calculate_fee_per_proof_with_gas_price-covers}
use aligned_layer.Batcher.World.{World}
use aligned_layer.Batcher.Finalize.{commitments, Finished, send_batch_inclusion_data_responses}
use aligned_layer.Batcher.NewBlock.{get_gas_price, extract_and_post, handle_new_block}
use aligned_layer.Batcher.NewBlock.Posts.{Fits, extract_and_post_lem, Outcome}
use aligned_layer.Batcher.NewBlock.Kept.{handle_new_block-IsSound}
use aligned_layer.Batcher.NewBlock.Charged.{extract_batch_if_ready-fee_params_of}
use aligned_layer.Batcher.Retry.{retry_function, get_gas_price_retryable}
use aligned_layer.Answers.{stream_of, waits, places}
use aligned_layer.Answers.Delivered.{send_batch_inclusion_data_responses-receive}
use aligned_layer.Examples.Data.{
  entry, a_proof, a_signature, one_item, a_config, some_answers, a_batcher,
}
use aligned_layer.Examples.Books.{one_item-IsConsistent}
use aligned_layer.Examples.Posting.{makes_batch, one_item_fits}
use aligned_layer.Examples.Wire.{serialize, deserialize, deserialize-serialize}
use aligned_layer.Examples.Packages.{backon_loop, batch_tree}

-- Everything outside answers, at a gas price of `price`.
abbrev pub a_world : ℕ → World
a_world price = record {
  config = a_config;
  answers = some_answers;
  backon = backon_loop;
  tree = batch_tree;
  serialize_batch = λ proofs. ok [];
  serialize_response = λ d. ok (serialize (Types.batch_inclusion_data d));
  encode = λ bytes. "00";
  to_string = λ bytes. "0x";
  s3 = record { download_endpoint = "s3"; upload_object = λ bytes name i. ok tt };
  s3_secondary = none;
  gas_price = λ i. (ok price, err "no fallback");
  disabled_verifiers = (ok 0, err "no fallback");
  simulate_create_new_task = λ task i. (answered tt, answered tt);
  create_new_task = λ task i. (answered (included 9), answered (included 9));
}

pub free :
    (gas_price : ℕ) → get_gas_price (a_world 0) ≡ ok gas_price → gas_price * 110 / 100 < 2 ^ 64
unfolding get_gas_price retry_function get_gas_price_retryable
free gas_price e =
    let is_free : ◌≡◌ {A = Result ℕ String} (ok 0) (ok gas_price) = e in
    let zero_price : 0 ≡ gas_price = cc in omega arith

one_item-Fits : Fits one_item 10
one_item-Fits = record {
  bytes = one_item_fits;
  fees = omega arith;
  entries = omega arith;
  room = omega arith;
  answerable = refl;
}

handle_new_block-IsSound_example :
    (r : Finished (a_world 0) list_queue) × (handle_new_block (a_world 0) list_queue a_batcher 3
      ≡ done r)
    × IsSound list_queue r.0.state
    × (r.0.state.posting_batch ≡ false)
handle_new_block-IsSound_example =
    handle_new_block-IsSound (a_world 0) list_queue (omega arith) (omega arith) (omega arith)
      (λ d. (serialize (Types.batch_inclusion_data d), refl)) a_batcher 3 one_item-IsConsistent
      one_item-Fits free

abbrev free_task : CreateNewTaskFeeParams
free_task = record {
  fee_for_aggregator = 0;
  fee_per_proof = 0;
  gas_price = 0;
  respond_to_task_fee_limit = 0;
}

costs_nothing : fee_params_of a_config 1 0 ≡ done free_task
unfolding fee_params_of constant_gas_cost
costs_nothing = refl

extract_batch_if_ready-fee_params_of_example :
    all (λ e. leb 0 (fee_of e)) (entry 0 9000 ∷ []) ≡ true
extract_batch_if_ready-fee_params_of_example =
    extract_batch_if_ready-fee_params_of list_queue a_config a_batcher 3 0 one_item-IsConsistent
      (omega arith) one_item_fits makes_batch costs_nothing

two_bumps : cancel_prices 0 1000 (some 1200 ∷ none ∷ some 1100 ∷ []) ≡ done (1440 ∷ 1800 ∷ [])
unfolding cancel_prices calculate_bumped_gas_price
two_bumps = refl

cancel_prices_rise_example : rises 1000 (1440 ∷ 1800 ∷ []) ≡ true
cancel_prices_rise_example = cancel_prices_rise 0 1000 (some 1200 ∷ none ∷ some 1100 ∷ []) two_bumps

estimate_10 : calculate_fee_per_proof_with_gas_price 10 100 ≡ done 6132500
unfolding calculate_fee_per_proof_with_gas_price
estimate_10 = refl

-- The costs of the aggregator that the sdk assumes.
abbrev usual_config : Config
usual_config = record a_config {
  aggregator_fee_percentage_multiplier = 125;
  aggregator_gas_cost = 330000;
}

usual_cost : constant_gas_cost usual_config ≡ 537500
unfolding constant_gas_cost
usual_cost = refl

cost_16 :
    calculate_fee_per_proof 16 (100 * 110 / 100) (constant_gas_cost usual_config) ≡ done 3915230
unfolding calculate_fee_per_proof constant_gas_cost
cost_16 = refl

calculate_fee_per_proof_with_gas_price-covers_example : 3915230 ≤ 6132500
calculate_fee_per_proof_with_gas_price-covers_example =
    calculate_fee_per_proof_with_gas_price-covers usual_config 10 16 100 100 usual_cost
      (omega arith) (omega arith) (omega arith) estimate_10 cost_16

fee_params_of-calculate_fee_per_proof_example :
    calculate_fee_per_proof 1 0 (constant_gas_cost a_config) ≡ done 0
fee_params_of-calculate_fee_per_proof_example =
    fee_params_of-calculate_fee_per_proof a_config 1 0 free_task costs_nothing

-- An entry with the commitment of its proof.
abbrev committed_entry : ℕ → ℕ → BatchQueueEntry
committed_entry n fee = record (entry n fee) {
  verification_data_commitment = commitment (λ bytes. bytes) a_proof;
}

abbrev pub two_proofs : List BatchQueueEntry
two_proofs = committed_entry 1 8000 ∷ committed_entry 0 9000 ∷ []

abbrev pub a_client : Client
a_client = record {
  cbor_serialize = λ m. ok [];
  cbor_deserialize = deserialize;
  into_data = λ m. elim m [ Messaging.binary bytes ↦ bytes | _ ↦ [] ];
  chain_id = 1;
  sign_typed_data = λ d. some a_signature;
  send = λ bytes. ok tt;
  close = ok tt;
}

send_batch_inclusion_data_responses-receive_example :
    (sent : List Sent) × (send_batch_inclusion_data_responses
        (a_world 0)
        two_proofs
        (commitments two_proofs)
      ≡ done (sent, ok tt))
    × (receive
          (λ bytes. bytes)
          batch_tree
          a_client
          (stream_of 7 serialize sent ++ [])
          (waits 7 two_proofs)
        ≡ places (a_world 0) 7 (commitments two_proofs) 0 two_proofs)
send_batch_inclusion_data_responses-receive_example =
    send_batch_inclusion_data_responses-receive (a_world 0) a_client serialize (λ bytes. refl)
      deserialize-serialize 7 two_proofs (commitments two_proofs) [] (λ d. refl) refl refl
      (refl, (refl, tt)) refl (omega arith)

extract_and_post_lem_example :
    (r : Finished (a_world 0) list_queue) × (extract_and_post (a_world 0) list_queue a_batcher 3 0
      ≡ done r)
    × IsSound list_queue r.0.state
    × (r.0.state.posting_batch ≡ false)
    × Outcome (a_world 0) list_queue one_item r.0.state.batch_state.batch_queue r.1
extract_and_post_lem_example =
    extract_and_post_lem (a_world 0) list_queue a_batcher 3 0 one_item-IsConsistent (omega arith)
      one_item-Fits (omega arith) (omega arith)
      (λ d. (serialize (Types.batch_inclusion_data d), refl))
