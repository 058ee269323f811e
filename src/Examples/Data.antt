-- ===== src/Examples/Data.antt =====
-- The queues, accounts and messages of the examples.
use aligned_layer.Prelude.{ℕ, true, false, none, some, List, [], ◌∷◌, Run, done}
use aligned_layer.Sdk.Types.{
  sp1, VerificationData, NoncedVerificationData, Signature, SubmitProofMessage,
  VerificationDataCommitment,
}
use aligned_layer.Batcher.Queue.{BatchQueueEntry, Item, Limits, priority_of}
use aligned_layer.Batcher.Queue.ListQueue.{list_queue}
use aligned_layer.Batcher.State.{
  UserState, UserStates, insert_user, Config, Answers, Batcher, Reaction,
}
use aligned_layer.Batcher.Removal.{no_users}

abbrev pub a_proof : VerificationData
a_proof = record {
  proving_system = sp1;
  proof = 1 ∷ [];
  pub_input = none;
  verification_key = none;
  vm_program_code = none;
  proof_generator_addr = 5;
}

abbrev pub nonced : ℕ → ℕ → NoncedVerificationData
nonced n fee = record {
  verification_data = a_proof;
  nonce = n;
  max_fee = fee;
  chain_id = 1;
  payment_service_addr = 2;
}

abbrev pub a_signature : Signature
a_signature = record { r = 1; s = 2; v = 3 }

abbrev pub a_commitment : VerificationDataCommitment
a_commitment = record {
  proof_commitment = 1 ∷ [];
  pub_input_commitment = [];
  proving_system_aux_data_commitment = [];
  proof_generator_addr = 5;
}

-- A proof of the user 5.
abbrev pub entry : ℕ → ℕ → BatchQueueEntry
entry n fee = record {
  nonced_verification_data = nonced n fee;
  verification_data_commitment = a_commitment;
  messaging_sink = some 7;
  signature = a_signature;
  sender = 5;
}

abbrev pub item : ℕ → ℕ → Item
item n fee = (entry n fee, priority_of (entry n fee))

abbrev pub one_item : List Item
one_item = item 0 9000 ∷ []

abbrev pub two_items : List Item
two_items = item 0 9000 ∷ item 1 8000 ∷ []

-- Room for one proof, at a price of 3000 for each.
abbrev pub small_limits : Limits
small_limits = record {
  gas_price = 1;
  max_batch_byte_size = 10000;
  max_batch_proof_qty = 1;
  constant_gas_cost = 1000;
}

abbrev pub a_config : Config
a_config = record {
  chain_id = 1;
  payment_service_addr = 2;
  min_block_interval = 3;
  max_proof_size = 4000;
  max_batch_byte_size = 10000;
  max_batch_proof_qty = 10;
  pre_verification_is_enabled = true;
  non_paying_config = none;
  aggregator_fee_percentage_multiplier = 100;
  aggregator_gas_cost = 0;
  amount_of_proofs_for_min_max_fee = 10;
  min_bump_percentage = 10;
}

abbrev pub some_answers : Answers
some_answers = record {
  signer = λ m s. some 5;
  keccak256 = λ bytes. bytes;
  verify = λ v. true;
  check_user_in_time = true;
  insert_user_in_time = true;
  get_user_in_time = true;
  user_lock_in_time = true;
  batch_lock_in_time = true;
  user_nonce_on_ethereum = λ a. some 0;
  user_balance = λ a. some 1000000;
  balance_is_unlocked = λ a. false;
  user_lock_is_free = λ a. true;
}

-- The account of the user 5, whose one proof is in the queue.
abbrev pub a_user : UserState
a_user = record {
  nonce = 1;
  last_max_fee_limit = 9000;
  total_fees_in_queue = 9000;
  proofs_in_batch = 1;
}

abbrev pub batcher_of : ℕ → List Item → UserStates → Batcher list_queue
batcher_of max_size queue users = record {
  batch_state = record { batch_queue = queue; max_size = max_size };
  user_states = users;
  last_uploaded_batch_block = 0;
  posting_batch = false;
  disabled_verifiers = 0;
  current_min_max_fee = 0;
}

abbrev pub a_batcher : Batcher list_queue
a_batcher = batcher_of 10 one_item (insert_user 5 a_user no_users)

-- The queue has room for one entry only.
abbrev pub full_batcher : Batcher list_queue
full_batcher = batcher_of 1 one_item (insert_user 5 a_user no_users)

abbrev pub message : ℕ → ℕ → SubmitProofMessage
message n fee = record { verification_data = nonced n fee; signature = a_signature }

-- What a run returns, where it returns.
abbrev pub returned {ℓ} : {A : Type ℓ} → A → Run A → A
returned a (done r) = r
returned a _ = a

abbrev pub no_reaction : Reaction list_queue
no_reaction = record { state = a_batcher; sent = [] }
