-- ===== src/Batcher/State.antt =====
-- The state of the batcher: `types/user_state.rs`, `types/batch_state.rs` and the fields of
-- `struct Batcher` in `lib.rs`. A map from addresses is a function, and a lock of the shared state
-- is left out where the model runs one task; what a task waits for is an answer (`Answers`).
use aligned_layer.Prelude.{
  ℕ, ◌+◌, ◌*◌, ◌/◌, ◌%◌, Bool, true, ◌&&◌, not, Option, none, some, List, [], ◌∷◌, ltb, leb, ◌==◌,
  if◌then◌else◌, Run, done, u256_max, u128_mod, all, find, keep,
}
use aligned_layer.Sdk.Constants.{batcher_submission_base_gas_cost, percentage_divider}
use aligned_layer.Sdk.Types.{
  VerificationData, NoncedVerificationData, Signature, SubmitProofResponseMessage,
}
use aligned_layer.Batcher.Queue.{BatchQueue, BatchQueueEntry, Item, fee_of, nonce_of}

pub record UserState : Type 0 where
  pub nonce : ℕ
  pub last_max_fee_limit : ℕ
  pub total_fees_in_queue : ℕ
  pub proofs_in_batch : ℕ

-- `UserState::new`
abbrev pub new_user_state : ℕ → UserState
new_user_state nonce = record {
  nonce = nonce;
  last_max_fee_limit = u256_max;
  total_fees_in_queue = 0;
  proofs_in_batch = 0;
}

-- `HashMap<Address, Arc<Mutex<UserState>>>`
abbrev pub UserStates : Type 0
UserStates = ℕ → Option UserState

abbrev pub insert_user : ℕ → UserState → UserStates → UserStates
insert_user addr u users a = if a == addr then some u else users a

abbrev pub remove_user : ℕ → UserStates → UserStates
remove_user addr users a = if a == addr then none else users a

-- `NonPayingConfig`: the address that need not pay, and the address of the wallet that pays for it.
pub record NonPayingConfig : Type 0 where
  pub address : ℕ
  pub replacement : ℕ

-- The fields of `Batcher` that do not change.
pub record Config : Type 0 where
  pub chain_id : ℕ
  pub payment_service_addr : ℕ
  pub min_block_interval : ℕ
  pub max_proof_size : ℕ
  pub max_batch_byte_size : ℕ
  pub max_batch_proof_qty : ℕ
  pub pre_verification_is_enabled : Bool
  pub non_paying_config : Option NonPayingConfig
  pub aggregator_fee_percentage_multiplier : ℕ
  pub aggregator_gas_cost : ℕ
  pub amount_of_proofs_for_min_max_fee : ℕ
  pub min_bump_percentage : ℕ

-- `constant_gas_cost`, over `u128`.
unfoldable pub constant_gas_cost : Config → ℕ
constant_gas_cost c =
    (c.aggregator_fee_percentage_multiplier * c.aggregator_gas_cost % u128_mod / percentage_divider
      + batcher_submission_base_gas_cost)
    % u128_mod

unfoldable pub has_to_pay : Config → ℕ → Bool
has_to_pay c addr = elim c.non_paying_config [ none ↦ true | some n ↦ not (n.address == addr) ]

unfoldable pub get_nonpaying_replacement_addr : Config → Option ℕ
get_nonpaying_replacement_addr c = elim c.non_paying_config [
  | none ↦ none
  | some n ↦ some n.replacement
]

-- A message to a websocket sink.
abbrev pub Sent : Type 0
Sent = ℕ × SubmitProofResponseMessage

-- The answers that a task gets from outside: whether each lock is free in time, what Ethereum
-- says, and the functions of the packages for signatures, proofs and hashes.
pub record Answers : Type 0 where
  pub signer : NoncedVerificationData → Signature → Option ℕ
  pub keccak256 : List ℕ → List ℕ
  pub verify : VerificationData → Bool
  pub check_user_in_time : Bool
  pub insert_user_in_time : Bool
  pub get_user_in_time : Bool
  pub user_lock_in_time : Bool
  pub batch_lock_in_time : Bool
  pub user_nonce_on_ethereum : ℕ → Option ℕ
  pub user_balance : ℕ → Option ℕ
  pub balance_is_unlocked : ℕ → Bool
  pub user_lock_is_free : ℕ → Bool

-- Reading and writing the map of the users takes its lock; a task that holds it already and asks
-- for it again to write waits for ever.
pub data Held : Type 0 where
  not_held read_held write_held : Held

abbrev pub write_lock : Held → Run (Unit {0})
write_lock not_held = done tt
write_lock _ = Run.deadlock

abbrev pub read_lock : Held → Run (Unit {0})
read_lock write_held = Run.deadlock
read_lock _ = done tt

-- The lower one of a fee and the lowest of others.
abbrev pub meet : ℕ → Option ℕ → Option ℕ
meet x none = some x
meet x (some y) = if leb x y then some x else some y

abbrev pub minimum : List ℕ → Option ℕ
minimum [] = none
minimum (x ∷ xs) = meet x (minimum xs)

abbrev pub fees : List Item → List ℕ
fees [] = []
fees (x ∷ xs) = fee_of x.0 ∷ fees xs

-- `map(|(entry, _)| entry)`
abbrev pub entry_of : Option Item → Option BatchQueueEntry
entry_of none = none
entry_of (some x) = some x.0

module _ (pq : BatchQueue) where
  open pq use {Queue, iter, len}

  pub record BatchState : Type 0 where
    pub batch_queue : Queue
    pub max_size : ℕ

  -- `BatchState::get_entry`
  unfoldable pub get_entry : BatchState → ℕ → ℕ → Option BatchQueueEntry
  get_entry s sender nonce =
      entry_of (find (λ x. x.0.sender == sender && nonce_of x.0 == nonce) (iter s.batch_queue))

  unfoldable pub get_user_min_fee_in_batch : BatchState → ℕ → ℕ
  get_user_min_fee_in_batch s addr =
      elim (minimum (fees (keep (λ x. x.0.sender == addr) (iter s.batch_queue)))) [
        | none ↦ u256_max
        | some fee ↦ fee
      ]

  unfoldable pub replacement_entry_is_valid : BatchState → BatchQueueEntry → Bool
  replacement_entry_is_valid s replacement =
      all
        (λ x. not (
          x.0.sender == replacement.sender
          && ltb (nonce_of x.0) (nonce_of replacement)
          && ltb (fee_of x.0) (fee_of replacement)))
        (iter s.batch_queue)

  unfoldable pub is_queue_full : BatchState → Bool
  is_queue_full s = leb s.max_size (len s.batch_queue)

  -- The fields of `Batcher` that change.
  pub record Batcher : Type 0 where
    pub batch_state : BatchState
    pub user_states : UserStates
    pub last_uploaded_batch_block : ℕ
    pub posting_batch : Bool
    pub disabled_verifiers : ℕ
    pub current_min_max_fee : ℕ

  -- What a handler leaves behind: the state, and the messages that it sent, in order.
  pub record Reaction : Type 0 where
    pub state : Batcher
    pub sent : List Sent

  -- Answers with one message and leaves the state alone.
  abbrev pub reply : Batcher → ℕ → SubmitProofResponseMessage → Run Reaction
  reply b sink message = done (record { state = b; sent = (sink, message) ∷ [] })

  abbrev pub set_queue : Batcher → Queue → Batcher
  set_queue b q = record b {
    batch_state = record { batch_queue = q; max_size = b.batch_state.max_size };
  }
