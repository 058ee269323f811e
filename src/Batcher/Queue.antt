-- ===== src/Batcher/Queue.antt =====
-- crates/batcher/src/types/batch_queue.rs: the queue of pending proofs and the extraction of a
-- batch from it. A loop takes the length of the queue as its fuel.
pub mod Order
pub mod Loops
pub mod Extract
pub mod ListQueue
pub mod Batches
pub mod Longest
pub mod Nonces
use Prim.Native.Nat.{compare, Ordering}
use aligned_layer.Prelude.{
  ℕ, zero, suc, ◌+◌, ◌*◌, ◌/◌, ◌%◌, ◌≡◌, Bool, true, false, ◌&&◌, ◌||◌, Option, none, some, List,
  [], ◌∷◌, ◌++◌, ltb, ◌==◌, if◌then◌else◌, Run, done, panic, deadlock, ◌>>=◌, unwrap, u256_mul,
  u128_mod, usize_add, usize_sub,
}
use aligned_layer.Sdk.Constants.{additional_submission_gas_cost_per_proof, cbor_array_max_overhead}
use aligned_layer.Sdk.Types.{
  NoncedVerificationData, VerificationDataCommitment, Signature, cbor_size_upper_bound,
}
use aligned_layer.PriorityQueue.{PriorityQueue}

-- A websocket sink is known by a number.
pub record BatchQueueEntry : Type 0 where
  pub nonced_verification_data : NoncedVerificationData
  pub verification_data_commitment : VerificationDataCommitment
  pub messaging_sink : Option ℕ
  pub signature : Signature
  pub sender : ℕ

pub record BatchQueueEntryPriority : Type 0 where
  pub max_fee : ℕ
  pub nonce : ℕ

-- `BatchQueueEntry::new`
abbrev pub new_entry :
    NoncedVerificationData → VerificationDataCommitment → ℕ → Signature → ℕ → BatchQueueEntry
new_entry nonced commitment sink signature sender = record {
  nonced_verification_data = nonced;
  verification_data_commitment = commitment;
  messaging_sink = some sink;
  signature = signature;
  sender = sender;
}

abbrev pub fee_of : BatchQueueEntry → ℕ
fee_of e = e.nonced_verification_data.max_fee

abbrev pub nonce_of : BatchQueueEntry → ℕ
nonce_of e = e.nonced_verification_data.nonce

abbrev pub size_of : BatchQueueEntry → ℕ
size_of e = cbor_size_upper_bound e.nonced_verification_data

-- `PartialEq for BatchQueueEntry`
abbrev pub same_entry : BatchQueueEntry → BatchQueueEntry → Bool
same_entry a b = a.sender == b.sender && nonce_of a == nonce_of b

-- `Ord for BatchQueueEntryPriority`
abbrev pub cmp : BatchQueueEntryPriority → BatchQueueEntryPriority → Ordering
cmp self other = elim (compare other.max_fee self.max_fee) [
  | Ordering.eq ↦ compare self.nonce other.nonce
  | ord ↦ ord
]

abbrev pub BatchQueue : Type 1
BatchQueue = PriorityQueue same_entry cmp

-- A pair of the queue.
abbrev pub Item : Type 0
Item = BatchQueueEntry × BatchQueueEntryPriority

abbrev pub priority_of : BatchQueueEntry → BatchQueueEntryPriority
priority_of e = record { max_fee = fee_of e; nonce = nonce_of e }

-- The limits that `extract_batch_directly` is given.
pub record Limits : Type 0 where
  pub gas_price : ℕ
  pub max_batch_byte_size : ℕ
  pub max_batch_proof_qty : ℕ
  pub constant_gas_cost : ℕ

-- The quotient is that of two `u128`, and division by zero panics.
unfoldable pub calculate_fee_per_proof : ℕ → ℕ → ℕ → Run ℕ
calculate_fee_per_proof batch_len gas_price constant_gas_cost =
    let added = additional_submission_gas_cost_per_proof * batch_len % u128_mod in
    let gas = (constant_gas_cost + added) % u128_mod in
    if batch_len == 0 then panic else u256_mul (gas / batch_len) gas_price

sizes_from : ℕ → List Item → ℕ
sizes_from acc [] = acc
sizes_from acc (x ∷ xs) = sizes_from (usize_add acc (size_of x.0)) xs

-- What the extraction makes of the queue: the batch, or the error `BatchCostTooHigh`.
pub data Extracted : Type 0 where
  batch : List BatchQueueEntry → Extracted
  batch_cost_too_high : Extracted

module _ (pq : BatchQueue) where
  open pq use {Queue, iter, len, push, peek, pop}

  -- `try_fold` never breaks, so the error branch is not taken.
  unfoldable pub calculate_batch_size : Queue → ℕ
  unfolding sizes_from
  calculate_batch_size q = usize_add cbor_array_max_overhead (sizes_from 0 (iter q))

  -- The test at the head of the loop.
  unfoldable pub should_remove : Limits → Queue → ℕ → Run Bool
  should_remove l q batch_size = elim (peek q) [
    | none ↦ done false
    | some (entry, _) ↦ do
      fee_per_proof ← calculate_fee_per_proof (len q) l.gas_price l.constant_gas_cost
      done (
          ltb l.max_batch_byte_size batch_size
          || ltb (fee_of entry) fee_per_proof
          || ltb l.max_batch_proof_qty (len q))
  ]

  -- The variables of the loop.
  pub record Loop : Type 0 where
    pub queue : Queue
    pub batch_size : ℕ
    pub rejected_entries : List Item

  -- The body of the loop when the entry is removed.
  unfoldable pub reject_one : Loop → Run Loop
  reject_one s = do
    (rejected, rest) ← unwrap (pop s.queue)
    done (record {
      queue = rest;
      batch_size = usize_sub s.batch_size (size_of rejected.0);
      rejected_entries = s.rejected_entries ++ rejected ∷ [];
    })

  unfoldable pub reject_loop : ℕ → Limits → Loop → Run Loop
  reject_loop zero l s = done s
  reject_loop (suc fuel) l s = should_remove l s.queue s.batch_size >>= λ remove. elim remove [
    | true ↦ (reject_one s >>= λ next. reject_loop fuel l next)
    | false ↦ done s
  ]

  -- `while let Some((entry, _)) = batch_queue.pop()`
  unfoldable pub drain : ℕ → Queue → List BatchQueueEntry → List BatchQueueEntry × Queue
  drain zero q posting = (posting, q)
  drain (suc fuel) q posting = elim (pop q) [
    | none ↦ (posting, q)
    | some (x, rest) ↦ drain fuel rest (posting ++ x.0 ∷ [])
  ]

  -- `for (entry, priority) in rejected_entries`
  unfoldable pub put_back : List Item → Queue → Queue
  put_back [] q = q
  put_back ((e, p) ∷ xs) q = put_back xs (push q e p)

  -- The part after the loop.
  unfoldable pub finish_extraction : Loop → Extracted × Queue
  finish_extraction s =
      if len s.queue == 0
      then (batch_cost_too_high, put_back s.rejected_entries s.queue)
      else let (posting, rest) = drain (len s.queue) s.queue [] in
        (batch posting, put_back s.rejected_entries rest)

  unfoldable pub extract_batch_directly : Queue → Limits → Run (Extracted × Queue)
  extract_batch_directly q l = do
    s ←
        reject_loop (len q) l
          (record { queue = q; batch_size = calculate_batch_size q; rejected_entries = [] })
    done (finish_extraction s)
