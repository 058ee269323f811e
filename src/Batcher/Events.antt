-- ===== src/Batcher/Events.antt =====
-- What the batcher does by itself, lib.rs: the events of unlocked funds, and the new blocks.
pub mod Blocks
use Prim.Native.String.{String}
use aligned_layer.Prelude.{
  ℕ, Bool, true, false, Option, none, some, List, [], ◌∷◌, ◌++◌, ◌&&◌, leb, if◌then◌else◌, Result,
  ok, err,
}
use aligned_layer.Batcher.Queue.{BatchQueue}
use aligned_layer.Batcher.State.{Answers, Batcher, Reaction}
use aligned_layer.Batcher.Errors.{BatcherError, ethereum_provider_error}
use aligned_layer.Batcher.Retry.{RetryError}
use aligned_layer.Batcher.Removal.{user_has_proofs_in_queue, remove_user_proofs_and_reset_state}

module _ (pq : BatchQueue) where
  -- One event: the proofs of the user are removed if there are any and the funds are unlocked now.
  unfoldable pub process_event : Answers → Batcher pq → ℕ → Reaction pq
  process_event w b user_address =
      if user_has_proofs_in_queue w b.user_states user_address && w.balance_is_unlocked user_address
      then remove_user_proofs_and_reset_state pq w b user_address
      else record { state = b; sent = [] }

  -- The events in their order, each with the answers of its time.
  unfoldable pub process_events : Batcher pq → List (ℕ × Answers) → Reaction pq
  process_events b [] = record { state = b; sent = [] }
  process_events b ((user_address, w) ∷ events) =
      let r = process_event w b user_address in
      let rest = process_events r.state events in
      record { state = rest.state; sent = r.sent ++ rest.sent }

  abbrev pub with_events :
      (RetryError String → String)
      → Batcher pq
      → ℕ
      → Result (List (ℕ × Answers)) (RetryError String)
      → Reaction pq × Result ℕ BatcherError
  with_events to_string b current_block (err e) =
      (record { state = b; sent = [] }, err (ethereum_provider_error (to_string e)))
  with_events to_string b current_block (ok events) = (process_events b events, ok current_block)

  abbrev pub with_current_block :
      (RetryError String → String)
      → Batcher pq
      → (ℕ → Result (List (ℕ × Answers)) (RetryError String))
      → Result ℕ (RetryError String)
      → Reaction pq × Result ℕ BatcherError
  with_current_block to_string b query (err e) =
      (record { state = b; sent = [] }, err (ethereum_provider_error (to_string e)))
  with_current_block to_string b query (ok current_block) =
      with_events to_string b current_block (query current_block)

  -- The current block, and the events from `from_block` to it; the texts of the errors are those
  -- of their formatting.
  unfoldable pub process_balance_unlocked_events :
      (RetryError String → String)
      → Batcher pq
      → (ℕ → ℕ → Result (List (ℕ × Answers)) (RetryError String))
      → ℕ
      → Result ℕ (RetryError String)
      → Reaction pq × Result ℕ BatcherError
  process_balance_unlocked_events to_string b query from_block current_block =
      with_current_block to_string b (query from_block) current_block

-- The block that the next poll starts at.
abbrev pub next_from_block : ℕ → Result ℕ BatcherError → ℕ
next_from_block from_block (ok current_block) = current_block
next_from_block from_block (err e) = from_block

-- A turn of `listen_new_blocks_retryable`: the next block of each stream, where there is one. A
-- block may be without its number.
abbrev pub BlockPair : Type 0
BlockPair = Option (Option ℕ) × Option (Option ℕ)

-- `unwrap_or_default`
abbrev pub or_zero : Option ℕ → ℕ
or_zero none = 0
or_zero (some n) = n

abbrev pub block_of : BlockPair → Option ℕ
block_of (some block, _) = some (or_zero block)
block_of (none, some block) = some (or_zero block)
block_of (none, none) = none

-- The block is handled unless it was seen, and is then the last one seen.
abbrev pub if_newer : (ℕ → List ℕ) → ℕ → ℕ → Bool → List ℕ
if_newer continue last_seen_block block_number true = continue last_seen_block
if_newer continue last_seen_block block_number false = block_number ∷ continue block_number

abbrev pub with_next_block : (ℕ → List ℕ) → ℕ → Option ℕ → List ℕ
with_next_block continue last_seen_block none = []
with_next_block continue last_seen_block (some block_number) =
    if_newer continue last_seen_block block_number (leb block_number last_seen_block)

-- The numbers that `handle_new_block` is called with, until both streams end.
unfoldable pub handled_blocks : ℕ → List BlockPair → List ℕ
handled_blocks last_seen_block [] = []
handled_blocks last_seen_block (pair ∷ pairs) =
    with_next_block (λ last. handled_blocks last pairs) last_seen_block (block_of pair)
