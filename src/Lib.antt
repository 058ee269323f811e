-- ===== src/Lib.antt =====
-- Verification of the batcher of Aligned Layer, `crates/batcher`, of the part of the sdk,
-- `crates/sdk`, with which a client submits proofs to it and reads its answers, and of the blobs of
-- the aggregation mode, `aggregation_mode`, with what a client reads there.
--
-- The batcher takes proofs from clients over websockets, keeps them in a priority queue, and at a
-- new block makes a batch of them, which it uploads and posts on Ethereum. Each user has a state:
-- the next nonce, the limit of the next fee, the sum of the fees in the queue and the number of
-- entries there. A submission is checked against the message, the user's state and the user's
-- funds; it adds an entry, replaces the entry of the same nonce by one with a higher fee, or evicts
-- another entry if the queue is full. The state of a user has to agree with the user's entries in
-- the queue, since the checks read the state only. After a batch is posted, each client is told the
-- place of its proof in the Merkle tree of the batch; a client checks it against what it has sent. A
-- batch that cannot be posted is put back into the queue. The aggregation mode proves many proofs at
-- once and posts their commitments in a blob, in which a client looks for its own.
--
-- Files, with the code that they model (paths from the root of the repository):
--   Prelude              shared tests, lists, and the outcome of a run (returns, panics, deadlock)
--   Sdk.Constants        crates/sdk/src/common/constants.rs
--   Sdk.Types            crates/sdk/src/common/types.rs: what is submitted, its size bound, its
--                        commitment, and the answers
--   Sdk.Merkle           the leaves of the tree of a batch (types.rs), and the interface of the tree of
--                        the package lambdaworks_crypto
--   Sdk.Fees             calculate_fee_per_proof_with_gas_price, crates/sdk/src/verification_layer/mod.rs
--   Sdk.Errors           crates/sdk/src/common/errors.rs
--   Sdk.Messaging        crates/sdk/src/communication/messaging.rs and batch.rs; Verified is about the
--                        answers that a client believes
--   Sdk.Submit           the submission (verification_layer/mod.rs), the version (protocol.rs), the wait
--                        (batch.rs), and the estimate of a fee; Waiting is about the wait
--   Sdk.Queries          get_nonce_from_batcher and get_last_max_fee (verification_layer/mod.rs); Chain:
--                        the questions to Ethereum and the payments there, aligned_service_manager
--                        (crates/sdk/src/eth/aligned_service_manager.rs)
--   PriorityQueue        the interface of the package priority-queue, version 2.5
--   Batcher.Queue        crates/batcher/src/types/batch_queue.rs; its children are about the
--                        extraction of a batch (Order, Loops, Extract, Batches, Longest, Nonces) and
--                        give a queue over a list (ListQueue)
--   Batcher.State        crates/batcher/src/types/user_state.rs, batch_state.rs, and the fields of
--                        `Batcher` in crates/batcher/src/lib.rs
--   Batcher.Checks       the functions msg_*, verify_* and is_verifier_disabled of lib.rs
--   Batcher.Replace      handle_replacement_message
--   Batcher.Evict        the eviction in handle_submit_proof_msg, update_evicted_user_state_with_lock
--                        and update_evicted_user_state_async
--   Batcher.Submit       handle_submit_proof_msg, in the order of its phases, and add_to_batch; its
--                        children are about the books (Accept, Replaced, Handler), what is admitted
--                        (Safety), how a submission ends (Endings, Answered) and that it does (Returns)
--   Batcher.Queries      handle_get_nonce_for_address_msg and handle_get_last_max_fee
--   Batcher.Posting      extract_batch_if_ready, calculate_new_user_states_data and
--                        update_user_states_from_queue_state; its children are about when a batch is
--                        made (Ready) and about the recount (Recount, Settled)
--   Batcher.Restore      restore_proofs_after_batch_failure, after an extraction (Undone) and with
--                        an eviction (Deadlock)
--   Batcher.Cleanup      cleanup_user_states_after_successful_submission
--   Batcher.Removal      remove_user_proofs_and_reset_state, flush_queue_and_clear_nonce_cache and
--                        user_has_proofs_in_queue
--   Batcher.Errors       crates/batcher/src/types/errors.rs
--   Batcher.Retry        crates/batcher/src/retry, over the interface of the package backon
--   Batcher.Gas          crates/batcher/src/eth/utils.rs, and the fees in submit_batch
--   Batcher.World        what posting a batch needs from outside
--   Batcher.Finalize     finalize_batch, submit_batch, create_new_task and the upload, lib.rs, and
--                        send_batch_inclusion_data_responses, crates/batcher/src/connection.rs
--   Batcher.NewBlock     handle_new_block
--   Batcher.Ethereum     the questions to the nodes of lib.rs that are asked again
--   Batcher.Connection   handle_message and handle_connection
--   Batcher.Events       process_balance_unlocked_events, and the loops of poll_balance_unlocked_events
--                        and listen_new_blocks_retryable; Blocks is about the blocks handled
--   Batcher.Tasks        submissions at the same time: the phases of handle_submit_proof_msg as turns
--                        of tasks; Apart is about tasks of different users, Race about two of one
--   Batcher.Life         messages, events and blocks, one handler after another
--   Batcher.Accounts     the books: what it means that the states of the users agree with the queue;
--                        Grow and Shift are about a new and a replaced entry
--   Answers              what the batcher sends and what a client reads: the places of proofs
--                        (Delivered) and a nonce (Nonce)
--   Aggregation.Blob     the bytes of the blob in construct_blob, aggregation_mode/src/backend/mod.rs, and
--                        decoded_blob, crates/sdk/src/aggregation_layer/helpers.rs; its children are
--                        about what is read from a blob (Payload, Decoded) and too many leaves (Overflow)
--   Aggregation.Commitment  the commitments and the hash of a node, crates/sdk/src/aggregation_layer/types.rs
--                        and aggregation_mode/aggregation_programs; Parents is about that hash
--   Aggregation.Check    check_proof_verification, crates/sdk/src/aggregation_layer/mod.rs, the events
--                        and blobs (helpers.rs, crates/sdk/src/beacon.rs)
--   Aggregation.Programs the two programs of SP1, aggregation_mode/aggregation_programs/sp1/src, and
--                        aggregation_mode/src/aggregators (sp1_aggregator.rs, aggregate_proofs of mod.rs)
--   Aggregation.Fetcher  fetch, aggregation_mode/src/backend/fetcher.rs
--   Aggregation.Service  aggregate_and_submit_proofs_on_chain, aggregation_mode/src/backend/mod.rs
--   Examples             small queues and messages
--
-- How the code is modelled:
--   A handler is a function from the state to a `Run` of the state and the messages that it sends,
--   in the order in which it sends them or starts the task that sends them. It runs alone, but in
--   Batcher.Tasks, where the submissions take turns: a turn ends where the handler holds no lock;
--   the last one, from the lock of the user's state on, is whole, although tasks of other users may
--   come to the queue during it. A lock of the shared state is left out, but for the lock of the
--   map of users during an eviction, which the task may hold itself (`Held`). A set of users that a
--   loop goes through is a list, in which a user may stand twice. What a task waits for is an
--   answer (`Answers`): whether a lock is free in time, what Ethereum says, who signed, and whether
--   a proof verifies.
--   A `U256` is a number below 2 ^ 256 and its operators panic out of range; `u128`, `u64` and
--   `usize` (64 bits) wrap around, as in a release build. Addresses, words and bytes are numbers;
--   a hash map from addresses is a function. The order of an iterator over the queue is that of the
--   package, of which nothing is assumed but that it holds the pairs.
--   The loops of the extraction take the length of the queue as their fuel, which is enough: each
--   turn takes one entry off the queue.
--   A call that is retried has an answer for each attempt, and the number of attempts is that of
--   `Backon`; delays are left out. A stream of a websocket is the list of what arrives before it ends.
--   The hash function keccak256 and the recovery of a signer belong to other packages and are
--   parameters. The metrics and the logs are left out. The number of field elements of a blob is a
--   constant of Ethereum and a parameter.
--
-- Not modelled: turns of a block beside those of a submission, the sockets and the subscriptions
-- (input and output), the transaction that cancels a task but for its price, the metrics and the
-- telemetry, the verifiers of proofs, the files of the sdk, the cli, the task
-- sender, the rest of the aggregation mode (the prover, the programs of Risc0, the storage and the
-- transaction), the Go operator and aggregator, and the contracts.
pub mod Prelude
pub mod Sdk
pub mod PriorityQueue
pub mod Batcher
pub mod Answers
pub mod Aggregation
pub mod Examples
