-- ===== src/Examples/Tasks.antt =====
-- Tasks at the same time, a life of the batcher, and the blocks that it handles.
use Prim.Native.String.{String}
use aligned_layer.Prelude.{
  ℕ, ◌≡◌, ◌≢◌, refl, ap, none, some, List, [], ◌∷◌, arith, Run, done, ◌>>=◌, Result, ok,
}
use aligned_layer.Sdk.Types
use aligned_layer.Sdk.Types.{ClientMessage, submit_proof, commitment, cbor_size_upper_bound}
use aligned_layer.Batcher.Queue.ListQueue.{list_queue}
use aligned_layer.Batcher.State.{is_queue_full, has_to_pay, Batcher, Reaction}
use aligned_layer.Batcher.Accounts.{IsSound, proofs_of}
use aligned_layer.Batcher.Checks.{
  validate_message, msg_covers_minimum_max_fee, msg_user_balance_is_locked,
  verify_user_has_enough_balance, verify_proof_if_enabled,
}
use aligned_layer.Batcher.Submit.{
  payer_of, accept, make_room, submit_next, check_user, lock_user, find_user, admit,
  handle_submit_proof_msg,
}
use aligned_layer.Batcher.Submit.Cases.{with_new_user}
use aligned_layer.Batcher.Removal.{no_users}
use aligned_layer.Batcher.Connection.{submitted, handle_message}
use aligned_layer.Batcher.Events.{process_event, handled_blocks}
use aligned_layer.Batcher.Events.Blocks.{Rise, handled_blocks-Rise}
use aligned_layer.Batcher.NewBlock.Posts.{FitsQueue}
use aligned_layer.Batcher.NewBlock.{handle_new_block}
use aligned_layer.Batcher.NewBlock.Kept.{handle_new_block-IsSound}
use aligned_layer.Batcher.Finalize.{Finished}
use aligned_layer.Batcher.Submit.Handler.{handle_submit_proof_msg-IsSound}
use aligned_layer.Batcher.Life.{
  IsBounded, a_message, an_event, a_block, History, begin, and_then, History-IsSound,
}
use aligned_layer.Batcher.Tasks.{
  Task, looking, creating, locking, over, at_phase, Turn, take_turn, look, looked_up, create,
  with_nonce, finish, finished, goes_on, Reach, start, next, this_task, later_task,
}
use aligned_layer.Batcher.Tasks
use aligned_layer.Batcher.Tasks.Turns.{HasRoom}
use aligned_layer.Batcher.Tasks.Apart.{Reach-IsSound}
use aligned_layer.Batcher.Tasks.Race.{two_tasks-unsound}
use aligned_layer.Examples.Data.{
  nonced, a_signature, a_config, some_answers, a_batcher, batcher_of, message, returned,
  no_reaction,
}
use aligned_layer.Examples.Books.{one_item-IsConsistent, accepted, accepts, has_room}
use aligned_layer.Examples.Posted.{a_world, free}
use aligned_layer.Examples.Wire.{serialize}

-- Blocks 1 and 2, one again, one of the other stream, and one after both streams have ended.
handled_blocks-Rise_example : Rise 0 (
    handled_blocks 0 (
      (some (some 1), some (some 1))
      ∷ (some (some 2), none)
      ∷ (some (some 1), none)
      ∷ (none, some (some 4))
      ∷ (none, none)
      ∷ (some (some 5), none)
      ∷ []))
handled_blocks-Rise_example = handled_blocks-Rise 0 (
    (some (some 1), some (some 1))
    ∷ (some (some 2), none)
    ∷ (some (some 1), none)
    ∷ (none, some (some 4))
    ∷ (none, none)
    ∷ (some (some 5), none)
    ∷ [])

-- Every message is read as the next proof of the user 5.
abbrev next_proof : List ℕ → Result ClientMessage String
next_proof bytes = ok (submit_proof (message 1 8000))

submits :
    handle_message list_queue next_proof a_config some_answers a_batcher [] 9
    ≡ done (submitted list_queue accepted)
unfolding handle_message
submits = ap (λ (m : Run (Reaction list_queue)). m >>= λ r. done (submitted list_queue r)) accepts

accepted_fits : FitsQueue (a_world 0) list_queue accepted.state
unfolding handle_submit_proof_msg validate_message cbor_size_upper_bound payer_of has_to_pay admit
    msg_covers_minimum_max_fee msg_user_balance_is_locked find_user lock_user check_user
    verify_user_has_enough_balance submit_next verify_proof_if_enabled make_room is_queue_full
    accept commitment
accepted_fits = record {
  bytes = omega arith;
  fees = omega arith;
  entries = omega arith;
  room = omega arith;
  answerable = refl;
}

accepted-IsBounded : IsBounded list_queue (a_world 0) accepted.state
accepted-IsBounded = record {
  fits = accepted_fits;
  cost = omega arith;
  multiplier = omega arith;
  proofs = omega arith;
  serializes = λ d. (serialize (Types.batch_inclusion_data d), refl);
  gas = free;
}

abbrev a_morning : History list_queue next_proof a_config a_batcher accepted.state
a_morning =
    and_then begin (a_message some_answers a_batcher [] 9 (submitted list_queue accepted) submits)

room : HasRoom list_queue a_batcher
room = record { free = has_room; counted = omega arith }

accepted-IsSound : IsSound list_queue accepted.state
accepted-IsSound =
    handle_submit_proof_msg-IsSound list_queue a_config some_answers a_batcher (message 1 8000) 9
      one_item-IsConsistent has_room (omega arith) accepts

-- The block at which a batch of both proofs is made.
posts :
    (r : Finished (a_world 0) list_queue) × (handle_new_block
        (a_world 0)
        list_queue
        accepted.state
        3
      ≡ done r)
posts =
    let (r, run, _, _) =
      handle_new_block-IsSound (a_world 0) list_queue (omega arith) (omega arith) (omega arith)
        accepted-IsBounded.serializes accepted.state 3 accepted-IsSound accepted_fits free in
    (r, run)

-- A proof, a block, and an event of unlocked funds.
abbrev evening : Batcher list_queue
evening = (process_event list_queue some_answers posts.0.0.state 5).state

abbrev a_day : History list_queue next_proof a_config a_batcher evening
a_day =
    and_then (and_then a_morning (a_block (a_world 0) accepted.state 3 posts.0 refl posts.1))
      (an_event some_answers posts.0.0.state 5)

History-IsSound_example : IsSound list_queue evening
History-IsSound_example =
    History-IsSound list_queue next_proof a_config a_day (((tt, room), accepted-IsBounded), tt)
      one_item-IsConsistent

-- Two proofs of the user 5, of which nothing is known yet.
abbrev fresh : Batcher list_queue
fresh = batcher_of 10 [] no_users

abbrev task : ℕ → ℕ → ℕ → Task
task addr nonce fee = record {
  addr = addr;
  nonced = nonced nonce fee;
  signature = a_signature;
  sink = 7;
  phase = looking;
}

abbrev first_done : Reaction list_queue
first_done = returned no_reaction (
    lock_user list_queue a_config some_answers (with_new_user list_queue fresh 5 0) (nonced 0 9000)
      a_signature 5 7)

first_runs :
    lock_user list_queue a_config some_answers
      (with_new_user list_queue fresh 5 0)
      (nonced 0 9000)
      a_signature
      5
      7
    ≡ done first_done
unfolding lock_user with_new_user check_user verify_user_has_enough_balance submit_next
    verify_proof_if_enabled make_room is_queue_full accept commitment
first_runs = refl

first_added : proofs_of 5 first_done.state.batch_state.batch_queue ≢ 0
unfolding lock_user with_new_user check_user verify_user_has_enough_balance submit_next
    verify_proof_if_enabled make_room is_queue_full accept commitment
first_added e = absurd (omega (arith, e))

two_tasks-unsound_example :
    (b' : Batcher list_queue) × (ts : List Task) × Tasks.Reach list_queue a_config fresh
      (task 5 0 9000 ∷ task 5 1 8000 ∷ [])
      b'
      ts
    × ¬ IsSound list_queue b'
two_tasks-unsound_example =
    two_tasks-unsound list_queue a_config some_answers fresh (task 5 0 9000) (task 5 1 8000) 0
      first_done refl refl refl refl refl first_runs first_added

-- A new user's task looks for its state and makes one, while the user 5 looks and adds a proof.
abbrev tasks : List Task
tasks = task 5 1 8000 ∷ task 6 0 9000 ∷ []

looks_up :
    take_turn list_queue a_config some_answers a_batcher (task 5 1 8000)
    ≡ done (goes_on list_queue a_batcher (task 5 1 8000) locking)
unfolding take_turn look
looks_up = refl

finds_none :
    take_turn list_queue a_config some_answers a_batcher (task 6 0 9000)
    ≡ done (goes_on list_queue a_batcher (task 6 0 9000) creating)
unfolding take_turn look
finds_none = refl

abbrev with_both : Batcher list_queue
with_both = with_new_user list_queue a_batcher 6 0

creates :
    take_turn list_queue a_config some_answers a_batcher (at_phase (task 6 0 9000) creating)
    ≡ done (goes_on list_queue with_both (task 6 0 9000) locking)
unfolding take_turn create with_new_user
creates = refl

abbrev added_next : Reaction list_queue
added_next =
    returned no_reaction
      (lock_user list_queue a_config some_answers with_both (nonced 1 8000) a_signature 5 7)

adds_next :
    take_turn list_queue a_config some_answers with_both (at_phase (task 5 1 8000) locking)
    ≡ done (finished list_queue (task 5 1 8000) added_next)
unfolding take_turn finish lock_user with_new_user check_user verify_user_has_enough_balance
    submit_next verify_proof_if_enabled make_room is_queue_full accept commitment
adds_next = refl

room_with_both : HasRoom list_queue with_both
unfolding with_new_user is_queue_full
room_with_both = record { free = refl; counted = omega arith }

abbrev interleaved :
    Tasks.Reach list_queue a_config a_batcher tasks added_next.state
      (at_phase (task 5 1 8000) over ∷ at_phase (task 6 0 9000) locking ∷ [])
interleaved =
    next
      (next
        (next
          (next start (
            this_task some_answers a_batcher (task 5 1 8000) (task 6 0 9000 ∷ [])
              (goes_on list_queue a_batcher (task 5 1 8000) locking) looks_up))
          (later_task (at_phase (task 5 1 8000) locking) (
            this_task some_answers a_batcher (task 6 0 9000) []
              (goes_on list_queue a_batcher (task 6 0 9000) creating) finds_none)))
        (later_task (at_phase (task 5 1 8000) locking) (
          this_task some_answers a_batcher (at_phase (task 6 0 9000) creating) []
            (goes_on list_queue with_both (task 6 0 9000) locking) creates)))
      (this_task some_answers with_both (at_phase (task 5 1 8000) locking)
        (at_phase (task 6 0 9000) locking ∷ []) (finished list_queue (task 5 1 8000) added_next)
        adds_next)

Reach-IsSound_example : IsSound list_queue added_next.state
Reach-IsSound_example =
    Reach-IsSound list_queue a_config interleaved ((((tt, room), room), room), room_with_both)
      one_item-IsConsistent refl ((λ e. cc), ((λ e. refl), tt))
