-- ===== src/Batcher/Tasks.antt =====
-- Tasks that handle submissions at the same time, `handle_submit_proof_msg`, lib.rs. A task holds
-- no lock between the look for the state of its user, its creation, and the rest, which it does
-- with the lock of the user held; other tasks take their turns in between.
pub mod Phases
pub mod Frame
pub mod Turns
pub mod Apart
pub mod Race
use aligned_layer.Prelude.{
  ℕ, ◌≡◌, Bool, true, false, not, ◌&&◌, Option, none, some, List, [], ◌∷◌, all, ◌==◌, if◌then◌else◌,
  Run, done, ◌>>=◌,
}
use aligned_layer.Sdk.Types.{
  NoncedVerificationData, Signature, SubmitProofResponseMessage, server_busy, eth_rpc_error,
}
use aligned_layer.Batcher.Queue.{BatchQueue}
use aligned_layer.Batcher.State.{
  UserState, new_user_state, insert_user, Config, Answers, Sent, Batcher, Reaction,
}
use aligned_layer.Batcher.Submit.{lock_user}

-- Where a task stands: it looks for the state of its user, it has found none and asks Ethereum for
-- the nonce, it locks the state of the user, or it has answered.
pub data Phase : Type 0 where
  looking creating locking over : Phase

pub record Task : Type 0 where
  pub addr : ℕ
  pub nonced : NoncedVerificationData
  pub signature : Signature
  pub sink : ℕ
  pub phase : Phase

abbrev pub at_phase : Task → Phase → Task
at_phase t p = record t { phase = p }

module _ (pq : BatchQueue) where
  -- What a turn leaves: the state, the task, and the messages that were sent.
  pub record Turn : Type 0 where
    pub state : Batcher pq
    pub task : Task
    pub sent : List Sent

  -- The task ends with an answer.
  abbrev pub ends : Batcher pq → Task → SubmitProofResponseMessage → Turn
  ends b t message = record { state = b; task = at_phase t over; sent = (t.sink, message) ∷ [] }

  abbrev pub goes_on : Batcher pq → Task → Phase → Turn
  goes_on b t p = record { state = b; task = at_phase t p; sent = [] }

  -- `user_states_guard.contains_key(&addr)`
  abbrev pub looked_up : Batcher pq → Task → Option UserState → Turn
  looked_up b t (some user) = goes_on b t locking
  looked_up b t none = goes_on b t creating

  unfoldable pub look : Answers → Batcher pq → Task → Turn
  look w b t =
      if w.check_user_in_time then looked_up b t (b.user_states t.addr) else ends b t server_busy

  -- The new state is inserted, whatever the map holds by then.
  abbrev pub with_nonce : Answers → Batcher pq → Task → Option ℕ → Turn
  with_nonce w b t none = ends b t eth_rpc_error
  with_nonce w b t (some ethereum_user_nonce) =
      if w.insert_user_in_time
      then goes_on
          (record b {
            user_states = insert_user t.addr (new_user_state ethereum_user_nonce) b.user_states;
          })
          t locking
      else ends b t server_busy

  unfoldable pub create : Answers → Batcher pq → Task → Turn
  create w b t = with_nonce w b t (w.user_nonce_on_ethereum t.addr)

  abbrev pub finished : Task → Reaction pq → Turn
  finished t r = record { state = r.state; task = at_phase t over; sent = r.sent }

  unfoldable pub finish : Config → Answers → Batcher pq → Task → Run Turn
  finish c w b t =
      lock_user pq c w b t.nonced t.signature t.addr t.sink >>= λ r. done (finished t r)

  -- One turn of a task.
  abbrev pub turn_at : Config → Answers → Batcher pq → Task → Phase → Run Turn
  turn_at c w b t looking = done (look w b t)
  turn_at c w b t creating = done (create w b t)
  turn_at c w b t locking = finish c w b t
  turn_at c w b t over = done (goes_on b t over)

  unfoldable pub take_turn : Config → Answers → Batcher pq → Task → Run Turn
  take_turn c w b t = turn_at c w b t t.phase

  -- Any of the tasks takes its turn, with answers of its own.
  pub data Step (c : Config) : Batcher pq → List Task → Batcher pq → List Task → Type 0 where
    this_task :
        (w : Answers) (b : Batcher pq) (t : Task) (ts : List Task) (r : Turn)
        → take_turn c w b t ≡ done r
        → Step c b (t ∷ ts) r.state (r.task ∷ ts)
    later_task :
        {b b' : Batcher pq} {ts ts' : List Task} (t : Task)
        → Step c b ts b' ts'
        → Step c b (t ∷ ts) b' (t ∷ ts')

  pub data Reach (c : Config) (b : Batcher pq) (ts : List Task)
      : Batcher pq → List Task → Type 0 where
    start : Reach c b ts b ts
    next :
        {b' b'' : Batcher pq} {ts' ts'' : List Task}
        → Reach c b ts b' ts'
        → Step c b' ts' b'' ts''
        → Reach c b ts b'' ts''
