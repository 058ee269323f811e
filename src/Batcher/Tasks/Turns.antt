-- ===== src/Batcher/Tasks/Turns.antt =====
-- One turn of a task: what it keeps of the books and of the states of other users.
use aligned_layer.Prelude.{
  ℕ, ◌+◌, ◌<◌, ◌≡◌, ◌≢◌, refl, subst, Bool, true, false, Option, none, some, List, [], ◌∷◌,
  if◌then◌else◌, length, usize_mod, done, >>=-eq-done, done-injective,
}
use aligned_layer.Sdk.Types.{server_busy, eth_rpc_error}
use aligned_layer.Batcher.Queue.{BatchQueue}
use aligned_layer.Batcher.State.{
  Sent, UserState, UserStates, new_user_state, insert_user, Config, Answers, Sent, Batcher,
  is_queue_full,
}
use aligned_layer.Batcher.Accounts.{IsSound}
use aligned_layer.Batcher.Submit.{lock_user}
use aligned_layer.Batcher.Submit.Cases.{with_new_user}
use aligned_layer.Batcher.Submit.Handler.{lock_user-IsSound, with_new_user-IsSound}
use aligned_layer.Batcher.Tasks.{
  Phase, looking, creating, locking, over, Task, at_phase, Turn, ends, goes_on, looked_up, look,
  with_nonce, create, finished, finish, turn_at,
}
use aligned_layer.Batcher.Tasks.Frame.{insert_user_other, lock_user_other}

-- A user whose state a task is about to create has none.
abbrev pub Unknown : UserStates → Task → Type 0
Unknown users t = t.phase ≡ creating → users t.addr ≡ none

module _ (pq : BatchQueue) where
  open pq use {iter}

  -- There is room in the queue, and one more entry can be counted in a `usize`.
  pub record HasRoom (b : Batcher pq) : Type 0 where
    pub free : is_queue_full pq b.batch_state ≡ false
    pub counted : length (iter b.batch_state.batch_queue) + 1 < usize_mod

  -- What a turn keeps.
  pub record Keeps (b : Batcher pq) (t : Task) (r : Turn pq) : Type 0 where
    pub sound : IsSound pq r.state
    pub others : (a : ℕ) → a ≢ t.addr → r.state.user_states a ≡ b.user_states a
    pub same_user : r.task.addr ≡ t.addr
    pub unknown : Unknown r.state.user_states r.task

  -- A turn that changes no state.
  unchanged-Keeps :
      (b : Batcher pq) (t : Task) (p : Phase) (sent : List Sent)
      → IsSound pq b
      → (p ≡ creating → b.user_states t.addr ≡ none)
      → Keeps b t (record { state = b; task = at_phase t p; sent = sent })
  unchanged-Keeps b t p sent h unknown = record {
    sound = h;
    others = λ a _. refl;
    same_user = refl;
    unknown = unknown;
  }

  looked_up-Keeps :
      (b : Batcher pq) (t : Task) (v : Bool) (o : Option UserState)
      → IsSound pq b
      → b.user_states t.addr ≡ o
      → Keeps b t (if v then looked_up pq b t o else ends pq b t server_busy)
  looked_up-Keeps b t false o h e =
      unchanged-Keeps b t over ((t.sink, server_busy) ∷ []) h (λ p. cc)
  looked_up-Keeps b t true (some u) h e = unchanged-Keeps b t locking [] h (λ p. cc)
  looked_up-Keeps b t true none h e = unchanged-Keeps b t creating [] h (λ p. e)

  with_nonce-Keeps :
      (b : Batcher pq) (t : Task) (v : Bool) (n : ℕ)
      → IsSound pq b
      → b.user_states t.addr ≡ none
      → Keeps b t (
          if v
          then goes_on pq
              (record b { user_states = insert_user t.addr (new_user_state n) b.user_states })
              t
              locking
          else ends pq b t server_busy)
  unfolding with_new_user
  with_nonce-Keeps b t false n h e =
      unchanged-Keeps b t over ((t.sink, server_busy) ∷ []) h (λ p. cc)
  with_nonce-Keeps b t true n h e = record {
    sound = with_new_user-IsSound pq b t.addr n h e;
    others = λ a other. insert_user_other t.addr a (new_user_state n) b.user_states other;
    same_user = refl;
    unknown = λ p. cc;
  }

  create-Keeps :
      (w : Answers) (b : Batcher pq) (t : Task) (o : Option ℕ)
      → IsSound pq b
      → b.user_states t.addr ≡ none
      → Keeps b t (with_nonce pq w b t o)
  create-Keeps w b t none h e = unchanged-Keeps b t over ((t.sink, eth_rpc_error) ∷ []) h (λ p. cc)
  create-Keeps w b t (some n) h e = with_nonce-Keeps b t w.insert_user_in_time n h e

  pub turn_at-Keeps :
      (c : Config) (w : Answers) (b : Batcher pq) (t : Task) (p : Phase) {r : Turn pq}
      → IsSound pq b
      → HasRoom b
      → (p ≡ creating → b.user_states t.addr ≡ none)
      → turn_at pq c w b t p ≡ done r
      → Keeps b t r
  unfolding look create finish
  turn_at-Keeps c w b t looking h room unknown e =
      subst (Keeps b t) (done-injective e)
        (looked_up-Keeps b t w.check_user_in_time (b.user_states t.addr) h refl)
  turn_at-Keeps c w b t creating h room unknown e =
      subst (Keeps b t) (done-injective e)
        (create-Keeps w b t (w.user_nonce_on_ethereum t.addr) h (unknown refl))
  turn_at-Keeps c w b t locking h room unknown e =
      let (r, run, fin) =
        >>=-eq-done (lock_user pq c w b t.nonced t.signature t.addr t.sink)
          (λ r. done (finished pq t r)) e in
      subst (Keeps b t) (done-injective fin) (record {
        sound =
            lock_user-IsSound pq c w b t.nonced t.signature t.addr t.sink h room.free room.counted
              run;
        others = λ a other.
            lock_user_other pq a c w b t.nonced t.signature t.addr t.sink other room.free run;
        same_user = refl;
        unknown = λ q. cc;
      })
  turn_at-Keeps c w b t over h room unknown e =
      subst (Keeps b t) (done-injective e) (unchanged-Keeps b t over [] h (λ q. cc))
