-- ===== src/Batcher/Tasks/Apart.antt =====
-- Tasks of different users, in any order of their turns.
use aligned_layer.Prelude.{
  ℕ, ◌≡◌, ◌≢◌, refl, sym, ap, ◌∙◌, Bool, true, not, ◌&&◌, List, [], ◌∷◌, ◌==◌, all, and_both,
  eqb→ne, arith,
}
use aligned_layer.Batcher.Queue.{BatchQueue}
use aligned_layer.Batcher.State.{UserStates, Config, Batcher}
use aligned_layer.Batcher.Accounts.{IsSound}
use aligned_layer.Batcher.Tasks.{Task, take_turn, Step, this_task, later_task, Reach, start, next}
use aligned_layer.Batcher.Tasks.Turns.{Unknown, HasRoom, turn_at-Keeps}

-- No task of the list is about the user `a`.
abbrev pub is_apart : ℕ → List Task → Bool
is_apart a = all (λ t. not (t.addr == a))

-- Each task is about another user.
abbrev pub are_apart : List Task → Bool
are_apart [] = true
are_apart (t ∷ ts) = is_apart t.addr ts && are_apart ts

abbrev pub AllUnknown : UserStates → List Task → Type 0
AllUnknown users [] = Unit
AllUnknown users (t ∷ ts) = Unknown users t × AllUnknown users ts

is_apart_both :
    (a : ℕ) (t : Task) (ts : List Task)
    → is_apart a (t ∷ ts) ≡ true
    → (a ≢ t.addr) × (is_apart a ts ≡ true)
is_apart_both a t ts h =
    let (other, others) = and_both (not (t.addr == a)) (is_apart a ts) h in
    let differ : t.addr ≢ a = eqb→ne t.addr a (ground arith) in (λ e. differ (sym e), others)

-- A state that is the same for the users of the tasks will do.
AllUnknown-same :
    (addr : ℕ) (users users' : UserStates) (ts : List Task)
    → is_apart addr ts ≡ true
    → ((a : ℕ) → a ≢ addr → users' a ≡ users a)
    → AllUnknown users ts
    → AllUnknown users' ts
AllUnknown-same addr users users' [] apart same h = tt
AllUnknown-same addr users users' (t ∷ ts) apart same (unknown, rest) =
    let (differ, others) = is_apart_both addr t ts apart in
    (
      λ p. same t.addr (λ e. differ (sym e)) ∙ unknown p,
      AllUnknown-same addr users users' ts others same rest,
    )

module _ (pq : BatchQueue) where
  -- What a step keeps, of tasks of different users.
  record StepKeeps (b b' : Batcher pq) (ts ts' : List Task) : Type 0 where
    sound : IsSound pq b'
    others : (a : ℕ) → is_apart a ts ≡ true → b'.user_states a ≡ b.user_states a
    same_users : (a : ℕ) → is_apart a ts' ≡ is_apart a ts
    apart : are_apart ts' ≡ true
    unknown : AllUnknown b'.user_states ts'

  Step-StepKeeps :
      (c : Config) {b b' : Batcher pq} {ts ts' : List Task}
      → Step pq c b ts b' ts'
      → IsSound pq b
      → HasRoom pq b
      → are_apart ts ≡ true
      → AllUnknown b.user_states ts
      → StepKeeps b b' ts ts'
  unfolding take_turn
  Step-StepKeeps c (this_task w b t ts r e) h room apart (unknown, rest) =
      let k = turn_at-Keeps pq c w b t t.phase h room unknown e in
      let (head, tail) = and_both (is_apart t.addr ts) (are_apart ts) apart in
      record {
        sound = k.sound;
        others = λ a other. k.others a (is_apart_both a t ts other).0;
        same_users = λ a. ap (λ (x : ℕ). not (x == a) && is_apart a ts) k.same_user;
        apart = ap (λ (x : ℕ). is_apart x ts && are_apart ts) k.same_user ∙ apart;
        unknown = (
          k.unknown,
          AllUnknown-same t.addr b.user_states r.state.user_states ts head k.others rest,
        );
      }
  Step-StepKeeps c (later_task {b} {b'} {ts} {ts'} t s) h room apart (unknown, rest) =
      let (head, tail) = and_both (is_apart t.addr ts) (are_apart ts) apart in
      let k = Step-StepKeeps c s h room tail rest in
      record {
        sound = k.sound;
        others = λ a other. k.others a (is_apart_both a t ts other).1;
        same_users = λ a. ap (λ v. not (t.addr == a) && v) (k.same_users a);
        apart = rw (k.same_users t.addr, head, k.apart) refl;
        unknown = (λ p. k.others t.addr head ∙ unknown p, k.unknown);
      }

  -- The queue has room before each step of a run.
  abbrev pub NeverFull :
      (c : Config) {b : Batcher pq} {ts : List Task} {b' : Batcher pq} {ts' : List Task}
      → Reach pq c b ts b' ts'
      → Type 0
  NeverFull c start = Unit
  NeverFull c (next {b' = before} r s) = NeverFull c r × HasRoom pq before

  record RunKeeps (b' : Batcher pq) (ts' : List Task) : Type 0 where
    sound : IsSound pq b'
    apart : are_apart ts' ≡ true
    unknown : AllUnknown b'.user_states ts'

  Reach-RunKeeps :
      (c : Config) {b : Batcher pq} {ts : List Task} {b' : Batcher pq} {ts' : List Task}
      (r : Reach pq c b ts b' ts')
      → NeverFull c r
      → IsSound pq b
      → are_apart ts ≡ true
      → AllUnknown b.user_states ts
      → RunKeeps b' ts'
  Reach-RunKeeps c start room h apart unknown = record {
    sound = h;
    apart = apart;
    unknown = unknown;
  }
  Reach-RunKeeps c (next r s) (earlier, room) h apart unknown =
      let k = Reach-RunKeeps c r earlier h apart unknown in
      let k' = Step-StepKeeps c s k.sound room k.apart k.unknown in
      record { sound = k'.sound; apart = k'.apart; unknown = k'.unknown }

  -- If each of the tasks is about another user, a user whose state a task is about to create has
  -- none, the books agree with the queue, and there is room in the queue before each turn, then
  -- the books agree with the queue after any sequence of turns of the tasks, in whichever order
  -- these are taken and whatever each is answered.
  pub Reach-IsSound :
      (c : Config) {b : Batcher pq} {ts : List Task} {b' : Batcher pq} {ts' : List Task}
      (r : Reach pq c b ts b' ts')
      → NeverFull c r
      → IsSound pq b
      → are_apart ts ≡ true
      → AllUnknown b.user_states ts
      → IsSound pq b'
  Reach-IsSound c r room h apart unknown = (Reach-RunKeeps c r room h apart unknown).sound
