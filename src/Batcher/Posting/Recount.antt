-- ===== src/Batcher/Posting/Recount.antt =====
-- `calculate_new_user_states_data` and `update_user_states_from_queue_state` against the queue.
use aligned_layer.Prelude.{
  ℕ, ◌+◌, ◌<◌, ◌≡◌, refl, sym, ap, subst, ◌∙◌, inl, inr, Bool, true, false, ◌||◌, Option, none,
  some, List, [], ◌∷◌, arith, ltb, ◌==◌, if◌then◌else◌, done, u256_max, u256_mod, usize_mod, length,
  total, Bool-cases, Option-cases, eq_self, eqb→eq, eqb→ne, ne→eqb,
}
use aligned_layer.Batcher.Queue.{BatchQueue, BatchQueueEntry, Item, fee_of}
use aligned_layer.Batcher.State.{UserState, UserStates, insert_user, meet}
use aligned_layer.Batcher.Accounts.{proofs_of, fees_of, least_of}
use aligned_layer.Batcher.Posting.{
  UserData, data_or, with_entry, user_data_from, updated_user, calculate_new_user_states_data,
  update_user_states_from_queue_state,
}

-- The parts of a user's data, with the defaults of a user without any.
abbrev pub count_of : Option UserData → ℕ
count_of none = 0
count_of (some (n, _, _)) = n

abbrev pub limit_of : Option UserData → ℕ
limit_of none = u256_max
limit_of (some (_, limit, _)) = limit

abbrev pub sum_of : Option UserData → ℕ
sum_of none = 0
sum_of (some (_, _, fees)) = fees

abbrev pub lower : ℕ → Option ℕ → ℕ
lower limit none = limit
lower limit (some fee) = if ltb fee limit then fee else limit

-- What is known of `a` before the items `xs`, and after them.
pub record Counts (a : ℕ) (before after : Option UserData) (xs : List Item) : Type 0 where
  pub count : count_of after ≡ count_of before + proofs_of a xs
  pub limit : limit_of after ≡ lower (limit_of before) (least_of a xs)
  pub sum : sum_of after ≡ sum_of before + fees_of a xs

-- The entry is added to what is known of its sender.
with_entry_lem :
    (entry : BatchQueueEntry) (o : Option UserData)
    → sum_of o + fee_of entry < u256_mod
    → count_of o + 1 < usize_mod
    → (d : UserData) × (with_entry entry (data_or (fee_of entry) o) ≡ done d)
      × (count_of (some d) ≡ count_of o + 1)
      × (limit_of (some d) ≡ lower (limit_of o) (some (fee_of entry)))
      × (sum_of (some d) ≡ sum_of o + fee_of entry)
with_entry_lem entry none h k =
    ((1, fee_of entry, fee_of entry), ground arith, refl, ground arith, omega arith)
with_entry_lem entry (some (n, limit, fees)) h k = (
  (n + 1, (if ltb (fee_of entry) limit then fee_of entry else limit), fees + fee_of entry),
  ground arith,
  refl,
  refl,
  refl,
)

lower-meet :
    (limit fee : ℕ) (o : Option ℕ) → lower (lower limit (some fee)) o ≡ lower limit (meet fee o)
lower-meet limit fee none = refl
lower-meet limit fee (some m) = ground arith

Counts-own :
    (a : ℕ) (o p : Option UserData) (d : UserData) (x : Item) (xs : List Item)
    → (x.0.sender == a) ≡ true
    → count_of (some d) ≡ count_of o + 1
    → limit_of (some d) ≡ lower (limit_of o) (some (fee_of x.0))
    → sum_of (some d) ≡ sum_of o + fee_of x.0
    → Counts a (some d) p xs
    → Counts a o p (x ∷ xs)
Counts-own a o p d x xs own n l s h = record {
  count = rw own (omega (arith, h.count, n));
  limit = rw own (
      h.limit
      ∙ ap (λ k. lower k (least_of a xs)) l
      ∙ lower-meet (limit_of o) (fee_of x.0) (least_of a xs));
  sum = rw own (omega (arith, h.sum, s));
}

Counts-other :
    (a : ℕ) (o p : Option UserData) (x : Item) (xs : List Item)
    → (x.0.sender == a) ≡ false
    → Counts a o p xs
    → Counts a o p (x ∷ xs)
Counts-other a o p x xs other h = record {
  count = rw other (omega (arith, h.count));
  limit = rw other h.limit;
  sum = rw other (omega (arith, h.sum));
}

pub user_data_from_lem :
    (known : ℕ → Option UserData) (xs : List Item)
    → ((a : ℕ) → sum_of (known a) + total (λ x. fee_of x.0) xs < u256_mod)
    → ((a : ℕ) → count_of (known a) + length xs < usize_mod)
    → (after : ℕ → Option UserData) × (user_data_from known xs ≡ done after)
      × ((a : ℕ) → Counts a (known a) (after a) xs)
unfolding user_data_from
user_data_from_lem known [] h k =
    (known, refl, λ a. record { count = omega arith; limit = refl; sum = omega arith })
user_data_from_lem known (x ∷ xs) h k =
    let s = x.0.sender in
    let (d, run, n, l, f) =
      with_entry_lem x.0 (known s) (omega (arith, h s)) (omega (arith, k s)) in
    let next : ℕ → Option UserData = λ a. if a == s then some d else known a in
    let (after, rest, counts) =
      user_data_from_lem next xs
        (λ a. elim (Bool-cases (a == s)) [
          | inl own ↦ rw own (omega (arith, h s, f))
          | inr other ↦ rw other (omega (arith, h a))
        ])
        (λ a. elim (Bool-cases (a == s)) [
          | inl own ↦ rw own (omega (arith, k s, n))
          | inr other ↦ rw other (omega (arith, k a))
        ]) in
    (
      after,
      rw run rest,
      λ a. elim (Bool-cases (a == s)) [
        | inl own ↦
            let same : s ≡ a = sym (eqb→eq a s own) in
            let o : next a ≡ some d = rw own refl in
            subst (λ z. Counts a (known z) (after a) (x ∷ xs)) same
              (Counts-own a (known s) (after a) d x xs
                (subst (λ z. (s == z) ≡ true) same (eq_self s)) n l f
                (subst (λ z. Counts a z (after a) xs) o (counts a)))
        | inr other ↦
            let o : next a ≡ known a = rw other refl in
            Counts-other a (known a) (after a) x xs (ne→eqb s a (λ e. eqb→ne a s other (sym e)))
              (subst (λ z. Counts a z (after a) xs) o (counts a))
      ],
    )

-- Whether the user is one of those affected.
abbrev pub touched : ℕ → List ℕ → Bool
touched a [] = false
touched a (b ∷ bs) = a == b || touched a bs

-- What becomes of a state.
abbrev pub recount : Bool → Option UserData → Option UserState → Option UserState
recount true d none = none
recount true d (some u) = some (updated_user u d)
recount false d o = o

pub recount-none : (t : Bool) (d : Option UserData) → recount t d none ≡ none
recount-none true d = refl
recount-none false d = refl

recount_again :
    (t : Bool) (d : Option UserData) (u : UserState)
    → recount t d (some (updated_user u d)) ≡ some (updated_user u d)
recount_again true none u = refl
recount_again true (some d) u = refl
recount_again false d u = refl

module _ (pq : BatchQueue) where
  open pq use {Queue, iter}

  update_nobody :
      (q : Queue) (addr : ℕ) (affected : List ℕ) (users : UserStates)
      → users addr ≡ none
      → update_user_states_from_queue_state pq q (addr ∷ affected) users
        ≡ update_user_states_from_queue_state pq q affected users
  unfolding update_user_states_from_queue_state
  update_nobody q addr affected users missing = ground arith

  update_one :
      (q : Queue) (addr : ℕ) (affected : List ℕ) (users : UserStates) (user : UserState)
      (current : ℕ → Option UserData)
      → users addr ≡ some user
      → calculate_new_user_states_data pq q ≡ done current
      → update_user_states_from_queue_state pq q (addr ∷ affected) users
        ≡ update_user_states_from_queue_state pq q affected
            (insert_user addr (updated_user user (current addr)) users)
  unfolding update_user_states_from_queue_state
  update_one q addr affected users user current known c = ground arith

  -- The states of the affected users are recounted, and the others stay.
  pub update_user_states_from_queue_state_lem :
      (q : Queue) (current : ℕ → Option UserData) (affected : List ℕ) (users : UserStates)
      → calculate_new_user_states_data pq q ≡ done current
      → (users' : UserStates) × (update_user_states_from_queue_state pq q affected users
          ≡ done users')
        × ((a : ℕ) → users' a ≡ recount (touched a affected) (current a) (users a))
  unfolding update_user_states_from_queue_state
  update_user_states_from_queue_state_lem q current [] users c = (users, refl, λ a. refl)
  update_user_states_from_queue_state_lem q current (addr ∷ affected) users c =
      elim (Option-cases (users addr)) [
        | inl missing ↦
            let (users', run, same) =
              update_user_states_from_queue_state_lem q current affected users c in
            (
              users',
              update_nobody q addr affected users missing ∙ run,
              λ a. elim (Bool-cases (a == addr)) [
                | inr other ↦ rw other (same a)
                | inl own ↦
                    let nobody : users a ≡ none = ap users (eqb→eq a addr own) ∙ missing in
                    same a
                    ∙ ap (recount (touched a affected) (current a)) nobody
                    ∙ recount-none (touched a affected) (current a)
                    ∙ sym (recount-none (a == addr || touched a affected) (current a))
                    ∙ ap (recount (a == addr || touched a affected) (current a)) (sym nobody)
              ],
            )
        | inr (user, known) ↦
            let (users', run, same) =
              update_user_states_from_queue_state_lem q current affected
                (insert_user addr (updated_user user (current addr)) users) c in
            (
              users',
              update_one q addr affected users user current known c ∙ run,
              λ a. elim (Bool-cases (a == addr)) [
                | inr other ↦ rw other (rw other at (same a))
                | inl own ↦
                    let it : a ≡ addr = eqb→eq a addr own in
                    let found : users a ≡ some user = ap users it ∙ known in
                    let put : insert_user addr (updated_user user (current addr)) users a
                        ≡ some (updated_user user (current a)) =
                      rw own (ap (λ z. some (updated_user user (current z))) (sym it)) in
                    same a
                    ∙ ap (recount (touched a affected) (current a)) put
                    ∙ recount_again (touched a affected) (current a) user
                    ∙ rw (own, found) refl
              ],
            )
      ]
