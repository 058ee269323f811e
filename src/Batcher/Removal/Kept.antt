-- ===== src/Batcher/Removal/Kept.antt =====
-- The books after proofs are removed.
use mathlib.Core.List.Perm
use mathlib.Core.List.{Mem, mem-cons, not-mem-nil}
use mathlib.Core.Logic.Or
use aligned_layer.Prelude.{
  ℕ, ◌≤◌, ◌≡◌, ◌≢◌, refl, sym, ap, subst, ◌∙◌, inl, inr, Bool, false, not, ◌&&◌, ◌||◌, Option, none,
  some, List, [], ◌∷◌, arith, ltb, ◌==◌, if◌then◌else◌, keep, Bool-cases, and_both, eqb→eq, eqb→ne,
  ne→eqb,
}
use aligned_layer.Batcher.Queue.{BatchQueue, BatchQueueEntry, Item, fee_of, nonce_of}
use aligned_layer.Batcher.Queue.Extract.{copies}
use aligned_layer.Batcher.Queue.Batches.{is_priced, IsPriced, entries}
use aligned_layer.Batcher.State.{
  UserState, UserStates, new_user_state, insert_user, remove_user, Config,
  get_nonpaying_replacement_addr, Answers, meet, Batcher,
}
use aligned_layer.Batcher.Accounts.{
  proofs_of, fees_of, least_of, is_below, UserMatches, IsConsistent, IsSound, IsConsistent-perm,
  or_max, insert_user-matches,
}
use aligned_layer.Batcher.Submit.Cases.{no_proofs}
use aligned_layer.Batcher.Removal.{
  remove_user_proofs_and_reset_state, flush_queue_and_clear_nonce_cache, users_after_reset,
  no_users,
}

-- The queue without the items of `u`.
abbrev others : ℕ → List Item → List Item
others u = keep (λ x. not (x.0.sender == u))

others-copies :
    (u : ℕ) (e : BatchQueueEntry) (xs : List Item) → copies e (others u xs) ≤ copies e xs
others-copies u e [] = omega arith
others-copies u e (x ∷ xs) = elim (Bool-cases (x.0.sender == u)) [
  | inl own ↦ rw own (omega (arith, others-copies u e xs))
  | inr other ↦ rw other (omega (arith, others-copies u e xs))
]

others-IsPriced : (u : ℕ) (xs : List Item) → IsPriced xs → IsPriced (others u xs)
others-IsPriced u [] h = refl
others-IsPriced u (x ∷ xs) h = elim (Bool-cases (x.0.sender == u)) [
  | inl own ↦ rw own (others-IsPriced u xs (and_both (is_priced x) _ h).1)
  | inr other ↦
      rw (other, (and_both (is_priced x) _ h).0)
        (others-IsPriced u xs (and_both (is_priced x) _ h).1)
]

others-Mem :
    (u : ℕ) (e : BatchQueueEntry) (xs : List Item)
    → Mem e (entries (others u xs))
    → Mem e (entries xs)
others-Mem u e [] m = m
others-Mem u e (x ∷ xs) m = elim (Bool-cases (x.0.sender == u)) [
  | inl own ↦ mem-cons.1 (Or.inr (others-Mem u e xs (rw own at m)))
  | inr other ↦
      let m' : Mem e (x.0 ∷ entries (others u xs)) = rw other at m in
      mem-cons.1 (Or.imp (λ i. i) (others-Mem u e xs) (mem-cons.0 m'))
]

zero_if : (b : Bool) → b ≡ false → ◌≡◌ {A = ℕ} (if b then 1 else 0) 0
zero_if b h = rw h refl

others-own : (u : ℕ) (xs : List Item) → proofs_of u (others u xs) ≡ 0
others-own u [] = refl
others-own u (x ∷ xs) = elim (Bool-cases (x.0.sender == u)) [
  | inl own ↦ rw own (others-own u xs)
  | inr other ↦ rw other (omega (arith, others-own u xs, zero_if (x.0.sender == u) other))
]

-- The entries of another user are all kept.
others_account :
    (u a n : ℕ) (xs : List Item)
    → a ≢ u
    → (proofs_of a (others u xs) ≡ proofs_of a xs)
      × (fees_of a (others u xs) ≡ fees_of a xs)
      × (least_of a (others u xs) ≡ least_of a xs)
      × (is_below a n (others u xs) ≡ is_below a n xs)
others_account u a n [] d = (refl, refl, refl, refl)
others_account u a n (x ∷ xs) d =
    let (p, f, l, k) = others_account u a n xs d in
    elim (Bool-cases (x.0.sender == u)) [
      | inl own ↦
          let foreign : (x.0.sender == a) ≡ false =
            ne→eqb x.0.sender a (λ same. d (sym same ∙ eqb→eq _ _ own)) in
          rw own (
            omega (arith, p, zero_if (x.0.sender == a) foreign),
            rw foreign (omega (arith, f)),
            rw foreign l,
            rw foreign k,
          )
      | inr other ↦ rw other (
        omega (arith, p),
        omega (arith, f),
        ap (λ o. if x.0.sender == a then meet (fee_of x.0) o else o) l,
        ap (λ r. (not (x.0.sender == a) || ltb (nonce_of x.0) n) && r) k,
      )
    ]

others_matches :
    (u a : ℕ) (xs : List Item) (o : Option UserState)
    → a ≢ u
    → UserMatches a xs o
    → UserMatches a (others u xs) o
others_matches u a xs none d h = (others_account u a 0 xs d).0 ∙ h
others_matches u a xs (some s) d h =
    let (p, f, l, k) = others_account u a s.nonce xs d in
    record {
      proofs = h.proofs ∙ sym p;
      total_fees = h.total_fees ∙ sym f;
      limit = h.limit ∙ ap or_max (sym l);
      nonces = k ∙ h.nonces;
    }

removed_matches :
    (u a : ℕ) (xs : List Item) (users : UserStates)
    → UserMatches a xs (users a)
    → UserMatches a (others u xs) (remove_user u users a)
removed_matches u a xs users h = elim (Bool-cases (a == u)) [
  | inl same ↦
      rw same (subst (λ k. proofs_of k (others u xs) ≡ 0) (sym (eqb→eq a u same)) (others-own u xs))
  | inr other ↦ rw other (others_matches u a xs (users a) (eqb→ne a u other) h)
]

others-IsConsistent :
    (u : ℕ) (xs : List Item) (users : UserStates)
    → IsConsistent xs users
    → IsConsistent (others u xs) (remove_user u users)
others-IsConsistent u xs users h = record {
  distinct = λ e. omega (arith, others-copies u e xs, h.distinct e);
  priced = others-IsPriced u xs h.priced;
  falls = λ x y mx my. h.falls x y (others-Mem u x xs mx) (others-Mem u y xs my);
  users_match = λ a. removed_matches u a xs users (h.users_match a);
}

reset_matches : (c : Config) (w : Answers) (a : ℕ) → UserMatches a [] (users_after_reset c w a)
unfolding users_after_reset
reset_matches c w a = for_answers (get_nonpaying_replacement_addr c) w.user_nonce_on_ethereum
  where
    for_one :
        (addr : ℕ) (answer : Option ℕ)
        → UserMatches a [] (
            (elim answer as (λ _. UserStates) [
              | none ↦ no_users
              | some nonce ↦ insert_user addr (new_user_state nonce) no_users
            ])
              a)
    for_one addr none = refl
    for_one addr (some n) =
        insert_user-matches addr (new_user_state n) no_users [] (no_proofs addr n [] refl)
          (λ a _. refl) a

    for_answers :
        (o : Option ℕ) (nonces : ℕ → Option ℕ)
        → UserMatches a [] (
            (elim o as (λ _. UserStates) [
              | none ↦ no_users
              | some addr ↦ elim (nonces addr) [
                | none ↦ no_users
                | some nonce ↦ insert_user addr (new_user_state nonce) no_users
              ]
            ])
              a)
    for_answers none nonces = refl
    for_answers (some addr) nonces = for_one addr (nonces addr)

module _ (pq : BatchQueue) where
  open pq use {iter, extract_if, extract_if_rest, iter-clear}

  -- Removing the proofs of a user whose funds are unlocked keeps the books: if they agreed with
  -- the queue, they agree with what is left of it.
  pub remove_user_proofs_and_reset_state-IsSound :
      (w : Answers) (b : Batcher pq) (user_address : ℕ)
      → IsSound pq b
      → IsSound pq (remove_user_proofs_and_reset_state pq w b user_address).state
  unfolding remove_user_proofs_and_reset_state
  remove_user_proofs_and_reset_state-IsSound w b user_address h =
      elim (Bool-cases w.batch_lock_in_time) [
        | inr late ↦ rw late h
        | inl free ↦ rw free (
            IsConsistent-perm
              (Perm.symm
                (extract_if_rest b.batch_state.batch_queue (λ x. x.0.sender == user_address)))
              (others-IsConsistent user_address (iter b.batch_state.batch_queue) b.user_states h))
      ]

  pub flush_queue_and_clear_nonce_cache_empty :
      (c : Config) (w : Answers) (b : Batcher pq)
      → iter (flush_queue_and_clear_nonce_cache pq c w b).state.batch_state.batch_queue ≡ []
  unfolding flush_queue_and_clear_nonce_cache
  flush_queue_and_clear_nonce_cache_empty c w b = iter-clear b.batch_state.batch_queue

  -- After a reset the books agree with the queue, whatever they were before.
  pub flush_queue_and_clear_nonce_cache-IsSound :
      (c : Config) (w : Answers) (b : Batcher pq)
      → IsSound pq (flush_queue_and_clear_nonce_cache pq c w b).state
  unfolding flush_queue_and_clear_nonce_cache
  flush_queue_and_clear_nonce_cache-IsSound c w b =
      subst (λ xs. IsConsistent xs (users_after_reset c w))
        (sym (iter-clear b.batch_state.batch_queue))
        (record {
          distinct = λ e. omega arith;
          priced = refl;
          falls = λ x y mx my. absurd (not-mem-nil mx);
          users_match = reset_matches c w;
        })
