-- ===== src/Batcher/Evict/Deadlock.antt =====
-- The eviction of a user's only entry: the branch of `update_evicted_user_state_with_lock` that
-- removes the state of the user.
use aligned_layer.Prelude.{
  ℕ, ◌≡◌, ◌≢◌, refl, sym, subst, ◌∙◌, inl, inr, Bool, true, false, none, some, List, [], ◌∷◌, arith,
  ◌==◌, if◌then◌else◌, Run, total-perm, find, find_holds, total-erase_first, and_both, eq_self,
  eqb→eq, Option-cases, ne→eqb,
}
use aligned_layer.Sdk.Types.{NoncedVerificationData, Signature}
use aligned_layer.PriorityQueue.{holds_item}
use aligned_layer.Batcher.Queue.{BatchQueue, BatchQueueEntry, Item, nonce_of, same_entry}
use aligned_layer.Batcher.State.{UserState, Answers, Batcher, is_queue_full}
use aligned_layer.Batcher.Accounts.{proofs_of, UserMatches, IsSound}
use aligned_layer.Batcher.Evict.{
  last_of, update_evicted_user_state_with_lock, eviction_candidates, target_entry, evict_from,
  evict,
}
use aligned_layer.Batcher.Submit.{make_room}

last_of_nobody : (a : ℕ) (xs : List Item) → proofs_of a xs ≡ 0 → last_of a xs ≡ none
last_of_nobody a [] h = refl
last_of_nobody a (x ∷ xs) h = ground (arith, last_of_nobody a xs)

-- An item that passes the test is found, or one before it.
find_passing :
    (p q : Item → Bool) (x : Item) (xs : List Item)
    → find q xs ≡ some x
    → p x ≡ true
    → (y : Item) × (find p xs ≡ some y)
find_passing p q x [] e h = cc
find_passing p q x (z ∷ zs) e h = elim (Option-cases (find p (z ∷ zs))) [
  | inr (y, found) ↦ (y, found)
  | inl missing ↦ absurd (ground (arith, none_found p q x (z ∷ zs)))
]
  where
    none_found :
        (p q : Item → Bool) (x : Item) (xs : List Item)
        → find q xs ≡ some x
        → find p xs ≡ none
        → p x ≡ false
    none_found p q x [] e h = cc
    none_found p q x (z ∷ zs) e h = ground (arith, none_found p q x zs)

same_self : (e : BatchQueueEntry) → same_entry e e ≡ true
same_self e = rw (eq_self e.sender, eq_self (nonce_of e)) refl

-- A candidate has an entry that can go.
has_target :
    (fee c : ℕ) (cs : List ℕ) (xs : List Item)
    → eviction_candidates fee xs ≡ c ∷ cs
    → (target : Item) × (target_entry fee c xs ≡ some target)
has_target fee c cs xs e = elim (Option-cases (target_entry fee c xs)) [
  | inr found ↦ found
  | inl missing ↦ absurd (no_target fee c cs xs e missing)
]
  where
    no_target :
        (fee c : ℕ) (cs : List ℕ) (xs : List Item)
        → eviction_candidates fee xs ≡ c ∷ cs
        → target_entry fee c xs ≢ none
    no_target fee c cs [] e h = cc
    no_target fee c cs (x ∷ xs) e h = ground (arith, no_target fee c cs xs, eq_self c)

module _ (pq : BatchQueue) where
  open pq use {iter, remove, remove_result, remove_perm}

  evict_from-deadlock :
      (b : Batcher pq) (fee candidate : ℕ) (user : UserState) (target : Item)
      → target_entry fee candidate (iter b.batch_state.batch_queue) ≡ some target
      → proofs_of candidate (iter b.batch_state.batch_queue) ≡ 1
      → evict_from pq b fee candidate user ≡ Run.deadlock
  unfolding evict_from update_evicted_user_state_with_lock
  evict_from-deadlock b fee candidate user target t one =
      let q = b.batch_state.batch_queue in
      let p : Item → Bool = holds_item same_entry target.0 in
      let (x, found) = find_passing p _ target (iter q) t (same_self target.0) in
      let own : target.0.sender ≡ candidate =
        eqb→eq _ _ (and_both _ _ (find_holds _ target (iter q) t)).0 in
      let same : target.0.sender ≡ x.0.sender =
        eqb→eq _ _ (and_both _ _ (find_holds p x (iter q) found)).0 in
      let mine : (x.0.sender == candidate) ≡ true =
        subst (λ a. (a == candidate) ≡ true) (sym own ∙ same) (eq_self candidate) in
      let none_left : proofs_of candidate (iter (remove q target.0).1) ≡ 0 = ground (
        arith,
        total-perm (λ y. if y.0.sender == candidate then 1 else 0) (remove_perm q target.0),
        total-erase_first (λ y. if y.0.sender == candidate then 1 else 0) p x (iter q) found,
      ) in
      let gone : last_of x.0.sender (iter (remove q target.0).1) ≡ none =
        last_of_nobody x.0.sender _
          (subst (λ a. proofs_of a (iter (remove q target.0).1) ≡ 0) (sym own ∙ same) none_left) in
      ground (arith, remove_result q target.0 ∙ found)

  evict-deadlock :
      (w : Answers) (b : Batcher pq) (submitter fee candidate : ℕ) (candidates : List ℕ)
      (state : UserState)
      → b.user_states candidate ≡ some state
      → candidate ≢ submitter
      → w.user_lock_is_free candidate ≡ true
      → evict_from pq b fee candidate state ≡ Run.deadlock
      → evict pq w b submitter fee (candidate ∷ candidates) ≡ Run.deadlock
  unfolding evict
  evict-deadlock w b submitter fee candidate candidates state known other free e =
      ground (arith, ne→eqb candidate submitter other)

  -- If the books agree with a full queue, the first candidate for the eviction is another user
  -- whose lock is free, and this user has one entry only, then a submission makes no room: the
  -- task asks to write the map of users, the guard of which it still holds for reading, and
  -- waits for ever.
  pub make_room-deadlock :
      (w : Answers) (b : Batcher pq) (user : UserState) (nonced : NoncedVerificationData)
      (signature : Signature) (addr sink candidate : ℕ) (candidates : List ℕ)
      → IsSound pq b
      → is_queue_full pq b.batch_state ≡ true
      → eviction_candidates nonced.max_fee (iter b.batch_state.batch_queue) ≡ candidate ∷ candidates
      → candidate ≢ addr
      → w.user_lock_is_free candidate ≡ true
      → proofs_of candidate (iter b.batch_state.batch_queue) ≡ 1
      → make_room pq w b user nonced signature addr sink ≡ Run.deadlock
  unfolding make_room
  make_room-deadlock w b user nonced signature addr sink candidate candidates h full first other
        free one =
      let xs = iter b.batch_state.batch_queue in
      let (target, t) = has_target nonced.max_fee candidate candidates xs first in
      elim (Option-cases (b.user_states candidate)) [
        | inl missing ↦
            absurd (
              omega
                (arith, one, subst (UserMatches candidate xs) missing (h.users_match candidate)))
        | inr (state, known) ↦
            rw
              (
                full,
                first,
                evict-deadlock w b addr nonced.max_fee candidate candidates state known other free
                    (evict_from-deadlock b nonced.max_fee candidate state target t one),
              )
              refl
      ]
