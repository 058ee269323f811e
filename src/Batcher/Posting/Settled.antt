-- ===== src/Batcher/Posting/Settled.antt =====
-- The books after a batch is taken off the queue and the states of its users are recounted.
use mathlib.Core.List.Perm
use mathlib.Core.List.{Mem, map-append, mem-append_left}
use aligned_layer.Prelude.{
  ℕ, ◌^◌, ◌≤◌, ◌<◌, ◌≡◌, refl, sym, ap, subst, ◌∙◌, inl, inr, Bool, true, false, not, ◌||◌, Option,
  none, some, List, [], ◌∷◌, ◌++◌, Perm, arith, ltb, ◌==◌, if◌then◌else◌, done, u256_max, u256_mod,
  usize_mod, length, total, total-append, all, Bool-cases,
}
use aligned_layer.PriorityQueue.{holds_item}
use aligned_layer.Batcher.Queue.{
  BatchQueue, BatchQueueEntry, Item, Limits, Extracted, fee_of, nonce_of, same_entry,
  extract_batch_directly,
}
use aligned_layer.Batcher.Queue.Loops.{batch_bytes, select, reject-append-select}
use aligned_layer.Batcher.Queue.Order.{Drains-perm}
use aligned_layer.Batcher.Queue.Batches.{
  is_priced, entries, offered, offered-offer, extracts_result,
}
use aligned_layer.Batcher.State.{UserState, UserStates, meet, Batcher}
use aligned_layer.Batcher.Accounts.{
  proofs_of, fees_of, least_of, or_max, is_below, Accounts, UserMatches, IsConsistent, IsSound,
  IsConsistent-perm,
}
use aligned_layer.Batcher.Queries.Fees.{least_of_nobody}
use aligned_layer.Batcher.Posting.{
  UserData, updated_user, calculate_new_user_states_data, update_user_states_from_queue_state,
}
use aligned_layer.Batcher.Posting.Recount.{
  count_of, limit_of, sum_of, lower, Counts, user_data_from_lem, touched, recount, recount-none,
  update_user_states_from_queue_state_lem,
}

updated_fields :
    (u : UserState) (d : Option UserData)
    → ((updated_user u d).proofs_in_batch ≡ count_of d)
      × ((updated_user u d).last_max_fee_limit ≡ limit_of d)
      × ((updated_user u d).total_fees_in_queue ≡ sum_of d)
      × ((updated_user u d).nonce ≡ u.nonce)
updated_fields u none = (refl, refl, refl, refl)
updated_fields u (some d) = (refl, refl, refl, refl)

pub all_left : (p : Item → Bool) (xs ys : List Item) → all p (xs ++ ys) ≡ true → all p xs ≡ true
all_left p [] ys h = refl
all_left p (x ∷ xs) ys h = ground (arith, all_left p xs ys)

least_of_left :
    (a : ℕ) (xs ys : List Item) → least_of a ys ≡ none → least_of a (xs ++ ys) ≡ least_of a xs
least_of_left a [] ys h = h
least_of_left a (x ∷ xs) ys h =
    ap (λ o. if x.0.sender == a then meet (fee_of x.0) o else o) (least_of_left a xs ys h)

fees_of_nobody : (a : ℕ) (xs : List Item) → proofs_of a xs ≡ 0 → fees_of a xs ≡ 0
fees_of_nobody a [] h = refl
fees_of_nobody a (x ∷ xs) h = ground (arith, fees_of_nobody a xs)

proofs_of_strangers :
    (a : ℕ) (xs : List Item)
    → all (λ e. not (e.sender == a)) (entries xs) ≡ true
    → proofs_of a xs ≡ 0
proofs_of_strangers a [] h = refl
proofs_of_strangers a (x ∷ xs) h = ground (arith, proofs_of_strangers a xs)

-- A user without an entry in `ys` has the same account without them.
Accounts-left :
    (a : ℕ) (u : UserState) (xs ys : List Item)
    → proofs_of a ys ≡ 0
    → Accounts a u (xs ++ ys)
    → Accounts a u xs
Accounts-left a u xs ys z h = record {
  proofs = omega (arith, h.proofs, total-append (λ x. if x.0.sender == a then 1 else 0) xs ys, z);
  total_fees = omega (
    arith,
    h.total_fees,
    total-append (λ x. if x.0.sender == a then fee_of x.0 else 0) xs ys,
    fees_of_nobody a ys z,
  );
  limit = h.limit ∙ ap or_max (least_of_left a xs ys (least_of_nobody a ys z));
  nonces = all_left (λ x. not (x.0.sender == a) || ltb (nonce_of x.0) u.nonce) xs ys h.nonces;
}

or_max-meet : (fee : ℕ) (o : Option ℕ) → fee ≤ u256_max → or_max (meet fee o) ≤ u256_max
or_max-meet fee none h = h
or_max-meet fee (some m) h = ground arith

or_max_least :
    (a : ℕ) (xs : List Item)
    → total (λ x. fee_of x.0) xs < u256_mod
    → or_max (least_of a xs) ≤ u256_max
or_max_least a [] h = omega arith
or_max_least a (x ∷ xs) h = elim (Bool-cases (x.0.sender == a)) [
  | inl own ↦ rw own (or_max-meet (fee_of x.0) (least_of a xs) (omega arith))
  | inr other ↦ rw other (or_max_least a xs (omega arith))
]

lower_max : (o : Option ℕ) → or_max o ≤ u256_max → lower u256_max o ≡ or_max o
lower_max none h = refl
lower_max (some n) h = ground arith

-- A state that is recounted agrees with the items that were counted.
recounted-Accounts :
    (a : ℕ) (u : UserState) (d : Option UserData) (xs : List Item)
    → total (λ x. fee_of x.0) xs < u256_mod
    → Counts a none d xs
    → is_below a u.nonce xs ≡ true
    → Accounts a (updated_user u d) xs
recounted-Accounts a u d xs small h below =
    let (n, l, f, k) = updated_fields u d in
    record {
      proofs = omega (arith, n, h.count);
      total_fees = omega (arith, f, h.sum);
      limit = l ∙ h.limit ∙ lower_max (least_of a xs) (or_max_least a xs small);
      nonces = subst (λ m. is_below a m xs ≡ true) (sym k) below;
    }

pub settled_user :
    (a : ℕ) (t : Bool) (d : Option UserData) (o : Option UserState) (xs ys : List Item)
    → total (λ x. fee_of x.0) xs < u256_mod
    → Counts a none d xs
    → (t ≡ false → proofs_of a ys ≡ 0)
    → UserMatches a (xs ++ ys) o
    → UserMatches a xs (recount t d o)
settled_user a t d none xs ys small h untouched m =
    subst (UserMatches a xs) (sym (recount-none t d))
      (omega (arith, m, total-append (λ x. if x.0.sender == a then 1 else 0) xs ys))
settled_user a true d (some u) xs ys small h untouched m =
    recounted-Accounts a u d xs small h
      (all_left (λ x. not (x.0.sender == a) || ltb (nonce_of x.0) u.nonce) xs ys m.nonces)
settled_user a false d (some u) xs ys small h untouched m =
    Accounts-left a u xs ys (untouched refl) m

pub IsConsistent-left :
    (xs ys : List Item) (users users' : UserStates)
    → IsConsistent (xs ++ ys) users
    → ((a : ℕ) → UserMatches a xs (users' a))
    → IsConsistent xs users'
IsConsistent-left xs ys users users' h matches = record {
  distinct = λ e.
      omega
        (arith, h.distinct e, total-append (λ y. if holds_item same_entry e y then 1 else 0) xs ys);
  priced = all_left is_priced xs ys h.priced;
  falls = λ x y mx my. h.falls x y (in_both x mx) (in_both y my);
  users_match = matches;
}
  where
    in_both : (e : BatchQueueEntry) → Mem e (entries xs) → Mem e (entries (xs ++ ys))
    in_both e m =
        subst (Mem e) (sym (map-append (λ (x : Item). x.0) xs ys)) (mem-append_left (entries ys) m)

module _ (pq : BatchQueue) where
  open pq use {Queue, iter}

  -- If the books agree with the queue, the gas price is below 2 ^ 128, the bytes of the queue
  -- fit a `usize`, an extraction returns, each sender of a proof in the batch is among the
  -- affected users, and the fees that are left add up to less than 2 ^ 256 and their number fits
  -- a `usize`, then recounting the states of the affected users returns, and the states agree
  -- with the queue that the batch left.
  pub update_user_states_from_queue_state-IsConsistent :
      (b : Batcher pq) (l : Limits) (affected : List ℕ) {r : Extracted} {rest : Queue}
      → IsSound pq b
      → l.gas_price < 2 ^ 128
      → batch_bytes (iter b.batch_state.batch_queue) < usize_mod
      → extract_batch_directly pq b.batch_state.batch_queue l ≡ done (r, rest)
      → ((a : ℕ) → touched a affected ≡ false → all (λ e. not (e.sender == a)) (offered r) ≡ true)
      → total (λ x. fee_of x.0) (iter rest) < u256_mod
      → length (iter rest) < usize_mod
      → (users : UserStates) × (update_user_states_from_queue_state pq rest affected b.user_states
          ≡ done users)
        × IsConsistent (iter rest) users
  unfolding calculate_new_user_states_data
  update_user_states_from_queue_state-IsConsistent b l affected {r} {rest} h gas fits e untouched
        small few =
      let q = b.batch_state.batch_queue in
      let (xs, d, same, kept) = extracts_result pq q l h.distinct gas fits e in
      let ys = select l xs in
      let (current, run, counts) =
        user_data_from_lem (λ _. none) (iter rest) (λ a. omega arith) (λ a. omega arith) in
      let (users, updated, after) =
        update_user_states_from_queue_state_lem pq rest current affected b.user_states run in
      let whole : Perm (iter q) (iter rest ++ ys) = Perm.trans (Drains-perm pq d) (
        subst (λ zs. Perm zs (iter rest ++ ys)) (reject-append-select l xs)
          (Perm.append_right ys (Perm.symm kept))) in
      let h' : IsConsistent (iter rest ++ ys) b.user_states = IsConsistent-perm whole h in
      let strangers : (a : ℕ) → touched a affected ≡ false → proofs_of a ys ≡ 0 = λ a t.
        proofs_of_strangers a ys (
          subst (λ es. all (λ e. not (e.sender == a)) es ≡ true)
            (sym (sym (offered-offer ys) ∙ ap offered same)) (untouched a t)) in
      (
        users,
        updated,
        IsConsistent-left (iter rest) ys b.user_states users h' (λ a.
            subst (UserMatches a (iter rest)) (sym (after a)) (
              settled_user a (touched a affected) (current a) (b.user_states a) (iter rest) ys small
                (counts a) (strangers a) (h'.users_match a))),
      )
