-- ===== src/Batcher/Accounts.antt =====
-- The books of the batcher: the state of each user agrees with the user's entries in the queue.
pub mod Grow
pub mod Shift
use mathlib.Core.Logic.Or
use mathlib.Core.Logic.{∥∥₁_elim}
use mathlib.Core.Bool.{Bool-set}
use mathlib.Core.List.Perm
use mathlib.Core.List.{Permᴰ, Mem, mem-cons, not-mem-nil}
use native.Mathlib.Bridge.{le_prop}
use native.Mathlib.Decide.{ℕ_discrete}
use mathlib.Core.HLevel.{hedberg}
use aligned_layer.Prelude.{
  ℕ, zero, suc, ◌+◌, ◌-◌, ◌≤◌, ◌<◌, ◌≡◌, ◌≢◌, refl, sym, ap, subst, ◌∙◌, inl, inr, Bool, true,
  false, not, ◌&&◌, ◌||◌, Option, none, some, List, [], ◌∷◌, ◌++◌, map, Perm, arith, ltb, leb, ◌==◌,
  if◌then◌else◌, u256_max, length, total, all, find, keep, total-perm, all-perm, Bool-cases,
  and_both, eq_self, eqb→eq, eqb→ne,
}
use aligned_layer.PriorityQueue.{PriorityQueue, holds_item}
use aligned_layer.Batcher.Queue.{BatchQueue, BatchQueueEntry, Item, fee_of, nonce_of, same_entry}
use aligned_layer.Batcher.Queue.Extract.{IsDistinct, copies}
use aligned_layer.Batcher.Queue.Batches.{is_priced, IsPriced, entries}
use aligned_layer.Batcher.Queue.Nonces.{FeesFall}
use aligned_layer.Batcher.State.{
  UserState, UserStates, insert_user, meet, minimum, fees, Batcher, BatchState,
  get_user_min_fee_in_batch,
}

-- The entries of a user, and the sum and the lowest of their fees.
abbrev pub proofs_of : ℕ → List Item → ℕ
proofs_of a = total (λ x. if x.0.sender == a then 1 else 0)

abbrev pub fees_of : ℕ → List Item → ℕ
fees_of a = total (λ x. if x.0.sender == a then fee_of x.0 else 0)

abbrev pub least_of : ℕ → List Item → Option ℕ
least_of a [] = none
least_of a (x ∷ xs) = if x.0.sender == a then meet (fee_of x.0) (least_of a xs) else least_of a xs

abbrev pub or_max : Option ℕ → ℕ
or_max none = u256_max
or_max (some fee) = fee

-- The nonces of a user are below `n`.
abbrev pub is_below : ℕ → ℕ → List Item → Bool
is_below a n = all (λ x. not (x.0.sender == a) || ltb (nonce_of x.0) n)

-- What the state of the user `a` says of the queue.
pub record Accounts (a : ℕ) (u : UserState) (xs : List Item) : Type 0 where
  pub proofs : u.proofs_in_batch ≡ proofs_of a xs
  pub total_fees : u.total_fees_in_queue ≡ fees_of a xs
  pub limit : u.last_max_fee_limit ≡ or_max (least_of a xs)
  pub nonces : is_below a u.nonce xs ≡ true

-- A user without a state has no entry.
abbrev pub UserMatches : ℕ → List Item → Option UserState → Type 0
UserMatches a xs none = proofs_of a xs ≡ 0
UserMatches a xs (some u) = Accounts a u xs

-- The queue holds each proof once, at the priority of its entry; for each sender the fees fall with
-- the nonces; and every account agrees with the queue.
pub record IsConsistent (xs : List Item) (users : UserStates) : Type 0 where
  pub distinct : IsDistinct xs
  pub priced : IsPriced xs
  pub falls : FeesFall (entries xs)
  pub users_match : (a : ℕ) → UserMatches a xs (users a)

-- The state of the batcher agrees with its queue.
abbrev pub IsSound : (pq : BatchQueue) → Batcher pq → Type 0
IsSound pq b = IsConsistent (pq.iter b.batch_state.batch_queue) b.user_states

meet_swap : (x y : ℕ) (o : Option ℕ) → meet x (meet y o) ≡ meet y (meet x o)
meet_swap x y none = ground arith
meet_swap x y (some z) = ground arith

least_of-permᴰ : (a : ℕ) {xs ys : List Item} → Permᴰ xs ys → least_of a xs ≡ least_of a ys
least_of-permᴰ a Permᴰ.nil = refl
least_of-permᴰ a (Permᴰ.cons {a = x} {b = y} {l₁ = xs} {l₂ = ys} e p) =
    ap (λ (z : Item). least_of a (z ∷ xs)) e
    ∙ ap (λ o. if y.0.sender == a then meet (fee_of y.0) o else o) (least_of-permᴰ a p)
least_of-permᴰ a (Permᴰ.swap {a = x} {b = y} {a' = x'} {b' = y'} {l = l} e d) =
    ap (λ (z : Item). least_of a (z ∷ y ∷ l)) e
    ∙ ap (λ (z : Item). least_of a (y' ∷ z ∷ l)) d
    ∙ swapped (y'.0.sender == a) (x'.0.sender == a) (fee_of y'.0) (fee_of x'.0) (least_of a l)
  where
    swapped :
        (s t : Bool) (f g : ℕ) (o : Option ℕ)
        → (if s then meet f (if t then meet g o else o) else (if t then meet g o else o))
          ≡ (if t then meet g (if s then meet f o else o) else (if s then meet f o else o))
    swapped true true f g o = meet_swap f g o
    swapped true false f g o = refl
    swapped false true f g o = refl
    swapped false false f g o = refl
least_of-permᴰ a (Permᴰ.trans p q) = least_of-permᴰ a p ∙ least_of-permᴰ a q

option_set : (o p : Option ℕ) → IsProp (o ≡ p)
option_set = hedberg (hlevel ℕ_discrete)

pub least_of-perm : (a : ℕ) {xs ys : List Item} → Perm xs ys → least_of a xs ≡ least_of a ys
least_of-perm a p = ∥∥₁_elim p (option_set _ _) (least_of-permᴰ a)

-- The accounts do not depend on the order of the queue.
pub Accounts-perm :
    (a : ℕ) (u : UserState) {xs ys : List Item} → Perm xs ys → Accounts a u xs → Accounts a u ys
Accounts-perm a u p h = record {
  proofs = h.proofs ∙ total-perm _ p;
  total_fees = h.total_fees ∙ total-perm _ p;
  limit = h.limit ∙ ap or_max (least_of-perm a p);
  nonces = sym (all-perm _ p) ∙ h.nonces;
}

pub UserMatches-perm :
    (a : ℕ) (o : Option UserState) {xs ys : List Item}
    → Perm xs ys
    → UserMatches a xs o
    → UserMatches a ys o
UserMatches-perm a none p h = sym (total-perm _ p) ∙ h
UserMatches-perm a (some u) p h = Accounts-perm a u p h

pub FeesFall-perm : {xs ys : List BatchQueueEntry} → Perm xs ys → FeesFall xs → FeesFall ys
FeesFall-perm p f x y mx my = f x y ((Perm.mem_iff p).1 mx) ((Perm.mem_iff p).1 my)

pub IsConsistent-perm :
    {xs ys : List Item} {users : UserStates}
    → Perm xs ys
    → IsConsistent xs users
    → IsConsistent ys users
IsConsistent-perm {users = users} p h = record {
  distinct = λ e. subst (λ n. n ≤ 1) (total-perm _ p) (h.distinct e);
  priced = sym (all-perm is_priced p) ∙ h.priced;
  falls = FeesFall-perm (Perm.map (λ (x : Item). x.0) p) h.falls;
  users_match = λ a. UserMatches-perm a (users a) p (h.users_match a);
}

-- To write one account is to prove that one, and to keep the others.
pub insert_user-matches :
    (addr : ℕ) (u : UserState) (users : UserStates) (xs : List Item)
    → Accounts addr u xs
    → ((a : ℕ) → a ≢ addr → UserMatches a xs (users a))
    → (a : ℕ) → UserMatches a xs (insert_user addr u users a)
insert_user-matches addr u users xs own others a = elim (Bool-cases (a == addr)) [
  | inl same ↦
      subst (λ k. UserMatches k xs (insert_user addr u users k)) (sym (eqb→eq a addr same))
        (rw (eq_self addr) own)
  | inr other ↦ rw other (others a (eqb→ne a addr other))
]

minimum-least :
    (a : ℕ) (xs : List Item) → minimum (fees (keep (λ x. x.0.sender == a) xs)) ≡ least_of a xs
minimum-least a [] = refl
minimum-least a (x ∷ xs) = elim (Bool-cases (x.0.sender == a)) [
  | inl own ↦ rw own (ap (meet (fee_of x.0)) (minimum-least a xs))
  | inr other ↦ rw other (minimum-least a xs)
]

-- For any order `xs` of the queue, the minimum that the iterator finds is the lowest fee of the
-- user's entries in `xs`, or the greatest number if there is none.
pub get_user_min_fee_in_batch_lem :
    (pq : BatchQueue) (s : BatchState pq) (a : ℕ) (xs : List Item)
    → Perm (pq.iter s.batch_queue) xs
    → get_user_min_fee_in_batch pq s a ≡ or_max (least_of a xs)
unfolding get_user_min_fee_in_batch
get_user_min_fee_in_batch_lem pq s a xs p =
    ap or_max (minimum-least a (pq.iter s.batch_queue) ∙ least_of-perm a p)
