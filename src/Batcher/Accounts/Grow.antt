-- ===== src/Batcher/Accounts/Grow.antt =====
-- The books and a queue that grows by a proof with the next nonce of its sender.
use mathlib.Core.Logic.Or
use mathlib.Core.Bool.{Bool-set}
use mathlib.Core.List.{Mem, mem-cons, not-mem-nil}
use native.Mathlib.Bridge.{le_prop}
use aligned_layer.Prelude.{
  ℕ, ◌+◌, ◌≤◌, ◌<◌, ◌≡◌, ◌≢◌, refl, sym, ap, subst, ◌∙◌, Bool, true, false, not, ◌||◌, Option, none,
  some, List, [], ◌∷◌, arith, ltb, leb, ◌==◌, if◌then◌else◌, and_both, eq_self, ne→eqb,
}
use aligned_layer.Batcher.Queue.{BatchQueueEntry, Item, fee_of, nonce_of, same_entry, priority_of}
use aligned_layer.Batcher.Queue.Extract.{copies}
use aligned_layer.Batcher.Queue.Batches.{entries}
use aligned_layer.Batcher.Queue.Nonces.{FeesFall}
use aligned_layer.Batcher.State.{UserState, UserStates, insert_user, meet}
use aligned_layer.Batcher.Accounts.{
  least_of, or_max, is_below, Accounts, UserMatches, IsConsistent, insert_user-matches,
}

abbrev pub sender_of : BatchQueueEntry → ℕ
sender_of e = e.sender

-- There is a lowest fee, and it is not above `fee`.
abbrev covers : Option ℕ → ℕ → Bool
covers none fee = false
covers (some y) fee = leb y fee

covers-le : (o : Option ℕ) (fee : ℕ) → covers o fee ≡ true → or_max o ≤ fee
covers-le none fee h = cc
covers-le (some y) fee h = ground arith

covers_head :
    (a fee : ℕ) (x : Item) (o : Option ℕ)
    → x.0.sender ≡ a
    → fee ≡ fee_of x.0
    → covers (if x.0.sender == a then meet (fee_of x.0) o else o) fee ≡ true
covers_head a fee x none s i = ground arith
covers_head a fee x (some y) s i = ground arith

covers_tail :
    (a fee : ℕ) (x : Item) (o : Option ℕ)
    → covers o fee ≡ true
    → covers (if x.0.sender == a then meet (fee_of x.0) o else o) fee ≡ true
covers_tail a fee x none h = cc
covers_tail a fee x (some y) h = ground arith

covers-least :
    (a : ℕ) (e : BatchQueueEntry) (xs : List Item)
    → Mem e (entries xs)
    → e.sender ≡ a
    → covers (least_of a xs) (fee_of e) ≡ true
covers-least a e [] m s = absurd (not-mem-nil m)
covers-least a e (x ∷ xs) m s =
    Or.elim (Bool-set _ _) (mem-cons.0 m)
      (λ i. covers_head a (fee_of e) x (least_of a xs) (ap sender_of (sym i) ∙ s) (ap fee_of i))
      (λ r. covers_tail a (fee_of e) x (least_of a xs) (covers-least a e xs r s))

-- No entry of a user has a lower fee than the lowest.
pub least-le :
    (a : ℕ) (e : BatchQueueEntry) (xs : List Item)
    → Mem e (entries xs)
    → e.sender ≡ a
    → or_max (least_of a xs) ≤ fee_of e
least-le a e xs m s = covers-le (least_of a xs) (fee_of e) (covers-least a e xs m s)

-- The nonces of a user's entries are below the one that is expected.
pub nonce-lt :
    (a n : ℕ) (e : BatchQueueEntry) (xs : List Item)
    → Mem e (entries xs)
    → e.sender ≡ a
    → is_below a n xs ≡ true
    → nonce_of e < n
nonce-lt a n e [] m s b = absurd (not-mem-nil m)
nonce-lt a n e (x ∷ xs) m s b =
    Or.elim le_prop (mem-cons.0 m)
      (λ i. head x (ap sender_of (sym i) ∙ s) (ap nonce_of i) (and_both _ _ b).0)
      (λ r. nonce-lt a n e xs r s (and_both _ _ b).1)
  where
    head :
        (x : Item)
        → x.0.sender ≡ a
        → nonce_of e ≡ nonce_of x.0
        → (not (x.0.sender == a) || ltb (nonce_of x.0) n) ≡ true
        → nonce_of e < n
    head x s i h = ground arith

pub copies_zero :
    (e : BatchQueueEntry) (n : ℕ) (xs : List Item)
    → is_below e.sender n xs ≡ true
    → n ≤ nonce_of e
    → copies e xs ≡ 0
copies_zero e n [] b h = refl
copies_zero e n (x ∷ xs) b h =
    let rest : is_below e.sender n xs ≡ true = (and_both _ _ b).1 in
    ground (arith, copies_zero e n xs rest h)

pub copies_same :
    (i e : BatchQueueEntry) (xs : List Item) → same_entry i e ≡ true → copies i xs ≡ copies e xs
copies_same i e [] h = refl
copies_same i e (x ∷ xs) h = ground (arith, copies_same i e xs h)

pub distinct_cons :
    (e i : BatchQueueEntry) (xs : List Item)
    → copies e xs ≡ 0
    → copies i xs ≤ 1
    → copies i ((e, priority_of e) ∷ xs) ≤ 1
distinct_cons e i xs z h = ground (arith, copies_same i e xs)

is_below_mono :
    (a m n : ℕ) (xs : List Item) → m ≤ n → is_below a m xs ≡ true → is_below a n xs ≡ true
is_below_mono a m n [] h b = refl
is_below_mono a m n (x ∷ xs) h b =
    let rest : is_below a m xs ≡ true = (and_both _ _ b).1 in
    ground (arith, is_below_mono a m n xs h rest)

meet_least : (fee : ℕ) (o : Option ℕ) → fee ≤ or_max o → or_max (meet fee o) ≡ fee
meet_least fee none h = refl
meet_least fee (some y) h = ground arith

-- The account with one more proof.
grown_account :
    (e : BatchQueueEntry) (u u' : UserState) (xs : List Item)
    → Accounts e.sender u xs
    → nonce_of e ≡ u.nonce
    → fee_of e ≤ u.last_max_fee_limit
    → u'.nonce ≡ nonce_of e + 1
    → u'.last_max_fee_limit ≡ fee_of e
    → u'.total_fees_in_queue ≡ u.total_fees_in_queue + fee_of e
    → u'.proofs_in_batch ≡ u.proofs_in_batch + 1
    → Accounts e.sender u' ((e, priority_of e) ∷ xs)
grown_account e u u' xs h n l n' l' t' p' = record {
  proofs = ground (arith, h.proofs);
  total_fees = ground (arith, h.total_fees);
  limit =
      l'
      ∙ rw (eq_self e.sender)
          (sym (meet_least (fee_of e) (least_of e.sender xs) (omega (arith, h.limit))));
  nonces = ground (arith, is_below_mono e.sender u.nonce u'.nonce xs);
}

grown_falls :
    (e : BatchQueueEntry) (u : UserState) (xs : List Item)
    → Accounts e.sender u xs
    → nonce_of e ≡ u.nonce
    → fee_of e ≤ u.last_max_fee_limit
    → FeesFall (entries xs)
    → FeesFall (e ∷ entries xs)
grown_falls e u xs h n l f x y mx my same lt =
    Or.elim le_prop (mem-cons.0 mx)
      (λ ix.
        Or.elim le_prop (mem-cons.0 my)
          (λ iy. absurd (omega (arith, ap nonce_of ix, ap nonce_of iy)))
          (λ my'. absurd (
            omega (
              arith,
              ap nonce_of ix,
              nonce-lt e.sender u.nonce y xs my' (sym same ∙ ap sender_of ix) h.nonces,
            ))))
      (λ mx'.
        Or.elim le_prop (mem-cons.0 my)
          (λ iy.
            omega
              (arith, ap fee_of iy, h.limit, least-le e.sender x xs mx' (same ∙ ap sender_of iy)))
          (λ my'. f x y mx' my' same lt))

-- Other users' accounts do not see the new entry.
pub other_account :
    (a : ℕ) (e : BatchQueueEntry) (xs : List Item) (o : Option UserState)
    → a ≢ e.sender
    → UserMatches a xs o
    → UserMatches a ((e, priority_of e) ∷ xs) o
other_account a e xs none d h = ground arith
other_account a e xs (some u) d h = record {
  proofs = ground (arith, h.proofs);
  total_fees = ground (arith, h.total_fees);
  limit = h.limit ∙ rw (ne→eqb e.sender a (λ i. d (sym i)));
  nonces = ground (arith, h.nonces);
}

-- The books after a proof with the next nonce has joined.
pub grown-IsConsistent :
    (e : BatchQueueEntry) (u u' : UserState) (xs : List Item) (users : UserStates)
    → IsConsistent xs users
    → users e.sender ≡ some u
    → nonce_of e ≡ u.nonce
    → fee_of e ≤ u.last_max_fee_limit
    → u'.nonce ≡ nonce_of e + 1
    → u'.last_max_fee_limit ≡ fee_of e
    → u'.total_fees_in_queue ≡ u.total_fees_in_queue + fee_of e
    → u'.proofs_in_batch ≡ u.proofs_in_batch + 1
    → IsConsistent ((e, priority_of e) ∷ xs) (insert_user e.sender u' users)
grown-IsConsistent e u u' xs users h known n l n' l' t' p' =
    let account : Accounts e.sender u xs =
      subst (UserMatches e.sender xs) known (h.users_match e.sender) in
    record {
      distinct = λ i.
          distinct_cons e i xs (copies_zero e u.nonce xs account.nonces (omega arith))
            (h.distinct i);
      priced = ground (arith, h.priced);
      falls = grown_falls e u xs account n l h.falls;
      users_match =
          insert_user-matches e.sender u' users ((e, priority_of e) ∷ xs)
            (grown_account e u u' xs account n l n' l' t' p')
            (λ a d. other_account a e xs (users a) d (h.users_match a));
    }
