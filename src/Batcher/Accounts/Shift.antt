-- ===== src/Batcher/Accounts/Shift.antt =====
-- The books and a queue in which a proof takes the place of one with the same nonce and a lower fee.
use mathlib.Core.Logic.Or
use mathlib.Core.List.{mem-cons}
use native.Mathlib.Bridge.{le_prop}
use aligned_layer.Prelude.{
  ℕ, ◌+◌, ◌≤◌, ◌≡◌, ◌≢◌, refl, sym, ap, subst, ◌∙◌, Bool, true, not, ◌&&◌, Option, none, some, List,
  ◌∷◌, arith, ltb, ◌==◌, all, all-map, all_at, ne→eqb,
}
use aligned_layer.Batcher.Queue.{BatchQueueEntry, Item, fee_of, nonce_of, priority_of}
use aligned_layer.Batcher.Queue.Batches.{entries}
use aligned_layer.Batcher.Queue.Nonces.{FeesFall}
use aligned_layer.Batcher.State.{UserState, UserStates, insert_user}
use aligned_layer.Batcher.Accounts.{
  least_of, or_max, Accounts, UserMatches, IsConsistent, insert_user-matches,
}
use aligned_layer.Batcher.Accounts.Grow.{sender_of, other_account}

-- No entry of the sender has a lower nonce and a lower fee.
abbrev pub undercuts : BatchQueueEntry → BatchQueueEntry → Bool
undercuts new e =
    e.sender == new.sender && ltb (nonce_of e) (nonce_of new) && ltb (fee_of e) (fee_of new)

-- Other users' accounts do not see the entry that goes.
without_other :
    (a : ℕ) (x : Item) (xs : List Item) (o : Option UserState)
    → a ≢ x.0.sender
    → UserMatches a (x ∷ xs) o
    → UserMatches a xs o
without_other a x xs none d h = ground arith
without_other a x xs (some u) d h = record {
  proofs = ground (arith, h.proofs);
  total_fees = ground (arith, h.total_fees);
  limit = rw (ne→eqb x.0.sender a (λ i. d (sym i))) at h.limit;
  nonces = ground (arith, h.nonces);
}

shifted_account :
    (old : Item) (new : BatchQueueEntry) (u u' : UserState) (rest : List Item)
    → Accounts new.sender u (old ∷ rest)
    → new.sender ≡ old.0.sender
    → nonce_of new ≡ nonce_of old.0
    → u'.nonce ≡ u.nonce
    → u'.last_max_fee_limit ≡ or_max (least_of new.sender ((new, priority_of new) ∷ rest))
    → u'.total_fees_in_queue + fee_of old.0 ≡ u.total_fees_in_queue + fee_of new
    → u'.proofs_in_batch ≡ u.proofs_in_batch
    → Accounts new.sender u' ((new, priority_of new) ∷ rest)
shifted_account old new u u' rest h s n n' l' t' p' = record {
  proofs = ground (arith, h.proofs);
  total_fees = ground (arith, h.total_fees);
  limit = l';
  nonces = ground (arith, h.nonces);
}

shifted_falls :
    (old new : BatchQueueEntry) (rest : List Item)
    → FeesFall (old ∷ entries rest)
    → new.sender ≡ old.sender
    → nonce_of new ≡ nonce_of old
    → fee_of old ≤ fee_of new
    → all (λ x. not (undercuts new x.0)) rest ≡ true
    → FeesFall (new ∷ entries rest)
shifted_falls old new rest f s n l v x y mx my same lt =
    Or.elim le_prop (mem-cons.0 mx)
      (λ ix.
        Or.elim le_prop (mem-cons.0 my)
          (λ iy. absurd (omega (arith, ap nonce_of ix, ap nonce_of iy)))
          (λ my'. omega (
            arith,
            ap fee_of ix,
            f old y (mem-cons.1 (Or.inl refl)) (mem-cons.1 (Or.inr my'))
                (sym s ∙ sym (ap sender_of ix) ∙ same) (omega (arith, ap nonce_of ix)),
          )))
      (λ mx'.
        Or.elim le_prop (mem-cons.0 my)
          (λ iy. ground (
            arith,
            ap fee_of iy,
            ap nonce_of iy,
            ap sender_of iy,
            all_at (λ e. not (undercuts new e)) x (entries rest)
                (all-map (λ z. z.0) (λ e. not (undercuts new e)) rest ∙ v) mx',
          ))
          (λ my'. f x y (mem-cons.1 (Or.inr mx')) (mem-cons.1 (Or.inr my')) same lt))

-- The books after a replacement.
pub shifted-IsConsistent :
    (old : Item) (new : BatchQueueEntry) (u u' : UserState) (rest : List Item) (users : UserStates)
    → IsConsistent (old ∷ rest) users
    → users new.sender ≡ some u
    → new.sender ≡ old.0.sender
    → nonce_of new ≡ nonce_of old.0
    → fee_of old.0 ≤ fee_of new
    → all (λ x. not (undercuts new x.0)) rest ≡ true
    → u'.nonce ≡ u.nonce
    → u'.last_max_fee_limit ≡ or_max (least_of new.sender ((new, priority_of new) ∷ rest))
    → u'.total_fees_in_queue + fee_of old.0 ≡ u.total_fees_in_queue + fee_of new
    → u'.proofs_in_batch ≡ u.proofs_in_batch
    → IsConsistent ((new, priority_of new) ∷ rest) (insert_user new.sender u' users)
shifted-IsConsistent old new u u' rest users h known s n l v n' l' t' p' =
    let account : Accounts new.sender u (old ∷ rest) =
      subst (UserMatches new.sender (old ∷ rest)) known (h.users_match new.sender) in
    record {
      distinct = λ i. ground (arith, h.distinct i);
      priced = ground (arith, h.priced);
      falls = shifted_falls old.0 new rest h.falls s n l v;
      users_match =
          insert_user-matches new.sender u' users ((new, priority_of new) ∷ rest)
            (shifted_account old new u u' rest account s n n' l' t' p')
            (λ a d.
              other_account a new rest (users a) d
                (without_other a old rest (users a) (λ i. d (i ∙ sym s)) (h.users_match a)));
    }
