-- ===== src/Batcher/Queue/Order.antt =====
-- The order of the priorities, and the order in which a queue is popped.
use aligned_layer.Prelude.{
  ℕ, zero, suc, ◌≤◌, ◌≡◌, refl, sym, subst, ◌∙◌, inl, inr, Bool, true, ◌&&◌, none, some, List, [],
  ◌∷◌, Perm, arith, length, length-perm, all, all-perm, Option-cases,
}
use mathlib.Core.List.Perm
use aligned_layer.PriorityQueue.{is_le}
use aligned_layer.Batcher.Queue.{BatchQueue, BatchQueueEntryPriority, Item, cmp}

-- A priority that is not greater has a fee that is not lower, and at equal fees its nonce is not
-- higher.
pub is_le-cmp :
    (a b : BatchQueueEntryPriority)
    → is_le (cmp a b) ≡ true
    → (b.max_fee ≤ a.max_fee) × (a.max_fee ≡ b.max_fee → a.nonce ≤ b.nonce)
is_le-cmp a b h = (ground arith, λ e. ground arith)

-- No item of the list comes before `x`.
abbrev pub heads : Item → List Item → Bool
heads x = all (λ y. is_le (cmp y.1 x.1))

-- Each item is followed by items that are not greater.
abbrev pub IsSorted : List Item → Type 0
IsSorted [] = Unit {0}
IsSorted (x ∷ xs) = (heads x xs ≡ true) × IsSorted xs

and_right : (a b : Bool) → (a && b) ≡ true → b ≡ true
and_right a b h = ground arith

module _ (pq : BatchQueue) where
  open pq use {Queue, iter, len, pop, len-iter, pop_none, pop_perm, pop_greatest}

  -- `xs` is what popping takes from `q` until it is empty.
  pub data Drains : Queue → List Item → Type 0 where
    stop : {q : Queue} → pop q ≡ none → Drains q []
    next :
        {q : Queue} {x : Item} {rest : Queue} {xs : List Item}
        → pop q ≡ some (x, rest)
        → Drains rest xs
        → Drains q (x ∷ xs)

  pub Drains-perm : {q : Queue} {xs : List Item} → Drains q xs → Perm (iter q) xs
  Drains-perm {q} (stop e) = subst (λ l. Perm l []) (sym (pop_none q e)) Perm.nil
  Drains-perm {q} (next {x = x} {rest = rest} e d) =
      Perm.trans (pop_perm q x rest e) (Perm.cons x (Drains-perm d))

  pub Drains-IsSorted : {q : Queue} {xs : List Item} → Drains q xs → IsSorted xs
  Drains-IsSorted (stop e) = tt
  Drains-IsSorted {q} (next {x = x} {rest = rest} {xs = xs} e d) = (
    and_right _ _ (
        sym (all-perm (λ y. is_le (cmp y.1 x.1)) (Drains-perm (next e d)))
        ∙ pop_greatest q x rest e),
    Drains-IsSorted d,
  )

  Drains-from : (n : ℕ) (q : Queue) → length (iter q) ≡ n → (xs : List Item) × Drains q xs
  Drains-from zero q h = elim (Option-cases (pop q)) [
    | inl e ↦ ([], stop e)
    | inr ((x, rest), e) ↦ absurd (omega (arith, length-perm (pop_perm q x rest e)))
  ]
  Drains-from (suc n) q h = elim (Option-cases (pop q)) [
    | inl e ↦ ([], stop e)
    | inr ((x, rest), e) ↦
        let (xs, d) = Drains-from n rest (omega (arith, length-perm (pop_perm q x rest e))) in
        (x ∷ xs, next e d)
  ]

  -- Every queue can be popped until it is empty.
  pub drains : (q : Queue) → (xs : List Item) × Drains q xs
  drains q = Drains-from (length (iter q)) q refl
