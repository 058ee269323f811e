-- ===== src/Batcher/Queue/ListQueue.antt =====
-- A queue over a list, which meets the interface of `priority-queue` and runs the tests.
use mathlib.Core.List.Perm
use aligned_layer.Prelude.{
  ◌≡◌, refl, subst, inl, inr, Bool, true, false, not, ◌⊎◌, Option, none, some, List, [], ◌∷◌, Perm,
  arith, if◌then◌else◌, length, all, find, erase_first, keep, Bool-cases,
}
use aligned_layer.PriorityQueue.{is_le, pushed, holds_item}
use aligned_layer.Batcher.Queue.{BatchQueue, Item, cmp, same_entry}

abbrev pub not_after : Item → Item → Bool
not_after x y = is_le (cmp y.1 x.1)

-- The greatest item and the others.
abbrev pub take_greatest : List Item → Option (Item × List Item)
take_greatest [] = none
take_greatest (x ∷ xs) = elim (take_greatest xs) [
  | none ↦ some (x, [])
  | some (y, rest) ↦ if not_after x y then some (x, y ∷ rest) else some (y, x ∷ rest)
]

not_after_trans :
    (x y z : Item) → not_after x y ≡ true → not_after y z ≡ true → not_after x z ≡ true
not_after_trans x y z h k = ground arith

not_after_refl : (x : Item) → not_after x x ≡ true
not_after_refl x = ground arith

not_after_total : (x y : Item) → not_after x y ≡ false → not_after y x ≡ true
not_after_total x y h = ground arith

all-not_after :
    (x y : Item) (xs : List Item)
    → not_after x y ≡ true
    → all (not_after y) xs ≡ true
    → all (not_after x) xs ≡ true
all-not_after x y [] h k = refl
all-not_after x y (z ∷ zs) h k = elim (Bool-cases (not_after y z)) [
  | inl e ↦ rw (not_after_trans x y z h e) (all-not_after x y zs h (rw e at k))
  | inr e ↦ absurd (cc (rw e at k))
]

-- A list of at least one item is split into its greatest item and the others.
abbrev pub Splits : List Item → Item × List Item → Type 0
Splits xs r = Perm xs (r.0 ∷ r.1) × (all (not_after r.0) xs ≡ true)

take_greatest_cases :
    (xs : List Item)
    → ((xs ≡ []) × (take_greatest xs ≡ none))
      ⊎ ((r : Item × List Item) × (take_greatest xs ≡ some r) × Splits xs r)
take_greatest_cases [] = inl (refl, refl)
take_greatest_cases (x ∷ xs) = elim (take_greatest_cases xs) [
  | inl (e, n) ↦ inr ((x, []), rw n refl, rw e (Perm.refl (x ∷ []), rw (not_after_refl x) refl))
  | inr ((y, rest), t, (p, g)) ↦ elim (Bool-cases (not_after x y)) [
    | inl first ↦ inr (
      (x, y ∷ rest),
      rw t (rw first refl),
      (Perm.cons x p, rw (not_after_refl x) (all-not_after x y xs first g)),
    )
    | inr later ↦ inr (
      (y, x ∷ rest),
      rw t (rw later refl),
      (Perm.trans (Perm.cons x p) (Perm.swap y x rest), rw (not_after_total x y later) g),
    )
  ]
]

pub take_greatest-none : (xs : List Item) → take_greatest xs ≡ none → xs ≡ []
take_greatest-none xs e = elim (take_greatest_cases xs) [ inl (nil, _) ↦ nil | inr (r, t, _) ↦ cc ]

pub take_greatest-some :
    (xs : List Item) (r : Item × List Item) → take_greatest xs ≡ some r → Splits xs r
take_greatest-some xs r e = elim (take_greatest_cases xs) [
  | inl (_, n) ↦ cc
  | inr (s, t, splits) ↦ let e' : s ≡ r = cc in subst (Splits xs) e' splits
]

abbrev pub peeked : Option (Item × List Item) → Option Item
peeked none = none
peeked (some (x, _)) = some x

pub peeked-some :
    (o : Option (Item × List Item)) (x : Item)
    → peeked o ≡ some x
    → (rest : List Item) × (o ≡ some (x, rest))
peeked-some none x e = cc
peeked-some (some (y, rest)) x e = (rest, ground (arith, e))

pub peeked-none : (o : Option (Item × List Item)) → peeked o ≡ none → o ≡ none
peeked-none none e = refl
peeked-none (some (y, rest)) e = cc

abbrev pub list_queue : BatchQueue
list_queue = record {
  Queue = List Item;
  new = [];
  iter = λ q. q;
  len = λ q. length q;
  push = λ q i p. pushed same_entry i p (find (holds_item same_entry i) q) q;
  peek = λ q. peeked (take_greatest q);
  pop = λ q. take_greatest q;
  remove = λ q i. (find (holds_item same_entry i) q, erase_first (holds_item same_entry i) q);
  clear = λ q. [];
  extract_if = λ q test. (keep test q, keep (λ x. not (test x)) q);
  iter-new = refl;
  iter-clear = λ q. refl;
  len-iter = λ q. refl;
  iter-push = λ q i p. Perm.refl _;
  pop_none = take_greatest-none;
  pop_perm = λ q x rest e. (take_greatest-some q (x, rest) e).0;
  pop_greatest = λ q x rest e. (take_greatest-some q (x, rest) e).1;
  peek_none = λ q e. peeked-none (take_greatest q) e;
  peek_some = λ q x e. peeked-some (take_greatest q) x e;
  remove_result = λ q i. refl;
  remove_perm = λ q i. Perm.refl _;
  extract_if_result = λ q test. Perm.refl _;
  extract_if_rest = λ q test. Perm.refl _;
}
