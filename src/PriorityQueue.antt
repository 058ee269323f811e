-- ===== src/PriorityQueue.antt =====
-- The interface of the package `priority-queue` (version 2.5), which `types/batch_queue.rs` uses:
-- the operations that the batcher calls, and their documented behaviour. The order of `iter` is
-- arbitrary, so each law speaks of the pairs up to a permutation.

use Prim.Native.Nat.{Ordering}
use aligned_layer.Prelude.{
  ℕ, ◌≡◌, Bool, true, not, Option, none, some, List, [], ◌∷◌, Perm, length, all, find, erase_first,
  update_first, keep,
}

-- `a` is not greater than `b`.
abbrev pub is_le : Ordering → Bool
is_le Ordering.gt = Bool.false
is_le _ = true

module _ {I P : Type 0} (same : I → I → Bool) where
  -- The pair of an item equal to `i`.
  abbrev pub holds_item : I → I × P → Bool
  holds_item i x = same i x.0

  -- `push` keeps the item that is there and replaces its priority, or adds the pair.
  abbrev pub pushed : I → P → Option (I × P) → List (I × P) → List (I × P)
  pushed i p none xs = (i, p) ∷ xs
  pushed i p (some _) xs = update_first (holds_item i) (λ x. (x.0, p)) xs

pub record PriorityQueue {I P : Type 0} (same : I → I → Bool) (cmp : P → P → Ordering)
    : Type 1 where
  pub Queue : Type 0
  pub new : Queue
  pub iter : Queue → List (I × P)
  pub len : Queue → ℕ
  pub push : Queue → I → P → Queue
  pub peek : Queue → Option (I × P)
  pub pop : Queue → Option ((I × P) × Queue)
  pub remove : Queue → I → Option (I × P) × Queue
  pub clear : Queue → Queue
  pub extract_if : Queue → (I × P → Bool) → List (I × P) × Queue
  -- A new queue is empty, and so is a cleared one.
  pub iter-new : iter new ≡ []
  pub iter-clear : (q : Queue) → iter (clear q) ≡ []
  pub len-iter : (q : Queue) → len q ≡ length (iter q)
  -- "If an element equal to `item` is already in the queue, its priority is updated; otherwise
  -- `item` is inserted."
  pub iter-push :
      (q : Queue) (i : I) (p : P)
      → Perm (iter (push q i p)) (pushed same i p (find (holds_item same i) (iter q)) (iter q))
  -- "Removes the item with the greatest priority and returns the pair, or `None` if the queue is
  -- empty."
  pub pop_none : (q : Queue) → pop q ≡ none → iter q ≡ []
  pub pop_perm :
      (q : Queue) (x : I × P) (rest : Queue)
      → pop q ≡ some (x, rest)
      → Perm (iter q) (x ∷ iter rest)
  pub pop_greatest :
      (q : Queue) (x : I × P) (rest : Queue)
      → pop q ≡ some (x, rest)
      → all (λ y. is_le (cmp y.1 x.1)) (iter q) ≡ true
  -- `peek` shows the pair that `pop` would take.
  pub peek_none : (q : Queue) → peek q ≡ none → pop q ≡ none
  pub peek_some :
      (q : Queue) (x : I × P) → peek q ≡ some x → (rest : Queue) × (pop q ≡ some (x, rest))
  -- "Removes an arbitrary element and returns the pair, or `None` if the item is not found."
  pub remove_result : (q : Queue) (i : I) → (remove q i).0 ≡ find (holds_item same i) (iter q)
  pub remove_perm :
      (q : Queue) (i : I) → Perm (iter (remove q i).1) (erase_first (holds_item same i) (iter q))
  -- "Uses a predicate to determine if an element should be removed."
  pub extract_if_result :
      (q : Queue) (test : I × P → Bool) → Perm (extract_if q test).0 (keep test (iter q))
  pub extract_if_rest :
      (q : Queue) (test : I × P → Bool)
      → Perm (iter (extract_if q test).1) (keep (λ x. not (test x)) (iter q))
