-- ===== src/Batcher/Queue/Extract.antt =====
-- The result of `extract_batch_directly` in terms of the order in which the queue is popped.
use mathlib.Core.List.{append-nil, perm_middle}
use mathlib.Core.List.Perm
use aligned_layer.Prelude.{
  ℕ, ◌^◌, ◌≤◌, ◌<◌, ◌≡◌, sym, ap, subst, ◌∙◌, List, [], ◌∷◌, ◌++◌, map, Perm, arith, if◌then◌else◌,
  done, usize_mod, total, total-perm, total-append, find-total_zero,
}
use aligned_layer.PriorityQueue.{holds_item, pushed}
use aligned_layer.Batcher.Queue.{
  BatchQueue, BatchQueueEntry, Item, Limits, Extracted, batch, batch_cost_too_high, same_entry,
  size_of, put_back, Loop, finish_extraction, extract_batch_directly, calculate_batch_size,
}
use aligned_layer.Batcher.Queue.Order.{Drains, Drains-perm, drains}
use aligned_layer.Batcher.Queue.Loops.{
  batch_bytes, select, reject, reject-append-select, reject_loop_lem, drain_lem,
  calculate_batch_size-eq, len-Drains,
}

-- How many items of the list are equal to `e`.
abbrev pub copies : BatchQueueEntry → List Item → ℕ
copies e = total (λ x. if holds_item same_entry e x then 1 else 0)

-- No two items are equal, as in every hash map.
abbrev pub IsDistinct : List Item → Type 0
IsDistinct xs = (e : BatchQueueEntry) → copies e xs ≤ 1

-- What the extraction offers for the selected items.
abbrev pub offer : List Item → Extracted
offer [] = batch_cost_too_high
offer (x ∷ xs) = batch (map (λ y. y.0) (x ∷ xs))

pub copies_rest :
    (x : Item) (xs ys : List Item) → copies x.0 (x ∷ (xs ++ ys)) ≤ 1 → copies x.0 ys ≡ 0
copies_rest x xs ys h =
    ground (arith, total-append (λ y. if holds_item same_entry x.0 y then 1 else 0) xs ys)

-- What the extraction makes of a queue that is popped in the order `xs`.
pub record Extracts (pq : BatchQueue) (q : pq.Queue) (l : Limits) (xs : List Item) : Type 0 where
  pub drained : Drains pq q xs
  pub rest : pq.Queue
  pub returns : extract_batch_directly pq q l ≡ done (offer (select l xs), rest)
  pub kept : Perm (pq.iter rest) (reject l xs)

module _ (pq : BatchQueue) where
  open pq use {Queue, iter, len, push, iter-push, len-iter}

  pub push_fresh :
      (q : Queue) (x : Item) → copies x.0 (iter q) ≡ 0 → Perm (iter (push q x.0 x.1)) (x ∷ iter q)
  push_fresh q x h =
      subst (λ o. Perm (iter (push q x.0 x.1)) (pushed same_entry x.0 x.1 o (iter q)))
        (find-total_zero (holds_item same_entry x.0) (iter q) h) (iter-push q x.0 x.1)

  -- What is put back comes on top of what is there.
  pub put_back_perm :
      (xs : List Item) (q : Queue) (ys : List Item)
      → Perm (iter q) ys
      → IsDistinct (xs ++ ys)
      → Perm (iter (put_back pq xs q)) (xs ++ ys)
  unfolding put_back
  put_back_perm [] q ys p h = p
  put_back_perm (x ∷ xs) q ys p h =
      Perm.trans
        (put_back_perm xs (push q x.0 x.1) (x ∷ ys)
          (Perm.trans (push_fresh q x (total-perm _ p ∙ copies_rest x xs ys (h x.0)))
            (Perm.cons x p))
          (λ e. subst (λ n. n ≤ 1) (sym (total-perm _ (perm_middle xs ys))) (h e)))
        (perm_middle xs ys)

  finish_extraction_lem :
      (s : Loop pq) (zs : List Item)
      → Drains pq s.queue zs
      → IsDistinct s.rejected_entries
      → (rest : Queue) × (finish_extraction pq s ≡ (offer zs, rest))
        × Perm (iter rest) s.rejected_entries
  unfolding finish_extraction
  finish_extraction_lem s [] d h = (
    put_back pq s.rejected_entries s.queue,
    ground (arith, len-Drains pq d),
    subst (Perm (iter (put_back pq s.rejected_entries s.queue))) (append-nil s.rejected_entries)
        (put_back_perm s.rejected_entries s.queue [] (Drains-perm pq d) (λ e. rw append-nil (h e))),
  )
  finish_extraction_lem s (z ∷ zs) d h =
      let (end, run, none_left) =
        drain_lem pq (len s.queue) s.queue [] d (omega (arith, len-Drains pq d)) in
      (
        put_back pq s.rejected_entries end,
        ground (arith, len-Drains pq d, run),
        subst (Perm (iter (put_back pq s.rejected_entries end))) (append-nil s.rejected_entries) (
            put_back_perm s.rejected_entries end []
              (subst (λ ys. Perm ys []) (sym none_left) Perm.nil) (λ e. rw append-nil (h e))),
      )

  -- A part of a list without equal items has none.
  reject-IsDistinct : (l : Limits) (xs : List Item) → IsDistinct xs → IsDistinct (reject l xs)
  reject-IsDistinct l xs h e = omega (
    arith,
    h e,
    ap (copies e) (reject-append-select l xs),
    total-append (λ y. if holds_item same_entry e y then 1 else 0) (reject l xs) (select l xs),
  )

  -- If no two items of the queue are equal, the gas price is below 2 ^ 128 and the bytes of the
  -- queue fit a `usize`, then the extraction returns. For the order in which the queue is
  -- popped, it offers the longest end of it that is not refused at its head, and what stands
  -- before that end is left in the queue.
  pub extract_batch_directly_lem :
      (q : Queue) (l : Limits)
      → IsDistinct (iter q)
      → l.gas_price < 2 ^ 128
      → batch_bytes (iter q) < usize_mod
      → (xs : List Item) × Extracts pq q l xs
  unfolding extract_batch_directly
  extract_batch_directly_lem q l h g b =
      let (xs, d) = drains pq q in
      let p : Perm (iter q) xs = Drains-perm pq d in
      let fits : batch_bytes xs < usize_mod = omega (arith, total-perm (λ x. size_of x.0) p) in
      let (s, run, d', kept) =
        reject_loop_lem pq (len q) l q (calculate_batch_size pq q) [] g d
          (omega (arith, len-Drains pq d)) (calculate_batch_size-eq pq q xs p fits) fits in
      let distinct : IsDistinct (reject l xs) =
        reject-IsDistinct l xs (λ e. subst (λ n. n ≤ 1) (total-perm _ p) (h e)) in
      let (rest, ends, left) =
        finish_extraction_lem s (select l xs) d' (subst IsDistinct (sym kept) distinct) in
      (
        xs,
        record {
          drained = d;
          rest = rest;
          returns = rw run (ap done ends);
          kept = subst (Perm (iter rest)) kept left;
        },
      )
