-- ===== src/Batcher/Queue/Nonces.antt =====
-- The nonces of a sender in a batch of `extract_batch_directly` and in what it leaves.
use mathlib.Core.Logic.Or
use mathlib.Core.Logic.{∥∥₁_elim}
use mathlib.Core.Bool.{Bool-set}
use mathlib.Core.List.Perm
use mathlib.Core.List.{
  Mem, mem-cons, mem-map, mem-map_of_mem, mem-append_left, mem-append_right, not-mem-nil,
}
use native.Mathlib.Bridge.{le_prop}
use aligned_layer.Prelude.{
  ◌^◌, ◌≤◌, ◌<◌, ◌≡◌, ◌≢◌, sym, ap, subst, ◌∙◌, inl, inr, true, List, [], ◌∷◌, arith, if◌then◌else◌,
  done, usize_mod, total-append, total-perm, all-perm, Bool-cases, all_at,
}
use aligned_layer.PriorityQueue.{is_le}
use aligned_layer.Batcher.Queue.{
  BatchQueue, BatchQueueEntry, Item, Limits, batch, fee_of, nonce_of, cmp, same_entry,
  extract_batch_directly,
}
use aligned_layer.Batcher.Queue.Order.{Drains-perm, Drains-IsSorted, IsSorted, is_le-cmp}
use aligned_layer.Batcher.Queue.Loops.{
  batch_bytes, is_refused, select, reject, reject-append-select,
}
use aligned_layer.Batcher.Queue.Extract.{IsDistinct, copies}
use aligned_layer.Batcher.Queue.Batches.{
  is_priced, IsPriced, entries, offered, offered-offer, extracts_result,
}

-- For each sender the fees do not rise with the nonces.
abbrev pub FeesFall : List BatchQueueEntry → Type 0
FeesFall es =
    (x y : BatchQueueEntry)
    → Mem x es
    → Mem y es
    → x.sender ≡ y.sender
    → nonce_of x < nonce_of y
    → fee_of y ≤ fee_of x

mem-select : (l : Limits) (x : Item) (xs : List Item) → Mem x (select l xs) → Mem x xs
mem-select l x xs m = subst (Mem x) (reject-append-select l xs) (mem-append_right (reject l xs) m)

mem-reject : (l : Limits) (x : Item) (xs : List Item) → Mem x (reject l xs) → Mem x xs
mem-reject l x xs m = subst (Mem x) (reject-append-select l xs) (mem-append_left (select l xs) m)

-- What is put aside comes before what is selected.
reject_before_select :
    (l : Limits) (x y : Item) (xs : List Item)
    → IsSorted xs
    → Mem x (reject l xs)
    → Mem y (select l xs)
    → is_le (cmp y.1 x.1) ≡ true
reject_before_select l x y [] s m n = absurd (not-mem-nil m)
reject_before_select l x y (z ∷ zs) s m n = elim (Bool-cases (is_refused l z zs)) [
  | inr f ↦ absurd (not-mem-nil (subst (λ b. Mem x (if b then z ∷ reject l zs else [])) f m))
  | inl t ↦
      let m' : Mem x (z ∷ reject l zs) =
        subst (λ b. Mem x (if b then z ∷ reject l zs else [])) t m in
      let n' : Mem y (select l zs) = subst (λ b. Mem y (if b then select l zs else z ∷ zs)) t n in
      Or.elim (Bool-set _ _) (mem-cons.0 m') (λ e. rw e (all_at _ y zs s.0 (mem-select l y zs n')))
        (λ r. reject_before_select l x y zs s.1 r n')
]

pub mem-copies :
    (e : BatchQueueEntry) (x : Item) (xs : List Item)
    → same_entry e x.0 ≡ true
    → Mem x xs
    → 1 ≤ copies e xs
mem-copies e x [] h m = absurd (not-mem-nil m)
mem-copies e x (y ∷ ys) h m =
    Or.elim le_prop (mem-cons.0 m)
      (λ i.
        let k : same_entry e y.0 ≡ true = subst (λ z. same_entry e z.0 ≡ true) i h in
        rw k (omega arith))
      (λ r. omega (arith, mem-copies e x ys h r))

priced_parts :
    (x : Item) → is_priced x ≡ true → (x.1.max_fee ≡ fee_of x.0) × (x.1.nonce ≡ nonce_of x.0)
priced_parts x h = ground arith

-- A list without equal items has not one nonce of a sender on both sides.
nonces_differ :
    (l : Limits) (x y : Item) (xs : List Item)
    → IsDistinct xs
    → Mem x (reject l xs)
    → Mem y (select l xs)
    → x.0.sender ≡ y.0.sender
    → nonce_of y.0 ≢ nonce_of x.0
nonces_differ l x y xs d m n same e = omega (
  arith,
  d x.0,
  ap (copies x.0) (reject-append-select l xs),
  total-append (λ z. if same_entry x.0 z.0 then 1 else 0) (reject l xs) (select l xs),
  mem-copies x.0 x (reject l xs) (ground arith) m,
  mem-copies x.0 y (select l xs) (ground (arith, e, same)) n,
)

-- Two items of one sender, the first put aside and the second selected.
nonce_order :
    (l : Limits) (x y : Item) (xs : List Item)
    → IsSorted xs
    → IsPriced xs
    → IsDistinct xs
    → FeesFall (entries xs)
    → Mem x (reject l xs)
    → Mem y (select l xs)
    → x.0.sender ≡ y.0.sender
    → nonce_of y.0 < nonce_of x.0
nonce_order l x y xs s p d f m n same =
    let mx : Mem x xs = mem-reject l x xs m in
    let my : Mem y xs = mem-select l y xs n in
    let (fees, nonces) = is_le-cmp y.1 x.1 (reject_before_select l x y xs s m n) in
    let (fee_x, nonce_x) = priced_parts x (all_at is_priced x xs p mx) in
    let (fee_y, nonce_y) = priced_parts y (all_at is_priced y xs p my) in
    let differ : nonce_of y.0 ≢ nonce_of x.0 = nonces_differ l x y xs d m n same in
    let falls : nonce_of x.0 < nonce_of y.0 → fee_of y.0 ≤ fee_of x.0 =
      f x.0 y.0 (mem-map_of_mem (λ z. z.0) mx) (mem-map_of_mem (λ z. z.0) my) same in
    ground arith

-- If no two items of the queue are equal, each has the priority of its entry, the fees of each
-- sender fall with the nonces, the gas price is below 2 ^ 128 and the bytes of the queue fit a
-- `usize`, then an entry that is left behind by a batch has a higher nonce than each entry of
-- its sender in the batch.
pub extract_batch_directly-nonce_order :
    (pq : BatchQueue) (q : pq.Queue) (l : Limits)
    → IsDistinct (pq.iter q)
    → IsPriced (pq.iter q)
    → FeesFall (entries (pq.iter q))
    → l.gas_price < 2 ^ 128
    → batch_bytes (pq.iter q) < usize_mod
    → {b : List BatchQueueEntry} {rest : pq.Queue}
    → extract_batch_directly pq q l ≡ done (batch b, rest)
    → (left taken : BatchQueueEntry) → Mem left (entries (pq.iter rest))
    → Mem taken b
    → left.sender ≡ taken.sender
    → nonce_of taken < nonce_of left
extract_batch_directly-nonce_order pq q l distinct priced falls gas fits {b} {rest} e left taken ml
      mt same =
    let (xs, d, o, kept) = extracts_result pq q l distinct gas fits e in
    let p = Drains-perm pq d in
    let entries_perm = Perm.map (λ (z : Item). z.0) p in
    let mt' : Mem taken (entries (select l xs)) =
      subst (Mem taken) (sym (ap offered o) ∙ offered-offer (select l xs)) mt in
    ∥∥₁_elim (mem-map.0 ml) le_prop λ (x, mx, ex). ∥∥₁_elim (mem-map.0 mt') le_prop λ (y, my, ey).
      let order =
        nonce_order l x y xs (Drains-IsSorted pq d) (sym (all-perm is_priced p) ∙ priced)
          (λ i. subst (λ n. n ≤ 1) (total-perm _ p) (distinct i))
          (λ u v mu mv.
            falls u v ((Perm.mem_iff entries_perm).1 mu) ((Perm.mem_iff entries_perm).1 mv))
          ((Perm.mem_iff kept).0 mx) my
          (ap (λ (z : BatchQueueEntry). z.sender) ex
            ∙ same
            ∙ sym (ap (λ (z : BatchQueueEntry). z.sender) ey)) in
      omega (arith, order, ap nonce_of ex, ap nonce_of ey)
