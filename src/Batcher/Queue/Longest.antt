-- ===== src/Batcher/Queue/Longest.antt =====
-- The length of a batch of `extract_batch_directly`.
use aligned_layer.Prelude.{
  ℕ, ◌^◌, ◌≤◌, ◌<◌, ◌≡◌, refl, sym, ap, ◌∙◌, inl, inr, true, List, [], ◌∷◌, ◌++◌, Perm, arith, leb,
  if◌then◌else◌, done, usize_mod, length, total, all, total-append, total-perm, total-map,
  length-map, all-perm, Bool-cases, and_both, leb→le,
}
use aligned_layer.Batcher.Queue.{
  BatchQueue, BatchQueueEntry, Item, Limits, Extracted, fee_of, size_of, extract_batch_directly,
}
use aligned_layer.Batcher.Queue.Order.{Drains-perm, Drains-IsSorted, IsSorted}
use aligned_layer.Batcher.Queue.Loops.{batch_bytes, fee_per_proof, is_refused, select}
use aligned_layer.Batcher.Queue.Extract.{IsDistinct}
use aligned_layer.Batcher.Queue.Batches.{
  is_priced, IsPriced, IsAcceptable, entries, offered, offered-offer, heads-pays, extracts_result,
}

-- How many entries pay the fee.
abbrev payers : ℕ → List BatchQueueEntry → ℕ
payers f = total (λ e. if leb f (fee_of e) then 1 else 0)

payers-le-length : (f : ℕ) (es : List BatchQueueEntry) → payers f es ≤ length es
payers-le-length f [] = omega arith
payers-le-length f (e ∷ es) = ground (arith, payers-le-length f es)

payers-all :
    (f : ℕ) (es : List BatchQueueEntry)
    → all (λ e. leb f (fee_of e)) es ≡ true
    → payers f es ≡ length es
payers-all f [] h = refl
payers-all f (e ∷ es) h = ground (arith, payers-all f es)

abbrev item_payers : ℕ → List Item → ℕ
item_payers f = total (λ x. if leb f (fee_of x.0) then 1 else 0)

item_payers-all :
    (f : ℕ) (xs : List Item)
    → all (λ x. leb f (fee_of x.0)) xs ≡ true
    → item_payers f xs ≡ length xs
item_payers-all f [] h = refl
item_payers-all f (x ∷ xs) h = ground (arith, item_payers-all f xs)

item_payers-le-length : (f : ℕ) (xs : List Item) → item_payers f xs ≤ length xs
item_payers-le-length f [] = omega arith
item_payers-le-length f (x ∷ xs) = ground (arith, item_payers-le-length f xs)

is_refused_cases :
    (l : Limits) (x : Item) (xs : List Item)
    → is_refused l x xs ≡ true
    → batch_bytes (x ∷ xs) ≤ l.max_batch_byte_size
    → length (x ∷ xs) ≤ l.max_batch_proof_qty
    → fee_of x.0 < fee_per_proof l (length (x ∷ xs))
is_refused_cases l x xs h b q = ground arith

-- A refused head leaves the payers of a shorter batch behind it.
payers_behind :
    (l : Limits) (k : ℕ) (x : Item) (xs : List Item)
    → IsSorted (x ∷ xs)
    → IsPriced (x ∷ xs)
    → batch_bytes (x ∷ xs) ≤ l.max_batch_byte_size
    → k ≤ l.max_batch_proof_qty
    → is_refused l x xs ≡ true
    → k ≤ item_payers (fee_per_proof l k) (x ∷ xs)
    → k ≤ item_payers (fee_per_proof l k) xs
payers_behind l k x xs s p b q t n = elim (Bool-cases (leb (fee_per_proof l k) (fee_of x.0))) [
  | inr poor ↦ ground arith
  | inl pays ↦ elim (Bool-cases (leb k (length xs))) [
    | inl short ↦
        let rest = item_payers-all (fee_per_proof l k) xs (
          heads-pays (fee_per_proof l k) x xs (and_both _ _ p).0 s.0 (and_both _ _ p).1
            (leb→le _ _ pays)) in
        rw rest (leb→le _ _ short)
    | inr long ↦
        let whole : k ≡ length (x ∷ xs) =
          ground (arith, item_payers-le-length (fee_per_proof l k) xs) in
        absurd (
          omega (
            arith,
            leb→le _ _ pays,
            is_refused_cases l x xs t b (omega arith),
            ap (fee_per_proof l) whole,
          ))
  ]
]

select_longest :
    (l : Limits) (k : ℕ) (xs : List Item)
    → IsSorted xs
    → IsPriced xs
    → batch_bytes xs ≤ l.max_batch_byte_size
    → k ≤ l.max_batch_proof_qty
    → k ≤ item_payers (fee_per_proof l k) xs
    → k ≤ length (select l xs)
select_longest l k [] s p b q n = n
select_longest l k (x ∷ xs) s p b q n = elim (Bool-cases (is_refused l x xs)) [
  | inr f ↦ rw f (omega (arith, item_payers-le-length (fee_per_proof l k) (x ∷ xs)))
  | inl t ↦ rw t (
      select_longest l k xs s.1 (and_both _ _ p).1 (omega arith) q
        (payers_behind l k x xs s p b q t n))
]

-- If no two items of the queue are equal, each has the priority of its entry, the gas price is
-- below 2 ^ 128, and the bytes of the queue fit a `usize` and one batch, then no acceptable
-- choice `ys` of the queue's entries is longer than what is extracted; where nothing is offered,
-- there is no such choice.
pub extract_batch_directly_longest :
    (pq : BatchQueue) (q : pq.Queue) (l : Limits) (ys zs : List BatchQueueEntry)
    → IsDistinct (pq.iter q)
    → IsPriced (pq.iter q)
    → l.gas_price < 2 ^ 128
    → batch_bytes (pq.iter q) < usize_mod
    → batch_bytes (pq.iter q) ≤ l.max_batch_byte_size
    → Perm (entries (pq.iter q)) (ys ++ zs)
    → IsAcceptable l ys
    → {r : Extracted} {rest : pq.Queue} → extract_batch_directly pq q l ≡ done (r, rest)
    → length ys ≤ length (offered r)
extract_batch_directly_longest pq q l ys zs distinct priced gas fits bytes part a {r} {rest} e =
    let (xs, d, same, kept) = extracts_result pq q l distinct gas fits e in
    let p = Drains-perm pq d in
    let f : ℕ = fee_per_proof l (length ys) in
    let enough : length ys ≤ item_payers f xs = omega (
      arith,
      payers-all f ys a.pays,
      total-append (λ z. if leb f (fee_of z) then 1 else 0) ys zs,
      total-perm (λ z. if leb f (fee_of z) then 1 else 0) part,
      total-map (λ (x : Item). x.0) (λ z. if leb f (fee_of z) then 1 else 0) (pq.iter q),
      total-perm (λ (x : Item). if leb f (fee_of x.0) then 1 else 0) p,
    ) in
    let long =
      select_longest l (length ys) xs (Drains-IsSorted pq d) (sym (all-perm is_priced p) ∙ priced)
        (omega (arith, total-perm (λ (x : Item). size_of x.0) p)) a.proof_qty enough in
    omega (
      arith,
      long,
      length-map (λ (x : Item). x.0) (select l xs),
      ap length (sym (offered-offer (select l xs)) ∙ ap offered same),
    )
