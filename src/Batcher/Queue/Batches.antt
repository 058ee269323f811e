-- ===== src/Batcher/Queue/Batches.antt =====
-- What a batch of `extract_batch_directly` has to satisfy, and what becomes of the entries.
use mathlib.Core.List.{map-append, perm_append_comm}
use mathlib.Core.List.Perm
use aligned_layer.Prelude.{
  ℕ, ◌+◌, ◌^◌, ◌≤◌, ◌<◌, ◌≡◌, refl, sym, ap, subst, ◌∙◌, inl, inr, Bool, true, false, ◌&&◌, List,
  [], ◌∷◌, ◌++◌, map, Perm, arith, leb, ◌==◌, Run, done, usize_mod, length, total, all, all-perm,
  length-map, total-map, all-map, Bool-cases, and_both, le→leb,
}
use aligned_layer.Sdk.Constants.{cbor_array_max_overhead}
use aligned_layer.Batcher.Queue.{
  BatchQueue, BatchQueueEntry, Item, Limits, Extracted, batch, batch_cost_too_high, fee_of,
  nonce_of, size_of, extract_batch_directly,
}
use aligned_layer.Batcher.Queue.Order.{
  Drains, Drains-perm, Drains-IsSorted, IsSorted, heads, is_le-cmp,
}
use aligned_layer.Batcher.Queue.Loops.{
  batch_bytes, fee_per_proof, is_refused, select, reject, reject-append-select,
}
use aligned_layer.Batcher.Queue.Extract.{IsDistinct, offer, extract_batch_directly_lem}

-- The priority of an item is made of its entry's fee and nonce.
abbrev pub is_priced : Item → Bool
is_priced x = x.1.max_fee == fee_of x.0 && x.1.nonce == nonce_of x.0

abbrev pub IsPriced : List Item → Type 0
IsPriced xs = all is_priced xs ≡ true

-- A batch within the limits: it is not empty, it is neither too long nor too large, and each entry
-- pays for its share.
pub record IsAcceptable (l : Limits) (b : List BatchQueueEntry) : Type 0 where
  pub some_proof : 0 < length b
  pub proof_qty : length b ≤ l.max_batch_proof_qty
  pub byte_size : cbor_array_max_overhead + total size_of b ≤ l.max_batch_byte_size
  pub pays : all (λ e. leb (fee_per_proof l (length b)) (fee_of e)) b ≡ true

-- The entries of an offered batch.
abbrev pub offered : Extracted → List BatchQueueEntry
offered (batch b) = b
offered batch_cost_too_high = []

abbrev pub entries : List Item → List BatchQueueEntry
entries = map (λ x. x.0)

pub offered-offer : (xs : List Item) → offered (offer xs) ≡ entries xs
offered-offer [] = refl
offered-offer (x ∷ xs) = refl

pub heads-pays :
    (f : ℕ) (x : Item) (xs : List Item)
    → is_priced x ≡ true
    → heads x xs ≡ true
    → IsPriced xs
    → f ≤ fee_of x.0
    → all (λ y. leb f (fee_of y.0)) xs ≡ true
heads-pays f x [] p h k n = refl
heads-pays f x (y ∷ ys) p h k n =
    let (hy, hys) = and_both _ _ h in
    let (ky, kys) = and_both _ _ k in
    ground (arith, heads-pays f x ys p hys kys n, (is_le-cmp y.1 x.1 hy).0)

not_refused :
    (l : Limits) (x : Item) (xs : List Item)
    → is_refused l x xs ≡ false
    → (length (x ∷ xs) ≤ l.max_batch_proof_qty)
      × (batch_bytes (x ∷ xs) ≤ l.max_batch_byte_size)
      × (fee_per_proof l (length (x ∷ xs)) ≤ fee_of x.0)
not_refused l x xs h = ground arith

offer-IsAcceptable :
    (l : Limits) (x : Item) (xs : List Item)
    → IsSorted (x ∷ xs)
    → IsPriced (x ∷ xs)
    → is_refused l x xs ≡ false
    → IsAcceptable l (entries (x ∷ xs))
offer-IsAcceptable l x xs s p h =
    let (qty, bytes, fee) = not_refused l x xs h in
    let n : length (entries (x ∷ xs)) ≡ length (x ∷ xs) = length-map (λ y. y.0) (x ∷ xs) in
    let (px, ps) = and_both _ _ p in
    let rest_pays : all (λ y. leb (fee_per_proof l (length (x ∷ xs))) (fee_of y.0)) xs ≡ true =
      heads-pays (fee_per_proof l (length (x ∷ xs))) x xs px s.0 ps fee in
    let all_pay : all (λ y. leb (fee_per_proof l (length (x ∷ xs))) (fee_of y.0)) (x ∷ xs) ≡ true =
      rw (le→leb _ _ fee) rest_pays in
    record {
      some_proof = omega arith;
      proof_qty = omega (arith, n);
      byte_size = omega (arith, total-map (λ (y : Item). y.0) size_of (x ∷ xs));
      pays =
          subst (λ k. all (λ e. leb (fee_per_proof l k) (fee_of e)) (entries (x ∷ xs)) ≡ true)
            (sym n)
            (all-map (λ y. y.0) (λ e. leb (fee_per_proof l (length (x ∷ xs))) (fee_of e)) (x ∷ xs)
              ∙ all_pay);
    }

select-IsAcceptable :
    (l : Limits) (xs : List Item) (b : List BatchQueueEntry)
    → IsSorted xs
    → IsPriced xs
    → offer (select l xs) ≡ batch b
    → IsAcceptable l b
select-IsAcceptable l [] b s p e = cc
select-IsAcceptable l (x ∷ xs) b s p e = elim (Bool-cases (is_refused l x xs)) [
  | inl t ↦ select-IsAcceptable l xs b s.1 (and_both _ _ p).1 (rw t at e)
  | inr f ↦
      let e' : batch (entries (x ∷ xs)) ≡ batch b = rw f at e in
      let same : entries (x ∷ xs) ≡ b = cc in
      subst (IsAcceptable l) same (offer-IsAcceptable l x xs s p f)
]

module _ (pq : BatchQueue) (q : pq.Queue) (l : Limits) (distinct : IsDistinct (pq.iter q))
    (gas : l.gas_price < 2 ^ 128) (fits : batch_bytes (pq.iter q) < usize_mod) where
  -- Every result of the extraction is the one that the refinement theorem describes.
  pub extracts_result :
      {r : Extracted} {rest : pq.Queue}
      → extract_batch_directly pq q l ≡ done (r, rest)
      → (xs : List Item) × Drains pq q xs
        × (offer (select l xs) ≡ r)
        × Perm (pq.iter rest) (reject l xs)
  extracts_result {r} {rest} e =
      let (xs, ex) = extract_batch_directly_lem pq q l distinct gas fits in
      let d = ex.drained in
      let both : ◌≡◌ {A = Run (Extracted × pq.Queue)} (done (offer (select l xs), ex.rest))
          (done (r, rest)) =
        sym ex.returns ∙ e in
      let same : ex.rest ≡ rest = cc in
      (xs, ex.drained, cc, subst (λ k. Perm (pq.iter k) (reject l xs)) same ex.kept)

  -- If no two items of the queue are equal, each has the priority of its entry, the gas price is
  -- below 2 ^ 128 and the bytes of the queue fit a `usize`, then a batch that is extracted is
  -- acceptable.
  pub extract_batch_directly-IsAcceptable :
      {b : List BatchQueueEntry} {rest : pq.Queue}
      → IsPriced (pq.iter q)
      → extract_batch_directly pq q l ≡ done (batch b, rest)
      → IsAcceptable l b
  extract_batch_directly-IsAcceptable {b} p e =
      let (xs, d, same, _) = extracts_result e in
      select-IsAcceptable l xs b (Drains-IsSorted pq d)
        (sym (all-perm is_priced (Drains-perm pq d)) ∙ p) same

  -- If no two items of the queue are equal, the gas price is below 2 ^ 128 and the bytes of the
  -- queue fit a `usize`, then an extraction that returns neither loses nor duplicates an entry:
  -- those of the batch and those that are left are those that were in the queue.
  pub extract_batch_directly-perm :
      {r : Extracted} {rest : pq.Queue}
      → extract_batch_directly pq q l ≡ done (r, rest)
      → Perm (entries (pq.iter q)) (offered r ++ entries (pq.iter rest))
  extract_batch_directly-perm {r} {rest} e =
      let (xs, d, same, kept) = extracts_result e in
      let parts : entries xs ≡ entries (reject l xs) ++ entries (select l xs) =
        ap entries (sym (reject-append-select l xs)) ∙ map-append _ (reject l xs) (select l xs) in
      subst (λ b. Perm (entries (pq.iter q)) (b ++ entries (pq.iter rest)))
        (sym (offered-offer (select l xs)) ∙ ap offered same)
        (Perm.trans (Perm.map (λ x. x.0) (Drains-perm pq d)) (
          subst (λ es. Perm es (entries (select l xs) ++ entries (pq.iter rest))) (sym parts)
            (Perm.trans (perm_append_comm (entries (reject l xs)) (entries (select l xs)))
              (Perm.append_left (entries (select l xs)) (Perm.map (λ x. x.0) (Perm.symm kept))))))
