-- ===== src/Batcher/NewBlock/Extracted.antt =====
-- What `extract_batch_if_ready` hands to the rest of `handle_new_block`.
use mathlib.Core.List.Perm
use mathlib.Core.List.{append-nil}
use aligned_layer.Prelude.{
  ℕ, ◌^◌, ◌<◌, ◌≡◌, refl, sym, ap, subst, ◌∙◌, ◌⊎◌, inl, inr, Bool, true, false, none, some, List,
  [], ◌∷◌, ◌++◌, Perm, arith, done, ◌>>=◌, u256_mod, usize_mod, length, length-append, length-perm,
  total, total-append, total-perm, all, all-perm, all-map, all_right,
}
use aligned_layer.Batcher.Queue.{
  BatchQueue, BatchQueueEntry, Item, Limits, Extracted, batch, batch_cost_too_high, fee_of,
  extract_batch_directly,
}
use aligned_layer.Batcher.Queue.Loops.{batch_bytes, select, reject-append-select}
use aligned_layer.Batcher.Queue.Order.{Drains-perm}
use aligned_layer.Batcher.Queue.Extract.{offer, extract_batch_directly_lem}
use aligned_layer.Batcher.Queue.Batches.{
  entries, offered, offered-offer, extracts_result, extract_batch_directly-IsAcceptable,
  extract_batch_directly-perm,
}
use aligned_layer.Batcher.State.{Config, Batcher, set_queue}
use aligned_layer.Batcher.Accounts.{IsSound, IsConsistent-perm}
use aligned_layer.Batcher.Posting.{limits_of, settle, extract_batch_if_ready}
use aligned_layer.Batcher.Finalize.Returns.{has_sink}

-- Every client of the queue can be answered.
abbrev pub sinks : List Item → Bool
sinks = all (λ x. has_sink x.0)

nothing_offered : (xs : List Item) → offer xs ≡ batch_cost_too_high → xs ≡ []
nothing_offered [] e = refl
nothing_offered (x ∷ xs) e = cc

module _ (pq : BatchQueue) where
  open pq use {Queue, iter}

  -- A batch that was taken off the queue, and what is left there.
  pub record TakesBatch (b : Batcher pq) (l : Limits) (finalized : List BatchQueueEntry)
      (rest : Queue) : Type 0 where
    pub extracted :
        extract_batch_directly pq b.batch_state.batch_queue l ≡ done (batch finalized, rest)
    pub some_proof : 0 < length finalized
    pub fees_left : total (λ x. fee_of x.0) (iter rest) < u256_mod
    pub length_left : length (iter rest) < usize_mod
    pub answerable : all has_sink finalized ≡ true
    pub parted : Perm (entries (iter b.batch_state.batch_queue)) (finalized ++ entries (iter rest))

  -- Either there is no batch, and the books still agree with the queue; or there is one.
  abbrev pub Readies : Config → Batcher pq → ℕ → ℕ → Type 0
  Readies c b block_number gas_price =
      ((b' : Batcher pq) × (extract_batch_if_ready pq c b block_number gas_price ≡ done (none, b'))
        × IsSound pq b'
        × (b'.posting_batch ≡ b.posting_batch)
        × Perm (iter b'.batch_state.batch_queue) (iter b.batch_state.batch_queue))
      ⊎ ((finalized : List BatchQueueEntry) × (rest : Queue) × (extract_batch_if_ready pq c b
              block_number gas_price
            ≡ done (some finalized, record (set_queue pq b rest) { posting_batch = true }))
          × (b.posting_batch ≡ false)
          × TakesBatch b (limits_of c gas_price) finalized rest)

  ready_cases :
      (c : Config) (b : Batcher pq) (block_number gas_price : ℕ)
      → (extract_batch_if_ready pq c b block_number gas_price ≡ done (none, b))
        ⊎ ((b.posting_batch ≡ false)
            × (extract_batch_if_ready pq c b block_number gas_price ≡ (
                extract_batch_directly pq b.batch_state.batch_queue (limits_of c gas_price) >>= λ r.
                done (settle pq b r))))
  unfolding extract_batch_if_ready
  ready_cases c b block_number gas_price = ground arith

  module _ (b : Batcher pq) (l : Limits) (h : IsSound pq b) (gas : l.gas_price < 2 ^ 128)
      (fits : batch_bytes (iter b.batch_state.batch_queue) < usize_mod) where
    -- The queue before is made of what is left and what was offered.
    pub parts :
        {r : Extracted} {rest : Queue}
        → extract_batch_directly pq b.batch_state.batch_queue l ≡ done (r, rest)
        → (ys : List Item) × (offer ys ≡ r)
          × Perm (iter b.batch_state.batch_queue) (iter rest ++ ys)
    parts {r} {rest} e =
        let (xs, d, same, kept) =
          extracts_result pq b.batch_state.batch_queue l h.distinct gas fits e in
        let ys = select l xs in
        (
          ys,
          same,
          Perm.trans (Drains-perm pq d) (
              subst (λ zs. Perm zs (iter rest ++ ys)) (reject-append-select l xs)
                (Perm.append_right ys (Perm.symm kept))),
        )

    left_whole :
        {rest : Queue}
        → extract_batch_directly pq b.batch_state.batch_queue l ≡ done (batch_cost_too_high, rest)
        → Perm (iter b.batch_state.batch_queue) (iter rest)
    left_whole {rest} e =
        let (ys, same, p) = parts e in
        subst (Perm (iter b.batch_state.batch_queue))
          (ap (λ zs. iter rest ++ zs) (nothing_offered ys same) ∙ append-nil (iter rest)) p

    with_batch :
        {finalized : List BatchQueueEntry} {rest : Queue}
        → total (λ x. fee_of x.0) (iter b.batch_state.batch_queue) < u256_mod
        → length (iter b.batch_state.batch_queue) < usize_mod
        → sinks (iter b.batch_state.batch_queue) ≡ true
        → extract_batch_directly pq b.batch_state.batch_queue l ≡ done (batch finalized, rest)
        → TakesBatch b l finalized rest
    with_batch {finalized} {rest} small few s e =
        let q = b.batch_state.batch_queue in
        let (ys, same, p) = parts e in
        let made : entries ys ≡ finalized = sym (offered-offer ys) ∙ ap offered same in
        let own : sinks ys ≡ true =
          all_right (λ x. has_sink x.0) (iter rest) ys (sym (all-perm (λ x. has_sink x.0) p) ∙ s) in
        record {
          extracted = e;
          some_proof =
              (extract_batch_directly-IsAcceptable pq q l h.distinct gas fits h.priced
                e).some_proof;
          fees_left = omega (
            arith,
            total-perm (λ x. fee_of x.0) p,
            total-append (λ x. fee_of x.0) (iter rest) ys,
          );
          length_left = omega (arith, length-perm p, length-append (iter rest) ys);
          answerable =
              subst (λ es. all has_sink es ≡ true) made (all-map (λ x. x.0) has_sink ys ∙ own);
          parted = extract_batch_directly-perm pq q l h.distinct gas fits e;
        }

  -- The gas price is below 2 ^ 128, and nothing of the queue overflows.
  pub extract_batch_if_ready_cases :
      (c : Config) (b : Batcher pq) (block_number gas_price : ℕ)
      → IsSound pq b
      → gas_price < 2 ^ 128
      → batch_bytes (iter b.batch_state.batch_queue) < usize_mod
      → total (λ x. fee_of x.0) (iter b.batch_state.batch_queue) < u256_mod
      → length (iter b.batch_state.batch_queue) < usize_mod
      → sinks (iter b.batch_state.batch_queue) ≡ true
      → Readies c b block_number gas_price
  extract_batch_if_ready_cases c b block_number gas_price h gas fits small few s =
      let l = limits_of c gas_price in
      let (xs, ex) =
        extract_batch_directly_lem pq b.batch_state.batch_queue l h.distinct gas fits in
      elim (ready_cases c b block_number gas_price) [
        | inl idle ↦ inl (b, idle, h, refl, Perm.rfl)
        | inr (quiet, run) ↦ by_offer quiet run ex.rest (offer (select l xs)) ex.returns
      ]
    where
      by_offer :
          b.posting_batch ≡ false
          → extract_batch_if_ready pq c b block_number gas_price ≡ (
              extract_batch_directly pq b.batch_state.batch_queue (limits_of c gas_price) >>= λ r.
              done (settle pq b r))
          → (rest : Queue) (r : Extracted)
          → extract_batch_directly pq b.batch_state.batch_queue (limits_of c gas_price)
            ≡ done (r, rest)
          → Readies c b block_number gas_price
      by_offer quiet run rest batch_cost_too_high e = inl (
        record (set_queue pq b rest) { posting_batch = false },
        run ∙ ap (λ m. m >>= λ r. done (settle pq b r)) e,
        IsConsistent-perm (left_whole b (limits_of c gas_price) h gas fits e) h,
        sym quiet,
        Perm.symm (left_whole b (limits_of c gas_price) h gas fits e),
      )
      by_offer quiet run rest (batch finalized) e = inr (
        finalized,
        rest,
        run ∙ ap (λ m. m >>= λ r. done (settle pq b r)) e,
        quiet,
        with_batch b (limits_of c gas_price) h gas fits small few s e,
      )
