-- ===== src/Batcher/Queue/Loops.antt =====
-- The extraction as a function of the order in which the queue is popped: `select` is the batch,
-- `reject` what stays, and each loop of `extract_batch_directly` computes its part of them.
use mathlib.Core.List.{append-nil, append_assoc}
use native.Mathlib.Nat.{div-le_self}
use aligned_layer.Prelude.{
  ℕ, zero, suc, ◌+◌, ◌*◌, ◌/◌, ◌%◌, ◌^◌, ◌≤◌, ◌<◌, ◌≡◌, refl, sym, ap, ◌∙◌, inl, inr, Bool, false,
  ◌||◌, none, some, List, [], ◌∷◌, ◌++◌, map, Perm, arith, ltb, if◌then◌else◌, done, unwrap,
  u128_mod, usize_add, usize_sub, usize_mod, length, total, length-perm, total-perm, Option-cases,
  Bool-cases,
}
use aligned_layer.Sdk.Constants.{additional_submission_gas_cost_per_proof, cbor_array_max_overhead}
use aligned_layer.Batcher.Queue.{
  BatchQueue, BatchQueueEntry, Item, Limits, fee_of, size_of, calculate_fee_per_proof, sizes_from,
  calculate_batch_size, should_remove, reject_one, reject_loop, drain, Loop,
}
use aligned_layer.Batcher.Queue.Order.{Drains, stop, next, Drains-perm}

-- The fee for each proof of a batch of `n`, where nothing overflows.
abbrev pub fee_per_proof : Limits → ℕ → ℕ
fee_per_proof l n =
    (l.constant_gas_cost + additional_submission_gas_cost_per_proof * n % u128_mod)
    % u128_mod
    / n
    * l.gas_price

-- The bytes of the batch of these items, with the overhead of an array.
abbrev pub batch_bytes : List Item → ℕ
batch_bytes xs = cbor_array_max_overhead + total (λ x. size_of x.0) xs

-- The items, the first of which has the lowest fee, are no acceptable batch.
abbrev pub is_refused : Limits → Item → List Item → Bool
is_refused l x xs =
    ltb l.max_batch_byte_size (batch_bytes (x ∷ xs))
    || ltb (fee_of x.0) (fee_per_proof l (length (x ∷ xs)))
    || ltb l.max_batch_proof_qty (length (x ∷ xs))

-- The longest acceptable end of the list.
abbrev pub select : Limits → List Item → List Item
select l [] = []
select l (x ∷ xs) = if is_refused l x xs then select l xs else x ∷ xs

-- What stands before it.
abbrev pub reject : Limits → List Item → List Item
reject l [] = []
reject l (x ∷ xs) = if is_refused l x xs then x ∷ reject l xs else []

pub reject-append-select : (l : Limits) (xs : List Item) → reject l xs ++ select l xs ≡ xs
reject-append-select l [] = refl
reject-append-select l (x ∷ xs) = ground (arith, reject-append-select l xs)

mul_bound : (a b n : ℕ) → a < n → b < n → a * b < n * n
mul_bound a b n h k = grind arith

pub calculate_fee_per_proof_lem :
    (l : Limits) (n : ℕ)
    → 0 < n
    → l.gas_price < 2 ^ 128
    → calculate_fee_per_proof n l.gas_price l.constant_gas_cost ≡ done (fee_per_proof l n)
unfolding calculate_fee_per_proof
calculate_fee_per_proof_lem l n p h =
    let gas : ℕ =
      (l.constant_gas_cost + additional_submission_gas_cost_per_proof * n % u128_mod) % u128_mod in
    ground (arith, mul_bound (gas / n) l.gas_price u128_mod, div-le_self gas n)

sizes_from-eq-total :
    (acc : ℕ) (xs : List Item)
    → acc + total (λ x. size_of x.0) xs < usize_mod
    → sizes_from acc xs ≡ acc + total (λ x. size_of x.0) xs
unfolding sizes_from
sizes_from-eq-total acc [] h = omega arith
sizes_from-eq-total acc (x ∷ xs) h =
    let e : usize_add acc (size_of x.0) ≡ acc + size_of x.0 = omega arith in
    rw e (omega (arith, sizes_from-eq-total (acc + size_of x.0) xs (omega arith)))

module _ (pq : BatchQueue) where
  open pq use {
    Queue, iter, len, push, peek, pop, len-iter, iter-push, pop_none, peek_none, peek_some,
  }

  -- The size is that of the items, up to the overhead of an array.
  pub calculate_batch_size-eq :
      (q : Queue) (xs : List Item)
      → Perm (iter q) xs
      → batch_bytes xs < usize_mod
      → calculate_batch_size pq q ≡ batch_bytes xs
  unfolding calculate_batch_size
  calculate_batch_size-eq q xs p h = omega (
    arith,
    total-perm (λ x. size_of x.0) p,
    sizes_from-eq-total 0 (iter q) (omega (arith, total-perm (λ x. size_of x.0) p)),
  )

  peek-pop : (q : Queue) (x : Item) (rest : Queue) → pop q ≡ some (x, rest) → peek q ≡ some x
  peek-pop q x rest e = elim (Option-cases (peek q)) [
    | inl n ↦ cc (peek_none q n)
    | inr (y, f) ↦ let (r, g) = peek_some q y f in cc
  ]

  pub len-Drains : {q : Queue} {xs : List Item} → Drains pq q xs → len q ≡ length xs
  len-Drains {q} d = len-iter q ∙ length-perm (Drains-perm pq d)

  -- The test of the loop is the one of `select`.
  should_remove-next :
      (l : Limits) (q : Queue) (size : ℕ) (x : Item) (xs : List Item) (rest : Queue)
      → l.gas_price < 2 ^ 128
      → pop q ≡ some (x, rest)
      → Drains pq rest xs
      → size ≡ batch_bytes (x ∷ xs)
      → should_remove pq l q size ≡ done (is_refused l x xs)
  unfolding should_remove
  should_remove-next l q size x xs rest g e d s = ground (
    arith,
    peek-pop q x rest e,
    len-Drains (next e d),
    calculate_fee_per_proof_lem l (length (x ∷ xs)),
  )

  should_remove-stop :
      (l : Limits) (q : Queue) (size : ℕ) → pop q ≡ none → should_remove pq l q size ≡ done false
  unfolding should_remove
  should_remove-stop l q size e = elim (Option-cases (peek q)) [
    | inl n ↦ ground (arith, n)
    | inr (y, f) ↦ let (r, g) = peek_some q y f in cc
  ]

  abbrev at_loop : Queue → ℕ → List Item → Loop pq
  at_loop q size rejected = record { queue = q; batch_size = size; rejected_entries = rejected }

  reject_one-next :
      (q : Queue) (size : ℕ) (rejected : List Item) (x : Item) (rest : Queue)
      → pop q ≡ some (x, rest)
      → reject_one pq (at_loop q size rejected)
        ≡ done (at_loop rest (usize_sub size (size_of x.0)) (rejected ++ x ∷ []))
  unfolding reject_one
  reject_one-next q size rejected x rest e = rw (e, unwrap)

  -- The loop ends with the selected items in the queue, and has put the others aside in order.
  pub reject_loop_lem :
      (fuel : ℕ) (l : Limits) (q : Queue) (size : ℕ) (rejected : List Item) {xs : List Item}
      → l.gas_price < 2 ^ 128
      → Drains pq q xs
      → length xs ≤ fuel
      → size ≡ batch_bytes xs
      → batch_bytes xs < usize_mod
      → (s : Loop pq) × (reject_loop pq fuel l (at_loop q size rejected) ≡ done s)
        × Drains pq s.queue (select l xs)
        × (s.rejected_entries ≡ rejected ++ reject l xs)
  unfolding reject_loop
  reject_loop_lem zero l q size rejected g (stop e) n s b =
      (at_loop q size rejected, refl, stop e, sym (append-nil rejected))
  reject_loop_lem zero l q size rejected g (next e d) n s b = absurd (omega arith)
  reject_loop_lem (suc fuel) l q size rejected g (stop e) n s b = (
    at_loop q size rejected,
    rw (should_remove-stop l q size e),
    stop e,
    sym (append-nil rejected),
  )
  reject_loop_lem (suc fuel) l q size rejected g (next {x = x} {rest = rest} {xs = xs} e d) n s b =
      elim (Bool-cases (is_refused l x xs)) [
        | inl t ↦
            let (s', run, d', kept) =
              reject_loop_lem fuel l rest (usize_sub size (size_of x.0)) (rejected ++ x ∷ []) g d
                (omega arith) (omega arith) (omega arith) in
            (
              s',
              rw
                  (
                    should_remove-next l q size x xs rest g e d s,
                    t,
                    reject_one-next q size rejected x rest e,
                  )
                  run,
              rw t d',
              rw t (kept ∙ append_assoc rejected (x ∷ []) (reject l xs)),
            )
        | inr f ↦ (
          at_loop q size rejected,
          rw (should_remove-next l q size x xs rest g e d s, f),
          rw f (next e d),
          rw f (sym (append-nil rejected)),
        )
      ]

  -- The second loop empties the queue, in the order in which it is popped.
  pub drain_lem :
      (fuel : ℕ) (q : Queue) (posting : List BatchQueueEntry) {xs : List Item}
      → Drains pq q xs
      → length xs ≤ fuel
      → (rest : Queue) × (drain pq fuel q posting ≡ (posting ++ map (λ x. x.0) xs, rest))
        × (iter rest ≡ [])
  unfolding drain
  drain_lem zero q posting (stop e) n = (q, rw append-nil, pop_none q e)
  drain_lem zero q posting (next e d) n = absurd (omega arith)
  drain_lem (suc fuel) q posting (stop e) n = (q, rw (e, drain) (rw append-nil), pop_none q e)
  drain_lem (suc fuel) q posting (next {x = x} {rest = rest} {xs = xs} e d) n =
      let (end, run, none_left) = drain_lem fuel rest (posting ++ x.0 ∷ []) d (omega arith) in
      (
        end,
        rw (e, drain)
            (run ∙ ap (λ l. (l, end)) (append_assoc posting (x.0 ∷ []) (map (λ y. y.0) xs))),
        none_left,
      )
