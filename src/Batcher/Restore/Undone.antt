-- ===== src/Batcher/Restore/Undone.antt =====
-- `restore_proofs_after_batch_failure` right after `extract_batch_directly`.
use mathlib.Core.List.Perm
use mathlib.Core.List.{perm_middle, append_assoc, append-nil, perm_append_comm}
use aligned_layer.Prelude.{
  ℕ, ◌+◌, ◌^◌, ◌≤◌, ◌<◌, ◌≡◌, refl, sym, ap, subst, ◌∙◌, true, none, List, [], ◌∷◌, ◌++◌, Perm,
  arith, ◌==◌, done, u256_mod, usize_mod, length, length-append, length-perm, length-map, total,
  total-perm, all, all-perm, and_both, eqb→eq,
}
use aligned_layer.Batcher.Queue.{
  BatchQueue, BatchQueueEntry, BatchQueueEntryPriority, Item, Limits, batch, fee_of, nonce_of,
  priority_of, extract_batch_directly,
}
use aligned_layer.Batcher.Queue.Loops.{batch_bytes, select, reject, reject-append-select}
use aligned_layer.Batcher.Queue.Order.{Drains-perm}
use aligned_layer.Batcher.Queue.Extract.{IsDistinct, copies_rest, push_fresh}
use aligned_layer.Batcher.Queue.Batches.{
  is_priced, IsPriced, entries, offered, offered-offer, extracts_result,
}
use aligned_layer.Batcher.State.{UserStates, is_queue_full, Batcher, Reaction}
use aligned_layer.Batcher.Accounts.{IsConsistent, IsSound, IsConsistent-perm, UserMatches}
use aligned_layer.Batcher.State.{set_queue}
use aligned_layer.Batcher.Posting.{
  calculate_new_user_states_data, update_user_states_from_queue_state,
}
use aligned_layer.Batcher.Posting.Recount.{
  user_data_from_lem, touched, update_user_states_from_queue_state_lem,
}
use aligned_layer.Batcher.Posting.Settled.{settled_user, IsConsistent-left, all_left}
use aligned_layer.Batcher.Restore.{
  senders, Restoring, put_in, restore_one, restore_loop, restore_proofs_after_batch_failure,
}

-- The pairs of the entries.
abbrev items : List BatchQueueEntry → List Item
items [] = []
items (e ∷ es) = (e, priority_of e) ∷ items es

item_of : (x : Item) → is_priced x ≡ true → (x.0, priority_of x.0) ≡ x
item_of (e, p) h =
    let (fee, nonce) = and_both (p.max_fee == fee_of e) (p.nonce == nonce_of e) h in
    ap (λ q. (e, q)) (sym (priority_eq p (priority_of e) (eqb→eq _ _ fee) (eqb→eq _ _ nonce)))
  where
    priority_eq :
        (p q : BatchQueueEntryPriority) → p.max_fee ≡ q.max_fee → p.nonce ≡ q.nonce → p ≡ q
    priority_eq p q f n = cc

items-entries : (xs : List Item) → IsPriced xs → items (entries xs) ≡ xs
items-entries [] h = refl
items-entries (x ∷ xs) h =
    let (p, ps) = and_both (is_priced x) (all is_priced xs) h in
    ap (λ z. z ∷ items (entries xs)) (item_of x p) ∙ ap (λ zs. x ∷ zs) (items-entries xs ps)

module _ (pq : BatchQueue) where
  open pq use {Queue, iter, len, push, len-iter}

  restore_one_room :
      (s : Restoring pq) (e : BatchQueueEntry)
      → length (iter s.batch_state.batch_queue) < s.batch_state.max_size
      → restore_one pq s e ≡ done (put_in pq s e)
  unfolding restore_one is_queue_full
  restore_one_room s e h = ground (arith, len-iter s.batch_state.batch_queue)

  -- Where there is room for all, all come back and nobody is evicted.
  restore_loop_room :
      (s : Restoring pq) (es : List BatchQueueEntry)
      → IsDistinct (items es ++ iter s.batch_state.batch_queue)
      → length (iter s.batch_state.batch_queue) + length es ≤ s.batch_state.max_size
      → (t : Restoring pq) × (restore_loop pq s es ≡ done t)
        × Perm (iter t.batch_state.batch_queue) (items es ++ iter s.batch_state.batch_queue)
        × (t.batch_state.max_size ≡ s.batch_state.max_size)
        × (t.user_states ≡ s.user_states)
        × (t.sent ≡ s.sent)
        × (t.restored_entries ≡ s.restored_entries ++ es)
  unfolding restore_loop
  restore_loop_room s [] d h =
      (s, refl, Perm.rfl, refl, refl, refl, sym (append-nil s.restored_entries))
  restore_loop_room s (e ∷ es) d h =
      let x : Item = (e, priority_of e) in
      let q = s.batch_state.batch_queue in
      let fresh = push_fresh pq q x (copies_rest x (items es) (iter q) (d e)) in
      let moved =
        Perm.trans (Perm.append_left (items es) fresh) (perm_middle (items es) (iter q)) in
      let (t, run, p, m, u, n, r) =
        restore_loop_room (put_in pq s e) es
          (λ i. subst (λ k. k ≤ 1) (sym (total-perm _ moved)) (d i))
          (omega (arith, length-perm fresh)) in
      (
        t,
        rw (restore_one_room s e (omega arith)) run,
        Perm.trans p moved,
        m,
        u,
        n,
        r ∙ append_assoc s.restored_entries (e ∷ []) es,
      )

  -- To recount states that agree with the queue keeps them so.
  update_user_states_from_queue_state-again :
      (q : Queue) (affected : List ℕ) (users : UserStates)
      → total (λ x. fee_of x.0) (iter q) < u256_mod
      → length (iter q) < usize_mod
      → IsConsistent (iter q) users
      → (users' : UserStates) × (update_user_states_from_queue_state pq q affected users
          ≡ done users')
        × IsConsistent (iter q) users'
  unfolding calculate_new_user_states_data
  update_user_states_from_queue_state-again q affected users small few h =
      let (current, run, counts) =
        user_data_from_lem (λ _. none) (iter q) (λ a. omega arith) (λ a. omega arith) in
      let (users', updated, after) =
        update_user_states_from_queue_state_lem pq q current affected users run in
      let books : IsConsistent (iter q ++ []) users =
        subst (λ zs. IsConsistent zs users) (sym (append-nil (iter q))) h in
      (
        users',
        updated,
        IsConsistent-left (iter q) [] users users' books (λ a.
            subst (UserMatches a (iter q)) (sym (after a)) (
              settled_user a (touched a affected) (current a) (users a) (iter q) [] small (counts a)
                (λ _. refl) (books.users_match a))),
      )

  -- If the books agree with the queue, the gas price is below 2 ^ 128, the bytes of the queue
  -- and its length fit a `usize`, its fees add up to less than 2 ^ 256 and it is not longer than
  -- its greatest size, then the restoration right after an extraction that made a batch returns.
  -- It undoes the extraction: the queue holds the items that it held before, the books agree
  -- with it, and nobody is told anything.
  pub restore_proofs_after_batch_failure-IsSound :
      (b : Batcher pq) (l : Limits) {failed : List BatchQueueEntry} {rest : Queue}
      → IsSound pq b
      → l.gas_price < 2 ^ 128
      → batch_bytes (iter b.batch_state.batch_queue) < usize_mod
      → total (λ x. fee_of x.0) (iter b.batch_state.batch_queue) < u256_mod
      → length (iter b.batch_state.batch_queue) < usize_mod
      → length (iter b.batch_state.batch_queue) ≤ b.batch_state.max_size
      → extract_batch_directly pq b.batch_state.batch_queue l ≡ done (batch failed, rest)
      → (r : Reaction pq) × (restore_proofs_after_batch_failure pq (set_queue pq b rest) failed
          ≡ done r)
        × Perm (iter r.state.batch_state.batch_queue) (iter b.batch_state.batch_queue)
        × IsSound pq r.state
        × (r.sent ≡ [])
  unfolding restore_proofs_after_batch_failure
  restore_proofs_after_batch_failure-IsSound b l {failed} {rest} h gas fits small few room e =
      let q = b.batch_state.batch_queue in
      let (xs, d, same, kept) = extracts_result pq q l h.distinct gas fits e in
      let ys = select l xs in
      let whole : Perm (iter q) (ys ++ iter rest) = Perm.trans (Drains-perm pq d) (
        subst (λ zs. Perm zs (ys ++ iter rest)) (reject-append-select l xs)
          (Perm.trans (perm_append_comm (reject l xs) ys)
            (Perm.append_left ys (Perm.symm kept)))) in
      let priced : IsPriced ys =
        all_left is_priced ys (iter rest) (sym (all-perm is_priced whole) ∙ h.priced) in
      let made : entries ys ≡ failed = sym (offered-offer ys) ∙ ap offered same in
      let back : items failed ≡ ys = ap items (sym made) ∙ items-entries ys priced in
      let whole' : Perm (iter q) (items failed ++ iter rest) =
        subst (λ zs. Perm (iter q) (zs ++ iter rest)) (sym back) whole in
      let counted : length failed ≡ length ys = ap length (sym made) ∙ length-map (λ x. x.0) ys in
      let start : Restoring pq = record {
        batch_state = record { batch_queue = rest; max_size = b.batch_state.max_size };
        user_states = b.user_states;
        sent = [];
        restored_entries = [];
      } in
      let (t, run, p, m, u, n, r) =
        restore_loop_room start failed
          (λ i. subst (λ k. k ≤ 1) (total-perm _ whole') (h.distinct i))
          (omega (arith, length-perm whole, length-append ys (iter rest), counted)) in
      let tq = t.batch_state.batch_queue in
      let again : Perm (iter tq) (iter q) = Perm.trans p (Perm.symm whole') in
      let (users, updated, books) =
        update_user_states_from_queue_state-again tq (senders t.restored_entries) t.user_states
          (omega (arith, total-perm (λ (x : Item). fee_of x.0) again))
          (omega (arith, length-perm again))
          (subst (IsConsistent (iter tq)) (sym u) (IsConsistent-perm (Perm.symm again) h)) in
      (
        record {
          state = record b { batch_state = t.batch_state; user_states = users };
          sent = t.sent;
        },
        rw run (rw updated refl),
        again,
        books,
        n,
      )
