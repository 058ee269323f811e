-- ===== src/Batcher/Submit/Replaced.antt =====
-- The books and the replacement in `handle_replacement_message`.
use mathlib.Core.List.Perm
use aligned_layer.Prelude.{
  ℕ, ◌+◌, ◌≤◌, ◌≡◌, refl, sym, ap, subst, ◌∙◌, Bool, true, not, ◌&&◌, Option, none, some, List, ◌∷◌,
  Perm, arith, ◌==◌, if◌then◌else◌, done, done-injective, >>=-eq-done, u256_add, u256_sub,
  u256_add-eq-done, u256_sub-eq-done, all, all-perm, total-perm, find, find_holds, find-same,
  erase_first, erase_first-perm, and_both, eqb→eq, total-erase_first,
}
use aligned_layer.PriorityQueue.{holds_item}
use aligned_layer.Batcher.Queue.{
  BatchQueue, BatchQueueEntry, Item, fee_of, nonce_of, same_entry, priority_of,
}
use aligned_layer.Batcher.Queue.Extract.{push_fresh, copies, IsDistinct}
use aligned_layer.Batcher.State.{
  UserState, insert_user, Sent, Batcher, BatchState, Reaction, set_queue, entry_of, get_entry,
  replacement_entry_is_valid, get_user_min_fee_in_batch,
}
use aligned_layer.Batcher.Accounts.{
  IsConsistent, IsSound, IsConsistent-perm, get_user_min_fee_in_batch_lem,
}
use aligned_layer.Batcher.Accounts.Grow.{sender_of}
use aligned_layer.Batcher.Accounts.Shift.{undercuts, shifted-IsConsistent}
use aligned_layer.Batcher.Replace.{replace_entry}

entry_of-some :
    (o : Option Item) (entry : BatchQueueEntry)
    → entry_of o ≡ some entry
    → (x : Item) × (o ≡ some x) × (x.0 ≡ entry)
entry_of-some none entry e = cc
entry_of-some (some x) entry e = (x, refl, cc)

pub one_if : (b : Bool) → b ≡ true → ◌≡◌ {A = ℕ} (if b then 1 else 0) 1
one_if b h = rw h

module _ (pq : BatchQueue) where
  open pq use {Queue, iter, push, remove, remove_perm}

  -- The entry that is found is an item of the queue, under the sender and the nonce.
  pub get_entry_lem :
      (s : BatchState pq) (addr nonce : ℕ) (entry : BatchQueueEntry)
      → get_entry pq s addr nonce ≡ some entry
      → (x : Item) × (find (λ y. y.0.sender == addr && nonce_of y.0 == nonce) (iter s.batch_queue)
          ≡ some x)
        × (x.0 ≡ entry)
        × (entry.sender ≡ addr)
        × (nonce_of entry ≡ nonce)
  unfolding get_entry
  get_entry_lem s addr nonce entry e =
      let p : Item → Bool = λ y. y.0.sender == addr && nonce_of y.0 == nonce in
      let (x, found, same) = entry_of-some (find p (iter s.batch_queue)) entry e in
      let holds : p x ≡ true = find_holds p x (iter s.batch_queue) found in
      let (sender, nonces) = and_both (x.0.sender == addr) (nonce_of x.0 == nonce) holds in
      (
        x,
        found,
        same,
        ap sender_of (sym same) ∙ eqb→eq _ _ sender,
        ap nonce_of (sym same) ∙ eqb→eq _ _ nonces,
      )

  -- The old entry at the head, and the queue without it.
  pub replace_queue :
      (q : Queue) (old : Item) (new : BatchQueueEntry)
      → IsDistinct (iter q)
      → find (λ y. y.0.sender == new.sender && nonce_of y.0 == nonce_of new) (iter q) ≡ some old
      → (rest : List Item) × Perm (iter q) (old ∷ rest)
        × Perm (iter (push (remove q new).1 new (priority_of new))) ((new, priority_of new) ∷ rest)
  replace_queue q old new d found =
      let p : Item → Bool = holds_item same_entry new in
      let found' : find p (iter q) ≡ some old =
        find-same p (λ y. y.0.sender == new.sender && nonce_of y.0 == nonce_of new) (iter q)
          (λ y. ground arith)
        ∙ found in
      let rest = erase_first p (iter q) in
      let front = erase_first-perm p old (iter q) found' in
      let gone : copies new rest ≡ 0 = omega (
        arith,
        d new,
        total-erase_first (λ y. if p y then 1 else 0) p old (iter q) found',
        one_if (p old) (find_holds p old (iter q) found'),
      ) in
      (
        rest,
        front,
        Perm.trans
            (push_fresh pq (remove q new).1 (new, priority_of new)
              (total-perm _ (remove_perm q new) ∙ gone))
            (Perm.cons (new, priority_of new) (remove_perm q new)),
      )

  -- What the account becomes.
  pub replace_entry_fields :
      (b : Batcher pq) (user : UserState) (entry new : BatchQueueEntry) (sent : List Sent)
      {r : Reaction pq}
      → replace_entry pq b user entry new sent ≡ done r
      → (user' : UserState) × (r.state.user_states ≡ insert_user new.sender user' b.user_states)
        × (r.state.batch_state.batch_queue
            ≡ push (remove b.batch_state.batch_queue new).1 new (priority_of new))
        × (user'.nonce ≡ user.nonce)
        × (user'.proofs_in_batch ≡ user.proofs_in_batch)
        × (user'.last_max_fee_limit ≡ get_user_min_fee_in_batch pq r.state.batch_state new.sender)
        × (user'.total_fees_in_queue + fee_of entry ≡ user.total_fees_in_queue + fee_of new)
        × (fee_of entry ≤ fee_of new)
  unfolding replace_entry
  replace_entry_fields b user entry new sent {r} e =
      let (difference, sub, e') = >>=-eq-done (u256_sub (fee_of new) (fee_of entry)) _ e in
      let (fees, add, fin) = >>=-eq-done (u256_add user.total_fees_in_queue difference) _ e' in
      let q = done-injective fin in
      let (is_sum, _) = u256_add-eq-done user.total_fees_in_queue difference fees add in
      let (is_difference, le) = u256_sub-eq-done (fee_of new) (fee_of entry) difference sub in
      (
        record user {
          last_max_fee_limit =
              get_user_min_fee_in_batch pq
                (set_queue pq b
                  (push (remove b.batch_state.batch_queue new).1 new (priority_of new))).batch_state
                new.sender;
          total_fees_in_queue = fees;
        },
        ap (λ (x : Reaction pq). x.state.user_states) (sym q),
        ap (λ (x : Reaction pq). x.state.batch_state.batch_queue) (sym q),
        refl,
        refl,
        ap (λ (x : Reaction pq). get_user_min_fee_in_batch pq x.state.batch_state new.sender) q,
        omega arith,
        le,
      )

  -- If the replacement is valid, the books agree with the queue after it.
  pub replace_entry-IsSound :
      (b : Batcher pq) (user : UserState) (addr : ℕ) (entry new : BatchQueueEntry)
      (sent : List Sent) {r : Reaction pq}
      → IsSound pq b
      → b.user_states addr ≡ some user
      → get_entry pq b.batch_state addr (nonce_of new) ≡ some entry
      → new.sender ≡ entry.sender
      → replacement_entry_is_valid pq b.batch_state new ≡ true
      → replace_entry pq b user entry new sent ≡ done r
      → IsSound pq r.state
  unfolding replacement_entry_is_valid
  replace_entry-IsSound b user addr entry new sent {r} h known got s valid e =
      let q = b.batch_state.batch_queue in
      let (user', users, queue, n', p', l', t', le) =
        replace_entry_fields b user entry new sent e in
      let (old, found, same, own, nonces) =
        get_entry_lem b.batch_state addr (nonce_of new) entry got in
      let sender : new.sender ≡ addr = s ∙ own in
      let found' : find (λ y. y.0.sender == new.sender && nonce_of y.0 == nonce_of new) (iter q)
          ≡ some old =
        subst (λ a. find (λ y. y.0.sender == a && nonce_of y.0 == nonce_of new) (iter q) ≡ some old)
          (sym sender) found in
      let (rest, front, ends) = replace_queue q old new h.distinct found' in
      let ends' : Perm (iter r.state.batch_state.batch_queue) ((new, priority_of new) ∷ rest) =
        subst (λ k. Perm (iter k) ((new, priority_of new) ∷ rest)) (sym queue) ends in
      let fee : fee_of old.0 ≡ fee_of entry = ap fee_of same in
      let valid_rest : all (λ x. not (undercuts new x.0)) rest ≡ true =
        (and_both _ _ (sym (all-perm (λ x. not (undercuts new x.0)) front) ∙ valid)).1 in
      subst (IsConsistent (iter r.state.batch_state.batch_queue)) (sym users) (
        IsConsistent-perm (Perm.symm ends') (
          shifted-IsConsistent old new user user' rest b.user_states (IsConsistent-perm front h)
            (ap b.user_states sender ∙ known) (s ∙ ap sender_of (sym same))
            (sym nonces ∙ ap nonce_of (sym same)) (omega arith) valid_rest n'
            (l' ∙ get_user_min_fee_in_batch_lem pq r.state.batch_state new.sender _ ends')
            (omega arith) p'))
