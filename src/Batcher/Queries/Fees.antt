-- ===== src/Batcher/Queries/Fees.antt =====
-- The answer to `handle_get_last_max_fee` against the queue.
use aligned_layer.Prelude.{
  ℕ, ◌≡◌, refl, ap, subst, inl, inr, none, some, List, [], ◌∷◌, arith, Option-cases,
}
use aligned_layer.Sdk.Types.{GetLastMaxFeeResponseMessage}
use aligned_layer.Batcher.Queue.{BatchQueue, Item}
use aligned_layer.Batcher.State.{UserStates, Config, Answers, Batcher}
use aligned_layer.Batcher.Accounts.{proofs_of, least_of, or_max, Accounts, UserMatches, IsSound}
use aligned_layer.Batcher.Queries.{asked_address, max_fee_of_user, handle_get_last_max_fee}

pub least_of_nobody : (a : ℕ) (xs : List Item) → proofs_of a xs ≡ 0 → least_of a xs ≡ none
least_of_nobody a [] h = refl
least_of_nobody a (x ∷ xs) h = ground (arith, least_of_nobody a xs)

max_fee_of_user_lem :
    (w : Answers) (users : UserStates) (a n : ℕ) (xs : List Item)
    → UserMatches a xs (users a)
    → max_fee_of_user w users a ≡ GetLastMaxFeeResponseMessage.last_max_fee n
    → n ≡ or_max (least_of a xs)
unfolding max_fee_of_user
max_fee_of_user_lem w users a n xs h e = elim (Option-cases (users a)) [
  | inl missing ↦
      let nobody = least_of_nobody a xs (subst (UserMatches a xs) missing h) in
      ground (arith, missing, ap or_max nobody)
  | inr (user, known) ↦
      let account : Accounts a user xs = subst (UserMatches a xs) known h in
      let limit = account.limit in
      let proofs = account.proofs in
      ground (
        arith,
        known,
        limit,
        proofs,
        λ (z : proofs_of a xs ≡ 0). ap or_max (least_of_nobody a xs z),
      )
]

-- If the books agree with the queue and a fee is answered, then it is the lowest fee of the
-- entries of the user who is asked about, or of the one who pays in the user's place, and the
-- greatest number if there is no entry.
pub handle_get_last_max_fee_lem :
    (pq : BatchQueue) (c : Config) (w : Answers) (b : Batcher pq) (address payer n : ℕ)
    → IsSound pq b
    → asked_address c address ≡ some payer
    → handle_get_last_max_fee c w b.user_states address
      ≡ GetLastMaxFeeResponseMessage.last_max_fee n
    → n ≡ or_max (least_of payer (pq.iter b.batch_state.batch_queue))
unfolding handle_get_last_max_fee
handle_get_last_max_fee_lem pq c w b address payer n h asked e =
    max_fee_of_user_lem w b.user_states payer n _ (h.users_match payer) (
      let read : max_fee_of_user w b.user_states payer
          ≡ GetLastMaxFeeResponseMessage.last_max_fee n =
        ground arith in
      read)
