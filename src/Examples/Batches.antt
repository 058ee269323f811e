-- ===== src/Examples/Batches.antt =====
-- Batches from a queue of two proofs, of which one fits.
use mathlib.Core.List.Perm
use mathlib.Core.List.{mem-cons, not-mem-nil}
use mathlib.Core.Logic.Or
use native.Mathlib.Bridge.{le_prop}
use aligned_layer.Prelude.{◌^◌, ◌≤◌, ◌<◌, ◌≡◌, refl, ap, List, [], ◌∷◌, Perm, arith, done, length}
use aligned_layer.Sdk.Types.{cbor_size_upper_bound}
use aligned_layer.Batcher.Queue.{
  Item, batch, nonce_of, fee_of, extract_batch_directly, calculate_fee_per_proof,
  calculate_batch_size, should_remove, reject_one, reject_loop, drain, put_back, finish_extraction,
}
use aligned_layer.Batcher.Queue.ListQueue.{list_queue}
use aligned_layer.Batcher.Queue.Extract.{IsDistinct, Extracts, extract_batch_directly_lem}
use aligned_layer.Batcher.Queue.Batches.{
  IsAcceptable, entries, offered, extract_batch_directly-IsAcceptable, extract_batch_directly-perm,
}
use aligned_layer.Batcher.Queue.Longest.{extract_batch_directly_longest}
use aligned_layer.Batcher.Queue.Nonces.{FeesFall, extract_batch_directly-nonce_order}
use aligned_layer.Batcher.Queue.Loops.{batch_bytes}
use aligned_layer.Examples.Data.{entry, item, one_item, two_items, small_limits}

pub one_item-IsDistinct : IsDistinct one_item
one_item-IsDistinct e = ground arith

two_items-IsDistinct : IsDistinct two_items
two_items-IsDistinct e = ground arith

pub one_item-FeesFall : FeesFall (entries one_item)
one_item-FeesFall x y mx my same less =
    Or.elim le_prop (mem-cons.0 mx)
      (λ ex.
        Or.elim le_prop (mem-cons.0 my)
          (λ ey. absurd (omega (arith, less, ap nonce_of ex, ap nonce_of ey)))
          (λ my'. absurd (not-mem-nil my')))
      (λ mx'. absurd (not-mem-nil mx'))

two_items-FeesFall : FeesFall (entries two_items)
two_items-FeesFall x y mx my same less =
    Or.elim le_prop (mem-cons.0 my) (λ ey. absurd (omega (arith, less, ap nonce_of ey)))
      (λ my'.
        Or.elim le_prop (mem-cons.0 my')
          (λ ey.
            Or.elim le_prop (mem-cons.0 mx) (λ ex. omega (arith, ap fee_of ex, ap fee_of ey))
              (λ mx'.
                Or.elim le_prop (mem-cons.0 mx') (λ ex. omega (arith, ap fee_of ex, ap fee_of ey))
                  (λ mx''. absurd (not-mem-nil mx''))))
          (λ my''. absurd (not-mem-nil my'')))

bytes_fit : batch_bytes two_items < 2 ^ 64
unfolding cbor_size_upper_bound
bytes_fit = omega arith

bytes_fit_batch : batch_bytes two_items ≤ 10000
unfolding cbor_size_upper_bound
bytes_fit_batch = omega arith

-- The entry with the lower fee stays.
extracts_first :
    extract_batch_directly list_queue two_items small_limits
    ≡ done (batch (entry 0 9000 ∷ []), item 1 8000 ∷ [])
unfolding extract_batch_directly reject_loop should_remove calculate_fee_per_proof
    calculate_batch_size reject_one finish_extraction drain put_back cbor_size_upper_bound
extracts_first = refl

extract_batch_directly_lem_example :
    (xs : List Item) × Extracts list_queue two_items small_limits xs
extract_batch_directly_lem_example =
    extract_batch_directly_lem list_queue two_items small_limits two_items-IsDistinct (omega arith)
      bytes_fit

extract_batch_directly-IsAcceptable_example : IsAcceptable small_limits (entry 0 9000 ∷ [])
extract_batch_directly-IsAcceptable_example =
    extract_batch_directly-IsAcceptable list_queue two_items small_limits two_items-IsDistinct
      (omega arith) bytes_fit refl extracts_first

extract_batch_directly-perm_example : Perm (entries two_items) (entry 0 9000 ∷ entry 1 8000 ∷ [])
extract_batch_directly-perm_example =
    extract_batch_directly-perm list_queue two_items small_limits two_items-IsDistinct (omega arith)
      bytes_fit extracts_first

first_entry-IsAcceptable : IsAcceptable small_limits (entry 0 9000 ∷ [])
unfolding cbor_size_upper_bound
first_entry-IsAcceptable = record {
  some_proof = omega arith;
  proof_qty = omega arith;
  byte_size = omega arith;
  pays = refl;
}

extract_batch_directly_longest_example :
    length (entry 0 9000 ∷ []) ≤ length (offered (batch (entry 0 9000 ∷ [])))
extract_batch_directly_longest_example =
    extract_batch_directly_longest list_queue two_items small_limits (entry 0 9000 ∷ [])
      (entry 1 8000 ∷ []) two_items-IsDistinct refl (omega arith) bytes_fit bytes_fit_batch
      (Perm.refl _) first_entry-IsAcceptable extracts_first

extract_batch_directly-nonce_order_example : nonce_of (entry 0 9000) < nonce_of (entry 1 8000)
extract_batch_directly-nonce_order_example =
    extract_batch_directly-nonce_order list_queue two_items small_limits two_items-IsDistinct refl
      two_items-FeesFall (omega arith) bytes_fit extracts_first (entry 1 8000) (entry 0 9000)
      (mem-cons.1 (Or.inl refl)) (mem-cons.1 (Or.inl refl)) refl
