-- ===== src/Examples/Fetched.antt =====
-- Two batches of one and of two proofs, and what is fetched of them.
use Prim.Native.String.{String}
use aligned_layer.Prelude.{
  ℕ, ◌≡◌, ◌≤◌, refl, none, some, List, [], ◌∷◌, arith, length, done, Result, ok,
}
use aligned_layer.Sdk.Types.{VerificationData, sp1}
use aligned_layer.Aggregation.Fetcher.{NewBatch, new_proof, compatible, fetch_loop, fetch}
use aligned_layer.Aggregation.Fetcher.Limits.{fetch_within_limit, fetch_stuck}
use aligned_layer.Examples.Proved.{keccak256, small_sdk, a_proof}

abbrev some_data : ℕ → VerificationData
some_data n = record {
  proving_system = sp1;
  proof = n ∷ [];
  pub_input = none;
  verification_key = none;
  vm_program_code = some (3 ∷ []);
  proof_generator_addr = 0;
}

abbrev small_batch : NewBatch
small_batch = record { batch_data_pointer = "small"; block_number = some 7 }

abbrev download : List VerificationData → String → Result (List VerificationData) String
download d pointer = ok d

fetch_one :
    fetch keccak256 small_sdk
      (λ elf. elf)
      some
      (λ from to. ok (small_batch ∷ []))
      (download (some_data 5 ∷ []))
      7
      1
      (ok 9)
    ≡ done (ok (a_proof 5 ∷ [], 9))
unfolding fetch fetch_loop compatible new_proof
fetch_one = refl

fetch_within_limit_example : length (a_proof 5 ∷ []) ≤ 1
fetch_within_limit_example =
    fetch_within_limit keccak256 small_sdk (λ elf. elf) some (λ from to. ok (small_batch ∷ []))
      (download (some_data 5 ∷ [])) 7 1 (ok 9) (a_proof 5 ∷ [], 9) fetch_one

two_compatible :
    compatible keccak256 small_sdk (λ elf. elf) some (some_data 5 ∷ some_data 6 ∷ [])
    ≡ a_proof 5 ∷ a_proof 6 ∷ []
unfolding compatible new_proof
two_compatible = refl

fetch_stuck_example :
    fetch keccak256 small_sdk
      (λ elf. elf)
      some
      (λ from to. ok (small_batch ∷ []))
      (download (some_data 5 ∷ some_data 6 ∷ []))
      7
      1
      (ok 9)
    ≡ done (ok ([], 7))
fetch_stuck_example =
    fetch_stuck keccak256 small_sdk (λ elf. elf) some (λ from to. ok (small_batch ∷ []))
      (download (some_data 5 ∷ some_data 6 ∷ [])) 7 1 9 small_batch []
      (some_data 5 ∷ some_data 6 ∷ []) (omega arith) refl refl refl
      (rw two_compatible (omega arith))
