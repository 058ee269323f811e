-- ===== src/Sdk/Fees.antt =====
-- crates/sdk/src/verification_layer/mod.rs: the estimate of a fee.
pub mod Bounds
use aligned_layer.Prelude.{
  ℕ, ◌+◌, ◌*◌, ◌/◌, ◌%◌, ◌==◌, if◌then◌else◌, Run, done, panic, ◌>>=◌, u256_mul, u128_mod,
}
use aligned_layer.Sdk.Constants.{
  default_constant_gas_cost, additional_submission_gas_cost_per_proof,
  gas_price_percentage_multiplier, percentage_divider,
}

-- The quotient is that of two `u128`, and division by zero panics.
unfoldable pub calculate_fee_per_proof_with_gas_price : ℕ → ℕ → Run ℕ
calculate_fee_per_proof_with_gas_price num_proofs_in_batch gas_price =
    let added = additional_submission_gas_cost_per_proof * num_proofs_in_batch % u128_mod in
    let gas = (default_constant_gas_cost + added) % u128_mod in
    if num_proofs_in_batch == 0
    then panic
    else u256_mul (gas / num_proofs_in_batch) gas_price >>= λ fee.
        u256_mul fee gas_price_percentage_multiplier >>= λ product.
        done (product / percentage_divider)
