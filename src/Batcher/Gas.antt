-- ===== src/Batcher/Gas.antt =====
-- crates/batcher/src/eth/utils.rs and the fees of a task in `submit_batch`, lib.rs.
pub mod Bounds
pub mod Estimate
use aligned_layer.Prelude.{
  ℕ, suc, ◌+◌, ◌*◌, ◌/◌, Option, none, some, List, [], ◌∷◌, ltb, if◌then◌else◌, Run, done, panic,
  ◌>>=◌, u256_add, u256_mul, ◌%◌, ◌^◌, ◌==◌, u128_mod,
}
use aligned_layer.Sdk.Constants.{
  override_gas_price_percentage_multiplier, gas_price_increment_percentage_per_iteration,
  percentage_divider, respond_to_task_fee_limit_percentage_multiplier,
  additional_submission_gas_cost_per_proof,
}
use aligned_layer.Batcher.State.{Config, constant_gas_cost}

-- `usize` is added to a `U256`.
unfoldable pub calculate_bumped_gas_price : ℕ → ℕ → ℕ → Run ℕ
calculate_bumped_gas_price previous_gas_price current_gas_price iteration = do
  override_gas_multiplier ←
      u256_add override_gas_price_percentage_multiplier
        (gas_price_increment_percentage_per_iteration * iteration % 2 ^ 64)
  previous ← u256_mul previous_gas_price override_gas_multiplier
  current ← u256_mul current_gas_price override_gas_multiplier
  let bumped_previous_gas_price = previous / percentage_divider
  let bumped_current_gas_price = current / percentage_divider
  done (
      if ltb bumped_current_gas_price bumped_previous_gas_price
      then bumped_previous_gas_price
      else bumped_current_gas_price)

-- `cancel_create_new_task_tx`: the prices of the attempts, given what the node answers at each. An
-- attempt without an answer sends nothing.
unfoldable pub cancel_prices : ℕ → ℕ → List (Option ℕ) → Run (List ℕ)
cancel_prices iteration previous_gas_price [] = done []
cancel_prices iteration previous_gas_price (none ∷ answers) =
    cancel_prices iteration previous_gas_price answers
cancel_prices iteration previous_gas_price (some current_gas_price ∷ answers) = do
  bumped_gas_price ← calculate_bumped_gas_price previous_gas_price current_gas_price iteration
  prices ← cancel_prices (suc iteration) bumped_gas_price answers
  done (bumped_gas_price ∷ prices)

pub record CreateNewTaskFeeParams : Type 0 where
  pub fee_for_aggregator : ℕ
  pub fee_per_proof : ℕ
  pub gas_price : ℕ
  pub respond_to_task_fee_limit : ℕ

-- The fees of a task for a batch of `num_proofs_in_batch`.
unfoldable pub fee_params_of : Config → ℕ → ℕ → Run CreateNewTaskFeeParams
fee_params_of c num_proofs_in_batch gas_price =
    let added = additional_submission_gas_cost_per_proof * num_proofs_in_batch % u128_mod in
    let gas = (constant_gas_cost c + added) % u128_mod in
    if num_proofs_in_batch == 0
    then panic
    else u256_mul (gas / num_proofs_in_batch) gas_price >>= λ fee_per_proof.
        u256_mul c.aggregator_gas_cost gas_price >>= λ aggregator_cost.
        u256_mul aggregator_cost c.aggregator_fee_percentage_multiplier >>= λ product.
        u256_mul (product / percentage_divider) respond_to_task_fee_limit_percentage_multiplier
        >>= λ limit. done (record {
          fee_for_aggregator = product / percentage_divider;
          fee_per_proof = fee_per_proof;
          gas_price = gas_price;
          respond_to_task_fee_limit = limit / percentage_divider;
        })
