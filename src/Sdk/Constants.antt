-- ===== src/Sdk/Constants.antt =====
-- crates/sdk/src/common/constants.rs: the constants of the batcher.
use aligned_layer.Prelude.{ℕ, ◌+◌, ◌*◌, ◌/◌}

abbrev pub gas_price_increment_percentage_per_iteration : ℕ
gas_price_increment_percentage_per_iteration = 5

abbrev pub default_aggregator_gas_cost : ℕ
default_aggregator_gas_cost = 330000

abbrev pub batcher_submission_base_gas_cost : ℕ
batcher_submission_base_gas_cost = 125000

abbrev pub additional_submission_gas_cost_per_proof : ℕ
additional_submission_gas_cost_per_proof = 2000

abbrev pub cbor_array_max_overhead : ℕ
cbor_array_max_overhead = 9

abbrev pub respond_to_task_fee_limit_percentage_multiplier : ℕ
respond_to_task_fee_limit_percentage_multiplier = 250

abbrev pub default_aggregator_fee_percentage_multiplier : ℕ
default_aggregator_fee_percentage_multiplier = 125

abbrev pub gas_price_percentage_multiplier : ℕ
gas_price_percentage_multiplier = 110

abbrev pub override_gas_price_percentage_multiplier : ℕ
override_gas_price_percentage_multiplier = 120

abbrev pub percentage_divider : ℕ
percentage_divider = 100

abbrev pub default_constant_gas_cost : ℕ
default_constant_gas_cost =
    default_aggregator_gas_cost * default_aggregator_fee_percentage_multiplier / percentage_divider
    + batcher_submission_base_gas_cost

abbrev pub default_max_fee_per_proof : ℕ
default_max_fee_per_proof = additional_submission_gas_cost_per_proof * 100000000000

abbrev pub instant_max_fee_batch_size : ℕ
instant_max_fee_batch_size = 1

abbrev pub default_max_fee_batch_size : ℕ
default_max_fee_batch_size = 10

abbrev pub ethereum_call_max_retries : ℕ
ethereum_call_max_retries = 5
